-- ===== src/Vault/Auth.antt =====
-- provider/hashicorp_vault/auth.go: the configuration of the connection to Vault.
use hasura_secret_refresh.Base.{
  ℕ, Bool, false, Option, none, some, [], ◌∷◌, ◌++◌, if◌then◌else◌, String, ◌≡◌, ◌≢◌, arith, sym,
  ◌∙◌,
}
use hasura_secret_refresh.Strings.{Text, codes, str_eq}
use hasura_secret_refresh.Strings.Laws.{str_eq_iff}
use hasura_secret_refresh.Assoc.{lookup}
use hasura_secret_refresh.Value.{Value, Object, as_str, as_bool, as_object, str}
use hasura_secret_refresh.Result.{
  Error, new, message, wrap, Result, ok, err, ◌>>=◌, or_error, >>=-eq-ok,
}

abbrev pub auth_method_k8s : Text
auth_method_k8s = codes "kubernetes"

abbrev pub default_mount_path : Text
default_mount_path = codes "kubernetes"

abbrev pub default_jwt_path : Text
default_jwt_path = codes "/var/run/secrets/kubernetes.io/serviceaccount/token"

pub record VaultConfig : Type 0 where
  pub address : Text
  pub namespace : Text
  pub ca_cert : Text
  pub skip_verify : Bool
  pub auth_role : Text
  pub auth_method : Text
  pub mount_path : Text
  pub jwt_path : Text

-- fmt.Errorf with ErrAuthConfig in front.
abbrev auth_error : Error → Error
auth_error e = wrap "hashicorp_vault: invalid auth configuration" e

-- An optional key with a type; `read` is the type's assertion.
optional {ℓ} : {A : Type ℓ} → (Value → Option A) → A → String → Option Value → Result A
optional read default wrong none = ok default
optional read default wrong (some v) = or_error (read v) (auth_error (new wrong))

required {ℓ} : {A : Type ℓ} → (Value → Option A) → String → String → Option Value → Result A
required read missing wrong none = err (auth_error (new missing))
required read missing wrong (some v) = or_error (read v) (auth_error (new wrong))

-- An empty text leaves the default.
abbrev or_default : Text → Text → Text
or_default [] default = default
or_default (c ∷ s) default = c ∷ s

abbrev wrong_method : Text → Error
wrong_method method = auth_error (
    message (
      codes "only auth method '"
      ++ (auth_method_k8s ++ (codes "' is supported, got '" ++ (method ++ codes "'")))))

check_method : Option Value → Result Text
unfolding optional
check_method v = do
  method ← optional as_str auth_method_k8s "'auth.method' must be a string" v
  if str_eq method auth_method_k8s then ok method else err (wrong_method method)

-- The map under `tls`: the certificate, and whether the server's is not verified.
parse_tls : Option Value → Result (Text × Bool)
unfolding optional
parse_tls none = ok ([], false)
parse_tls (some v) = do
  tls ← or_error (as_object v) (auth_error (new "'tls' must be a map"))
  ca ← optional as_str [] "'tls.ca_cert' must be a string" (lookup (codes "ca_cert") tls)
  skip ←
      optional as_bool false "'tls.skip_verify' must be a bool" (lookup (codes "skip_verify") tls)
  ok (ca, skip)

-- parseVaultConfig
unfoldable pub parse_vault_config : Object → Result VaultConfig
unfolding optional required parse_tls check_method
parse_vault_config config = do
  address ←
      required as_str "required config 'vault_addr' not found" "'vault_addr' must be a string"
        (lookup (codes "vault_addr") config)
  namespace ← optional as_str [] "'namespace' must be a string" (lookup (codes "namespace") config)
  tls ← parse_tls (lookup (codes "tls") config)
  auth ←
      required as_object "required config 'auth' not found" "'auth' must be a map"
        (lookup (codes "auth") config)
  method ← check_method (lookup (codes "method") auth)
  role ←
      required as_str "required config 'auth.role' not found" "'auth.role' must be a string"
        (lookup (codes "role") auth)
  mount_path ←
      optional as_str [] "'auth.mount_path' must be a string" (lookup (codes "mount_path") auth)
  jwt_path ← optional as_str [] "'auth.jwt_path' must be a string" (lookup (codes "jwt_path") auth)
  ok (record {
    address = address;
    namespace = namespace;
    ca_cert = tls.0;
    skip_verify = tls.1;
    auth_role = role;
    auth_method = method;
    mount_path = or_default mount_path default_mount_path;
    jwt_path = or_default jwt_path default_jwt_path;
  })

check_method_sound :
    (v : Option Value) (method : Text) → check_method v ≡ ok method → method ≡ auth_method_k8s
unfolding check_method
check_method_sound none method e = ground arith
check_method_sound (some v) method e = grind (arith, str_eq_iff)

required_str_found :
    (v : Option Value) (s : Text) (missing wrong : String)
    → required as_str missing wrong v ≡ ok s
    → v ≡ some (str s)
unfolding required
required_str_found none s missing wrong e = cc
required_str_found (some v) s missing wrong e = ground arith

or_default-ne-nil : (s : Text) (c : ℕ) (default : Text) → or_default s (c ∷ default) ≢ []
or_default-ne-nil [] c default e = cc
or_default-ne-nil (d ∷ s) c default e = cc

-- A configuration that is accepted gives the address that it holds, the method kubernetes, and
-- paths that are not empty for the mount and for the service account's token.
pub parse_vault_config_sound :
    (config : Object) (vc : VaultConfig)
    → parse_vault_config config ≡ ok vc
    → (lookup (codes "vault_addr") config ≡ some (str vc.address))
      × (vc.auth_method ≡ auth_method_k8s)
      × (vc.mount_path ≢ [])
      × (vc.jwt_path ≢ [])
unfolding parse_vault_config
parse_vault_config_sound config vc e =
    let (address, e1, f1) =
      >>=-eq-ok
        (required as_str "required config 'vault_addr' not found" "'vault_addr' must be a string"
          (lookup (codes "vault_addr") config))
        _ e in
    let (namespace, e2, f2) =
      >>=-eq-ok
        (optional as_str [] "'namespace' must be a string" (lookup (codes "namespace") config)) _
        f1 in
    let (tls, e3, f3) = >>=-eq-ok (parse_tls (lookup (codes "tls") config)) _ f2 in
    let (auth, e4, f4) =
      >>=-eq-ok
        (required as_object "required config 'auth' not found" "'auth' must be a map"
          (lookup (codes "auth") config))
        _ f3 in
    let (method, e5, f5) = >>=-eq-ok (check_method (lookup (codes "method") auth)) _ f4 in
    let (role, e6, f6) =
      >>=-eq-ok
        (required as_str "required config 'auth.role' not found" "'auth.role' must be a string"
          (lookup (codes "role") auth))
        _ f5 in
    let (mount, e7, f7) =
      >>=-eq-ok
        (optional as_str [] "'auth.mount_path' must be a string" (lookup (codes "mount_path") auth))
        _ f6 in
    let (jwt, e8, f8) =
      >>=-eq-ok
        (optional as_str [] "'auth.jwt_path' must be a string" (lookup (codes "jwt_path") auth)) _
        f7 in
    let at : address ≡ vc.address = ground (arith, f8) in
    let by : method ≡ vc.auth_method = ground (arith, f8) in
    let mounted : or_default mount default_mount_path ≡ vc.mount_path = ground (arith, f8) in
    let token : or_default jwt default_jwt_path ≡ vc.jwt_path = ground (arith, f8) in
    (
      required_str_found (lookup (codes "vault_addr") config) vc.address _ _ (rw at at e1),
      sym by ∙ check_method_sound (lookup (codes "method") auth) method e5,
      rw (← mounted) (or_default-ne-nil mount _ _),
      rw (← token) (or_default-ne-nil jwt _ _),
    )
