-- ===== src/Vault/Client.antt =====
-- provider/hashicorp_vault/auth.go and client.go: making the client of Vault, and logging it in.
use hasura_secret_refresh.Base.{ℕ, ◌*◌, Bool, ◌||◌, not, Option, none, some, ◌++◌, if◌then◌else◌}
use hasura_secret_refresh.Strings.{Text, codes, is_empty}
use hasura_secret_refresh.Value.{ℤ}
use hasura_secret_refresh.Result.{
  Error, new, message, error_text, wrap, wrap_error, Result, ok, err, panic, ◌>>=◌, ◌>>◌,
}
use hasura_secret_refresh.Duration.{second}
use hasura_secret_refresh.Vault.Auth.{VaultConfig}

-- The Auth of a login's answer.
pub record Auth : Type 0 where
  pub renewable : Bool
  pub lease_duration : ℤ

-- An *api.Secret that is not nil: its field Auth, which may be nil.
abbrev pub AuthInfo : Type 0
AuthInfo = Option Auth

-- What the outside answers to one login: os.Stat of the token's file, the making of the Kubernetes
-- auth, and the login itself, which may return nil.
pub record Attempt : Type 0 where
  pub stat : Result (Unit {0})
  pub new_auth : Result (Unit {0})
  pub auth_login : Result (Option AuthInfo)

login_failed : Error → Error
login_failed e = wrap "hashicorp_vault: login failed" e

-- An error made of the text of another one.
relayed {ℓ} : {A : Type ℓ} → (Text → Error) → Result A → Result A
relayed say (ok a) = ok a
relayed say (err e) = err (say (error_text e))
relayed say (panic w) = panic w

info_of : Option AuthInfo → Result AuthInfo
unfolding login_failed
info_of none = err (login_failed (new "no auth info returned"))
info_of (some info) = ok info

-- login
unfoldable pub login : VaultConfig → Attempt → Result AuthInfo
unfolding login_failed relayed info_of
login vc a = do
  there ←
      relayed
        (λ t. login_failed (
          message (
            codes "service account token file not accessible at "
            ++ (vc.jwt_path ++ (codes ": " ++ t)))))
        a.stat
  made ← relayed (λ t. login_failed (message t)) a.new_auth
  answer ← relayed (λ t. login_failed (message t)) a.auth_login
  info_of answer

-- The api.Config of a client: a TLS configuration is set only where one is asked for.
pub record ClientConfig : Type 0 where
  pub address : Text
  pub timeout : ℕ
  pub tls : Option (Text × Bool)

unfoldable pub client_config : VaultConfig → ClientConfig
client_config vc = record {
  address = vc.address;
  timeout = 30 * second;
  tls =
      if not (is_empty vc.ca_cert) || vc.skip_verify
      then some (vc.ca_cert, vc.skip_verify)
      else none;
}

-- `A` is the type of clients; `configure_tls` is ConfigureTLS for a CA file and the insecure flag,
-- `new_client` api.NewClient and `set_namespace` the client's SetNamespace.
module _ {A : Type 0} (configure_tls : Text → Bool → Result (Unit {0}))
    (new_client : ClientConfig → Result A) (set_namespace : Text → A → A) where
  tls_set : Option (Text × Bool) → Result (Unit {0})
  tls_set none = ok tt
  tls_set (some (ca, insecure)) =
      wrap_error "hashicorp_vault: failed to configure TLS" (configure_tls ca insecure)

  unfoldable pub new_vault_client : VaultConfig → Result A
  unfolding client_config tls_set
  new_vault_client vc = do
    tls_set (client_config vc).tls
    client ←
        wrap_error "hashicorp_vault: failed to construct client" (new_client (client_config vc))
    ok (if is_empty vc.namespace then client else set_namespace vc.namespace client)

  -- newAuthenticatedClient: the client, and the answer that its token's lifecycle starts with.
  unfoldable pub new_authenticated_client : VaultConfig → Attempt → Result (A × AuthInfo)
  unfolding new_vault_client login
  new_authenticated_client vc a = do
    client ← new_vault_client vc
    info ← login vc a
    ok (client, info)
