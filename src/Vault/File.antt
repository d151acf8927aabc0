-- ===== src/Vault/File.antt =====
-- provider/hashicorp_vault/file_provider.go: a secret of Vault, written to a file.
use hasura_secret_refresh.Base.{ℕ, suc, Option, none, some, [], ◌∷◌, ◌++◌}
use hasura_secret_refresh.Strings.{Text, codes}
use hasura_secret_refresh.Value.{Value, Object, int, str, show_int}
use hasura_secret_refresh.Assoc.{lookup}
use hasura_secret_refresh.Result.{message, error_text, Result, ok, err, panic, ◌>>=◌, ◌>>◌}
use hasura_secret_refresh.Duration.{Duration, seconds}
use hasura_secret_refresh.Config.{not_valid, required_str, required_int, optional_str, one_of_two}
use hasura_secret_refresh.Transform.{SecretTransform}
use hasura_secret_refresh.Transform.Config.{parse_secret_transform}
use hasura_secret_refresh.Files.{Os}
use hasura_secret_refresh.FileLoop
use hasura_secret_refresh.FileLoop.{World, Runtime, render_secret}
use hasura_secret_refresh.Provider.{FileProvider}
use hasura_secret_refresh.Vault.{Response, default_mount, extract_field, read_kvv2}
use hasura_secret_refresh.Vault.Auth.{VaultConfig, parse_vault_config}

-- The client of Vault is a parameter below.
pub record HashicorpVaultFile : Type 0 where
  pub refresh_interval : Duration
  pub file_path : Text
  pub mount : Text
  pub path : Text
  pub version : Text
  pub field : Text
  pub template : Text
  pub secret_transform : SecretTransform

-- "config not valid: %v" around the errors of parseVaultConfig.
vault_config : Result VaultConfig → Result VaultConfig
vault_config (ok vc) = ok vc
vault_config (err e) = err (message (codes "config not valid: " ++ error_text e))
vault_config (panic w) = panic w

-- A version is a string, or an integer, which is printed.
version_of : Option Value → Result Text
version_of none = ok []
version_of (some (str s)) = ok s
version_of (some (int i)) = ok (show_int i)
version_of (some v) = err not_valid

abbrev mount_or_default : Text → Text
mount_or_default [] = default_mount
mount_or_default (c ∷ s) = c ∷ s

-- `make_client` is newAuthenticatedClient: the client made and logged in.
unfoldable pub create_hashicorp_vault_file :
    (VaultConfig → Result (Unit {0})) → Object → Result HashicorpVaultFile
unfolding version_of vault_config
create_hashicorp_vault_file make_client config = do
  vc ← vault_config (parse_vault_config config)
  file_path ← required_str config (codes "path_on_disk")
  path ← required_str config (codes "path")
  mount ← optional_str config (codes "mount") (codes "")
  interval ← required_int config (codes "refresh")
  version ← version_of (lookup (codes "version") config)
  field ← optional_str config (codes "field") (codes "")
  template ← optional_str config (codes "template") (codes "")
  st ← parse_secret_transform config
  one_of_two template st
  make_client vc
  ok (record {
    refresh_interval = seconds interval;
    file_path = file_path;
    mount = mount_or_default mount;
    path = path;
    version = version;
    field = field;
    template = template;
    secret_transform = st;
  })

-- `read` is the client's read of a path, at a version if one is given, on its n-th call.
module _ (rt : Runtime) (os : ℕ → Os) (read : ℕ → Text → Option Text → Response) where
  abbrev pub counted : Text → Option Text → ℕ → Response × ℕ
  counted path version n = (read n path version, suc n)

  unfoldable pub get_secret : HashicorpVaultFile → World → Result Text × World
  get_secret p w =
      let (r, n) = read_kvv2 counted p.mount p.path p.version w.calls in
      (
        r >>= λ secret.
            extract_field rt.codec secret p.field
            >>= render_secret rt p.secret_transform p.template,
        record w { calls = n },
      )

  unfoldable pub hashicorp_vault_file : HashicorpVaultFile → FileProvider World
  unfolding get_secret FileLoop.refresh FileLoop.iterate FileLoop.prepare
  hashicorp_vault_file p = record {
    prepare = FileLoop.prepare os p.file_path (get_secret p);
    iterate = FileLoop.iterate os p.file_path (get_secret p);
    refresh = FileLoop.refresh os p.file_path (get_secret p);
    file_name = p.file_path;
  }
