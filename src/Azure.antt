-- ===== src/Azure.antt =====
-- provider/azure_key_vault/file_provider.go: a secret of Azure Key Vault, written to a file.
pub mod Http
pub mod Proxy
use hasura_secret_refresh.Base.{ℕ, suc, ◌≡◌, arith, Option, none}
use hasura_secret_refresh.Strings.{Text, codes}
use hasura_secret_refresh.Value.{Object}
use hasura_secret_refresh.Result.{new, Result, ok, err, ◌>>=◌, ◌>>◌, or_error}
use hasura_secret_refresh.Duration.{Duration, seconds}
use hasura_secret_refresh.Config.{required_or, required_str, required_int, optional_str, one_of_two}
use hasura_secret_refresh.Transform.{SecretTransform}
use hasura_secret_refresh.Transform.Config.{parse_secret_transform}
use hasura_secret_refresh.Files.{Os}
use hasura_secret_refresh.FileLoop
use hasura_secret_refresh.FileLoop.{World, Runtime, render_secret}
use hasura_secret_refresh.Provider.{FileProvider}

-- The client of the Azure SDK is a parameter below.
pub record AzureKeyVaultFile : Type 0 where
  pub refresh_interval : Duration
  pub file_path : Text
  pub secret_name : Text
  pub secret_version : Text
  pub template : Text
  pub secret_transform : SecretTransform

-- `make_client` is the SDK's making of the credential and of the client for a vault's URL.
unfoldable pub create_azure_key_vault_file :
    (Text → Result (Unit {0})) → Object → Result AzureKeyVaultFile
create_azure_key_vault_file make_client config = do
  vault_url ←
      required_or (new "azure_key_vault_file: required config 'vault_url' not found") config
        (codes "vault_url")
  file_path ← required_str config (codes "path")
  secret_name ← required_str config (codes "secret_name")
  interval ← required_int config (codes "refresh")
  version ← optional_str config (codes "secret_version") (codes "")
  template ← optional_str config (codes "template") (codes "")
  st ← parse_secret_transform config
  one_of_two template st
  make_client vault_url
  ok (record {
    refresh_interval = seconds interval;
    file_path = file_path;
    secret_name = secret_name;
    secret_version = version;
    template = template;
    secret_transform = st;
  })

-- `read_secret` is the client's GetSecret on its n-th call, by name and version: the field Value,
-- which may be nil.
module _ (rt : Runtime) (os : ℕ → Os) (read_secret : ℕ → Text → Text → Result (Option Text)) where
  unfoldable pub get_secret : AzureKeyVaultFile → World → Result Text × World
  get_secret p w = (
    read_secret w.calls p.secret_name p.secret_version >>= λ value.
        or_error value (new "secret value is nil")
        >>= render_secret rt p.secret_transform p.template,
    record w { calls = suc w.calls },
  )

  unfoldable pub azure_key_vault_file : AzureKeyVaultFile → FileProvider World
  unfolding get_secret FileLoop.refresh FileLoop.iterate FileLoop.prepare
  azure_key_vault_file p = record {
    prepare = FileLoop.prepare os p.file_path (get_secret p);
    iterate = FileLoop.iterate os p.file_path (get_secret p);
    refresh = FileLoop.refresh os p.file_path (get_secret p);
    file_name = p.file_path;
  }

  -- A secret without a value is an error of Refresh, which Start only waits after; the file keeps
  -- what it holds.
  pub refresh-no_value :
      (p : AzureKeyVaultFile) (w : World)
      → read_secret w.calls p.secret_name p.secret_version ≡ ok none
      → ((azure_key_vault_file p).refresh w
          ≡ (err (new "secret value is nil"), record w { calls = suc w.calls }))
        × ((azure_key_vault_file p).iterate w ≡ (ok tt, record w { calls = suc w.calls }))
  unfolding azure_key_vault_file
  refresh-no_value p w e = ground (arith, e)
