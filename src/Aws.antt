-- ===== src/Aws.antt =====
-- provider/aws_secrets_manager: the file provider, and the proxy's provider in Http.
pub mod Http
pub mod Proxy
use hasura_secret_refresh.Base.{ℕ, suc, ◌≡◌, arith, Option, none, some}
use hasura_secret_refresh.Strings.{Text, codes}
use hasura_secret_refresh.Value.{Object}
use hasura_secret_refresh.Result.{Result, ok, err, panic, ◌>>=◌, ◌>>◌}
use hasura_secret_refresh.Duration.{Duration, seconds}
use hasura_secret_refresh.Config.{required_str, required_int, optional_str, one_of_two}
use hasura_secret_refresh.Transform.{SecretTransform}
use hasura_secret_refresh.Transform.Config.{parse_secret_transform}
use hasura_secret_refresh.Files.{Os}
use hasura_secret_refresh.FileLoop
use hasura_secret_refresh.FileLoop.{World, Runtime, render_secret}
use hasura_secret_refresh.Provider.{FileProvider}

-- The region goes into the client of the AWS SDK, a parameter below.
pub record AwsSecretsManagerFile : Type 0 where
  pub refresh_interval : Duration
  pub region : Text
  pub file_path : Text
  pub secret_id : Text
  pub template : Text
  pub secret_transform : SecretTransform

-- secretsmanager.New on what session.NewSession returned: its error is only printed, and the session
-- is nil then.
new_client : Result (Unit {0}) → Result (Unit {0})
new_client (err e) = panic "invalid memory address or nil pointer dereference"
new_client r = r

-- `new_session` is what session.NewSession returns.
unfoldable pub create_aws_secrets_manager_file :
    Result (Unit {0}) → Object → Result AwsSecretsManagerFile
unfolding new_client
create_aws_secrets_manager_file new_session config = do
  region ← required_str config (codes "region")
  file_path ← required_str config (codes "path")
  secret_id ← required_str config (codes "secret_id")
  interval ← required_int config (codes "refresh")
  new_client new_session
  template ← optional_str config (codes "template") (codes "")
  st ← parse_secret_transform config
  one_of_two template st
  ok (record {
    refresh_interval = seconds interval;
    region = region;
    file_path = file_path;
    secret_id = secret_id;
    template = template;
    secret_transform = st;
  })

-- `*res.SecretString`: the field is nil for a binary secret.
unfoldable pub deref : Option Text → Result Text
deref none = panic "invalid memory address or nil pointer dereference"
deref (some s) = ok s

-- `get_secret_value` is the client's GetSecretValue on its n-th call: the field SecretString.
module _ (rt : Runtime) (os : ℕ → Os) (get_secret_value : ℕ → Text → Result (Option Text)) where
  unfoldable pub get_secret : AwsSecretsManagerFile → World → Result Text × World
  unfolding deref
  get_secret p w = (
    get_secret_value w.calls p.secret_id >>= λ res.
        deref res >>= render_secret rt p.secret_transform p.template,
    record w { calls = suc w.calls },
  )

  unfoldable pub aws_secrets_manager_file : AwsSecretsManagerFile → FileProvider World
  unfolding get_secret FileLoop.refresh FileLoop.iterate FileLoop.prepare
  aws_secrets_manager_file p = record {
    prepare = FileLoop.prepare os p.file_path (get_secret p);
    iterate = FileLoop.iterate os p.file_path (get_secret p);
    refresh = FileLoop.refresh os p.file_path (get_secret p);
    file_name = p.file_path;
  }

  -- A binary secret ends the goroutine, or the handler of the refresh request, by a panic: nothing is
  -- written.
  pub refresh-binary :
      (p : AwsSecretsManagerFile) (w : World)
      → get_secret_value w.calls p.secret_id ≡ ok none
      → ((aws_secrets_manager_file p).refresh w ≡ (
        panic "invalid memory address or nil pointer dereference",
        record w { calls = suc w.calls },
      ))
        × ((aws_secrets_manager_file p).iterate w ≡ (
          panic "invalid memory address or nil pointer dereference",
          record w { calls = suc w.calls },
        ))
  unfolding aws_secrets_manager_file
  refresh-binary p w e = ground (arith, e)
