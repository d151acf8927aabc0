-- ===== src/Tests/Init.antt =====
-- An init container with two file providers, from its configuration to its files.
use hasura_secret_refresh.Base.{◌≡◌, refl, true, none, some, [], ◌∷◌, ◌++◌, arith}
use hasura_secret_refresh.Strings.{Text, codes, str_eq}
use hasura_secret_refresh.Assoc.{lookup, insert}
use hasura_secret_refresh.Value.{Object, str, int, obj, field, end, pos, as_object, entries}
use hasura_secret_refresh.Result.{Result, ok, err, new}
use hasura_secret_refresh.Duration.{seconds}
use hasura_secret_refresh.Config.{required_str, required_int, optional_str, one_of_two}
use hasura_secret_refresh.Transform.{keep_all, new_secret_transform}
use hasura_secret_refresh.Transform.Config.{parse_secret_transform}
use hasura_secret_refresh.Files.{written, secret_file_mode, write_secret_file}
use hasura_secret_refresh.FileLoop as FileLoop
use hasura_secret_refresh.FileLoop.{World, render_secret}
use hasura_secret_refresh.Main.Own.{Outside}
use hasura_secret_refresh.Provider.{HttpProvider}
use hasura_secret_refresh.FileJson.{
  FileJsonProvider, create_file_json_provider, file_json, read_file,
}
use hasura_secret_refresh.Aws.{
  AwsSecretsManagerFile, create_aws_secrets_manager_file, aws_secrets_manager_file,
}
use hasura_secret_refresh.Main.{
  Config, init_container, parse_config, run_init, typed, make, parse_entry,
}
use hasura_secret_refresh.Main.Files.{AllDiffer, AllHold}
use hasura_secret_refresh.Main.Start.{exited, start, deploy}
use hasura_secret_refresh.Main.Assembly.{ProxyMakers, assembled}
use hasura_secret_refresh.Main.Init.{start-AllHold}
use hasura_secret_refresh.Tests.Data.{codec, lower, in_order}

abbrev pub outside : Outside Text
outside = record {
  rt = record { codec = codec; lower = lower; orders = in_order };
  os = λ n. record { write_fate = written; chmod_works = true; masked = λ m. m };
  read_fault = λ n. none;
  new_session = ok tt;
  get_secret_value = λ n name. ok (some (name ++ codes "!"));
  new_azure_client = λ url. ok tt;
  read_secret = λ n name version. ok none;
  new_vault_client = λ vc. ok tt;
  read_vault = λ n path version. ok none;
  load_config = λ n. ok (codes "key");
  build_auth_token = λ n endpoint region user credentials. ok user;
  open_db = λ n dsn. ok tt;
  ping = λ n dsn. ok tt;
}

abbrev no_proxy : Object → Result (HttpProvider World)
no_proxy config = err (new "none")

abbrev proxies : ProxyMakers
proxies = record {
  aws_secrets_manager = no_proxy;
  aws_sm_oauth = no_proxy;
  azure_key_vault = no_proxy;
  hashicorp_vault = no_proxy;
}

abbrev conf : Object
conf =
    (codes "type", str (codes "initcontainer"))
    ∷ (
      codes "a",
      obj (
          field (codes "type") (str (codes "file_json")) (
            field (codes "input_path") (str (codes "/in")) (
              field (codes "path") (str (codes "/a"))
                (field (codes "refresh") (int (pos 60)) end)))),
    )
    ∷ (
      codes "b",
      obj (
          field (codes "type") (str (codes "file_aws_secrets_manager")) (
            field (codes "region") (str (codes "eu")) (
              field (codes "path") (str (codes "/b")) (
                field (codes "secret_id") (str (codes "db"))
                  (field (codes "refresh") (int (pos 60)) end))))),
    )
    ∷ []

abbrev before : World
before = record {
  disk = (codes "/in", record { contents = codes "x1"; mode = 0o600 }) ∷ [];
  calls = 0;
}

abbrev after : World
after = record {
  disk =
      (codes "/in", record { contents = codes "x1"; mode = 0o600 })
      ∷ (codes "/a", record { contents = codes "x1"; mode = secret_file_mode })
      ∷ (codes "/b", record { contents = codes "db!"; mode = secret_file_mode })
      ∷ [];
  calls = 4;
}

abbrev json_provider : FileJsonProvider
json_provider = record {
  refresh_interval = seconds (pos 60);
  input_path = codes "/in";
  file_path = codes "/a";
  template = [];
  secret_transform = record { mappings = []; mode = keep_all };
}

abbrev pub aws_provider : AwsSecretsManagerFile
aws_provider = record {
  refresh_interval = seconds (pos 60);
  region = codes "eu";
  file_path = codes "/b";
  secret_id = codes "db";
  template = [];
  secret_transform = record { mappings = []; mode = keep_all };
}

abbrev config : Config World
config = record {
  providers = [];
  file_providers =
      file_json outside.rt outside.os outside.read_fault json_provider
      ∷ aws_secrets_manager_file outside.rt outside.os outside.get_secret_value aws_provider
      ∷ [];
  deployment_type = init_container;
}

parsed : parse_config (assembled outside proxies) conf ≡ ok config
unfolding parse_config typed make assembled lookup str_eq as_object entries
    create_file_json_provider create_aws_secrets_manager_file required_str required_int optional_str
    one_of_two parse_secret_transform new_secret_transform parse_entry
parsed = refl

files-AllDiffer : AllDiffer config.file_providers
unfolding file_json aws_secrets_manager_file
files-AllDiffer = ((ground arith, tt), (tt, tt))

handle : Text → Result (Unit {0})
handle endpoint = ok tt

deployed : deploy handle config none before ≡ exited 0 after
unfolding deploy run_init file_json aws_secrets_manager_file read_file render_secret
    FileLoop.refresh FileLoop.write_file FileLoop.write_if_ok write_secret_file lookup insert str_eq
deployed = refl

exits : start handle (assembled outside proxies) conf (codes "") before ≡ exited 0 after
unfolding start lookup str_eq
exits = rw (start, parsed) deployed

start-AllHold_example : AllHold outside config.file_providers before after
start-AllHold_example =
    start-AllHold outside proxies handle conf (codes "") config before after parsed refl
      files-AllDiffer exits
