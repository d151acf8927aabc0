-- ===== src/Tests/Iam.antt =====
-- A token of RDS that the database accepts.
use hasura_secret_refresh.Base.{ℕ, ◌≡◌, refl, some, none, true, Option, [], ◌∷◌, ◌++◌}
use hasura_secret_refresh.Strings.{Text, codes, str_eq}
use hasura_secret_refresh.Assoc.{lookup, insert}
use hasura_secret_refresh.Value.{Object, pos}
use hasura_secret_refresh.Result.{Result, ok}
use hasura_secret_refresh.Duration.{seconds}
use hasura_secret_refresh.Files.{Os, written, secret_file_mode, write_secret_file}
use hasura_secret_refresh.FileLoop
use hasura_secret_refresh.FileLoop.{World}
use hasura_secret_refresh.IamRds.{AwsIamAuthRdsFile, aws_iam_auth_rds_file}
use hasura_secret_refresh.IamRds.Laws.{IsTried, aws_iam_auth_rds-refresh_ok}

abbrev unmarshal : Text → Option Object
unmarshal t = none

abbrev os : ℕ → Os
os n = record { write_fate = written; chmod_works = true; masked = λ m. m }

abbrev load_config : ℕ → Result Text
load_config n = ok (codes "key")

abbrev build_auth_token : ℕ → Text → Text → Text → Text → Result Text
build_auth_token n endpoint region user credentials = ok (user ++ credentials)

abbrev answers : ℕ → Text → Result (Unit {0})
answers n dsn = ok tt

abbrev p : AwsIamAuthRdsFile
p = record {
  region = codes "eu";
  db_name = codes "d";
  db_user = codes "u";
  db_host = codes "h";
  db_port = pos 5432;
  file_path = codes "/t";
  refresh_interval = seconds (pos 300);
  template = [];
}

abbrev before : World
before = record { disk = []; calls = 0 }

abbrev after : World
after = record {
  disk = (codes "/t", record { contents = codes "ukey"; mode = secret_file_mode }) ∷ [];
  calls = 3;
}

refreshes :
    (aws_iam_auth_rds_file unmarshal os load_config build_auth_token answers answers p).refresh
      before
    ≡ (ok tt, after)
unfolding aws_iam_auth_rds_file FileLoop.refresh FileLoop.write_file FileLoop.write_if_ok
    write_secret_file lookup insert str_eq
refreshes = refl

aws_iam_auth_rds-refresh_ok_example :
    (secret : Text) × IsTried unmarshal os load_config build_auth_token answers answers p
      before.calls secret
    × (lookup (codes "/t") after.disk
        ≡ some (record { contents = secret; mode = secret_file_mode }))
aws_iam_auth_rds-refresh_ok_example =
    aws_iam_auth_rds-refresh_ok unmarshal os load_config build_auth_token answers answers p before
      after refreshes
