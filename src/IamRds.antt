-- ===== src/IamRds.antt =====
-- provider/aws_iam_auth_rds: a token for a database of RDS, tried on the database before it is
-- written to a file.
pub mod Laws
use hasura_secret_refresh.Base.{ℕ, suc, String, Option, none, some, [], ◌∷◌, ◌++◌, if◌then◌else◌}
use hasura_secret_refresh.Strings.{Text, codes, is_empty}
use hasura_secret_refresh.Value.{Object, ℤ, pos, show_int}
use hasura_secret_refresh.Result.{Result, ok, err, panic, ◌>>=◌, ◌>>◌}
use hasura_secret_refresh.Duration.{Duration, seconds}
use hasura_secret_refresh.Config.{required_str, required_int, optional_str}
use hasura_secret_refresh.Template.{substitute}
use hasura_secret_refresh.Files.{Os}
use hasura_secret_refresh.FileLoop
use hasura_secret_refresh.FileLoop.{World}
use hasura_secret_refresh.Provider.{FileProvider}

pub record AwsIamAuthRdsFile : Type 0 where
  pub region : Text
  pub db_name : Text
  pub db_user : Text
  pub db_host : Text
  pub db_port : ℤ
  pub file_path : Text
  pub refresh_interval : Duration
  pub template : Text

-- utils.go: parseInputConfig leaves the interval at 0.
unfoldable pub parse_input_config : Object → Result AwsIamAuthRdsFile
parse_input_config config = do
  region ← required_str config (codes "region")
  file_path ← required_str config (codes "path")
  db_name ← required_str config (codes "db_name")
  db_user ← required_str config (codes "db_user")
  db_host ← required_str config (codes "db_host")
  db_port ← required_int config (codes "db_port")
  template ← optional_str config (codes "template") (codes "")
  ok (record {
    region = region;
    db_name = db_name;
    db_user = db_user;
    db_host = db_host;
    db_port = db_port;
    file_path = file_path;
    refresh_interval = pos 0;
    template = template;
  })

-- New: every five minutes.
unfoldable pub new_aws_iam_auth_rds_file : Object → Result AwsIamAuthRdsFile
unfolding parse_input_config
new_aws_iam_auth_rds_file config = do
  p ← parse_input_config config
  ok (record p { refresh_interval = seconds (pos 300) })

-- buildDSN
unfoldable pub build_dsn : AwsIamAuthRdsFile → Text → Text
build_dsn p token =
    codes "host="
    ++ (p.db_host
        ++ (codes " port="
            ++ (show_int p.db_port
                ++ (codes " user="
                    ++ (p.db_user
                        ++ (codes " password=" ++ (token ++ (codes " dbname=" ++ p.db_name))))))))

-- The line break and the two tabs in front of each key of the secret.
abbrev pub indent : Text
indent = 10 ∷ 9 ∷ 9 ∷ []

-- One line of that secret, and what follows it.
abbrev line : String → Text → String → Text → Text
line before value after rest = indent ++ (codes before ++ (value ++ (codes after ++ rest)))

-- The JSON object that getSecret builds, as text; nothing in it is escaped.
unfoldable pub secret_json : AwsIamAuthRdsFile → Text → Text
secret_json p token =
    codes "{"
    ++ line "\"db_host\": \"" p.db_host "\"," (
        line "\"db_port\": " (show_int p.db_port) "," (
          line "\"db_name\": \"" p.db_name "\"," (
            line "\"db_user\": \"" p.db_user "\","
              (line "\"password\": \"" token "\"" (10 ∷ codes "}")))))

-- The second half of getSecret.
unfoldable pub templated_token : (Text → Option Object) → AwsIamAuthRdsFile → Text → Text
unfolding secret_json
templated_token unmarshal p token =
    if is_empty p.template then token else substitute unmarshal p.template (secret_json p token)

-- On their n-th calls: `load_config` is config.LoadDefaultConfig, which finds credentials of type
-- `C`, `build_auth_token` is auth.BuildAuthToken on an endpoint, a region and a user, `open_db` and
-- `ping` are sql.Open on a data source name and the Ping of the connection.
module _ {C : Type 0} (unmarshal : Text → Option Object) (os : ℕ → Os) (load_config : ℕ → Result C)
    (build_auth_token : ℕ → Text → Text → Text → C → Result Text)
    (open_db ping : ℕ → Text → Result (Unit {0})) where
  unfoldable pub token_of : AwsIamAuthRdsFile → ℕ → Result Text
  unfolding templated_token
  token_of p n = do
    credentials ← load_config n
    token ←
        build_auth_token n (p.db_host ++ (codes ":" ++ show_int p.db_port)) p.region p.db_user
          credentials
    ok (templated_token unmarshal p token)

  -- The method getSecret.
  unfoldable pub get_secret : AwsIamAuthRdsFile → World → Result Text × World
  unfolding token_of
  get_secret p w = (token_of p w.calls, record w { calls = suc w.calls })

  -- checkDSNConnectivity
  unfoldable pub check_dsn_connectivity : Text → ℕ → Result (Unit {0})
  check_dsn_connectivity dsn n = open_db n dsn >> ping n dsn

  -- getSecret, and the test of what it returned: what Start and Refresh do before they write.
  unfoldable pub checked : AwsIamAuthRdsFile → Result Text → World → Result Text × World
  unfolding check_dsn_connectivity build_dsn
  checked p (ok token) w = (
    check_dsn_connectivity (build_dsn p token) w.calls >> ok token,
    record w { calls = suc w.calls },
  )
  checked p (err e) w = (err e, w)
  checked p (panic s) w = (panic s, w)

  unfoldable pub get_checked_secret : AwsIamAuthRdsFile → World → Result Text × World
  unfolding get_secret checked
  get_checked_secret p w = let (r, w') = get_secret p w in checked p r w'

  unfoldable pub aws_iam_auth_rds_file : AwsIamAuthRdsFile → FileProvider World
  unfolding get_checked_secret FileLoop.refresh FileLoop.iterate FileLoop.prepare
  aws_iam_auth_rds_file p = record {
    prepare = FileLoop.prepare os p.file_path (get_checked_secret p);
    iterate = FileLoop.iterate os p.file_path (get_checked_secret p);
    refresh = FileLoop.refresh os p.file_path (get_checked_secret p);
    file_name = p.file_path;
  }
