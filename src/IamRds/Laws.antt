-- ===== src/IamRds/Laws.antt =====
-- What a refresh of the token leaves in the file.
use hasura_secret_refresh.Base.{ℕ, suc, ◌≡◌, refl, ◌++◌, Option, some, arith, inl, inr}
use hasura_secret_refresh.Strings.{Text, codes}
use hasura_secret_refresh.Assoc.{lookup}
use hasura_secret_refresh.Value.{Object, show_int}
use hasura_secret_refresh.Result.{Result, ok, err, panic, Result-cases, >>=-eq-ok}
use hasura_secret_refresh.Files.{Os, secret_file_mode}
use hasura_secret_refresh.FileLoop.{World}
use hasura_secret_refresh.FileLoop.Laws.{refresh-ok}
use hasura_secret_refresh.IamRds.{
  AwsIamAuthRdsFile, build_dsn, templated_token, token_of, check_dsn_connectivity, checked,
  get_secret, get_checked_secret, aws_iam_auth_rds_file,
}

module _ {C : Type 0} (unmarshal : Text → Option Object) (os : ℕ → Os) (load_config : ℕ → Result C)
    (build_auth_token : ℕ → Text → Text → Text → C → Result Text)
    (open_db ping : ℕ → Text → Result (Unit {0})) where
  -- What stands behind a secret that may be written, after `call` calls of the world outside: AWS
  -- built a token of it then, and the database answered next to the data source name with the secret
  -- as its password.
  pub record IsTried (p : AwsIamAuthRdsFile) (call : ℕ) (secret : Text) : Type 0 where
    pub credentials : C
    pub token : Text
    pub loaded : load_config call ≡ ok credentials
    pub built :
        build_auth_token call
          (p.db_host ++ (codes ":" ++ show_int p.db_port))
          p.region
          p.db_user
          credentials
        ≡ ok token
    pub rendered : secret ≡ templated_token unmarshal p token
    pub opened : open_db (suc call) (build_dsn p secret) ≡ ok tt
    pub answered : ping (suc call) (build_dsn p secret) ≡ ok tt

  token_of_sound :
      (p : AwsIamAuthRdsFile) (n : ℕ) (secret : Text)
      → token_of unmarshal os load_config build_auth_token open_db ping p n ≡ ok secret
      → (c : C) × (token : Text) × (load_config n ≡ ok c)
        × (build_auth_token n (p.db_host ++ (codes ":" ++ show_int p.db_port)) p.region p.db_user c
            ≡ ok token)
        × (secret ≡ templated_token unmarshal p token)
  unfolding token_of
  token_of_sound p n secret e =
      let (c, e1, e2) = >>=-eq-ok (load_config n) _ e in
      let (token, e3, e4) =
        >>=-eq-ok
          (build_auth_token n (p.db_host ++ (codes ":" ++ show_int p.db_port)) p.region p.db_user c)
          _ e2 in
      (c, token, e1, e3, ground (arith, e4))

  check_dsn_connectivity_sound :
      (dsn : Text) (n : ℕ)
      → check_dsn_connectivity unmarshal os load_config build_auth_token open_db ping dsn n ≡ ok tt
      → (open_db n dsn ≡ ok tt) × (ping n dsn ≡ ok tt)
  unfolding check_dsn_connectivity
  check_dsn_connectivity_sound dsn n e = let (u, e1, e2) = >>=-eq-ok (open_db n dsn) _ e in (e1, e2)

  get_checked_secret_sound :
      (p : AwsIamAuthRdsFile) (w : World) (secret : Text)
      → (get_checked_secret unmarshal os load_config build_auth_token open_db ping p w).0
        ≡ ok secret
      → IsTried p w.calls secret
  unfolding get_checked_secret get_secret checked
  get_checked_secret_sound p w secret e =
      elim (Result-cases
        (token_of unmarshal os load_config build_auth_token open_db ping p w.calls)) [
          | inl (t, got) ↦
              elim (Result-cases (
                check_dsn_connectivity unmarshal os load_config build_auth_token open_db ping
                  (build_dsn p t) (suc w.calls))) [
                    | inl (u, alive) ↦
                        let same : t ≡ secret = ground (arith, got, alive) in
                        let (c, token, loaded, built, rendered) = token_of_sound p w.calls t got in
                        let (opened, answered) =
                          check_dsn_connectivity_sound (build_dsn p t) (suc w.calls) alive in
                        rw (← same) (record {
                          credentials = c;
                          token = token;
                          loaded = loaded;
                          built = built;
                          rendered = rendered;
                          opened = opened;
                          answered = answered;
                        })
                    | inr (inl (x, dead)) ↦ ground (arith, got, dead)
                    | inr (inr (x, dead)) ↦ ground (arith, got, dead)
                  ]
          | inr (inl (x, failed)) ↦ ground (arith, failed)
          | inr (inr (x, failed)) ↦ ground (arith, failed)
        ]

  checked-quiet :
      (p : AwsIamAuthRdsFile) (r : Result Text) (w : World)
      → (checked unmarshal os load_config build_auth_token open_db ping p r w).1.disk ≡ w.disk
  unfolding checked
  checked-quiet p (ok token) w = refl
  checked-quiet p (err e) w = refl
  checked-quiet p (panic s) w = refl

  -- Getting and trying a token writes nothing.
  pub get_checked_secret-quiet :
      (p : AwsIamAuthRdsFile) (w : World)
      → (get_checked_secret unmarshal os load_config build_auth_token open_db ping p w).1.disk
        ≡ w.disk
  unfolding get_checked_secret get_secret
  get_checked_secret-quiet p w = checked-quiet p _ _

  -- After a Refresh that returns no error the file holds, with mode 0644, exactly a secret that was
  -- rendered from a token that AWS built in this refresh, and that the database accepted: the data
  -- source name with that secret as its password could be opened and pinged.
  pub aws_iam_auth_rds-refresh_ok :
      (p : AwsIamAuthRdsFile) (w w' : World)
      → (aws_iam_auth_rds_file unmarshal os load_config build_auth_token open_db ping p).refresh w
        ≡ (ok tt, w')
      → (secret : Text) × IsTried p w.calls secret
        × (lookup p.file_path w'.disk
            ≡ some (record { contents = secret; mode = secret_file_mode }))
  unfolding aws_iam_auth_rds_file
  aws_iam_auth_rds-refresh_ok p w w' e =
      let (secret, got, holds) =
        refresh-ok os p.file_path
          (get_checked_secret unmarshal os load_config build_auth_token open_db ping p) w w' e in
      (secret, get_checked_secret_sound p w secret got, holds)
