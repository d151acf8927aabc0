-- ===== src/Tests/Lifecycle.antt =====
-- The life of a token that cannot be renewed, and of one that can.
use hasura_secret_refresh.Base.{
  ◌*◌, ◌≤◌, ◌≡◌, refl, ◌≢◌, false, none, String, length, some, List, [], ◌∷◌, ◌++◌, map, arith,
}
use hasura_secret_refresh.Strings.{codes}
use hasura_secret_refresh.Value.{pos}
use hasura_secret_refresh.Result.{Error, Result, new, ok, err, panic}
use hasura_secret_refresh.Duration.{second}
use hasura_secret_refresh.Vault.Auth.{
  VaultConfig, auth_method_k8s, default_mount_path, default_jwt_path,
}
use hasura_secret_refresh.Vault.Client.{Auth, Attempt, login}
use hasura_secret_refresh.Vault.Login.{max_backoff, next_backoff, re_login_from}
use hasura_secret_refresh.Vault.Lifecycle.{
  holding, watching, logging_in, crashed, go_on, woke, attempt, nap, step, run,
}
use hasura_secret_refresh.Vault.Lifecycle.Laws.{
  counted, nap-exact, Reach, here, next, Reach-IsPaced,
}
use hasura_secret_refresh.Vault.Lifecycle.Recovery.{
  wake, doubled, stands, sleeps, lifecycle_recovers, run-re_login,
}

abbrev vc : VaultConfig
vc = record {
  address = codes "https://v";
  namespace = [];
  ca_cert = [];
  skip_verify = false;
  auth_role = codes "app";
  auth_method = auth_method_k8s;
  mount_path = default_mount_path;
  jwt_path = default_jwt_path;
}

abbrev hour_token : Auth
hour_token = record { renewable = false; lease_duration = pos 3600 }

abbrev works : Attempt
works = record { stat = ok tt; new_auth = ok tt; auth_login = ok (some (some hour_token)) }

abbrev fails : Attempt
fails = record { stat = ok tt; new_auth = ok tt; auth_login = err (new "sealed") }

works-ok : login vc works ≡ ok (some hour_token)
unfolding login
works-ok = refl

fails-err : (e : Error) × (login vc fails ≡ err e)
unfolding login
fails-err = (_, refl)

nap-exact_example : nap (pos 0) ≡ pos (counted 0 * 800000000)
nap-exact_example = nap-exact 0 (omega arith)

one_failure : Reach vc (holding (some hour_token)) (logging_in (2 * second))
unfolding step login next_backoff
one_failure = next (next (next here (go_on (ok tt)) refl) woke refl) (attempt fails) refl

Reach-IsPaced_example : (second ≤ 2 * second) × (2 * second ≤ max_backoff)
Reach-IsPaced_example = Reach-IsPaced tt one_failure

alive : watching ≢ crashed
alive = ground arith

calm : (w : String) → ◌≢◌ {A = Result (Unit {0})} (ok tt) (panic w)
calm w = ground arith

lifecycle_recovers_example :
    (run vc watching (wake vc (ok tt) 2 none watching ++ map attempt (fails ∷ fails ∷ []))
      ≡ some (logging_in (4 * second)))
    × (run vc watching (
          (wake vc (ok tt) 2 none watching ++ map attempt (fails ∷ fails ∷ []))
          ++ attempt works ∷ [])
        ≡ some (holding (some hour_token)))
lifecycle_recovers_example =
    lifecycle_recovers vc (ok tt) 2 none watching (fails ∷ fails ∷ []) works (some hour_token) calm
      alive (fails-err, (fails-err, tt)) works-ok

run-re_login_example :
    (before rest : List Attempt) × (fails ∷ works ∷ fails ∷ [] ≡ before ++ rest)
    × (run vc (logging_in second) (map attempt before)
        ≡ some (
            stands vc
              (doubled vc second (length before))
              (re_login_from second (map (login vc) (fails ∷ works ∷ fails ∷ []))).1))
    × (sleeps vc (logging_in second) (map attempt before)
        ≡ (re_login_from second (map (login vc) (fails ∷ works ∷ fails ∷ []))).0)
run-re_login_example = run-re_login vc second (fails ∷ works ∷ fails ∷ [])
