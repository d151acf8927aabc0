-- ===== src/Vault/Lifecycle.antt =====
-- provider/hashicorp_vault/client.go: the goroutine manageTokenLifecycle, as a state machine that
-- the answers of Vault and the clock drive.
pub mod Laws
pub mod Recovery
use hasura_secret_refresh.Base.{
  ℕ, ◌*◌, Bool, true, false, not, Option, none, some, List, [], ◌∷◌, if◌then◌else◌,
}
use hasura_secret_refresh.Value.{ℤ, pos}
use hasura_secret_refresh.Result.{Error, Result, ok, err, panic}
use hasura_secret_refresh.Duration.{Duration, second, seconds, times, over, is_positive}
use hasura_secret_refresh.Vault.Auth.{VaultConfig}
use hasura_secret_refresh.Vault.Client.{Auth, AuthInfo, Attempt, login}
use hasura_secret_refresh.Vault.Login.{next_backoff}

-- Where the goroutine is: at the head of its loop with a login's answer, asleep, in watchOnce, or in
-- reLogin with the backoff of the next failure. A panic ends the process.
pub data Lifecycle : Type 0 where
  holding : AuthInfo → Lifecycle
  sleeping : Duration → Lifecycle
  watching : Lifecycle
  logging_in : ℕ → Lifecycle
  crashed : Lifecycle

-- What it is woken by: `go_on` has the answer of NewLifetimeWatcher, if that is called.
pub data Input : Type 0 where
  go_on : Result (Unit {0}) → Input
  woke : Input
  renewed : Input
  watcher_done : Option Error → Input
  attempt : Attempt → Input

-- The lease of a token that cannot be renewed, and the sleep before the next login.
unfoldable pub lease_of : ℤ → Duration
lease_of n = let lease = seconds n in if is_positive lease then lease else pos (300 * second)

unfoldable pub nap : ℤ → Duration
unfolding lease_of
nap n = over (times (lease_of n) 4) 5

after_watcher : Result (Unit {0}) → Lifecycle
after_watcher (ok u) = watching
after_watcher (err e) = sleeping (pos (10 * second))
after_watcher (panic w) = crashed

-- The head of the loop.
unfoldable pub after_info : AuthInfo → Result (Unit {0}) → Lifecycle
unfolding nap after_watcher
after_info none r = logging_in second
after_info (some a) r = if not a.renewable then sleeping (nap a.lease_duration) else after_watcher r

-- One login of reLogin.
unfoldable pub after_login : ℕ → Result AuthInfo → Lifecycle
after_login backoff (ok info) = holding info
after_login backoff (err e) = logging_in (next_backoff backoff)
after_login backoff (panic w) = crashed

-- The next state, if the goroutine waits for that input.
unfoldable pub step : VaultConfig → Lifecycle → Input → Option Lifecycle
unfolding after_info after_login
step vc (holding info) (go_on r) = some (after_info info r)
step vc (sleeping d) woke = some (logging_in second)
step vc watching renewed = some watching
step vc watching (watcher_done e) = some (logging_in second)
step vc (logging_in backoff) (attempt a) = some (after_login backoff (login vc a))
step vc _ _ = none

unfoldable pub run : VaultConfig → Lifecycle → List Input → Option Lifecycle
run vc s [] = some s
run vc s (i ∷ is) = elim (step vc s i) [ none ↦ none | some t ↦ run vc t is ]
