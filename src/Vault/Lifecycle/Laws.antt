-- ===== src/Vault/Lifecycle/Laws.antt =====
-- What holds of the token's lifecycle in every state that it can reach.
use hasura_secret_refresh.Base.{
  ℕ, ◌*◌, ◌≤◌, ◌<◌, ◌≡◌, none, some, arith, ◌==◌, if◌then◌else◌, ◌⊎◌, inl, inr,
}
use hasura_secret_refresh.Value.{pos}
use hasura_secret_refresh.Result.{Result, ok, err, panic}
use hasura_secret_refresh.Duration.{second, over, is_positive, seconds-exact, times_four}
use hasura_secret_refresh.Vault.Auth.{VaultConfig}
use hasura_secret_refresh.Vault.Client.{AuthInfo, Attempt, login}
use hasura_secret_refresh.Vault.Login.{next_backoff, max_backoff}
use hasura_secret_refresh.Vault.Lifecycle.{
  Lifecycle, holding, sleeping, watching, logging_in, crashed, Input, go_on, woke, renewed,
  watcher_done, attempt, lease_of, nap, after_info, after_login, step,
}

-- The lease that counts, in seconds: five minutes where Vault tells none.
abbrev pub counted : ℕ → ℕ
counted n = if n == 0 then 300 else n

-- A token that cannot be renewed is used for four fifths of its lease, exactly, if the lease is
-- below 73 years; a lease of 0 counts as five minutes.
pub nap-exact : (n : ℕ) → n < 2305843009 → nap (pos n) ≡ pos (counted n * 800000000)
unfolding nap lease_of over is_positive
nap-exact n k =
    rw (seconds-exact n (omega arith))
      (ground (arith, times_four (n * second), times_four (300 * second)))

-- The states that can be reached from a state.
pub data Reach (vc : VaultConfig) (s : Lifecycle) : Lifecycle → Type 0 where
  here : Reach vc s s
  next : {t u : Lifecycle} → Reach vc s t → (i : Input) → step vc t i ≡ some u → Reach vc s u

-- The backoff of a login lies between a second and a minute.
abbrev pub IsPaced : Lifecycle → Type 0
IsPaced (logging_in backoff) = (second ≤ backoff) × (backoff ≤ max_backoff)
IsPaced _ = Unit

after_login-IsPaced :
    (backoff : ℕ) (r : Result AuthInfo)
    → IsPaced (logging_in backoff)
    → IsPaced (after_login backoff r)
unfolding after_login next_backoff
after_login-IsPaced backoff (ok info) h = tt
after_login-IsPaced backoff (err e) h = ground arith
after_login-IsPaced backoff (panic w) h = tt

after_info-IsPaced : (info : AuthInfo) (r : Result (Unit {0})) → IsPaced (after_info info r)
unfolding after_info
after_info-IsPaced none r = omega arith
after_info-IsPaced (some a) (ok u) = ground arith
after_info-IsPaced (some a) (err e) = ground arith
after_info-IsPaced (some a) (panic w) = ground arith

-- What a step out of a state leads to, by the state.
abbrev Leads : VaultConfig → Lifecycle → Lifecycle → Type 0
Leads vc (holding info) t = (r : Result (Unit {0})) × (t ≡ after_info info r)
Leads vc (sleeping d) t = t ≡ logging_in second
Leads vc watching t = (t ≡ watching) ⊎ (t ≡ logging_in second)
Leads vc (logging_in backoff) t = (a : Attempt) × (t ≡ after_login backoff (login vc a))
Leads vc crashed t = ⊥

step-Leads : (vc : VaultConfig) (s t : Lifecycle) (i : Input) → step vc s i ≡ some t → Leads vc s t
unfolding step
step-Leads vc (holding info) t (go_on r) e = (r, ground arith)
step-Leads vc (holding info) t woke e = cc
step-Leads vc (holding info) t renewed e = cc
step-Leads vc (holding info) t (watcher_done x) e = cc
step-Leads vc (holding info) t (attempt a) e = cc
step-Leads vc (sleeping d) t woke e = ground arith
step-Leads vc (sleeping d) t (go_on r) e = cc
step-Leads vc (sleeping d) t renewed e = cc
step-Leads vc (sleeping d) t (watcher_done x) e = cc
step-Leads vc (sleeping d) t (attempt a) e = cc
step-Leads vc watching t renewed e = inl (ground arith)
step-Leads vc watching t (watcher_done x) e = inr (ground arith)
step-Leads vc watching t (go_on r) e = cc
step-Leads vc watching t woke e = cc
step-Leads vc watching t (attempt a) e = cc
step-Leads vc (logging_in b) t (attempt a) e = (a, ground arith)
step-Leads vc (logging_in b) t (go_on r) e = cc
step-Leads vc (logging_in b) t woke e = cc
step-Leads vc (logging_in b) t renewed e = cc
step-Leads vc (logging_in b) t (watcher_done x) e = cc
step-Leads vc crashed t (go_on r) e = cc
step-Leads vc crashed t woke e = cc
step-Leads vc crashed t renewed e = cc
step-Leads vc crashed t (watcher_done x) e = cc
step-Leads vc crashed t (attempt a) e = cc

step-IsPaced : (vc : VaultConfig) (s t : Lifecycle) → Leads vc s t → IsPaced s → IsPaced t
step-IsPaced vc (holding info) t (r, e) h = rw e (after_info-IsPaced info r)
step-IsPaced vc (sleeping d) t e h = rw e (omega arith, omega arith)
step-IsPaced vc watching t (inl e) h = rw e tt
step-IsPaced vc watching t (inr e) h = rw e (omega arith, omega arith)
step-IsPaced vc (logging_in b) t (a, e) h = rw e (after_login-IsPaced b (login vc a) h)
step-IsPaced vc crashed t e h = absurd e

-- In every state that the lifecycle can reach from a login's answer, a failed login is followed by
-- a wait of a second at least and a minute at most.
pub Reach-IsPaced : {vc : VaultConfig} {s t : Lifecycle} → IsPaced s → Reach vc s t → IsPaced t
Reach-IsPaced h here = h
Reach-IsPaced {vc} h (next {t} {u} r i e) =
    step-IsPaced vc t u (step-Leads vc t u i e) (Reach-IsPaced h r)
