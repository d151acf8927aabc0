-- ===== src/Vault/Lifecycle/Recovery.antt =====
-- The token's lifecycle always comes back to a login, and its logins are those of reLogin.
use hasura_secret_refresh.Base.{
  ℕ, zero, suc, ◌*◌, length, String, ◌≡◌, refl, ◌≢◌, Option, none, some, List, [], ◌∷◌, ◌++◌, arith,
  map, inl, inr, Bool-cases, Option-cases, All, ap, ◌∙◌, if◌then◌else◌,
}
use Prim.Native.Nat.{min}
use hasura_secret_refresh.Result.{Error, Result, ok, err, panic, Result-cases}
use hasura_secret_refresh.Duration.{second}
use hasura_secret_refresh.Vault.Auth.{VaultConfig}
use hasura_secret_refresh.Vault.Client.{AuthInfo, Attempt, login}
use hasura_secret_refresh.Vault.Login.{max_backoff, next_backoff, re_login_from}
use hasura_secret_refresh.Vault.Lifecycle.{
  Lifecycle, holding, sleeping, watching, logging_in, crashed, Input, go_on, woke, renewed,
  watcher_done, attempt, after_watcher, after_info, after_login, step, run,
}

module _ (vc : VaultConfig) where
  run-append :
      (s t : Lifecycle) (is js : List Input)
      → run vc s is ≡ some t
      → run vc s (is ++ js) ≡ run vc t js
  unfolding run
  run-append s t [] js e =
      ap (λ (o : Option Lifecycle). elim o [ none ↦ none | some u ↦ run vc u js ]) e
  run-append s t (i ∷ is) js e = elim (Option-cases (step vc s i)) [
    | inl stuck ↦ ground (arith, stuck)
    | inr (u, moved) ↦ ground (arith, moved, run-append u t is js)
  ]

  -- A watcher renews its token a number of times, and ends, with or without an error.
  abbrev pub watched : ℕ → Option Error → List Input
  watched zero x = watcher_done x ∷ []
  watched (suc n) x = renewed ∷ watched n x

  -- What follows on the answer of NewLifetimeWatcher: its watcher, or a sleep after an error.
  abbrev pub watched_if : Result (Unit {0}) → ℕ → Option Error → List Input
  watched_if (ok u) n x = watched n x
  watched_if (err e) n x = woke ∷ []
  watched_if (panic w) n x = []

  -- The inputs that a state waits for up to the next login, if NewLifetimeWatcher answers `r`, and
  -- the watcher ends with `x` after `n` renewals.
  abbrev pub wake : Result (Unit {0}) → ℕ → Option Error → Lifecycle → List Input
  wake r n x (holding none) = go_on r ∷ []
  wake r n x (holding (some a)) = go_on r ∷ (if a.renewable then watched_if r n x else woke ∷ [])
  wake r n x (sleeping d) = woke ∷ []
  wake r n x watching = watched n x
  wake r n x (logging_in b) = []
  wake r n x crashed = []

  -- The backoff with which a state goes into reLogin: a second, if it is not there already.
  abbrev pub first_backoff : Lifecycle → ℕ
  first_backoff (logging_in b) = b
  first_backoff _ = second

  -- A backoff that was doubled a number of times, to a minute at most.
  abbrev pub doubled : ℕ → ℕ → ℕ
  doubled b zero = b
  doubled b (suc n) = doubled (min (b * 2) max_backoff) n

  next_backoff-min : (b : ℕ) → next_backoff b ≡ min (b * 2) max_backoff
  unfolding next_backoff
  next_backoff-min b = ground arith

  run-watched :
      (n : ℕ) (x : Option Error) → run vc watching (watched n x) ≡ some (logging_in second)
  unfolding run step
  run-watched zero x = refl
  run-watched (suc n) x = run-watched n x

  run-watched_if :
      (r : Result (Unit {0})) (n : ℕ) (x : Option Error)
      → ((w : String) → r ≢ panic w)
      → run vc (after_watcher r) (watched_if r n x) ≡ some (logging_in second)
  unfolding run step after_watcher
  run-watched_if (ok u) n x h = run-watched n x
  run-watched_if (err e) n x h = refl
  run-watched_if (panic w) n x h = absurd (h w refl)

  run-wake :
      (r : Result (Unit {0})) (n : ℕ) (x : Option Error) (s : Lifecycle)
      → ((w : String) → r ≢ panic w)
      → s ≢ crashed
      → run vc s (wake r n x s) ≡ some (logging_in (first_backoff s))
  unfolding run step after_info
  run-wake r n x (holding none) h alive = refl
  run-wake r n x (holding (some a)) h alive = elim (Bool-cases a.renewable) [
    | inl yes_it_is ↦ rw yes_it_is (run-watched_if r n x h)
    | inr no_it_is ↦ rw no_it_is refl
  ]
  run-wake r n x (sleeping d) h alive = refl
  run-wake r n x watching h alive = run-watched n x
  run-wake r n x (logging_in b) h alive = refl
  run-wake r n x crashed h alive = absurd (alive refl)

  abbrev AllFail : List Attempt → Type 0
  AllFail = All (λ f. (e : Error) × (login vc f ≡ err e))

  run-failed :
      (b : ℕ) (failed : List Attempt)
      → AllFail failed
      → run vc (logging_in b) (map attempt failed) ≡ some (logging_in (doubled b (length failed)))
  unfolding run step after_login
  run-failed b [] h = refl
  run-failed b (f ∷ failed) ((e, bad), h) = rw bad (
      run-failed (next_backoff b) failed h
      ∙ ap (λ c. some (logging_in (doubled c (length failed)))) (next_backoff-min b))

  run-attempt :
      (b : ℕ) (a : Attempt) (info : AuthInfo)
      → login vc a ≡ ok info
      → run vc (logging_in b) (attempt a ∷ []) ≡ some (holding info)
  unfolding run step after_login
  run-attempt b a info good = rw good refl

  -- From every state that is not a crash the lifecycle comes to a login, whatever NewLifetimeWatcher
  -- answers but a panic, however often the token is renewed, and with whatever error the watcher
  -- ends. After any number of failed logins its backoff is a second, or what it was in reLogin,
  -- doubled as often, to a minute at most; and a login that succeeds brings it to the head of its
  -- loop with the new answer.
  pub lifecycle_recovers :
      (r : Result (Unit {0})) (n : ℕ) (x : Option Error) (s : Lifecycle) (failed : List Attempt)
      (a : Attempt) (info : AuthInfo)
      → ((w : String) → r ≢ panic w)
      → s ≢ crashed
      → AllFail failed
      → login vc a ≡ ok info
      → (run vc s (wake r n x s ++ map attempt failed)
          ≡ some (logging_in (doubled (first_backoff s) (length failed))))
        × (run vc s ((wake r n x s ++ map attempt failed) ++ attempt a ∷ []) ≡ some (holding info))
  lifecycle_recovers r n x s failed a info calm alive h good =
      let b = first_backoff s in
      let waits : run vc s (wake r n x s ++ map attempt failed)
          ≡ some (logging_in (doubled b (length failed))) =
        run-append s (logging_in b) (wake r n x s) (map attempt failed)
          (run-wake r n x s calm alive)
        ∙ run-failed b failed h in
      (
        waits,
        run-append s _ (wake r n x s ++ map attempt failed) (attempt a ∷ []) waits
            ∙ run-attempt _ a info good,
      )

  -- Where the machine stands when reLogin has come to an answer, or still goes on.
  abbrev pub stands : ℕ → Option (Result AuthInfo) → Lifecycle
  stands b none = logging_in b
  stands b (some (ok info)) = holding info
  stands b (some (err e)) = logging_in b
  stands b (some (panic w)) = crashed

  -- The sleeps of the machine: it sleeps for its backoff between a login that failed and the next.
  abbrev pause : Lifecycle → Option Lifecycle → List ℕ
  pause (logging_in b) (some (logging_in c)) = b ∷ []
  pause _ _ = []

  unfoldable pub sleeps : Lifecycle → List Input → List ℕ
  sleeps s [] = []
  sleeps s (i ∷ is) = elim (step vc s i) [ none ↦ [] | some t ↦ pause s (some t) ++ sleeps t is ]

  -- The state machine does what the loop of reLogin does, on every branch: after the same logins it
  -- stands at the head of the lifecycle with the answer that the loop returns, or has crashed where
  -- the loop panics, or goes on with the backoff doubled as often, to a minute at most; and it has
  -- slept as the loop has.
  pub run-re_login :
      (b : ℕ) (attempts : List Attempt)
      → let (slept, answer) = re_login_from b (map (login vc) attempts) in
        (before rest : List Attempt) × (attempts ≡ before ++ rest)
        × (run vc (logging_in b) (map attempt before)
            ≡ some (stands (doubled b (length before)) answer))
        × (sleeps (logging_in b) (map attempt before) ≡ slept)
  unfolding re_login_from run step after_login sleeps
  run-re_login b [] = ([], [], refl, refl, refl)
  run-re_login b (a ∷ attempts) = elim (Result-cases (login vc a)) [
    | inl (i, good) ↦ (a ∷ [], attempts, refl, rw good refl, rw good refl)
    | inr (inl (x, bad)) ↦
        let (before, rest, split, reached, slept) = run-re_login (next_backoff b) attempts in
        (
          a ∷ before,
          rest,
          ap (λ (l : List Attempt). a ∷ l) split,
          rw bad (
              reached
              ∙ ap
                  (λ c. some (
                    stands (doubled c (length before))
                      (re_login_from (next_backoff b) (map (login vc) attempts)).1))
                  (next_backoff-min b)),
          rw bad (ap (λ (l : List ℕ). b ∷ l) slept),
        )
    | inr (inr (w, bad)) ↦ (a ∷ [], attempts, refl, rw bad refl, rw bad refl)
  ]
