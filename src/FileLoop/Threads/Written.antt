-- ===== src/FileLoop/Threads/Written.antt =====
-- What a file provider's file holds while its goroutines run.
use hasura_secret_refresh.Base.{
  ℕ, zero, suc, ◌≤◌, ◌≡◌, ◌≢◌, sym, Bool, true, false, some, List, [], ◌∷◌, All, arith, get_elem?,
  set, get_elem?-set_self, get_elem?-set_other, ap, Option-cases, Bool-cases, inl, inr, ◌∙◌,
}
use native.Mathlib.Decide.{ℕ_discrete}
use mathlib.Core.Path.{subst}
use mathlib.Core.Option.{some-injective}
use hasura_secret_refresh.Strings.{Text}
use hasura_secret_refresh.Result.{ok}
use hasura_secret_refresh.FileLoop.Threads.{
  Method, refresh, Phase, fetching, returned, Shared, Moment, State, move, step, run,
}
use hasura_secret_refresh.FileLoop.Threads.Mutex.{
  holds, holders, is_locked, IsExclusive, holders-some, holders-two, step-IsExclusive,
}
use hasura_secret_refresh.FileLoop.Threads.Ready.{
  IsWritten, Ready, Grants, move-Ready, move-disk, Ready-elsewhere, move-unlocks, returns_of,
}

is_locked-le : (b : Bool) → is_locked b ≤ 1
is_locked-le true = omega arith
is_locked-le false = omega arith

-- Start has cleared its file, and a round of it and some refreshes begin.
abbrev pub Begins : State → Type 0
Begins st = (st.shared.locked ≡ false) × All (λ (t : Method × Phase). t.1 ≡ fetching) st.threads

All-at :
    (P : Method × Phase → Type 0) (threads : List (Method × Phase)) (i : ℕ) (t : Method × Phase)
    → All P threads
    → get_elem? threads i ≡ some t
    → P t
All-at P [] i t h e = cc
All-at P (u ∷ threads) zero t (h, hs) e = subst P (some-injective _ _ e) h
All-at P (u ∷ threads) (suc i) t (h, hs) e = All-at P threads i t hs e

holders-Begins :
    (threads : List (Method × Phase))
    → All (λ (t : Method × Phase). t.1 ≡ fetching) threads
    → holders threads ≡ 0
holders-Begins [] h = omega arith
holders-Begins ((method, phase) ∷ threads) (h, hs) = rw h (omega (arith, holders-Begins threads hs))

-- `P` is what is known of every secret that the goroutines get.
module _ (path : Text) (P : Text → Type 0) where
  -- A state of goroutines of which none is clearing the file: they rely on what they may, and after
  -- a refresh without an error the file is whole while the mutex is free.
  pub record IsSettled (st : State) : Type 0 where
    pub exclusive : IsExclusive st
    pub ready :
        (i : ℕ) (method : Method) (phase : Phase)
        → get_elem? st.threads i ≡ some (method, phase)
        → Ready path P phase st.shared.disk
    pub whole :
        (i : ℕ)
        → get_elem? st.threads i ≡ some (refresh, returned (ok tt))
        → st.shared.locked ≡ false
        → IsWritten path P st.shared.disk

  -- The goroutine of position `i` goes on, from a state that is settled.
  module _ (m : Moment) (i : ℕ) (st : State) (settled : IsSettled st) (grants : Grants path P m)
      (method : Method) (phase : Phase) (here : get_elem? st.threads i ≡ some (method, phase)) where
    abbrev after : Phase × Shared
    after = move path m method phase st.shared

    its_phase : Ready path P phase st.shared.disk
    its_phase = settled.ready i method phase here

    -- The others.
    others-Ready :
        (j : ℕ) (other : Method) (q : Phase)
        → i ≢ j
        → get_elem? st.threads j ≡ some (other, q)
        → Ready path P q after.1.disk
    others-Ready j other q differ there = elim (ℕ_discrete (holds q) 0) [
      | yes free ↦
          Ready-elsewhere path P q st.shared.disk after.1.disk free (settled.ready j other q there)
      | no held ↦
          subst (Ready path P q)
            (sym (
              move-disk path P m method phase st.shared
                (omega (
                  arith,
                  settled.exclusive,
                  is_locked-le st.shared.locked,
                  holders-two st.threads i j method other phase q here there differ,
                ))
                its_phase))
            (settled.ready j other q there)
    ]

    same_disk : st.shared.locked ≡ false → after.1.disk ≡ st.shared.disk
    same_disk free =
        move-disk path P m method phase st.shared
          (omega (
            arith,
            settled.exclusive,
            ap is_locked free,
            holders-some st.threads i method phase here,
          ))
          its_phase

    abbrev gone_on : State
    gone_on = record { threads = set st.threads i (method, after.0); shared = after.1 }

    at_its_place : get_elem? gone_on.threads i ≡ some (method, after.0)
    at_its_place = get_elem?-set_self st.threads i (method, after.0) (method, phase) here

    elsewhere : (j : ℕ) → i ≢ j → get_elem? gone_on.threads j ≡ get_elem? st.threads j
    elsewhere j differ = get_elem?-set_other st.threads i j (method, after.0) differ

    gone_on-Ready :
        (j : ℕ) (other : Method) (q : Phase)
        → get_elem? gone_on.threads j ≡ some (other, q)
        → Ready path P q after.1.disk
    gone_on-Ready j other q there = elim (ℕ_discrete i j) [
      | no differ ↦ others-Ready j other q differ (sym (elsewhere j differ) ∙ there)
      | yes same ↦
          let its : after.0 ≡ q =
            ap (λ (t : Method × Phase). t.1)
              (some-injective _ _
                (sym at_its_place ∙ (ap (get_elem? gone_on.threads) same ∙ there))) in
          subst (λ (x : Phase). Ready path P x after.1.disk) its
            (move-Ready path P m method phase st.shared grants its_phase)
    ]

    returned_here :
        ◌≡◌ {A = Method × Phase} (method, after.0) (refresh, returned (ok tt))
        → after.1.locked ≡ false
        → IsWritten path P after.1.disk
    returned_here e free =
        elim (returns_of path P m method phase st.shared its_phase (λ k. (e k).0) (λ k. (e k).1)) [
          | inl full ↦ full
          | inr (ended, still) ↦
              let unlocked : st.shared.locked ≡ false = ap (λ sh. sh.locked) (sym still) ∙ free in
              subst (λ (sh : Shared). IsWritten path P sh.disk) (sym still)
                (settled.whole i (here ∙ λ k. some ((e k).0, ended k)) unlocked)
        ]

    gone_on-whole :
        (j : ℕ)
        → get_elem? gone_on.threads j ≡ some (refresh, returned (ok tt))
        → after.1.locked ≡ false
        → IsWritten path P after.1.disk
    gone_on-whole j there free = elim (ℕ_discrete i j) [
      | yes same ↦
          returned_here
            (some-injective _ _ (sym at_its_place ∙ (ap (get_elem? gone_on.threads) same ∙ there)))
            free
      | no differ ↦ elim (Bool-cases st.shared.locked) [
        | inl taken ↦ move-unlocks path P m method phase st.shared its_phase taken free
        | inr open_before ↦
            subst (IsWritten path P) (sym (same_disk open_before))
              (settled.whole j (sym (elsewhere j differ) ∙ there) open_before)
      ]
    ]

  step-IsSettled :
      (m : Moment) (i : ℕ) (st : State)
      → Grants path P m
      → IsSettled st
      → IsSettled (step path m i st)
  unfolding step
  step-IsSettled m i st grants settled = elim (Option-cases (get_elem? st.threads i)) [
    | inl gone ↦ rw (gone, step) settled
    | inr ((method, phase), here) ↦
        let kept = step-IsExclusive path m i st settled.exclusive in
        record {
          exclusive = kept;
          ready = rw (here, step) (gone_on-Ready m i st settled grants method phase here);
          whole = rw (here, step) (gone_on-whole m i st settled grants method phase here);
        }
  ]

  run-IsSettled :
      (schedule : List (ℕ × Moment)) (st : State)
      → All (λ (e : ℕ × Moment). Grants path P e.1) schedule
      → IsSettled st
      → IsSettled (run path schedule st)
  unfolding run
  run-IsSettled [] st g h = h
  run-IsSettled ((i, m) ∷ schedule) st (g, gs) h =
      run-IsSettled schedule (step path m i st) gs (step-IsSettled m i st g h)

  Begins-IsSettled : (st : State) → Begins st → IsSettled st
  Begins-IsSettled st (free, begin) =
      let starts = All-at (λ t. t.1 ≡ fetching) st.threads in
      record {
        exclusive = holders-Begins st.threads begin ∙ ap is_locked (sym free);
        ready = λ i method phase e. rw (starts i (method, phase) begin e) tt;
        whole =
            λ i e unlocked. absurd (ground (arith, starts i (refresh, returned (ok tt)) begin e));
      }

  -- Once a Refresh has returned no error, the file holds, whenever no goroutine holds the mutex, one
  -- of the secrets that were got, whole and with mode 0644, however the steps of any number of
  -- refreshes and of the rounds of Start interleave, if Start has cleared the file before and if the
  -- writes work.
  pub run-IsWritten :
      (schedule : List (ℕ × Moment)) (st : State) (i : ℕ)
      → Begins st
      → All (λ (e : ℕ × Moment). Grants path P e.1) schedule
      → get_elem? (run path schedule st).threads i ≡ some (refresh, returned (ok tt))
      → (run path schedule st).shared.locked ≡ false
      → IsWritten path P (run path schedule st).shared.disk
  run-IsWritten schedule st i begin grants done free =
      (run-IsSettled schedule st grants (Begins-IsSettled st begin)).whole i done free
