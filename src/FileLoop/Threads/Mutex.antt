-- ===== src/FileLoop/Threads/Mutex.antt =====
-- The mutex of a file provider: one goroutine at most is between its Lock and its Unlock.
use hasura_secret_refresh.Base.{
  ℕ, zero, suc, ◌+◌, ◌≤◌, ◌≡◌, ◌≢◌, refl, Bool, true, false, some, List, [], ◌∷◌, arith, get_elem?,
  set, ap, Option-cases, inl, inr,
}
use hasura_secret_refresh.Strings.{Text}
use hasura_secret_refresh.FileLoop.Threads.{
  Method, Phase, clearing, clearing_mode, fetching, locking, opening, filling, setting_mode,
  unlocking, returned, Shared, Moment, State, move, step, run,
}

-- Does a goroutine hold the mutex there?
abbrev pub holds : Phase → ℕ
holds clearing = 0
holds clearing_mode = 0
holds fetching = 0
holds (locking secret) = 0
holds (opening secret) = 1
holds (filling secret) = 1
holds (setting_mode secret) = 1
holds (unlocking r) = 1
holds (returned r) = 0

abbrev pub holders : List (Method × Phase) → ℕ
holders [] = 0
holders ((method, phase) ∷ threads) = holds phase + holders threads

abbrev pub is_locked : Bool → ℕ
is_locked true = 1
is_locked false = 0

-- The mutex is locked as often as goroutines hold it.
abbrev pub IsExclusive : State → Type 0
IsExclusive st = holders st.threads ≡ is_locked st.shared.locked

holders-set :
    (threads : List (Method × Phase)) (i : ℕ) (method other : Method) (phase phase' : Phase)
    → get_elem? threads i ≡ some (method, phase)
    → holders (set threads i (other, phase')) + holds phase ≡ holders threads + holds phase'
holders-set [] i method other phase phase' e = cc
holders-set ((m, p) ∷ threads) zero method other phase phase' e =
    let same : p ≡ phase = ground (arith, e) in rw same (omega arith)
holders-set ((m, p) ∷ threads) (suc i) method other phase phase' e =
    omega (arith, holders-set threads i method other phase phase' e)

-- A goroutine that holds the mutex is one of the holders.
pub holders-some :
    (threads : List (Method × Phase)) (i : ℕ) (method : Method) (phase : Phase)
    → get_elem? threads i ≡ some (method, phase)
    → holds phase ≤ holders threads
holders-some [] i method phase e = cc
holders-some ((m, p) ∷ threads) zero method phase e =
    let same : p ≡ phase = ground (arith, e) in rw same (omega arith)
holders-some ((m, p) ∷ threads) (suc i) method phase e =
    omega (arith, holders-some threads i method phase e)

-- Two of them are two.
pub holders-two :
    (threads : List (Method × Phase)) (i j : ℕ) (m n : Method) (p q : Phase)
    → get_elem? threads i ≡ some (m, p)
    → get_elem? threads j ≡ some (n, q)
    → i ≢ j
    → holds p + holds q ≤ holders threads
holders-two [] i j m n p q e f differ = cc
holders-two ((k, r) ∷ threads) zero zero m n p q e f differ = absurd (differ refl)
holders-two ((k, r) ∷ threads) zero (suc j) m n p q e f differ =
    let same : r ≡ p = ground (arith, e) in rw same (omega (arith, holders-some threads j n q f))
holders-two ((k, r) ∷ threads) (suc i) zero m n p q e f differ =
    let same : r ≡ q = ground (arith, f) in rw same (omega (arith, holders-some threads i m p e))
holders-two ((k, r) ∷ threads) (suc i) (suc j) m n p q e f differ =
    omega (arith, holders-two threads i j m n p q e f (λ same. differ (ap suc same)))

module _ (path : Text) where
  -- A step takes the mutex only if it is free, and gives it back only if it is held.
  move-IsExclusive :
      (m : Moment) (method : Method) (phase : Phase) (sh : Shared)
      → holds phase ≤ is_locked sh.locked
      → holds (move path m method phase sh).0 + is_locked sh.locked
        ≡ is_locked (move path m method phase sh).1.locked + holds phase
  unfolding move
  move-IsExclusive m method clearing sh h = ground arith
  move-IsExclusive m method clearing_mode sh h = ground arith
  move-IsExclusive m method fetching sh h = ground arith
  move-IsExclusive m method (locking secret) sh h = ground arith
  move-IsExclusive m method (opening secret) sh h = ground arith
  move-IsExclusive m method (filling secret) sh h = ground arith
  move-IsExclusive m method (setting_mode secret) sh h = ground arith
  move-IsExclusive m method (unlocking r) sh h = ground arith
  move-IsExclusive m method (returned r) sh h = ground arith

  pub step-IsExclusive :
      (m : Moment) (i : ℕ) (st : State) → IsExclusive st → IsExclusive (step path m i st)
  unfolding step
  step-IsExclusive m i st h = elim (Option-cases (get_elem? st.threads i)) [
    | inl gone ↦ rw (gone, step) h
    | inr ((method, phase), found) ↦
        rw (found, step)
          (omega (
            arith,
            holders-some st.threads i method phase found,
            holders-set st.threads i method method phase (move path m method phase st.shared).0
                found,
            move-IsExclusive m method phase st.shared
                (omega (arith, holders-some st.threads i method phase found)),
          ))
  ]

  -- In whatever order the goroutines go on, the mutex is locked exactly if one of them is between
  -- its Lock and its Unlock, and never two of them are, if that was so at first.
  pub run-IsExclusive :
      (schedule : List (ℕ × Moment)) (st : State)
      → IsExclusive st
      → IsExclusive (run path schedule st)
  unfolding run
  run-IsExclusive [] st h = h
  run-IsExclusive ((i, m) ∷ schedule) st h =
      run-IsExclusive schedule (step path m i st) (step-IsExclusive m i st h)
