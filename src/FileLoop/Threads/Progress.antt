-- ===== src/FileLoop/Threads/Progress.antt =====
-- The goroutines of a file provider do not block each other for ever.
use hasura_secret_refresh.Base.{
  ℕ, zero, suc, ◌+◌, ◌≤◌, ◌≡◌, ◌≢◌, refl, some, List, [], ◌∷◌, arith, get_elem?, set,
  get_elem?-set_self, get_elem?-set_other, ap, sym, ◌∙◌, Bool-cases, inl, inr, ◌⊎◌,
}
use native.Mathlib.Decide.{ℕ_discrete}
use mathlib.Core.Option.{some-injective}
use hasura_secret_refresh.Strings.{Text}
use hasura_secret_refresh.Result.{Result}
use hasura_secret_refresh.FileLoop.Threads.{
  Method, refresh, Phase, returned, Moment, State, move, step, run,
}
use hasura_secret_refresh.FileLoop.Threads.Rank.{
  rank, rank-returned, rank-holds, holds-le, rank-le, Goes, move-refresh, move-holder,
}
use hasura_secret_refresh.FileLoop.Threads.Mutex.{
  holds, holders, is_locked, IsExclusive, run-IsExclusive,
}

abbrev Returned : ℕ → State → Type 0
Returned i st = (r : Result (Unit {0})) × (get_elem? st.threads i ≡ some (refresh, returned r))

-- One of the goroutines that hold the mutex.
holder_of :
    (threads : List (Method × Phase))
    → 1 ≤ holders threads
    → (j : ℕ) × (method : Method) × (phase : Phase) × (get_elem? threads j ≡ some (method, phase))
      × (holds phase ≡ 1)
holder_of [] h = absurd (omega (arith, h))
holder_of ((method, phase) ∷ threads) h = elim (ℕ_discrete (holds phase) 1) [
  | yes held ↦ (0, method, phase, refl, held)
  | no free ↦
      let (j, m, p, there, held) = holder_of threads (omega (arith, h, free, holds-le phase)) in
      (suc j, m, p, there, held)
]

module _ (path : Text) where
  -- The scheduler picks a goroutine and the outside does what it wants, `n` times at most, and then
  -- the refresh of position `i` has returned.
  abbrev pub CanReturn : ℕ → ℕ → State → Type 0
  CanReturn i zero st = Returned i st
  CanReturn i (suc n) st =
      Returned i st ⊎ ((j : ℕ) × ((m : Moment) → CanReturn i n (step path m j st)))

  returns_now : (i n : ℕ) (st : State) → Returned i st → CanReturn i n st
  returns_now i zero st h = h
  returns_now i (suc n) st h = inl h

  abbrev gone_on : Moment → ℕ → State → Method → Phase → State
  gone_on m i st method phase =
      let (phase', shared') = move path m method phase st.shared in
      record { threads = set st.threads i (method, phase'); shared = shared' }

  step-gone_on :
      (m : Moment) (i : ℕ) (st : State) (method : Method) (phase : Phase)
      → get_elem? st.threads i ≡ some (method, phase)
      → step path m i st ≡ gone_on m i st method phase
  unfolding step
  step-gone_on m i st method phase here = rw (here, step) refl

  -- A refresh that need not wait returns by its own steps.
  alone-CanReturn :
      (i n : ℕ) (st : State) (phase : Phase)
      → get_elem? st.threads i ≡ some (refresh, phase)
      → Goes phase st.shared
      → rank phase ≤ n
      → CanReturn i n st
  alone-CanReturn i zero st phase here goes h =
      let (r, done) = rank-returned phase h in (r, here ∙ ap (λ p. some (refresh, p)) done)
  alone-CanReturn i (suc n) st phase here goes h = elim (ℕ_discrete (rank phase) 0) [
    | yes none ↦
        let (r, done) = rank-returned phase (omega (arith, none)) in
        inl (r, here ∙ ap (λ p. some (refresh, p)) done)
    | no more ↦ inr (
      i,
      λ m. rw (step-gone_on m i st refresh phase here) (
          let (less, goes') = move-refresh path m phase st.shared goes (omega (arith, more)) in
          alone-CanReturn i n (gone_on m i st refresh phase) (move path m refresh phase st.shared).0
            (get_elem?-set_self st.threads i _ _ here) goes' (omega (arith, less, h))),
    )
  ]

  -- While another goroutine holds the mutex, it is that one that goes on.
  waiting-CanReturn :
      (i j n : ℕ) (st : State) (method : Method) (holder phase : Phase)
      → i ≢ j
      → get_elem? st.threads i ≡ some (refresh, phase)
      → get_elem? st.threads j ≡ some (method, holder)
      → holds holder ≡ 1
      → rank holder + 8 ≤ n
      → CanReturn i n st
  waiting-CanReturn i j zero st method holder phase differ here there held h =
      absurd (omega (arith, h))
  waiting-CanReturn i j (suc n) st method holder phase differ here there held h = inr (
    j,
    λ m. rw (step-gone_on m j st method holder there) (
        let still =
          get_elem?-set_other st.threads j i (method, (move path m method holder st.shared).0)
            (λ e. differ (sym e))
          ∙ here in
        elim (move-holder path m method holder st.shared held) [
          | inl free ↦
              alone-CanReturn i n (gone_on m j st method holder) phase still (inl free)
                (omega (arith, rank-le phase, (rank-holds holder held).0, h))
          | inr (less, held') ↦
              waiting-CanReturn i j n (gone_on m j st method holder) method
                (move path m method holder st.shared).0 phase differ still
                (get_elem?-set_self st.threads j _ _ there) held' (omega (arith, less, h))
        ]),
  )

  exclusive-CanReturn :
      (i : ℕ) (st : State) (phase : Phase)
      → IsExclusive st
      → get_elem? st.threads i ≡ some (refresh, phase)
      → CanReturn i 12 st
  exclusive-CanReturn i st phase exclusive here = elim (Bool-cases st.shared.locked) [
    | inr free ↦ alone-CanReturn i 12 st phase here (inl free) (omega (arith, rank-le phase))
    | inl taken ↦
        let (j, method, holder, there, held) =
          holder_of st.threads (omega (arith, exclusive, ap is_locked taken)) in
        elim (ℕ_discrete i j) [
          | no differ ↦
              waiting-CanReturn i j 12 st method holder phase differ here there held
                (omega (arith, (rank-holds holder held).1))
          | yes same ↦
              let its : phase ≡ holder =
                ap (λ (t : Method × Phase). t.1)
                  (some-injective _ _ (sym here ∙ (ap (get_elem? st.threads) same ∙ there))) in
              alone-CanReturn i 12 st phase here (inr (ap holds its ∙ held))
                (omega (arith, rank-le phase))
        ]
  ]

  -- However the goroutines have gone on until then, no refresh is stuck: a scheduler that picks the
  -- one that goes on can let it return within twelve steps, whatever the secret store and the
  -- operating system answer at each of them, if at first the mutex was locked exactly if one
  -- goroutine held it.
  pub run-CanReturn :
      (schedule : List (ℕ × Moment)) (st : State) (i : ℕ) (phase : Phase)
      → IsExclusive st
      → get_elem? (run path schedule st).threads i ≡ some (refresh, phase)
      → CanReturn i 12 (run path schedule st)
  run-CanReturn schedule st i phase exclusive here =
      exclusive-CanReturn i (run path schedule st) phase
        (run-IsExclusive path schedule st exclusive) here
