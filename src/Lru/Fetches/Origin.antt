-- ===== src/Lru/Fetches/Origin.antt =====
-- Where a value comes from that one of many fetches returns, and what one fetch alone does.
use hasura_secret_refresh.Base.{
  ℕ, zero, suc, ◌≡◌, refl, ◌⊎◌, inl, inr, some, List, [], ◌∷◌, All, get_elem?, Option-cases,
}
use mathlib.Core.Path.{subst}
use mathlib.Core.Option.{some-injective}
use hasura_secret_refresh.Strings.{Text}
use hasura_secret_refresh.Result.{Result, ok, Result-cases}
use hasura_secret_refresh.Lru.{Lru, OnlyAdded, through}
use hasura_secret_refresh.Lru.Fetches.{
  Phase, looking, returned, State, move, step, run, Knows, Gives, run-IsSound,
}

-- At some step of the schedule the store gave that value for that key.
abbrev pub Given : List (ℕ × (Text → Result Text)) → Text → Text → Type 0
Given [] key v = ⊥
Given ((i, answer) ∷ schedule) key v = (answer key ≡ ok v) ⊎ Given schedule key v

module _ {C : Type 0} (lru : Lru C) (laws : OnlyAdded lru) where
  Given-Gives :
      (P : Text → Text → Type 0) (schedule : List (ℕ × (Text → Result Text)))
      → ((key v : Text) → Given schedule key v → P key v)
      → All (λ (e : ℕ × (Text → Result Text)). Gives lru P laws e.1) schedule
  Given-Gives P [] h = tt
  Given-Gives P ((i, answer) ∷ schedule) h =
      (λ key v e. h key v (inl e), Given-Gives P schedule (λ key v g. h key v (inr g)))

  abbrev AllLooking : List (Text × Phase) → Type 0
  AllLooking = All (λ (f : Text × Phase). f.1 ≡ looking)

  looking-Knows :
      (P : Text → Text → Type 0) (fetches : List (Text × Phase)) (i : ℕ) (fetch : Text × Phase)
      → AllLooking fetches
      → get_elem? fetches i ≡ some fetch
      → Knows lru P laws fetch
  looking-Knows P [] i fetch h e = cc
  looking-Knows P ((key, phase) ∷ fetches) zero fetch (h, hs) e =
      subst (Knows lru P laws) (some-injective _ _ e) (rw h tt)
  looking-Knows P (f ∷ fetches) (suc i) fetch (h, hs) e = looking-Knows P fetches i fetch hs e

  -- However the fetches of any number of requests interleave, a value that one of them returns was
  -- in the cache under its key when they began, or the store gave it for that key in between, if the
  -- cache finds only what was added.
  pub run-returned :
      (schedule : List (ℕ × (Text → Result Text))) (st : State C) (i : ℕ) (key v : Text)
      → AllLooking st.fetches
      → get_elem? (run lru schedule st).fetches i ≡ some (key, returned (ok v))
      → ((lru.get st.cache key).0 ≡ some v) ⊎ Given schedule key v
  run-returned schedule st i key v begin done =
      let P : Text → Text → Type 0 =
        λ k u. ((lru.get st.cache k).0 ≡ some u) ⊎ Given schedule k u in
      let sound =
        run-IsSound lru P laws schedule st (Given-Gives P schedule (λ k u g. inr g)) (record {
          holds = λ k u e. inl e;
          knows = λ j fetch e. looking-Knows P st.fetches j fetch begin e;
        }) in
      sound.knows i (key, returned (ok v)) done v refl

module _ {C S : Type 0} (lru : Lru C) where
  -- A fetch that no other interrupts is a fetch through the cache as a whole.
  pub run-through :
      (answer : Text → Result Text) (key : Text) (c : C) (s : S)
      → run lru
          ((0, answer) ∷ (0, answer) ∷ (0, answer) ∷ [])
          (record { fetches = (key, looking) ∷ []; cache = c })
        ≡ record {
          fetches = (key, returned (through lru key (answer key, s) c s).0) ∷ [];
          cache = (through lru key (answer key, s) c s).1;
        }
  unfolding run step move through
  run-through answer key c s = elim (Option-cases (lru.get c key).0) [
    | inr (v, hit) ↦ rw (hit, move, through) refl
    | inl miss ↦ elim (Result-cases (answer key)) [
      | inl (v, e) ↦ rw (miss, e, move, through) refl
      | inr (inl (x, e)) ↦ rw (miss, e, move, through) refl
      | inr (inr (x, e)) ↦ rw (miss, e, move, through) refl
    ]
  ]
