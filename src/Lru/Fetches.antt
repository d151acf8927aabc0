-- ===== src/Lru/Fetches.antt =====
-- FetchSecret of the proxy's providers, run by many requests at once: each call of the cache is a
-- step of its own, and so is the question to the store behind it. The library locks the cache for
-- each of its calls; FetchSecret holds no lock from one to the next.
pub mod Origin
use hasura_secret_refresh.Base.{
  ℕ, zero, suc, ◌≡◌, refl, sym, ◌∙◌, ap, Option, none, some, List, [], ◌∷◌, All, get_elem?, set,
  get_elem?-set_self, get_elem?-set_other, Option-cases, inl, inr, arith,
}
use native.Mathlib.Decide.{ℕ_discrete}
use mathlib.Core.Path.{subst}
use mathlib.Core.Option.{some-injective}
use hasura_secret_refresh.Strings.{Text}
use hasura_secret_refresh.Result.{Result, ok, err, panic}
use hasura_secret_refresh.Lru.{Lru, OnlyAdded, Holds, get-Holds, add-Holds, through}

-- Where a fetch stands.
pub data Phase : Type 0 where
  looking : Phase
  asking : Phase
  adding : Text → Phase
  returned : Result Text → Phase

-- The fetches, each with its key, and the cache that they share.
pub record State (C : Type 0) : Type 0 where
  pub fetches : List (Text × Phase)
  pub cache : C

abbrev found_or : Option Text → Phase
found_or none = asking
found_or (some v) = returned (ok v)

abbrev told : Result Text → Phase
told (ok v) = adding v
told (err e) = returned (err e)
told (panic w) = returned (panic w)

module _ {C : Type 0} (lru : Lru C) where
  -- A step of a fetch. `answer` is what the store answers just then.
  unfoldable pub move : (Text → Result Text) → Text → Phase → C → Phase × C
  move answer key looking c = (found_or (lru.get c key).0, (lru.get c key).1)
  move answer key asking c = (told (answer key), c)
  move answer key (adding v) c = (returned (ok v), lru.add c key v)
  move answer key (returned r) c = (returned r, c)

  abbrev moved : (Text → Result Text) → ℕ → State C → Option (Text × Phase) → State C
  moved answer i st none = st
  moved answer i st (some (key, phase)) =
      let (phase', cache') = move answer key phase st.cache in
      record { fetches = set st.fetches i (key, phase'); cache = cache' }

  -- The fetch of position `i` goes on.
  unfoldable pub step : (Text → Result Text) → ℕ → State C → State C
  unfolding move
  step answer i st = moved answer i st (get_elem? st.fetches i)

  unfoldable pub run : List (ℕ × (Text → Result Text)) → State C → State C
  run [] st = st
  run ((i, answer) ∷ schedule) st = run schedule (step answer i st)

  module _ (P : Text → Text → Type 0) (laws : OnlyAdded lru) where
    -- What is known of a value that a fetch has got.
    abbrev pub Knows : Text × Phase → Type 0
    Knows (key, looking) = Unit
    Knows (key, asking) = Unit
    Knows (key, adding v) = P key v
    Knows (key, returned r) = (v : Text) → r ≡ ok v → P key v

    -- The store gives only what is known of its values.
    abbrev pub Gives : (Text → Result Text) → Type 0
    Gives answer = (key v : Text) → answer key ≡ ok v → P key v

    found_or-Knows :
        (key : Text) (hit : Option Text)
        → ((v : Text) → hit ≡ some v → P key v)
        → Knows (key, found_or hit)
    found_or-Knows key none h = tt
    found_or-Knows key (some u) h = λ v e. h v (ground (arith, e))

    told-Knows :
        (key : Text) (r : Result Text) → ((v : Text) → r ≡ ok v → P key v) → Knows (key, told r)
    told-Knows key (ok v) h = h v refl
    told-Knows key (err e) h = h
    told-Knows key (panic w) h = h

    move-Knows :
        (answer : Text → Result Text) (key : Text) (phase : Phase) (c : C)
        → Gives answer
        → Holds lru P c
        → Knows (key, phase)
        → Knows (key, (move answer key phase c).0) × Holds lru P (move answer key phase c).1
    unfolding move
    move-Knows answer key looking c gives holds h =
        (found_or-Knows key (lru.get c key).0 (holds key), get-Holds lru P laws c key holds)
    move-Knows answer key asking c gives holds h = (told-Knows key (answer key) (gives key), holds)
    move-Knows answer key (adding v) c gives holds h =
        (λ u e. subst (P key) (ground (arith, e)) h, add-Holds lru P laws c key v holds h)
    move-Knows answer key (returned r) c gives holds h = (h, holds)

    -- Every fetch and every entry of the cache has only what the store gave for its key.
    pub record IsSound (st : State C) : Type 0 where
      pub holds : Holds lru P st.cache
      pub knows : (i : ℕ) (fetch : Text × Phase) → get_elem? st.fetches i ≡ some fetch → Knows fetch

    step-IsSound :
        (answer : Text → Result Text) (i : ℕ) (st : State C)
        → Gives answer
        → IsSound st
        → IsSound (step answer i st)
    unfolding step
    step-IsSound answer i st gives sound = elim (Option-cases (get_elem? st.fetches i)) [
      | inl gone ↦ rw (gone, step) sound
      | inr ((key, phase), here) ↦
          let (knows, holds) =
            move-Knows answer key phase st.cache gives sound.holds
              (sound.knows i (key, phase) here) in
          record {
            holds = rw (here, step) holds;
            knows =
                rw (here, step)
                  (λ j fetch there. elim (ℕ_discrete i j) [
                    | yes same ↦
                        subst Knows
                          (some-injective _ _ (
                            sym (
                              get_elem?-set_self st.fetches i
                                (key, (move answer key phase st.cache).0) (key, phase) here)
                            ∙ (ap (get_elem? _) same ∙ there)))
                          knows
                    | no differ ↦ sound.knows j fetch (
                        sym (
                          get_elem?-set_other st.fetches i j
                            (key, (move answer key phase st.cache).0) differ)
                        ∙ there)
                  ]);
          }
    ]

    -- However the fetches of any number of requests interleave, a fetch returns a value only if the
    -- store gave that value, then or before, for that key, and so for every entry of the cache, if
    -- that was so at first and if the cache finds only what was added.
    pub run-IsSound :
        (schedule : List (ℕ × (Text → Result Text))) (st : State C)
        → All (λ (e : ℕ × (Text → Result Text)). Gives e.1) schedule
        → IsSound st
        → IsSound (run schedule st)
    unfolding run
    run-IsSound [] st gives sound = sound
    run-IsSound ((i, answer) ∷ schedule) st (g, gives) sound =
        run-IsSound schedule (step answer i st) gives (step-IsSound answer i st g sound)
