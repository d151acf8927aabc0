-- ===== src/Lru.antt =====
-- The caches of the proxy's providers: the LRU library that they call, and a fetch through it.
pub mod Fetches
use hasura_secret_refresh.Base.{
  ◌≡◌, refl, ◌⊎◌, Option, none, some, arith, Option-cases, inl, inr, ◌∙◌,
}
use hasura_secret_refresh.Strings.{Text}
use hasura_secret_refresh.Result.{Result, ok, err, panic}

-- The cache of the LRU library: a lookup may change the order of use, or drop what has expired.
pub record Lru (C : Type 0) : Type 0 where
  pub get : C → Text → Option Text × C
  pub add : C → Text → Text → C

-- What the library documents of it: an entry that was added is found, and one that was found is
-- found again.
pub record IsLru {C : Type 0} (lru : Lru C) : Type 0 where
  pub get-add : (c : C) (k v : Text) → (lru.get (lru.add c k v) k).0 ≡ some v
  pub get-get :
      (c : C) (k v : Text) → (lru.get c k).0 ≡ some v → (lru.get (lru.get c k).1 k).0 ≡ some v

-- What it documents besides: it finds only what was added, under its key.
pub record OnlyAdded {C : Type 0} (lru : Lru C) : Type 0 where
  pub after_add :
      (c : C) (k v j u : Text)
      → (lru.get (lru.add c k v) j).0 ≡ some u
      → ((k ≡ j) × (v ≡ u)) ⊎ ((lru.get c j).0 ≡ some u)
  pub after_get :
      (c : C) (k j u : Text) → (lru.get (lru.get c k).1 j).0 ≡ some u → (lru.get c j).0 ≡ some u

module _ {C : Type 0} (lru : Lru C) (P : Text → Text → Type 0) where
  -- Every value that the cache finds has the property, with its key.
  abbrev pub Holds : C → Type 0
  Holds c = (key v : Text) → (lru.get c key).0 ≡ some v → P key v

  module _ (laws : OnlyAdded lru) where
    pub get-Holds : (c : C) (k : Text) → Holds c → Holds (lru.get c k).1
    get-Holds c k h key v e = h key v (laws.after_get c k key v e)

    pub add-Holds : (c : C) (k v : Text) → Holds c → P k v → Holds (lru.add c k v)
    add-Holds c k v h p key u e = elim (laws.after_add c k v key u e) [
      | inl (same, equal) ↦ rw (← same, ← equal) p
      | inr there ↦ h key u there
    ]

found : (u v : Text) → ◌≡◌ {A = Result Text} (ok u) (ok v) → some u ≡ some v
found u v e = cc

module _ {S C : Type 0} (lru : Lru C) where
  -- Of what a store answers only a value is added.
  abbrev pub keep : Text → Result Text → C → S → Result Text × C × S
  keep key (ok v) c s = (ok v, lru.add c key v, s)
  keep key (err e) c s = (err e, c, s)
  keep key (panic w) c s = (panic w, c, s)

  -- A fetch through the cache, with what the store answers on a miss.
  unfoldable pub through : Text → Result Text × S → C → S → Result Text × C × S
  through key answer c s = elim (lru.get c key).0 [
    | some v ↦ (ok v, (lru.get c key).1, s)
    | none ↦ keep key answer.0 (lru.get c key).1 answer.1
  ]

  module _ (P : Text → Text → Type 0) (laws : OnlyAdded lru) where
    keep-Holds :
        (key : Text) (r : Result Text) (c : C) (s : S)
        → Holds lru P c
        → ((v : Text) → r ≡ ok v → P key v)
        → Holds lru P (keep key r c s).1 × ((v : Text) → (keep key r c s).0 ≡ ok v → P key v)
    keep-Holds key (ok v) c s h p = (add-Holds lru P laws c key v h (p v refl), p)
    keep-Holds key (err e) c s h p = (h, p)
    keep-Holds key (panic w) c s h p = (h, p)

    -- If every value in the cache has the property, and every value that the store answers, then so
    -- has every value in the cache after the fetch, and the value that it returns.
    pub through-Holds :
        (key : Text) (answer : Result Text × S) (c : C) (s : S)
        → Holds lru P c
        → ((v : Text) → answer.0 ≡ ok v → P key v)
        → Holds lru P (through key answer c s).1
          × ((v : Text) → (through key answer c s).0 ≡ ok v → P key v)
    unfolding through
    through-Holds key answer c s h p = elim (Option-cases (lru.get c key).0) [
      | inl miss ↦
          rw (miss, through)
            (keep-Holds key answer.0 (lru.get c key).1 answer.1 (get-Holds lru P laws c key h) p)
      | inr (u, hit) ↦
          rw (hit, through) (get-Holds lru P laws c key h, λ v e. h key v (hit ∙ found u v e))
    ]

  module _ (laws : IsLru lru) where
    keep-cached :
        (key : Text) (r : Result Text) (c : C) (s : S) (v : Text)
        → (keep key r c s).0 ≡ ok v
        → (lru.get (keep key r c s).1 key).0 ≡ some v
    keep-cached key (ok u) c s v e = laws.get-add c key u ∙ found u v e
    keep-cached key (err x) c s v e = absurd (ground (arith, e))
    keep-cached key (panic w) c s v e = absurd (cc)

    -- A value that a fetch has returned is then in the cache under its key, if the cache finds what
    -- was added to it last, and finds again what it found last.
    pub through-cached :
        (key : Text) (answer : Result Text × S) (c : C) (s : S) (v : Text)
        → (through key answer c s).0 ≡ ok v
        → (lru.get (through key answer c s).1 key).0 ≡ some v
    unfolding through
    through-cached key answer c s v e = elim (Option-cases (lru.get c key).0) [
      | inl miss ↦
          rw (miss, through)
            (keep-cached key answer.0 (lru.get c key).1 answer.1 v (rw (miss, through) at e))
      | inr (u, hit) ↦ ground (arith, e, hit, laws.get-get c key u hit)
    ]

  pub through-hit :
      (key : Text) (answer : Result Text × S) (c : C) (s : S) (v : Text)
      → (lru.get c key).0 ≡ some v
      → ((through key answer c s).0 ≡ ok v) × ((through key answer c s).2 ≡ s)
  unfolding through
  through-hit key answer c s v hit = (ground (arith, hit), ground (arith, hit))
