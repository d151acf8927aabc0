-- ===== src/Main/Distinct.antt =====
-- The keys of a Go map: each stands in it once, so the order of the entries decides nothing.
use hasura_secret_refresh.Base.{
  ◌≡◌, refl, ◌≢◌, Option, some, List, [], ◌∷◌, All, ap, sym, ◌∙◌, Option-cases, inl, inr,
}
use mathlib.Core.Path.{subst}
use mathlib.Core.List.{Permᴰ}
use hasura_secret_refresh.Strings.{Text}
use hasura_secret_refresh.Value.{Value, Object}
use hasura_secret_refresh.Main.Names.{over, over_assoc, over-none, last_of}

pub All-Permᴰ {ℓ κ} :
    {A : Type ℓ} (P : A → Type κ) {xs ys : List A} → Permᴰ xs ys → All P xs → All P ys
All-Permᴰ P Permᴰ.nil h = tt
All-Permᴰ P (Permᴰ.cons e m) (h, hs) = (rw (← e) h, All-Permᴰ P m hs)
All-Permᴰ P (Permᴰ.swap e f) (h, (k, hs)) = (rw (← f) k, (rw (← e) h, hs))
All-Permᴰ P (Permᴰ.trans m n) h = All-Permᴰ P n (All-Permᴰ P m h)

abbrev Differs : Text → Text × Value → Type 0
Differs k e = e.0 ≢ k

-- The entries of a map: no key stands twice among them.
abbrev pub DistinctKeys : Object → Type 0
DistinctKeys [] = Unit
DistinctKeys (e ∷ rest) = All (Differs e.0) rest × DistinctKeys rest

DistinctKeys-Permᴰ : {raw other : Object} → Permᴰ raw other → DistinctKeys raw → DistinctKeys other
DistinctKeys-Permᴰ Permᴰ.nil h = tt
DistinctKeys-Permᴰ (Permᴰ.cons {a} {b} e m) (h, hs) =
    (All-Permᴰ (Differs b.0) m (rw e at h), DistinctKeys-Permᴰ m hs)
DistinctKeys-Permᴰ (Permᴰ.swap {a} {b} {l} e f) ((h, hs), (k, ks)) =
    let apart = λ (x : Text × Value). All (Differs x.0) l in
    ((rw (← e, ← f) (λ q. h (sym q)), subst apart f k), (subst apart e hs, ks))
DistinctKeys-Permᴰ (Permᴰ.trans m n) h = DistinctKeys-Permᴰ n (DistinctKeys-Permᴰ m h)

-- `f` reads the entries of one key only.
module _ {ℓ} {A : Type ℓ} (f : Text × Value → Option A) (key : Text)
    (only : (e : Text × Value) (a : A) → f e ≡ some a → e.0 ≡ key) where
  over_swap : (d e : Text × Value) → e.0 ≢ d.0 → over (f e) (f d) ≡ over (f d) (f e)
  over_swap d e differ = elim (Option-cases (f d)) [
    | inl gone ↦ rw gone (over-none (f e))
    | inr (a, found) ↦ elim (Option-cases (f e)) [
      | inl gone' ↦ rw gone' (sym (over-none (f d)))
      | inr (b, found') ↦ absurd (differ (only e b found' ∙ sym (only d a found)))
    ]
  ]

  -- What is read at one key of a map does not depend on the order of the entries.
  pub last_of-Permᴰ :
      {raw other : Object} → Permᴰ raw other → DistinctKeys raw → last_of f raw ≡ last_of f other
  last_of-Permᴰ Permᴰ.nil h = refl
  last_of-Permᴰ (Permᴰ.cons {b} {l₂} e m) (h, hs) = rw (e, last_of-Permᴰ m hs) refl
  last_of-Permᴰ (Permᴰ.swap {a} {b} {a'} {b'} {l} e g) ((h, hs), ks) =
      over_assoc (last_of f l) (f b) (f a)
      ∙ (ap (over (last_of f l)) (over_swap a b h)
          ∙ (sym (over_assoc (last_of f l) (f a) (f b)) ∙ rw (e, g) refl))
  last_of-Permᴰ (Permᴰ.trans m n) h = last_of-Permᴰ m h ∙ last_of-Permᴰ n (DistinctKeys-Permᴰ m h)
