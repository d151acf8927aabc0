-- ===== src/Strings/Split.antt =====
-- Splitting at a separator.
use hasura_secret_refresh.Base.{
  ℕ, ◌≡◌, refl, ◌≢◌, List, [], ◌∷◌, ◌++◌, arith, All, ◌==◌, Bool-cases, inl, inr,
}
use hasura_secret_refresh.Strings.{Text, split, put_front}

abbrev pub Lacks : ℕ → Text → Type 0
Lacks sep = All (λ c. c ≢ sep)

-- A text with no separator is the only part.
pub split-Lacks : (s : Text) (sep : ℕ) → Lacks sep s → split s sep ≡ s ∷ []
unfolding split put_front
split-Lacks [] sep h = refl
split-Lacks (c ∷ s) sep (h, hs) = ground (arith, split-Lacks s sep hs)

-- The text before the first separator is the first part.
pub split-append : (s t : Text) (sep : ℕ) → Lacks sep s → split (s ++ sep ∷ t) sep ≡ s ∷ split t sep
unfolding split put_front
split-append [] t sep h = ground arith
split-append (c ∷ s) t sep (h, hs) = ground (arith, split-append s t sep hs)

-- There is always a first part.
pub split-cons : (s : Text) (sep : ℕ) → (p : Text) × (ps : List Text) × (split s sep ≡ p ∷ ps)
unfolding split put_front
split-cons [] sep = ([], [], refl)
split-cons (c ∷ s) sep = elim (Bool-cases (c == sep)) [
  | inl same ↦ ([], split s sep, ground (arith, same))
  | inr other ↦ let (p, ps, e) = split-cons s sep in (c ∷ p, ps, ground (arith, other, e))
]
