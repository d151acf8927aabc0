-- ===== src/Strings/Trim.antt =====
-- Trimming: what it leaves alone, and what it takes off.
use mathlib.Core.List.{reverse, reverse-append, reverse-reverse}
use hasura_secret_refresh.Base.{
  ℕ, ◌≡◌, refl, Bool, true, false, [], ◌∷◌, ◌++◌, All, All-append, drop_while, ◌∙◌, ap,
}
use hasura_secret_refresh.Strings.{Text, trim_left, trim_right, is_space, trim_space}

module _ (p : ℕ → Bool) where
  -- No character of the text satisfies p.
  abbrev pub Free : Text → Type 0
  Free s = All (λ c. p c ≡ false) s

  drop_while-Free : (s : Text) → Free s → drop_while p s ≡ s
  drop_while-Free [] h = refl
  drop_while-Free (c ∷ s) (h, hs) = rw h

  drop_while_front : (c : ℕ) (s : Text) → p c ≡ false → drop_while p (c ∷ s) ≡ c ∷ s
  drop_while_front c s h = rw h

  drop_while_skip : (c : ℕ) (s : Text) → p c ≡ true → drop_while p (c ∷ s) ≡ drop_while p s
  drop_while_skip c s h = rw h

  Free-reverse : (s : Text) → Free s → Free (reverse s)
  Free-reverse [] h = tt
  Free-reverse (c ∷ s) (h, hs) =
      rw (reverse-append (c ∷ []) s)
        (All-append (λ c. p c ≡ false) (reverse s) (c ∷ []) (Free-reverse s hs) (h, tt))

  pub trim_right-Free : (s : Text) → Free s → trim_right p s ≡ s
  unfolding trim_right trim_left
  trim_right-Free s h = rw (drop_while-Free (reverse s) (Free-reverse s h)) (reverse-reverse s)

  -- A last character that is kept keeps the whole text.
  pub trim_right_kept : (s : Text) (c : ℕ) → p c ≡ false → trim_right p (s ++ c ∷ []) ≡ s ++ c ∷ []
  unfolding trim_right trim_left
  trim_right_kept s c h =
      rw (reverse-append s (c ∷ []), drop_while_front c (reverse s) h)
        (reverse-append (c ∷ []) (reverse s) ∙ ap (λ (t : Text). t ++ c ∷ []) (reverse-reverse s))

  pub trim_right_skip :
      (s : Text) (c : ℕ) → p c ≡ true → trim_right p (s ++ c ∷ []) ≡ trim_right p s
  unfolding trim_right trim_left
  trim_right_skip s c h = rw (reverse-append s (c ∷ []), drop_while_skip c (reverse s) h)

  pub trim_left-Free : (s : Text) → Free s → trim_left p s ≡ s
  unfolding trim_left
  trim_left-Free s h = drop_while-Free s h

-- A text with no space is its own trimming.
pub trim_space-Free : (s : Text) → Free is_space s → trim_space s ≡ s
unfolding trim_space
trim_space-Free s h = rw (trim_left-Free is_space s h) (trim_right-Free is_space s h)
