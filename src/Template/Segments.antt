-- ===== src/Template/Segments.antt =====
-- How a template falls into literal characters and tags.
use hasura_secret_refresh.Base.{
  ℕ, zero, suc, ◌+◌, ◌≤◌, ◌≡◌, refl, ◌≢◌, true, false, Option, none, some, List, [], ◌∷◌, ◌++◌,
  ◌==◌, length, drop, arith, All, ap, Bool-cases, Option-cases, inl, inr, length-append, sym, ◌∙◌,
}
use hasura_secret_refresh.Strings.{Text, codes, has_prefix}
use hasura_secret_refresh.Template.{
  newline, put_char, find_close, match_tag, Segment, lit, tag, segments_fuel, segments,
}

-- The text that a list of segments was cut from.
pub spell : List Segment → Text
spell [] = []
spell (lit c ∷ r) = c ∷ spell r
spell (tag name ∷ r) = codes "##" ++ (name ++ (codes "##" ++ spell r))

pair_sound : (s : Text) → has_prefix s (codes "##") ≡ true → s ≡ codes "##" ++ drop 2 s
unfolding has_prefix
pair_sound [] h = cc
pair_sound (c ∷ []) h = ground arith
pair_sound (c ∷ d ∷ s) h = ground arith

put_char_sound :
    (c : ℕ) (o : Option (Text × Text)) (name rest : Text)
    → put_char c o ≡ some (name, rest)
    → (name' : Text) × (o ≡ some (name', rest)) × (name ≡ c ∷ name')
put_char_sound c none name rest h = cc
put_char_sound c (some (n, r)) name rest h = (n, ground arith, ground arith)

-- What `find_close` finds stands in the text, and the name that it finds holds no newline.
find_close_sound :
    (s name rest : Text)
    → find_close s ≡ some (name, rest)
    → (s ≡ name ++ (codes "##" ++ rest)) × All (λ c. c ≢ newline) name
unfolding find_close
find_close_sound [] name rest h = cc
find_close_sound (c ∷ s) name rest h = elim (Bool-cases (has_prefix (c ∷ s) (codes "##"))) [
  | inl closed ↦
      let e : name ≡ [] = ground arith in
      let e' : rest ≡ drop 1 s = ground arith in rw (e, e') (pair_sound (c ∷ s) closed, tt)
  | inr going ↦
      let line : (c == newline) ≡ false = ground arith in
      let (name', found, e) = put_char_sound c (find_close s) name rest (rw (going, line) at h) in
      let (spelled, lines) = find_close_sound s name' rest found in
      rw e (ap (λ (t : Text). c ∷ t) spelled, (ground arith, lines))
]

-- What `match_tag` finds stands at the start of the text.
pub match_tag_sound :
    (s name rest : Text)
    → match_tag s ≡ some (name, rest)
    → (s ≡ codes "##" ++ (name ++ (codes "##" ++ rest))) × All (λ c. c ≢ newline) name
unfolding match_tag
match_tag_sound s name rest h = elim (Bool-cases (has_prefix s (codes "##"))) [
  | inl opened ↦
      let (spelled, lines) = find_close_sound (drop 2 s) name rest (rw opened at h) in
      (pair_sound s opened ∙ ap (λ (t : Text). codes "##" ++ t) spelled, lines)
  | inr no_tag ↦ ground arith
]

pub match_tag-length :
    (s name rest : Text) → match_tag s ≡ some (name, rest) → length rest + 4 ≤ length s
match_tag-length s name rest h =
    omega
      (arith, ap length (match_tag_sound s name rest h).0, length-append name (codes "##" ++ rest))

pub segments_fuel_lit :
    (f c : ℕ) (s : Text)
    → match_tag (c ∷ s) ≡ none
    → segments_fuel (suc f) (c ∷ s) ≡ lit c ∷ segments_fuel f s
unfolding segments_fuel
segments_fuel_lit f c s e = rw (e, segments_fuel)

pub segments_fuel_tag :
    (f c : ℕ) (s name rest : Text)
    → match_tag (c ∷ s) ≡ some (name, rest)
    → segments_fuel (suc f) (c ∷ s) ≡ tag name ∷ segments_fuel f rest
unfolding segments_fuel
segments_fuel_tag f c s name rest e = rw (e, segments_fuel)

-- With fuel for every character the segments spell the whole text: nothing is lost.
spell-segments_fuel : (f : ℕ) (s : Text) → length s ≤ f → spell (segments_fuel f s) ≡ s
unfolding spell segments_fuel
spell-segments_fuel zero [] h = refl
spell-segments_fuel zero (c ∷ s) h = absurd (omega arith)
spell-segments_fuel (suc f) [] h = refl
spell-segments_fuel (suc f) (c ∷ s) h = elim (Option-cases (match_tag (c ∷ s))) [
  | inl e ↦
      rw (segments_fuel_lit f c s e)
        (ap (λ (t : Text). c ∷ t) (spell-segments_fuel f s (omega arith)))
  | inr ((name, rest), e) ↦
      rw
        (
          segments_fuel_tag f c s name rest e,
          spell-segments_fuel f rest (omega (arith, match_tag-length (c ∷ s) name rest e)),
        )
        (sym (match_tag_sound (c ∷ s) name rest e).0)
]

-- More fuel than the length changes nothing.
pub segments_fuel_enough :
    (f g : ℕ) (s : Text) → length s ≤ f → length s ≤ g → segments_fuel f s ≡ segments_fuel g s
unfolding segments_fuel
segments_fuel_enough zero zero s h k = refl
segments_fuel_enough zero (suc g) [] h k = refl
segments_fuel_enough zero (suc g) (c ∷ s) h k = absurd (omega arith)
segments_fuel_enough (suc f) zero [] h k = refl
segments_fuel_enough (suc f) zero (c ∷ s) h k = absurd (omega arith)
segments_fuel_enough (suc f) (suc g) [] h k = refl
segments_fuel_enough (suc f) (suc g) (c ∷ s) h k = elim (Option-cases (match_tag (c ∷ s))) [
  | inl e ↦
      rw (segments_fuel_lit f c s e, segments_fuel_lit g c s e)
        (ap (λ r. lit c ∷ r) (segments_fuel_enough f g s (omega arith) (omega arith)))
  | inr ((name, rest), e) ↦
      let shorter = match_tag-length (c ∷ s) name rest e in
      rw (segments_fuel_tag f c s name rest e, segments_fuel_tag g c s name rest e)
        (ap (λ r. tag name ∷ r) (segments_fuel_enough f g rest (omega arith) (omega arith)))
]

-- The segments of every template spell it, character by character.
pub spell-segments : (s : Text) → spell (segments s) ≡ s
unfolding segments
spell-segments s = spell-segments_fuel (length s) s (omega arith)
