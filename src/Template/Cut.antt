-- ===== src/Template/Cut.antt =====
-- The segments of a template are what the program's regular expression ##(.*?)## finds in it.
use hasura_secret_refresh.Base.{
  ℕ, zero, suc, ◌≤◌, ◌≡◌, ◌≢◌, refl, true, false, some, List, [], ◌∷◌, ◌++◌, length, arith, All, ap,
  Bool-cases, Option-cases, inl, inr, ◌==◌, drop,
}
use hasura_secret_refresh.Strings.{Text, codes, has_prefix}
use hasura_secret_refresh.Template.{
  newline, find_close, match_tag, Segment, lit, tag, segments_fuel, segments,
}
use hasura_secret_refresh.Template.Segments.{
  match_tag_sound, match_tag-length, segments_fuel_lit, segments_fuel_tag,
}

-- A text that starts with a ## , a name on one line, and another ## .
pub record Starts (s name rest : Text) : Type 0 where
  pub spelled : s ≡ codes "##" ++ (name ++ (codes "##" ++ rest))
  pub one_line : All (λ c. c ≢ newline) name

-- A text, and the segments that it falls into from left to right: a match where there is one, with
-- the shortest name that there is, and else a character.
pub data IsCut : Text → List Segment → Type 0 where
  finished : IsCut [] []
  character :
      (c : ℕ) (s : Text) (segs : List Segment)
      → ((name rest : Text) → Starts (c ∷ s) name rest → ⊥)
      → IsCut s segs
      → IsCut (c ∷ s) (lit c ∷ segs)
  matched :
      (s name rest : Text) (segs : List Segment)
      → Starts s name rest
      → ((other behind : Text) → Starts s other behind → length name ≤ length other)
      → IsCut rest segs
      → IsCut s (tag name ∷ segs)

find_close-on :
    (c : ℕ) (s n r : Text)
    → has_prefix (c ∷ s) (codes "##") ≡ false
    → c ≢ newline
    → find_close s ≡ some (n, r)
    → find_close (c ∷ s) ≡ some (c ∷ n, r)
unfolding find_close
find_close-on c s n r going line found =
    let long : (c == newline) ≡ false = ground (arith, line) in rw (going, long, found) refl

find_close-here :
    (s : Text) → has_prefix s (codes "##") ≡ true → s ≢ [] → find_close s ≡ some ([], drop 2 s)
unfolding find_close
find_close-here [] closed h = absurd (h refl)
find_close-here (c ∷ s) closed h = rw closed refl

-- Where a name can be closed, `find_close` finds a name that is no longer.
find_close_complete :
    (name rest : Text)
    → All (λ c. c ≢ newline) name
    → (n : Text) × (r : Text) × (find_close (name ++ (codes "##" ++ rest)) ≡ some (n, r))
      × (length n ≤ length name)
find_close_complete [] rest h = (
  [],
  rest,
  unfold has_prefix in find_close-here (codes "##" ++ rest) refl (λ e. cc),
  omega arith,
)
find_close_complete (c ∷ name) rest (line, lines) =
    let (n, r, found, short) = find_close_complete name rest lines in
    let s = name ++ (codes "##" ++ rest) in
    elim (Bool-cases (has_prefix (c ∷ s) (codes "##"))) [
      | inl closed ↦ ([], drop 1 s, find_close-here (c ∷ s) closed (λ e. cc), omega arith)
      | inr going ↦ (c ∷ n, r, find_close-on c s n r going line found, omega (arith, short))
    ]

match_tag_complete :
    (s name rest : Text)
    → Starts s name rest
    → (n : Text) × (r : Text) × (match_tag s ≡ some (n, r)) × (length n ≤ length name)
unfolding match_tag has_prefix
match_tag_complete s name rest starts =
    rw starts.spelled (find_close_complete name rest starts.one_line)

segments_fuel-IsCut : (f : ℕ) (s : Text) → length s ≤ f → IsCut s (segments_fuel f s)
unfolding segments_fuel
segments_fuel-IsCut zero [] h = finished
segments_fuel-IsCut zero (c ∷ s) h = absurd (omega arith)
segments_fuel-IsCut (suc f) [] h = finished
segments_fuel-IsCut (suc f) (c ∷ s) h = elim (Option-cases (match_tag (c ∷ s))) [
  | inl e ↦ rw (segments_fuel_lit f c s e) (
      character c s _
        (λ name rest starts.
          let (n, r, found, short) = match_tag_complete (c ∷ s) name rest starts in
          ground (arith, e, found))
        (segments_fuel-IsCut f s (omega arith)))
  | inr ((name, rest), e) ↦
      let (spelled, lines) = match_tag_sound (c ∷ s) name rest e in
      rw (segments_fuel_tag f c s name rest e) (
        matched (c ∷ s) name rest _ (record { spelled = spelled; one_line = lines })
          (λ other behind starts.
            let (n, r, found, short) = match_tag_complete (c ∷ s) other behind starts in
            let same : n ≡ name = ground (arith, e, found) in omega (arith, short, ap length same))
          (segments_fuel-IsCut f rest (omega (arith, h, match_tag-length (c ∷ s) name rest e))))
]

-- The segments of every template are the leftmost matches of ##(.*?)## that do not overlap, each with
-- the shortest name that is closed on its line, and the characters between them.
pub segments-IsCut : (s : Text) → IsCut s (segments s)
unfolding segments
segments-IsCut s = segments_fuel-IsCut (length s) s (omega arith)
