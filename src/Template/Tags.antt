-- ===== src/Template/Tags.antt =====
-- How a tag is found behind plain text, and the name that is looked up.
use hasura_secret_refresh.Base.{
  ℕ, zero, suc, ◌≤◌, ◌≡◌, refl, ◌≢◌, none, some, [], ◌∷◌, ◌++◌, length, arith, append_assoc, ap,
  length-append, sym, ◌∙◌, map,
}
use hasura_secret_refresh.Strings.{
  Text, codes, has_prefix, is_space, trim_space, trim_left, trim_right,
}
use hasura_secret_refresh.Strings.Trim.{Free, trim_right-Free, trim_right_kept, trim_right_skip}
use hasura_secret_refresh.Strings.Split.{Lacks}
use hasura_secret_refresh.Template.{
  newline, find_close, match_tag, lit, tag, segments_fuel, segments, is_hash, tag_name,
}
use hasura_secret_refresh.Template.Segments.{
  segments_fuel_lit, segments_fuel_tag, segments_fuel_enough,
}

-- The text of a template around and in its tags: no hash, and in a tag no newline.
abbrev pub IsPlain : Text → Type 0
IsPlain = Lacks b'#'

abbrev pub IsName : Text → Type 0
IsName name = IsPlain name × Lacks newline name

abbrev pub tagged : Text → Text → Text
tagged name post = codes "##" ++ (name ++ (codes "##" ++ post))

find_close-name :
    (name post : Text) → IsName name → find_close (name ++ (codes "##" ++ post)) ≡ some (name, post)
unfolding find_close has_prefix
find_close-name [] post h = refl
find_close-name (c ∷ name) post ((p, ps), (q, qs)) =
    ground (arith, find_close-name name post (ps, qs))

match_tag-tagged :
    (name post : Text) → IsName name → match_tag (tagged name post) ≡ some (name, post)
unfolding match_tag has_prefix
match_tag-tagged name post h = find_close-name name post h

match_tag-plain : (c : ℕ) (s : Text) → c ≢ b'#' → match_tag (c ∷ s) ≡ none
unfolding match_tag has_prefix
match_tag-plain c s h = ground arith

pub segments_fuel-tagged :
    (pre name post : Text) (f : ℕ)
    → IsPlain pre
    → IsName name
    → length (pre ++ tagged name post) ≤ f
    → segments_fuel f (pre ++ tagged name post) ≡ map lit pre ++ tag name ∷ segments post
unfolding segments
segments_fuel-tagged [] name post zero h k l = absurd (omega arith)
segments_fuel-tagged [] name post (suc f) h k l =
    segments_fuel_tag f b'#' (b'#' ∷ (name ++ (codes "##" ++ post))) name post
      (match_tag-tagged name post k)
    ∙ ap (λ r. tag name ∷ r)
        (segments_fuel_enough f (length post) post
          (omega (arith, length-append name (codes "##" ++ post))) (omega arith))
segments_fuel-tagged (c ∷ pre) name post zero h k l = absurd (omega arith)
segments_fuel-tagged (c ∷ pre) name post (suc f) (h, hs) k l =
    segments_fuel_lit f c (pre ++ tagged name post) (match_tag-plain c (pre ++ tagged name post) h)
    ∙ ap (λ r. lit c ∷ r) (segments_fuel-tagged pre name post f hs k (omega arith))

IsPlain-Free : (s : Text) → IsPlain s → Free is_hash s
IsPlain-Free [] h = tt
IsPlain-Free (c ∷ s) (h, hs) = (ground arith, IsPlain-Free s hs)

two_hashes : (s : Text) → s ++ codes "##" ≡ (s ++ b'#' ∷ []) ++ b'#' ∷ []
two_hashes s = sym (append_assoc s (b'#' ∷ []) (b'#' ∷ []))

trim_space-tagged :
    (name : Text)
    → trim_space (codes "##" ++ (name ++ codes "##")) ≡ codes "##" ++ (name ++ codes "##")
trim_space-tagged name = rw (two_hashes name) (
    unfold trim_space in
    (trim_right_kept is_space (codes "##" ++ (name ++ b'#' ∷ [])) b'#' (unfold is_space in refl)))

trim_left-tagged :
    (name : Text)
    → IsPlain name
    → trim_right is_hash (trim_left is_hash (codes "##" ++ (name ++ codes "##"))) ≡ name
unfolding trim_left
trim_left-tagged [] h = unfold trim_right in refl
trim_left-tagged (c ∷ name) (h, hs) = rw ((IsPlain-Free (c ∷ name) (h, hs)).0) (
    rw
      (
        two_hashes (c ∷ name),
        trim_right_skip is_hash ((c ∷ name) ++ b'#' ∷ []) b'#' refl,
        trim_right_skip is_hash (c ∷ name) b'#' refl,
      )
      (trim_right-Free is_hash (c ∷ name) (IsPlain-Free (c ∷ name) (h, hs))))

-- A name with no hash reaches the lookup as it is.
pub tag_name-plain : (name : Text) → IsPlain name → tag_name name ≡ name
unfolding tag_name
tag_name-plain name h = rw (trim_space-tagged name) (trim_left-tagged name h)
