-- ===== src/Template/Substitute.antt =====
-- What Substitute puts in the place of a tag.
use hasura_secret_refresh.Base.{
  ℕ, zero, suc, ◌≤◌, ◌≡◌, refl, Bool, true, false, ◌||◌, Option, none, some, List, [], ◌∷◌, ◌++◌,
  length, arith, append-nil, ap, sym, ◌∙◌, map,
}
use hasura_secret_refresh.Strings.{Text, codes, has_prefix, trim_space}
use hasura_secret_refresh.Strings.Split.{Lacks, split-Lacks, split-append}
use hasura_secret_refresh.Assoc.{lookup}
use hasura_secret_refresh.Value.{Object}
use hasura_secret_refresh.Template.{
  match_tag, Segment, lit, tag, segments_fuel, segments, show_value, json_path, json_template,
  replace, substitute,
}
use hasura_secret_refresh.Template.Segments.{segments_fuel_lit}
use hasura_secret_refresh.Template.Tags.{
  IsPlain, IsName, tagged, segments_fuel-tagged, tag_name-plain,
}

-- What stands between the tags of a list of segments.
pub literals : List Segment → Text
literals [] = []
literals (lit c ∷ r) = c ∷ literals r
literals (tag name ∷ r) = literals r

-- Does ## stand in a text?
unfoldable pub has_pair : Text → Bool
has_pair [] = false
has_pair (c ∷ s) = has_prefix (c ∷ s) (codes "##") || has_pair s

module _ (unmarshal : Text → Option Object) (secret : Text) where
  replace-lits :
      (go : Bool) (pre : Text) (r : List Segment)
      → replace unmarshal secret go (map lit pre ++ r) ≡ pre ++ replace unmarshal secret go r
  unfolding replace
  replace-lits go [] r = refl
  replace-lits true (c ∷ pre) r = ap (λ (t : Text). c ∷ t) (replace-lits true pre r)
  replace-lits false (c ∷ pre) r = ap (λ (t : Text). c ∷ t) (replace-lits false pre r)

  -- A template that is plain up to a tag becomes that plain text, the tag's replacement, and the
  -- rest of the template, looked at or not as the tag's lookup says.
  substitute-tagged :
      (pre name post : Text)
      → IsPlain pre
      → IsName name
      → substitute unmarshal (pre ++ tagged name post) secret
        ≡ pre
          ++ ((json_template unmarshal name secret).0
              ++ replace unmarshal secret (json_template unmarshal name secret).1 (segments post))
  unfolding substitute
  substitute-tagged pre name post h k =
      rw
        (
          segments_fuel-tagged pre name post (length (pre ++ tagged name post)) h k (omega arith),
          replace-lits true pre,
        )
        (ap
          (λ (t : Text).
            pre
            ++ ((json_template unmarshal t secret).0
                ++ replace unmarshal secret (json_template unmarshal t secret).1 (segments post)))
          (tag_name-plain name k.0))

  json_template-whole :
      (name : Text) → Lacks b'.' name → json_template unmarshal name secret ≡ (secret, true)
  unfolding json_template
  json_template-whole name h = rw (split-Lacks name b'.' h)

  json_template-key :
      (a b : Text) (parsed : Object)
      → Lacks b'.' a
      → Lacks b'.' b
      → unmarshal secret ≡ some parsed
      → json_template unmarshal (a ++ b'.' ∷ b) secret
        ≡ (show_value (lookup (trim_space b) parsed), true)
  unfolding json_template
  json_template-key a b parsed ha hb e =
      rw (split-append a b b'.' ha, split-Lacks b b'.' hb) (rw (e, json_path))

  json_template-failed :
      (a b : Text)
      → Lacks b'.' a
      → Lacks b'.' b
      → unmarshal secret ≡ none
      → json_template unmarshal (a ++ b'.' ∷ b) secret ≡ ([], false)
  unfolding json_template
  json_template-failed a b ha hb e =
      rw (split-append a b b'.' ha, split-Lacks b b'.' hb) (rw (e, json_path))

  replace-stopped : (r : List Segment) → replace unmarshal secret false r ≡ literals r
  unfolding replace literals
  replace-stopped [] = refl
  replace-stopped (lit c ∷ r) = ap (λ (t : Text). c ∷ t) (replace-stopped r)
  replace-stopped (tag name ∷ r) = replace-stopped r

  replace-after :
      (pre name post : Text) (res : Text) (go : Bool)
      → IsPlain pre
      → IsName name
      → json_template unmarshal name secret ≡ (res, go)
      → substitute unmarshal (pre ++ tagged name post) secret
        ≡ pre ++ (res ++ replace unmarshal secret go (segments post))
  replace-after pre name post res go h k e =
      substitute-tagged pre name post h k
      ∙ ap (λ (t : Text × Bool). pre ++ (t.0 ++ replace unmarshal secret t.1 (segments post))) e

  -- Behind a text with no # , which is kept, a tag whose name has no # , no newline and no dot is
  -- replaced by the whole secret, and the rest of the template by its own substitution.
  pub substitute_whole :
      (pre name post : Text)
      → IsPlain pre
      → IsName name
      → Lacks b'.' name
      → substitute unmarshal (pre ++ tagged name post) secret
        ≡ pre ++ (secret ++ substitute unmarshal post secret)
  unfolding substitute
  substitute_whole pre name post h k d =
      replace-after pre name post secret true h k (json_template-whole name d)

  -- Behind a text with no # , which is kept, a tag a.b with no # , no newline and no other dot is
  -- replaced by what the parsed secret shows under b without its outer spaces, and the rest of the
  -- template by its own substitution, if the secret is a JSON object.
  pub substitute_key :
      (pre a b post : Text) (parsed : Object)
      → IsPlain pre
      → IsName (a ++ b'.' ∷ b)
      → Lacks b'.' a
      → Lacks b'.' b
      → unmarshal secret ≡ some parsed
      → substitute unmarshal (pre ++ tagged (a ++ b'.' ∷ b) post) secret
        ≡ pre ++ (show_value (lookup (trim_space b) parsed) ++ substitute unmarshal post secret)
  unfolding substitute
  substitute_key pre a b post parsed h k ha hb e =
      replace-after pre _ post _ true h k (json_template-key a b parsed ha hb e)

  -- If encoding/json can read the secret neither as an object nor as null, a tag a.b behind a text
  -- with no # , and every tag behind it, with a dot or without, leave nothing; of the rest only the
  -- characters between the tags remain. The tag a.b has no # , no newline and no other dot.
  pub substitute_failed :
      (pre a b post : Text)
      → IsPlain pre
      → IsName (a ++ b'.' ∷ b)
      → Lacks b'.' a
      → Lacks b'.' b
      → unmarshal secret ≡ none
      → substitute unmarshal (pre ++ tagged (a ++ b'.' ∷ b) post) secret
        ≡ pre ++ literals (segments post)
  substitute_failed pre a b post h k ha hb e =
      replace-after pre _ post _ false h k (json_template-failed a b ha hb e)
      ∙ ap (λ (t : Text). pre ++ t) (replace-stopped (segments post))

  segments_fuel-untagged :
      (f : ℕ) (s : Text) → has_pair s ≡ false → length s ≤ f → segments_fuel f s ≡ map lit s
  unfolding has_pair
  segments_fuel-untagged zero [] h l = unfold segments_fuel in refl
  segments_fuel-untagged zero (c ∷ s) h l = absurd (omega arith)
  segments_fuel-untagged (suc f) [] h l = unfold segments_fuel in refl
  segments_fuel-untagged (suc f) (c ∷ s) h l =
      segments_fuel_lit f c s (unfold match_tag in ground arith)
      ∙ ap (λ r. lit c ∷ r) (segments_fuel-untagged f s (ground arith) (omega arith))

  -- A template in which ## does not stand is not changed, whatever the secret.
  pub substitute_untagged :
      (templ : Text) → has_pair templ ≡ false → substitute unmarshal templ secret ≡ templ
  unfolding substitute
  substitute_untagged templ h = rw (segments_fuel-untagged (length templ) templ h (omega arith)) (
      ap (replace unmarshal secret true) (sym (append-nil (map lit templ)))
      ∙ replace-lits true templ []
      ∙ append-nil templ)
