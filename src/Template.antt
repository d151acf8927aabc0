-- ===== src/Template.antt =====
-- template/template.go: a text with ##tags## that a secret is substituted into.
pub mod Segments
pub mod Cut
pub mod Tags
pub mod Substitute
use hasura_secret_refresh.Base.{
  ℕ, zero, suc, Bool, true, false, Option, none, some, List, [], ◌∷◌, ◌++◌, ◌==◌, if◌then◌else◌,
  length, drop,
}
use hasura_secret_refresh.Strings.{
  Text, codes, has_prefix, split, trim_space, trim_left, trim_right,
}
use hasura_secret_refresh.Assoc.{lookup}
use hasura_secret_refresh.Value.{Value, Object, obj, show}

abbrev pub newline : ℕ
newline = 10

abbrev pub put_char : ℕ → Option (Text × Text) → Option (Text × Text)
put_char c none = none
put_char c (some (name, rest)) = some (c ∷ name, rest)

-- The rest of a match of the program's expression, from behind its opening ##: the shortest run of
-- characters other than a newline that ## follows, and what stands behind that ##.
unfoldable pub find_close : Text → Option (Text × Text)
unfolding has_prefix
find_close [] = none
find_close (c ∷ s) =
    let later = find_close s in
    if has_prefix (c ∷ s) (codes "##")
    then some ([], drop 1 s)
    else if c == newline
    then none
    else put_char c later

-- A match of the expression at the start of a text.
unfoldable pub match_tag : Text → Option (Text × Text)
unfolding find_close
match_tag s = if has_prefix s (codes "##") then find_close (drop 2 s) else none

pub data Segment : Type 0 where
  lit : ℕ → Segment
  tag : Text → Segment

-- The leftmost matches that do not overlap, and the characters between them. Each round takes one
-- character at least from the text, so its length is fuel enough.
unfoldable pub segments_fuel : ℕ → Text → List Segment
unfolding match_tag
segments_fuel zero s = []
segments_fuel (suc f) [] = []
segments_fuel (suc f) (c ∷ s) = elim (match_tag (c ∷ s)) [
  | some (name, rest) ↦ tag name ∷ segments_fuel f rest
  | none ↦ lit c ∷ segments_fuel f s
]

unfoldable pub segments : Text → List Segment
unfolding segments_fuel
segments s = segments_fuel (length s) s

abbrev is_hash : ℕ → Bool
is_hash c = c == b'#'

-- What the replacing function makes of a whole match before it looks it up.
unfoldable pub tag_name : Text → Text
unfolding trim_space trim_left trim_right
tag_name name =
    trim_right is_hash (trim_left is_hash (trim_space (codes "##" ++ (name ++ codes "##"))))

-- A value of the secret as the template shows it.
unfoldable pub show_value : Option Value → Text
show_value none = []
show_value (some (obj fs)) = []
show_value (some v) = trim_space (show v)

-- `unmarshal` is json.Unmarshal into a map.
module _ (unmarshal : Text → Option Object) where
  unfoldable pub json_path : List Text → Text → Text × Bool
  unfolding show_value
  json_path (p ∷ q ∷ ps) secret = elim (unmarshal secret) [
    | none ↦ ([], false)
    | some parsed ↦ (show_value (lookup (trim_space q) parsed), true)
  ]
  json_path _ secret = (secret, true)

  -- jsonTemplate: the text for a tag, and whether the tags behind it are still looked at.
  unfoldable pub json_template : Text → Text → Text × Bool
  unfolding json_path
  json_template name secret = json_path (split name b'.') secret

  -- ReplaceAllStringFunc with the program's function; the flag is its variable `canContinue`.
  unfoldable pub replace : Text → Bool → List Segment → Text
  replace secret go [] = []
  replace secret go (lit c ∷ r) = c ∷ replace secret go r
  replace secret false (tag name ∷ r) = replace secret false r
  replace secret true (tag name ∷ r) =
      let (res, go) = json_template (tag_name name) secret in res ++ replace secret go r

  -- Substitute
  unfoldable pub substitute : Text → Text → Text
  unfolding replace segments
  substitute templ secret = replace secret true (segments templ)
