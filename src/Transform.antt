-- ===== src/Transform.antt =====
-- transform/transform.go: renaming the keys of a JSON secret.
pub mod Config
pub mod Lookup
pub mod Order
pub mod Whole
pub mod RoundTrip
use hasura_secret_refresh.Base.{
  ℕ, suc, Bool, true, false, Option, none, some, List, [], ◌∷◌, if◌then◌else◌, length,
}
use hasura_secret_refresh.Strings.{Text, codes, str_eq, is_empty}
use hasura_secret_refresh.Assoc.{lookup, insert, erase}
use hasura_secret_refresh.Value.{Value, Object, null, obj, of_entries}
use hasura_secret_refresh.Result.{Result, ok, err, panic}

pub record KeyMapping : Type 0 where
  pub from : Text
  pub to : Text

-- TransformMode, a Go string type; its two constants.
abbrev pub keep_all : Text
keep_all = codes "keep_all"

abbrev pub transformed_only : Text
transformed_only = codes "transformed_only"

pub record SecretTransform : Type 0 where
  pub mappings : List KeyMapping
  pub mode : Text

-- NewSecretTransform; a nil list of mappings is the empty one.
unfoldable pub new_secret_transform : List KeyMapping → Text → SecretTransform
new_secret_transform mappings mode = record {
  mappings = mappings;
  mode = if is_empty mode then keep_all else mode;
}

-- HasTransformations, on a transform that is not nil.
unfoldable pub has_transformations : SecretTransform → Bool
has_transformations st = elim st.mappings [ [] ↦ false | m ∷ ms ↦ true ]

-- encoding/json: `unmarshal` reads a text into a map[string]interface{}, and is `none` where the
-- text is neither a JSON object nor null.
pub record JsonCodec : Type 0 where
  pub unmarshal : Text → Option Object
  pub marshal : Value → Result Text

-- mappedData[mapping.To] = value, and in keep_all mode the delete that follows it
unfoldable pub move_key : Text → Text → Option (Text × Value) → Object → Object
move_key mode to none mapped = mapped
move_key mode to (some (k, v)) mapped =
    let added = insert to v mapped in if str_eq mode keep_all then erase k added else added

-- The map that the loop starts from; a mode that is no constant leaves it nil.
unfoldable pub start_map : Text → Object → Option Object
start_map mode secret =
    if str_eq mode keep_all
    then some secret
    else if str_eq mode transformed_only
    then some []
    else none

-- `lower` is strings.ToLower.
module _ (lower : Text → Text) where
  -- The `range` over the secret that looks for a key up to letter case; `order` holds the
  -- secret's entries as this loop visits them.
  unfoldable pub find_folded : Text → Object → Option (Text × Value)
  find_folded from [] = none
  find_folded from ((k, v) ∷ order) =
      if str_eq (lower k) (lower from) then some (k, v) else find_folded from order

  -- The key that a mapping takes its value from, and the value: the exact key if there is one.
  unfoldable pub source : Object → Object → Text → Option (Text × Value)
  unfolding find_folded
  source order secret from = elim (lookup from secret) [
    | some v ↦ some (from, v)
    | none ↦ find_folded from order
  ]

  -- The loop over the mappings from the n-th on; `orders i` is the order in which the i-th round
  -- visits the secret.
  unfoldable pub apply_mappings :
      Text → (ℕ → Object) → ℕ → Object → List KeyMapping → Object → Object
  unfolding source move_key
  apply_mappings mode orders n secret [] mapped = mapped
  apply_mappings mode orders n secret (m ∷ ms) mapped =
      apply_mappings mode orders (suc n) secret ms
        (move_key mode m.to (source (orders n) secret m.from) mapped)

  -- A nil map takes no assignment: the loop panics at the first mapping whose key is found.
  unfoldable pub any_found : (ℕ → Object) → ℕ → Object → List KeyMapping → Bool
  unfolding source
  any_found orders n secret [] = false
  any_found orders n secret (m ∷ ms) =
      let rest = any_found orders (suc n) secret ms in
      elim (source (orders n) secret m.from) [ some kv ↦ true | none ↦ rest ]

  unfoldable pub map_keys : Text → (ℕ → Object) → Object → List KeyMapping → Result Value
  unfolding apply_mappings start_map any_found
  map_keys mode orders secret ms = elim (start_map mode secret) [
    | some mapped ↦ ok (obj (of_entries (apply_mappings mode orders 0 secret ms mapped)))
    | none ↦
        if any_found orders 0 secret ms then panic "assignment to entry in nil map" else ok null
  ]

  -- Transform. `orders` gives for each secret the order of every round's `range` over it.
  unfoldable pub transform :
      JsonCodec → (Object → ℕ → Object) → SecretTransform → Text → Result Text
  unfolding map_keys has_transformations
  transform codec orders st secret =
      if has_transformations st
      then elim (codec.unmarshal secret) [
        | none ↦ ok secret
        | some found ↦ elim (map_keys st.mode (orders found) found st.mappings) [
          | ok mapped ↦ codec.marshal mapped
          | err e ↦ err e
          | panic w ↦ panic w
        ]
      ]
      else ok secret
