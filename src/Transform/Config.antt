-- ===== src/Transform/Config.antt =====
-- ParseSecretTransformFromConfig.
use hasura_secret_refresh.Base.{
  ℕ, suc, ◌≡◌, refl, Option, none, some, List, [], ◌∷◌, if◌then◌else◌, arith, ◌⊎◌, inl, inr,
}
use hasura_secret_refresh.Strings.{Text, codes, str_eq}
use hasura_secret_refresh.Assoc.{lookup}
use hasura_secret_refresh.Value.{Value, Object, as_str, as_object, as_list}
use hasura_secret_refresh.Result.{Error, new, indexed, Result, ok, err, ◌>>=◌, or_error}
use hasura_secret_refresh.Transform.{
  KeyMapping, SecretTransform, keep_all, transformed_only, new_secret_transform,
}

-- The switch on the configured mode.
-- The program gives this format no arguments, and fmt says so in their place.
abbrev bad_mode : Error
bad_mode =
    new "config not valid: invalid mode '%!s(MISSING)', must be 'keep_all' or 'transformed_only'"

unfoldable pub parse_mode : Option Value → Result Text
parse_mode none = ok keep_all
parse_mode (some v) = do
  mode ← or_error (as_str v) (new "config not valid: transform.mode must be a string")
  if str_eq mode keep_all
      then ok keep_all
      else if str_eq mode transformed_only
      then ok transformed_only
      else err bad_mode

-- The i-th element of `key_mappings`; two of its messages lack their argument.
abbrev no_field : Error
no_field =
    new
      "config not valid: transform.key_mappings[%!d(MISSING)] must have both 'from' and 'to' fields"

unfoldable pub parse_mapping : ℕ → Value → Result KeyMapping
parse_mapping i v = do
  mapping ←
      or_error (as_object v)
        (new "config not valid: transform.key_mappings[%!d(MISSING)] must be an object")
  from_value ← or_error (lookup (codes "from") mapping) no_field
  to_value ← or_error (lookup (codes "to") mapping) no_field
  from ←
      or_error (as_str from_value)
        (indexed "config not valid: transform.key_mappings[" i "].from must be a string")
  to ←
      or_error (as_str to_value)
        (indexed "config not valid: transform.key_mappings[" i "].to must be a string")
  ok (record { from = from; to = to })

unfoldable pub parse_mappings : ℕ → List Value → Result (List KeyMapping)
unfolding parse_mapping
parse_mappings i [] = ok []
parse_mappings i (v ∷ vs) =
    let rest = parse_mappings (suc i) vs in do m ← parse_mapping i v; ms ← rest; ok (m ∷ ms)

unfoldable pub parse_mapping_list : Option Value → Result (List KeyMapping)
parse_mapping_list none = ok []
parse_mapping_list (some v) = do
  vs ← or_error (as_list v) (new "config not valid: transform.key_mappings must be a list")
  parse_mappings 0 vs

-- The settings of the `transform` object.
unfoldable pub parse_settings : Option Value → Result SecretTransform
parse_settings none = ok (new_secret_transform [] keep_all)
parse_settings (some v) = do
  settings ← or_error (as_object v) (new "config not valid: 'transform' must be an object")
  mode ← parse_mode (lookup (codes "mode") settings)
  mappings ← parse_mapping_list (lookup (codes "key_mappings") settings)
  ok (new_secret_transform mappings mode)

unfoldable pub parse_secret_transform : Object → Result SecretTransform
unfolding parse_settings parse_mode parse_mapping_list parse_mappings new_secret_transform
parse_secret_transform config = parse_settings (lookup (codes "transform") config)

abbrev pub IsMode : Text → Type 0
IsMode mode = (mode ≡ keep_all) ⊎ (mode ≡ transformed_only)

parse_mode-IsMode : (v : Option Value) {mode : Text} → parse_mode v ≡ ok mode → IsMode mode
unfolding parse_mode
parse_mode-IsMode none h = ground arith
parse_mode-IsMode (some v) h = ground arith

new_secret_transform-mode :
    (ms : List KeyMapping) {mode : Text} → IsMode mode → (new_secret_transform ms mode).mode ≡ mode
unfolding new_secret_transform
new_secret_transform-mode ms (inl e) = rw e
new_secret_transform-mode ms (inr e) = rw e

parse_settings-IsMode :
    (v : Option Value) (st : SecretTransform) → parse_settings v ≡ ok st → IsMode st.mode
unfolding parse_settings
parse_settings-IsMode none st h =
    ground (arith, new_secret_transform-mode [] {mode = keep_all} (inl refl))
parse_settings-IsMode (some v) st h = grind (arith, parse_mode-IsMode, new_secret_transform-mode)

-- A configuration that is accepted gives one of the two modes.
pub parse_secret_transform-IsMode :
    (config : Object) (st : SecretTransform)
    → parse_secret_transform config ≡ ok st
    → IsMode st.mode
unfolding parse_secret_transform
parse_secret_transform-IsMode config st h = parse_settings-IsMode _ st h
