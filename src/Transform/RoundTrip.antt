-- ===== src/Transform/RoundTrip.antt =====
-- A transform written as a configuration is read back as it was.
use hasura_secret_refresh.Base.{ℕ, suc, ◌≡◌, refl, List, [], ◌∷◌, inl, inr}
use hasura_secret_refresh.Strings.{codes, str_eq}
use hasura_secret_refresh.Assoc.{lookup}
use hasura_secret_refresh.Value.{
  Object, Items, nil, cons, arr, obj, str, field, end, as_object, as_list, elements, entries,
}
use hasura_secret_refresh.Result.{ok}
use hasura_secret_refresh.Transform.{KeyMapping, SecretTransform, new_secret_transform}
use hasura_secret_refresh.Transform.Config.{IsMode, parse_mappings, parse_secret_transform}

-- The `transform` section of a configuration file.
abbrev mapping_items : List KeyMapping → Items
mapping_items [] = nil
mapping_items (m ∷ ms) =
    cons (obj (field (codes "from") (str m.from) (field (codes "to") (str m.to) end)))
      (mapping_items ms)

abbrev pub written : SecretTransform → Object
written st =
    (
      codes "transform",
      obj (
          field (codes "mode") (str st.mode)
            (field (codes "key_mappings") (arr (mapping_items st.mappings)) end)),
    )
    ∷ []

parse_mappings_items :
    (i : ℕ) (ms : List KeyMapping) → parse_mappings i (elements (mapping_items ms)) ≡ ok ms
unfolding parse_mappings elements as_object entries lookup str_eq
parse_mappings_items i [] = refl
parse_mappings_items i (m ∷ ms) = rw (parse_mappings_items (suc i) ms)

-- Reading the `transform` section that lists a transform's mode and mappings gives that transform,
-- mappings in order, if the mode is one of the two.
pub parse_secret_transform-written :
    (st : SecretTransform) → IsMode st.mode → parse_secret_transform (written st) ≡ ok st
unfolding parse_secret_transform as_object as_list entries lookup str_eq new_secret_transform
parse_secret_transform-written st (inl e) = rw (e, parse_mappings_items 0 st.mappings)
parse_secret_transform-written st (inr e) = rw (e, parse_mappings_items 0 st.mappings)
