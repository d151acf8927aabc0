-- ===== src/Transform/Whole.antt =====
-- The method Transform as a whole: what it returns on every branch, and that it does not panic.
use hasura_secret_refresh.Base.{
  ℕ, ◌≡◌, refl, ◌≢◌, false, none, some, List, [], ◌∷◌, arith, String, Option-cases, inl, inr, ◌⊎◌,
}
use hasura_secret_refresh.Strings.{Text, str_eq}
use hasura_secret_refresh.Assoc.{lookup}
use hasura_secret_refresh.Value.{Value, Object, obj, of_entries}
use hasura_secret_refresh.Result.{ok, panic}
use hasura_secret_refresh.Transform.{
  KeyMapping, SecretTransform, keep_all, transformed_only, JsonCodec, has_transformations,
  apply_mappings, map_keys, transform,
}
use hasura_secret_refresh.Transform.Config.{
  IsMode, parse_secret_transform, parse_secret_transform-IsMode,
}
use hasura_secret_refresh.Transform.Lookup.{touches, lookup-apply_mappings_untouched}

module _ (lower : Text → Text) (codec : JsonCodec) (orders : Object → ℕ → Object) where
  -- The map that the mappings make of a secret, in a given mode.
  abbrev pub renamed : Text → Object → List KeyMapping → Object → Object
  renamed mode secret ms start = apply_mappings lower mode (orders secret) 0 secret ms start

  map_keys-keep_all :
      (secret : Object) (ms : List KeyMapping)
      → map_keys lower keep_all (orders secret) secret ms
        ≡ ok (obj (of_entries (renamed keep_all secret ms secret)))
  unfolding map_keys str_eq
  map_keys-keep_all secret ms = refl

  map_keys_only :
      (secret : Object) (ms : List KeyMapping)
      → map_keys lower transformed_only (orders secret) secret ms
        ≡ ok (obj (of_entries (renamed transformed_only secret ms [])))
  unfolding map_keys str_eq
  map_keys_only secret ms = refl

  map_keys_ok :
      (mode : Text) (secret : Object) (ms : List KeyMapping)
      → IsMode mode
      → (v : Value) × (map_keys lower mode (orders secret) secret ms ≡ ok v)
  map_keys_ok mode secret ms (inl e) =
      (obj (of_entries (renamed keep_all secret ms secret)), rw e (map_keys-keep_all secret ms))
  map_keys_ok mode secret ms (inr e) =
      (obj (of_entries (renamed transformed_only secret ms [])), rw e (map_keys_only secret ms))

  -- A secret is returned as it is, with no error, exactly where the branch says so: if no mapping is
  -- configured, or if the text is not a JSON object.
  pub transform_unchanged :
      (st : SecretTransform) (text : Text)
      → (st.mappings ≡ []) ⊎ (codec.unmarshal text ≡ none)
      → transform lower codec orders st text ≡ ok text
  unfolding transform
  transform_unchanged st text (inl e) = rw (e, has_transformations)
  transform_unchanged st text (inr e) = rw e (ground arith)

  transform_mapped :
      (m : KeyMapping) (ms : List KeyMapping) (mode : Text) (text : Text) (secret : Object)
      (v : Value)
      → codec.unmarshal text ≡ some secret
      → map_keys lower mode (orders secret) secret (m ∷ ms) ≡ ok v
      → transform lower codec orders (record { mappings = m ∷ ms; mode = mode }) text
        ≡ codec.marshal v
  unfolding transform
  transform_mapped m ms mode text secret v parsed mapped = rw (parsed, mapped)

  -- In keep_all mode the result is the JSON of the map that the mappings make of the secret, and it
  -- holds the secret's own value under a key that no mapping with a found source takes from or
  -- writes to.
  pub transform-keep_all :
      (m : KeyMapping) (ms : List KeyMapping) (text : Text) (secret : Object) (j : Text)
      → codec.unmarshal text ≡ some secret
      → touches lower (orders secret) secret 0 (m ∷ ms) j ≡ false
      → (transform lower codec orders (record { mappings = m ∷ ms; mode = keep_all }) text
          ≡ codec.marshal (obj (of_entries (renamed keep_all secret (m ∷ ms) secret))))
        × (lookup j (renamed keep_all secret (m ∷ ms) secret) ≡ lookup j secret)
  transform-keep_all m ms text secret j parsed free = (
    transform_mapped m ms keep_all text secret _ parsed (map_keys-keep_all secret (m ∷ ms)),
    lookup-apply_mappings_untouched lower (orders secret) secret 0 (m ∷ ms) secret j free,
  )

  -- A transform that was read from a configuration never panics on a secret, if encoding/json does
  -- not.
  pub transform-ne-panic :
      (config : Object) (st : SecretTransform) (text : Text) (w : String)
      → ((v : Value) (w : String) → codec.marshal v ≢ panic w)
      → parse_secret_transform config ≡ ok st
      → transform lower codec orders st text ≢ panic w
  unfolding transform
  transform-ne-panic config st text w safe accepted panics =
      elim (Option-cases (codec.unmarshal text)) [
        | inl bad ↦ ground (arith, bad)
        | inr (secret, parsed) ↦
            let (v, mapped) =
              map_keys_ok st.mode secret st.mappings
                (parse_secret_transform-IsMode config st accepted) in
            ground (arith, parsed, mapped, safe v w)
      ]
