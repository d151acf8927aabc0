-- ===== src/Transform/Lookup.antt =====
-- What a transformed secret holds under each key.
use hasura_secret_refresh.Base.{
  ℕ, suc, ◌+◌, ◌≡◌, refl, ◌≢◌, Bool, false, ◌||◌, Option, none, some, List, [], ◌∷◌, ◌++◌, arith,
  if◌then◌else◌, length, ap,
}
use hasura_secret_refresh.Strings.{Text, str_eq}
use hasura_secret_refresh.Strings.Laws.{str_eq_iff, str_eq_refl}
use hasura_secret_refresh.Assoc.{lookup, lookup-insert, lookup-erase}
use hasura_secret_refresh.Value.{Value, Object}
use hasura_secret_refresh.Transform.{
  KeyMapping, keep_all, transformed_only, source, move_key, apply_mappings,
}

abbrev pub or_else : Option Value → Option Value → Option Value
or_else none b = b
or_else (some v) b = some v

-- What a mapping to the key `to` gives key j, if its source is the entry.
abbrev pub given : Text → Option (Text × Value) → Text → Option Value
given to none j = none
given to (some (k, v)) j = if str_eq to j then some v else none

-- Does such a mapping write or delete key j in keep_all mode?
abbrev touched : Text → Option (Text × Value) → Text → Bool
touched to none j = false
touched to (some (k, v)) j = str_eq k j || str_eq to j

or_else_assoc : (a b c : Option Value) → or_else a (or_else b c) ≡ or_else (or_else a b) c
or_else_assoc none b c = refl
or_else_assoc (some v) b c = refl

pub or_else-none : (a : Option Value) → or_else a none ≡ a
or_else-none none = refl
or_else-none (some v) = refl

lookup-move_key_only :
    (to : Text) (o : Option (Text × Value)) (mapped : Object) (j : Text)
    → lookup j (move_key transformed_only to o mapped) ≡ or_else (given to o j) (lookup j mapped)
unfolding move_key str_eq
lookup-move_key_only to none mapped j = refl
lookup-move_key_only to (some (k, v)) mapped j = rw lookup-insert (ground arith)

lookup-move_key_untouched :
    (to : Text) (o : Option (Text × Value)) (mapped : Object) (j : Text)
    → touched to o j ≡ false
    → lookup j (move_key keep_all to o mapped) ≡ lookup j mapped
unfolding move_key
lookup-move_key_untouched to none mapped j h = refl
lookup-move_key_untouched to (some (k, v)) mapped j h =
    rw (str_eq_refl keep_all, lookup-erase, lookup-insert) (ground arith)

lookup-move_key_gone :
    (to : Text) (o : Option (Text × Value)) (mapped : Object) (j : Text)
    → given to o j ≡ none
    → lookup j mapped ≡ none
    → lookup j (move_key keep_all to o mapped) ≡ none
unfolding move_key
lookup-move_key_gone to none mapped j h gone = gone
lookup-move_key_gone to (some (k, v)) mapped j h gone =
    rw (str_eq_refl keep_all, lookup-erase, lookup-insert) (ground arith)

or_else-both : (a b : Option Value) → or_else a b ≡ none → (a ≡ none) × (b ≡ none)
or_else-both none b e = (refl, e)
or_else-both (some v) b e = cc

pub source-exact :
    (lower : Text → Text) (order secret : Object) (from : Text) (v : Value)
    → lookup from secret ≡ some v
    → source lower order secret from ≡ some (from, v)
unfolding source
source-exact lower order secret from v h = rw (h, source)

module _ (lower : Text → Text) (orders : ℕ → Object) (secret : Object) where
  -- The value that the last mapping to give key j one gives it.
  unfoldable pub last_given : ℕ → List KeyMapping → Text → Option Value
  last_given n [] j = none
  last_given n (m ∷ ms) j =
      or_else (last_given (suc n) ms j) (given m.to (source lower (orders n) secret m.from) j)

  -- Does a mapping of the list write or delete key j in keep_all mode?
  unfoldable pub touches : ℕ → List KeyMapping → Text → Bool
  touches n [] j = false
  touches n (m ∷ ms) j =
      touched m.to (source lower (orders n) secret m.from) j || touches (suc n) ms j

  -- In transformed_only mode a key holds what the last mapping that gives it a value gives, and what
  -- it held before if none does.
  pub lookup-apply_mappings_only :
      (n : ℕ) (ms : List KeyMapping) (mapped : Object) (j : Text)
      → lookup j (apply_mappings lower transformed_only orders n secret ms mapped)
        ≡ or_else (last_given n ms j) (lookup j mapped)
  unfolding apply_mappings last_given
  lookup-apply_mappings_only n [] mapped j = refl
  lookup-apply_mappings_only n (m ∷ ms) mapped j =
      rw (lookup-apply_mappings_only (suc n) ms, lookup-move_key_only m.to)
        (or_else_assoc (last_given (suc n) ms j) _ _)

  pub lookup-apply_mappings_untouched :
      (n : ℕ) (ms : List KeyMapping) (mapped : Object) (j : Text)
      → touches n ms j ≡ false
      → lookup j (apply_mappings lower keep_all orders n secret ms mapped) ≡ lookup j mapped
  unfolding apply_mappings touches
  lookup-apply_mappings_untouched n [] mapped j h = refl
  lookup-apply_mappings_untouched n (m ∷ ms) mapped j h =
      rw (lookup-apply_mappings_untouched (suc n) ms _ j (ground arith))
        (lookup-move_key_untouched m.to _ mapped j (ground arith))

  apply_mappings-append :
      (mode : Text) (n i : ℕ) (before rest : List KeyMapping) (mapped : Object)
      → i ≡ n + length before
      → apply_mappings lower mode orders n secret (before ++ rest) mapped
        ≡ apply_mappings lower mode orders i secret rest
            (apply_mappings lower mode orders n secret before mapped)
  unfolding apply_mappings
  apply_mappings-append mode n i [] rest mapped at =
      ap (λ k. apply_mappings lower mode orders k secret rest mapped) (omega arith)
  apply_mappings-append mode n i (b ∷ before) rest mapped at =
      apply_mappings-append mode (suc n) i before rest _ (omega arith)

  lookup-apply_mappings_head :
      (n : ℕ) (m : KeyMapping) (after : List KeyMapping) (mapped : Object) (k : Text) (v : Value)
      → source lower (orders n) secret m.from ≡ some (k, v)
      → k ≢ m.to
      → touches (suc n) after k ≡ false
      → touches (suc n) after m.to ≡ false
      → (lookup m.to (apply_mappings lower keep_all orders n secret (m ∷ after) mapped) ≡ some v)
        × (lookup k (apply_mappings lower keep_all orders n secret (m ∷ after) mapped) ≡ none)
  unfolding apply_mappings move_key
  lookup-apply_mappings_head n m after mapped k v found differ later_k later_to = (
    rw (lookup-apply_mappings_untouched (suc n) after _ m.to later_to) (
        rw (found, str_eq_refl keep_all, lookup-erase, lookup-insert, str_eq_refl m.to)
          (ground (arith, str_eq_iff k m.to))),
    rw (lookup-apply_mappings_untouched (suc n) after _ k later_k)
        (rw (found, str_eq_refl keep_all, lookup-erase, str_eq_refl k)),
  )

  -- In keep_all mode a mapping whose source is found renames it: the new key holds the value and the
  -- old key is gone, if the keys differ and no later mapping touches either.
  pub lookup-apply_mappings_renamed :
      (i : ℕ) (before : List KeyMapping) (m : KeyMapping) (after : List KeyMapping)
      (mapped : Object) (k : Text) (v : Value)
      → i ≡ length before
      → source lower (orders i) secret m.from ≡ some (k, v)
      → k ≢ m.to
      → touches (suc i) after k ≡ false
      → touches (suc i) after m.to ≡ false
      → (lookup m.to (apply_mappings lower keep_all orders 0 secret (before ++ m ∷ after) mapped)
          ≡ some v)
        × (lookup k (apply_mappings lower keep_all orders 0 secret (before ++ m ∷ after) mapped)
            ≡ none)
  lookup-apply_mappings_renamed i before m after mapped k v at found differ later_k later_to =
      rw (apply_mappings-append keep_all 0 i before (m ∷ after) mapped (omega arith))
        (lookup-apply_mappings_head i m after _ k v found differ later_k later_to)

  -- A key that is not there stays so, if no mapping gives it a value.
  lookup-apply_mappings_gone :
      (n : ℕ) (ms : List KeyMapping) (mapped : Object) (j : Text)
      → last_given n ms j ≡ none
      → lookup j mapped ≡ none
      → lookup j (apply_mappings lower keep_all orders n secret ms mapped) ≡ none
  unfolding apply_mappings last_given
  lookup-apply_mappings_gone n [] mapped j h gone = gone
  lookup-apply_mappings_gone n (m ∷ ms) mapped j h gone =
      let (later, now) = or_else-both (last_given (suc n) ms j) _ h in
      lookup-apply_mappings_gone (suc n) ms _ j later
        (lookup-move_key_gone m.to (source lower (orders n) secret m.from) mapped j now gone)

  -- In keep_all mode a mapping of a key to itself deletes the key, whatever the key holds, if no
  -- later mapping, with a source that is found, writes it again.
  pub lookup-apply_mappings_self :
      (i : ℕ) (before : List KeyMapping) (k : Text) (after : List KeyMapping) (v : Value)
      → i ≡ length before
      → lookup k secret ≡ some v
      → last_given (suc i) after k ≡ none
      → lookup k (
          apply_mappings lower keep_all orders 0 secret
            (before ++ record { from = k; to = k } ∷ after)
            secret)
        ≡ none
  unfolding apply_mappings move_key
  lookup-apply_mappings_self i before k after v at found later =
      rw
        (apply_mappings-append keep_all 0 i before (record { from = k; to = k } ∷ after) secret
          (omega arith))
        (lookup-apply_mappings_gone (suc i) after _ k later (
          rw (
            source-exact lower (orders i) secret k v found,
            str_eq_refl keep_all,
            lookup-erase,
            str_eq_refl k,
          )))
