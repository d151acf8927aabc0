-- ===== src/Transform/Order.antt =====
-- When the order in which Go visits a map does not matter to a transform.
use hasura_secret_refresh.Base.{
  ℕ, suc, ◌≡◌, refl, ◌≢◌, none, some, List, [], ◌∷◌, arith, All, ap, Option-cases, Bool-cases, inl,
  inr, ◌⊎◌, sym, ◌∙◌,
}
use hasura_secret_refresh.Strings.{Text, str_eq}
use hasura_secret_refresh.Strings.Laws.{str_eq_iff}
use hasura_secret_refresh.Assoc.{lookup}
use hasura_secret_refresh.Value.{Value, Object}
use hasura_secret_refresh.Transform.{KeyMapping, find_folded, source, apply_mappings}
use mathlib.Core.List.{Memᴰ}

-- An order of visiting a secret that meets each of its entries, and nothing else.
pub record Visits (order secret : Object) : Type 0 where
  pub sound : (e : Text × Value) → Memᴰ e order → Memᴰ e secret
  pub complete : (e : Text × Value) → Memᴰ e secret → Memᴰ e order

module _ (lower : Text → Text) where
  -- Is the mapping's key in the secret under one letter case at most?
  abbrev pub IsUnambiguous : Object → Text → Type 0
  IsUnambiguous secret from =
      (e f : Text × Value)
      → Memᴰ e secret
      → Memᴰ f secret
      → lower e.0 ≡ lower from
      → lower f.0 ≡ lower from
      → e ≡ f

  find_folded_sound :
      (from : Text) (order : Object) (e : Text × Value)
      → find_folded lower from order ≡ some e
      → Memᴰ e order × (lower e.0 ≡ lower from)
  unfolding find_folded
  find_folded_sound from [] e h = cc
  find_folded_sound from ((k, v) ∷ order) e h = elim (Bool-cases (str_eq (lower k) (lower from))) [
    | inl same ↦
        let here : (k, v) ≡ e = ground arith in
        (Memᴰ.head (sym here), rw (← here) ((str_eq_iff _ _).0 same))
    | inr other ↦ let (m, q) = find_folded_sound from order e (ground arith) in (Memᴰ.tail m, q)
  ]

  find_folded_complete :
      (from : Text) (order : Object) (e : Text × Value)
      → Memᴰ e order
      → lower e.0 ≡ lower from
      → find_folded lower from order ≢ none
  unfolding find_folded
  find_folded_complete from [] e h q = elim h [ ]
  find_folded_complete from (f ∷ order) e (Memᴰ.head p) q =
      ground (arith, str_eq_iff (lower f.0) (lower from), ap (λ (g : Text × Value). lower g.0) p)
  find_folded_complete from (f ∷ order) e (Memᴰ.tail m) q =
      ground (arith, find_folded_complete from order e m q)

  find_folded_unique :
      (secret order order' : Object) (from : Text)
      → IsUnambiguous secret from
      → Visits order secret
      → Visits order' secret
      → find_folded lower from order ≡ find_folded lower from order'
  find_folded_unique secret order order' from one v w =
      elim (Option-cases (find_folded lower from order)) [
        | inl missed ↦ elim (Option-cases (find_folded lower from order')) [
          | inl missed' ↦ missed ∙ sym missed'
          | inr (f, found') ↦
              let (m, q) = find_folded_sound from order' f found' in
              absurd (find_folded_complete from order f (v.complete f (w.sound f m)) q missed)
        ]
        | inr (e, found) ↦ elim (Option-cases (find_folded lower from order')) [
          | inl missed' ↦
              let (m, q) = find_folded_sound from order e found in
              absurd (find_folded_complete from order' e (w.complete e (v.sound e m)) q missed')
          | inr (f, found') ↦
              let (m, q) = find_folded_sound from order e found in
              let (m', q') = find_folded_sound from order' f found' in
              found ∙ ap some (one e f (v.sound e m) (w.sound f m') q q') ∙ sym found'
        ]
      ]

  -- A mapping whose source does not depend on the order: its key is there as it is spelled, or
  -- under one letter case at most.
  abbrev pub IsDetermined : Object → KeyMapping → Type 0
  IsDetermined secret m = (lookup m.from secret ≢ none) ⊎ IsUnambiguous secret m.from

  source_unique :
      (secret order order' : Object) (m : KeyMapping)
      → IsDetermined secret m
      → Visits order secret
      → Visits order' secret
      → source lower order secret m.from ≡ source lower order' secret m.from
  unfolding source
  source_unique secret order order' m d v w = elim (Option-cases (lookup m.from secret)) [
    | inr (x, found) ↦ rw (found, source)
    | inl missed ↦
        rw (missed, source)
          (elim d [
            | inl there ↦ absurd (there missed)
            | inr one ↦ find_folded_unique secret order order' m.from one v w
          ])
  ]

  -- The transformed map does not depend on the orders of Go's `range` loops, if every mapping's
  -- source key is there as it is spelled or under one letter case at most.
  pub apply_mappings_order :
      (mode : Text) (secret : Object) (orders orders' : ℕ → Object)
      → ((i : ℕ) → Visits (orders i) secret)
      → ((i : ℕ) → Visits (orders' i) secret)
      → (n : ℕ) (ms : List KeyMapping) (mapped : Object) → All (IsDetermined secret) ms
      → apply_mappings lower mode orders n secret ms mapped
        ≡ apply_mappings lower mode orders' n secret ms mapped
  unfolding apply_mappings
  apply_mappings_order mode secret orders orders' v w n [] mapped h = refl
  apply_mappings_order mode secret orders orders' v w n (m ∷ ms) mapped (d, h) =
      rw (source_unique secret (orders n) (orders' n) m d (v n) (w n))
        (apply_mappings_order mode secret orders orders' v w (suc n) ms _ h)
