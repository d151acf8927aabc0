-- ===== src/Tests/Transform.antt =====
-- Renaming the keys of a secret.
use hasura_secret_refresh.Base.{
  ℕ, ◌≡◌, refl, ◌≢◌, inl, inr, some, none, [], ◌∷◌, ◌++◌, arith, String, ap, sym, ◌∙◌,
}
use hasura_secret_refresh.Strings.{Text, codes, str_eq}
use hasura_secret_refresh.Assoc.{lookup}
use hasura_secret_refresh.Value.{
  Value, Object, str, obj, of_entries, entries, as_object, as_list, elements,
}
use hasura_secret_refresh.Result.{ok, panic}
use hasura_secret_refresh.Transform.{
  keep_all, transformed_only, find_folded, source, apply_mappings, transform, new_secret_transform,
}
use hasura_secret_refresh.Transform.Config.{parse_secret_transform}
use hasura_secret_refresh.Transform.Lookup.{
  last_given, touches, lookup-apply_mappings_renamed, lookup-apply_mappings_self,
}
use hasura_secret_refresh.Transform.Order.{Visits, IsDetermined, apply_mappings_order}
use mathlib.Core.List.{Memᴰ}
use hasura_secret_refresh.Transform.Whole.{renamed, transform-keep_all, transform-ne-panic}
use hasura_secret_refresh.Transform.RoundTrip.{written, parse_secret_transform-written}
use hasura_secret_refresh.Tests.Data.{
  secret, secret_text, lower, unmarshal, codec, in_order, to_password, to_name,
}

lookup-apply_mappings_renamed_example :
    (lookup (codes "password") (
        apply_mappings lower keep_all
          (in_order secret)
          0
          secret
          (to_name ∷ [] ++ to_password ∷ [])
          secret)
      ≡ some (str (codes "x1")))
    × (lookup (codes "Pass") (
          apply_mappings lower keep_all
            (in_order secret)
            0
            secret
            (to_name ∷ [] ++ to_password ∷ [])
            secret)
        ≡ none)
unfolding source lookup str_eq lower find_folded touches
lookup-apply_mappings_renamed_example =
    lookup-apply_mappings_renamed lower (in_order secret) secret 1 (to_name ∷ []) to_password []
      secret (codes "Pass") (str (codes "x1")) refl refl (ground arith) refl refl

lookup-apply_mappings_self_example :
    lookup (codes "user") (
      apply_mappings lower keep_all
        (in_order secret)
        0
        secret
        ([]
          ++ record { from = codes "user"; to = codes "user" }
            ∷ record { from = codes "user"; to = codes "login" }
            ∷ [])
        secret)
    ≡ none
unfolding source lookup str_eq lower find_folded last_given
lookup-apply_mappings_self_example =
    lookup-apply_mappings_self lower (in_order secret) secret 0 [] (codes "user")
      (record { from = codes "user"; to = codes "login" } ∷ []) (str (codes "bob")) refl refl refl

transform-keep_all_example :
    (transform lower codec in_order
        (record { mappings = to_password ∷ []; mode = keep_all })
        secret_text
      ≡ codec.marshal (
          obj
            (of_entries (renamed lower codec in_order keep_all secret (to_password ∷ []) secret))))
    × (lookup
          (codes "user")
          (renamed lower codec in_order keep_all secret (to_password ∷ []) secret)
        ≡ lookup (codes "user") secret)
unfolding unmarshal str_eq source lookup lower find_folded touches
transform-keep_all_example =
    transform-keep_all lower codec in_order to_password [] secret_text secret (codes "user") refl
      refl

marshal_safe : (v : Value) (w : String) → codec.marshal v ≢ panic w
marshal_safe v w e = cc

transform-ne-panic_example :
    transform lower codec in_order (record { mappings = to_name ∷ []; mode = keep_all }) secret_text
    ≢ panic "assignment to entry in nil map"
unfolding parse_secret_transform as_object as_list entries elements lookup str_eq
    new_secret_transform
transform-ne-panic_example =
    transform-ne-panic lower codec in_order
      (written (record { mappings = to_name ∷ []; mode = keep_all }))
      (record { mappings = to_name ∷ []; mode = keep_all }) secret_text
      "assignment to entry in nil map" marshal_safe refl

parse_secret_transform-written_example :
    parse_secret_transform
      (written (record { mappings = to_name ∷ to_password ∷ []; mode = transformed_only }))
    ≡ ok (record { mappings = to_name ∷ to_password ∷ []; mode = transformed_only })
parse_secret_transform-written_example =
    parse_secret_transform-written
      (record { mappings = to_name ∷ to_password ∷ []; mode = transformed_only }) (inr refl)

abbrev user : Text × Value
user = (codes "user", str (codes "bob"))

abbrev pass : Text × Value
pass = (codes "Pass", str (codes "x1"))

in_order-Visits : (i : ℕ) → Visits (in_order secret i) secret
in_order-Visits i = record { sound = λ e m. m; complete = λ e m. m }

abbrev swapped : ℕ → Object
swapped i = pass ∷ user ∷ []

swapped-Visits : (i : ℕ) → Visits (swapped i) secret
swapped-Visits i = record { sound = from_swapped; complete = to_swapped }
  where
    from_swapped : (e : Text × Value) → Memᴰ e (pass ∷ user ∷ []) → Memᴰ e secret
    from_swapped e (Memᴰ.head p) = Memᴰ.tail (Memᴰ.head p)
    from_swapped e (Memᴰ.tail (Memᴰ.head p)) = Memᴰ.head p
    from_swapped e (Memᴰ.tail (Memᴰ.tail m)) = elim m [ ]

    to_swapped : (e : Text × Value) → Memᴰ e secret → Memᴰ e (pass ∷ user ∷ [])
    to_swapped e (Memᴰ.head p) = Memᴰ.tail (Memᴰ.head p)
    to_swapped e (Memᴰ.tail (Memᴰ.head p)) = Memᴰ.head p
    to_swapped e (Memᴰ.tail (Memᴰ.tail m)) = elim m [ ]

only_pass : (e : Text × Value) → Memᴰ e secret → lower e.0 ≡ lower (codes "pass") → e ≡ pass
unfolding lower
only_pass e (Memᴰ.head p) q =
    let lowered : lower e.0 ≡ codes "user" = ap (λ (g : Text × Value). lower g.0) p in
    absurd (user-ne-pass (sym lowered ∙ q))
  where
    user-ne-pass : codes "user" ≢ codes "pass"
    user-ne-pass h = ground arith
only_pass e (Memᴰ.tail (Memᴰ.head p)) q = p
only_pass e (Memᴰ.tail (Memᴰ.tail m)) q = elim m [ ]

to_name_there : IsDetermined lower secret to_name
unfolding lookup str_eq
to_name_there = inl (λ e. cc)

one_pass : IsDetermined lower secret to_password
one_pass = inr (λ e f m n p q. only_pass e m p ∙ sym (only_pass f n q))

apply_mappings_order_example :
    apply_mappings lower keep_all (in_order secret) 0 secret (to_name ∷ to_password ∷ []) secret
    ≡ apply_mappings lower keep_all swapped 0 secret (to_name ∷ to_password ∷ []) secret
apply_mappings_order_example =
    apply_mappings_order lower keep_all secret (in_order secret) swapped in_order-Visits
      swapped-Visits 0 (to_name ∷ to_password ∷ []) secret (to_name_there, (one_pass, tt))
