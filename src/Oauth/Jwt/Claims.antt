-- ===== src/Oauth/Jwt/Claims.antt =====
-- Which claims a token carries.
use hasura_secret_refresh.Base.{◌≡◌, refl, ◌≢◌, some, [], ◌∷◌, ◌++◌, arith, All}
use hasura_secret_refresh.Strings.{Text}
use hasura_secret_refresh.Strings.Laws.{str_eq_iff, str_eq_refl}
use hasura_secret_refresh.Assoc.{lookup, insert, lookup-insert}
use hasura_secret_refresh.Value.{Value, Object, ℤ}
use hasura_secret_refresh.Result.{ok}
use hasura_secret_refresh.Oauth.Jwt.{add_claims, make_claims}

-- A key that no entry of a list has.
abbrev pub Misses : Text → Object → Type 0
Misses k = All (λ (e : Text × Value). e.0 ≢ k)

lookup-add_claims_missing :
    (k : Text) (config claims : Object)
    → Misses k config
    → lookup k (add_claims config claims) ≡ lookup k claims
unfolding add_claims
lookup-add_claims_missing k [] claims h = refl
lookup-add_claims_missing k ((j, v) ∷ config) claims (h, hs) =
    rw (lookup-add_claims_missing k config (insert j v claims) hs, lookup-insert)
      (ground (arith, str_eq_iff j k))

lookup-add_claims :
    (before : Object) (k : Text) (v : Value) (after claims : Object)
    → Misses k after
    → lookup k (add_claims (before ++ (k, v) ∷ after) claims) ≡ some v
unfolding add_claims
lookup-add_claims [] k v after claims h =
    rw (lookup-add_claims_missing k after (insert k v claims) h, lookup-insert, str_eq_refl k)
lookup-add_claims ((j, u) ∷ before) k v after claims h =
    lookup-add_claims before k v after (insert j u claims) h

-- A claim that the configuration sets is in the token with the configured value, also where it is
-- one of the program's own five.
pub make_claims_configured :
    (uuid : Text) (duration now : ℤ) (client_id : Text) (before : Object) (k : Text) (v : Value)
    (after : Object)
    → Misses k after
    → (claims : Object) × (make_claims (ok uuid) duration now client_id (before ++ (k, v) ∷ after)
        ≡ ok claims)
      × (lookup k claims ≡ some v)
unfolding make_claims
make_claims_configured uuid duration now client_id before k v after h =
    (_, refl, lookup-add_claims before k v after _ h)
