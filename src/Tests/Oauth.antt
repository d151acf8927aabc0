-- ===== src/Tests/Oauth.antt =====
-- A token from a token endpoint.
use hasura_secret_refresh.Base.{ℕ, suc, ◌≡◌, refl, [], ◌∷◌, ◌++◌, if◌then◌else◌}
use hasura_secret_refresh.Strings.{Text, codes, str_eq}
use hasura_secret_refresh.Assoc.{Assoc, lookup}
use hasura_secret_refresh.Value.{Object, str}
use hasura_secret_refresh.Result.{Result, ok, err, new}
use hasura_secret_refresh.Http.{Header, Reply}
use hasura_secret_refresh.Oauth.{token_of_reply}

abbrev pub body : Object
body = (codes "access_token", str (codes "t1")) ∷ []

unfoldable pub decode : Text → Result Object
unfolding str_eq
decode t = if str_eq t (codes "{..}") then ok body else err (new "no JSON")

abbrev pub good : Reply
good = record { status = 200; body = codes "{..}" }

reads : token_of_reply decode good ≡ ok (codes "t1")
unfolding token_of_reply decode str_eq lookup
reads = refl

-- Each call of the world outside is counted.
abbrev pub secret_string : Text → ℕ → Result Text × ℕ
secret_string name n = (ok (name ++ codes "!"), suc n)

abbrev pub sign : Text → Text → Text → ℕ → Result Text × ℕ
sign key client certificate n = (ok (key ++ client), suc n)

abbrev pub new_request : Assoc Text → Result (Unit {0})
new_request form = ok tt

abbrev pub send : Assoc Text → Header → ℕ → Result Reply × ℕ
send form h n = (ok good, suc n)
