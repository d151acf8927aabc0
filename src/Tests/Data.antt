-- ===== src/Tests/Data.antt =====
-- A secret, and concrete instances of the libraries' parameters.
use hasura_secret_refresh.Base.{ℕ, ◌+◌, Option, none, some, [], ◌∷◌, map, if◌then◌else◌}
use hasura_secret_refresh.Strings.{Text, codes, str_eq}
use hasura_secret_refresh.Value.{Object, str, show}
use hasura_secret_refresh.Result.{ok}
use hasura_secret_refresh.Http.{is_upper}
use hasura_secret_refresh.Transform.{JsonCodec, KeyMapping}

abbrev pub secret : Object
secret = (codes "user", str (codes "bob")) ∷ (codes "Pass", str (codes "x1")) ∷ []

abbrev pub secret_text : Text
secret_text = codes "{\"user\":\"bob\",\"Pass\":\"x1\"}"

-- strings.ToLower on ASCII.
unfoldable pub lower : Text → Text
unfolding is_upper
lower s = map (λ c. if is_upper c then c + 32 else c) s

-- encoding/json on the one secret.
unfoldable pub unmarshal : Text → Option Object
unfolding str_eq
unmarshal t = if str_eq t secret_text then some secret else none

abbrev pub codec : JsonCodec
codec = record { unmarshal = unmarshal; marshal = λ v. ok (show v) }

-- Every round visits the secret in the order of its entries.
abbrev pub in_order : Object → ℕ → Object
in_order o n = o

abbrev pub to_password : KeyMapping
to_password = record { from = codes "pass"; to = codes "password" }

abbrev pub to_name : KeyMapping
to_name = record { from = codes "user"; to = codes "name" }
