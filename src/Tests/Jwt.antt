-- ===== src/Tests/Jwt.antt =====
-- The claims of a token, and a fingerprint.
use hasura_secret_refresh.Base.{[], ◌∷◌}
use hasura_secret_refresh.Strings.{codes}
use hasura_secret_refresh.Value.{Object, str}

abbrev audience : Object
audience = (codes "aud", str (codes "api")) ∷ []
