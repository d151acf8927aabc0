-- ===== src/Tests/Template.antt =====
-- Substituting a secret into a template.
use hasura_secret_refresh.Base.{◌≡◌, refl, ◌∷◌, ◌++◌, arith}
use hasura_secret_refresh.Strings.{codes, str_eq, trim_space}
use hasura_secret_refresh.Strings.Split.{Lacks}
use hasura_secret_refresh.Assoc.{lookup}
use hasura_secret_refresh.Template.{segments, substitute, show_value}
use hasura_secret_refresh.Template.Cut.{IsCut, segments-IsCut}
use hasura_secret_refresh.Template.Tags.{IsPlain, IsName, tagged}
use hasura_secret_refresh.Template.Substitute.{literals, substitute_key, substitute_failed}
use hasura_secret_refresh.Tests.Data.{secret, secret_text, unmarshal}

segments-IsCut_example : IsCut (codes "a##b## #####c##") (segments (codes "a##b## #####c##"))
segments-IsCut_example = segments-IsCut (codes "a##b## #####c##")

IsPlain-url : IsPlain (codes "pg://")
IsPlain-url = ground arith

IsName-user : IsName (codes "secret" ++ b'.' ∷ codes " user")
IsName-user = ground arith

Lacks-secret : Lacks b'.' (codes "secret")
Lacks-secret = ground arith

Lacks-user : Lacks b'.' (codes " user")
Lacks-user = ground arith

substitute_key_example :
    substitute unmarshal
      (codes "pg://" ++ tagged (codes "secret" ++ b'.' ∷ codes " user") (codes "@##secret##"))
      secret_text
    ≡ codes "pg://"
      ++ (show_value (lookup (trim_space (codes " user")) secret)
          ++ substitute unmarshal (codes "@##secret##") secret_text)
unfolding unmarshal str_eq
substitute_key_example =
    substitute_key unmarshal secret_text (codes "pg://") (codes "secret") (codes " user")
      (codes "@##secret##") secret IsPlain-url IsName-user Lacks-secret Lacks-user refl

substitute_failed_example :
    substitute unmarshal
      (codes "pg://" ++ tagged (codes "secret" ++ b'.' ∷ codes " user") (codes "@##secret##"))
      (codes "x1")
    ≡ codes "pg://" ++ literals (segments (codes "@##secret##"))
unfolding unmarshal str_eq
substitute_failed_example =
    substitute_failed unmarshal (codes "x1") (codes "pg://") (codes "secret") (codes " user")
      (codes "@##secret##") IsPlain-url IsName-user Lacks-secret Lacks-user refl
