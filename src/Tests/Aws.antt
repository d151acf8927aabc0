-- ===== src/Tests/Aws.antt =====
-- The providers of AWS Secrets Manager.
use hasura_secret_refresh.Base.{ℕ, ◌+◌, refl, ◌≢◌, [], ◌∷◌}
use hasura_secret_refresh.Strings.{Text, codes, str_eq}
use hasura_secret_refresh.Assoc.{lookup}
use hasura_secret_refresh.Result.{Result, ok}
use hasura_secret_refresh.Http.{
  Header, Url, Request, get_header, canonical_key, all_token, canonical_from, first_value,
}
use hasura_secret_refresh.Server.{forwarded, serve_http}
use hasura_secret_refresh.Aws.Http.{aws_secrets_manager}
use hasura_secret_refresh.Aws.Proxy.{serve_http-aws}
use hasura_secret_refresh.Tests.Data.{codec}

-- The cache of the AWS library, with the secret x1 under every name.
abbrev get_secret_string : Text → ℕ → Result Text × ℕ
get_secret_string secret_id n = (ok (codes "x1"), n + 1)

abbrev header : Header
header =
    (codes "X-Hasura-Secret-Id", codes "db" ∷ [])
    ∷ (codes "X-Hasura-Secret-Provider", codes "p" ∷ [])
    ∷ []

abbrev url : Url
url = record { scheme = codes "http"; host = codes "h"; path = []; raw_query = [] }

abbrev request : Request
request = record { method = codes "GET"; url = url; host = []; header = header }

serve_http-aws_example :
    serve_http
      (λ t. ok url)
      codec
      ((codes "p", aws_secrets_manager get_secret_string) ∷ [])
      (λ r. r)
      request
      0
    ≢ (forwarded request, 1)
unfolding get_header canonical_key all_token canonical_from lookup str_eq first_value
serve_http-aws_example =
    serve_http-aws get_secret_string (λ t. ok url) codec
      ((codes "p", aws_secrets_manager get_secret_string) ∷ []) (λ r. r) request request 0 1 refl
