-- ===== src/Aws/Proxy.antt =====
-- The proxy with the AWS Secrets Manager provider: provider and server together.
use hasura_secret_refresh.Base.{◌≡◌, ◌≢◌, some, sym, ◌∙◌, ap}
use mathlib.Core.Option.{some-injective}
use hasura_secret_refresh.Strings.{Text}
use hasura_secret_refresh.Assoc.{Assoc, lookup}
use hasura_secret_refresh.Result.{Result}
use hasura_secret_refresh.Http.{Url, Request, get_header}
use hasura_secret_refresh.Provider.{HttpProvider}
use hasura_secret_refresh.Transform.{JsonCodec}
use hasura_secret_refresh.Server.{secret_provider_header, forwarded, serve_http}
use hasura_secret_refresh.Server.Serve.{serve_http-forwarded}
use hasura_secret_refresh.Aws.Http.{aws_secrets_manager, secret_fetcher_fails}

module _ {S : Type 0} (get_secret_string : Text → S → Result Text × S)
    (url_parse : Text → Result Url) (codec : JsonCodec) (providers : Assoc (HttpProvider S))
    (outgoing : Request → Request) where
  -- No request that names an AWS Secrets Manager provider is ever forwarded, whatever the cache of
  -- the AWS library answers.
  pub serve_http-aws :
      (r out : Request) (s s' : S)
      → lookup (get_header r.header secret_provider_header) providers
        ≡ some (aws_secrets_manager get_secret_string)
      → serve_http url_parse codec providers outgoing r s ≢ (forwarded out, s')
  unfolding aws_secrets_manager
  serve_http-aws r out s s' named e =
      let (d, b, sent) = serve_http-forwarded url_parse codec providers outgoing r out s s' e in
      let same : some (aws_secrets_manager get_secret_string) ≡ some b.provider =
        sym named ∙ rw b.has_conf.provider_read b.named in
      let this = some-injective _ _ same in
      secret_fetcher_fails get_secret_string r.header b.fetcher b.secret s
        (ap (λ (p : HttpProvider S). p.secret_fetcher r.header) this ∙ b.configured)
        (ap (λ (x : Result Text × S). x.0) b.fetches)
