-- ===== src/Server/Named.antt =====
-- A request that names one of the proxy's providers: what that provider has fetched goes out.
use hasura_secret_refresh.Base.{◌≡◌, some, sym, ◌∙◌, ap}
use mathlib.Core.Option.{some-injective}
use hasura_secret_refresh.Strings.{Text}
use hasura_secret_refresh.Assoc.{Assoc, lookup}
use hasura_secret_refresh.Result.{Result, ok}
use hasura_secret_refresh.Http.{Url, Request, get_header}
use hasura_secret_refresh.Provider.{Fetcher, HttpProvider, OnlyDeletes}
use hasura_secret_refresh.Transform.{JsonCodec}
use hasura_secret_refresh.Server.{secret_provider_header, template_header, forwarded, serve_http}
use hasura_secret_refresh.Server.Template.{header_from_template}
use hasura_secret_refresh.Server.Serve.{serve_http-forwarded, request_rewriter-IsRewritten}

-- The header that goes out is what the request's template makes of the secret.
pub record Carries (codec : JsonCodec) (secret : Text) (r out : Request) : Type 0 where
  pub key : Text
  pub value : Text
  pub made :
      header_from_template codec.unmarshal (get_header r.header template_header) secret
      ≡ ok (key, value)
  pub carries : get_header out.header key ≡ value

module _ {S : Type 0} (url_parse : Text → Result Url) (codec : JsonCodec)
    (providers : Assoc (HttpProvider S)) (outgoing : Request → Request) where
  -- A request that names a provider is forwarded only with the secret that a fetch of this provider
  -- has returned for its headers, put into its template.
  pub serve_http-named :
      (p : HttpProvider S) (r out : Request) (s s' : S)
      → OnlyDeletes p.delete_config_headers
      → lookup (get_header r.header secret_provider_header) providers ≡ some p
      → serve_http url_parse codec providers outgoing r s ≡ (forwarded out, s')
      → (fetch : Fetcher S) × (secret : Text) × (p.secret_fetcher r.header ≡ ok fetch)
        × (fetch s ≡ (ok secret, s'))
        × Carries codec secret r out
  serve_http-named p r out s s' only named e =
      let (d, b, sent) = serve_http-forwarded url_parse codec providers outgoing r out s s' e in
      let this : p ≡ b.provider =
        some-injective _ _ (sym named ∙ rw b.has_conf.provider_read b.named) in
      let rewritten = request_rewriter-IsRewritten d (outgoing r) (rw (b.deletes, ← this) only) in
      (
        b.fetcher,
        b.secret,
        ap (λ (q : HttpProvider S). q.secret_fetcher r.header) this ∙ b.configured,
        b.fetches,
        record {
          key = d.header_key;
          value = d.header_val;
          made = rw b.has_conf.template_read b.made;
          carries = rw sent rewritten.carries;
        },
      )
