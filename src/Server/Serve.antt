-- ===== src/Server/Serve.antt =====
-- What ServeHTTP sends, replies, and leaves alone.
use hasura_secret_refresh.Base.{◌≡◌, refl, ◌≢◌, true, some, [], ◌∷◌, arith, ◌⊎◌, inl, inr, sym, ◌∙◌}
use hasura_secret_refresh.Strings.{Text, codes, has_prefix}
use hasura_secret_refresh.Strings.Laws.{str_eq_iff, str_eq_refl}
use hasura_secret_refresh.Assoc.{Assoc, lookup, lookup-insert}
use hasura_secret_refresh.Result.{Error, Result, err, Result-cases}
use hasura_secret_refresh.Http.{
  Header, Url, Request, get_header, set_header, canonical_key, join_slash, set_url, del_header,
}
use hasura_secret_refresh.Http.Laws.{
  get_header-set_header, get_header-del_header, IsAbsent, lookup-del_self, lookup-del_absent,
  lookup-set_absent,
}
use hasura_secret_refresh.Provider.{HttpProvider, OnlyDeletes}
use hasura_secret_refresh.Transform.{JsonCodec}
use hasura_secret_refresh.Server.{
  forward_to_header, secret_provider_header, template_header, request_rewriter,
  url_with_scheme_and_host, replied, forwarded, RewriteDetails, get_target,
  get_request_rewrite_details, serve_http, bad_request,
}
use hasura_secret_refresh.Server.Rewrite.{IsBacked, details_sound, details_refused}

-- A request as the backend receives it, `before` being the one that the rewriting started from.
pub record IsRewritten (d : RewriteDetails) (before out : Request) : Type 0 where
  pub scheme : out.url.scheme ≡ d.url.scheme
  pub host : out.url.host ≡ d.url.host
  pub no_host_header : out.host ≡ []
  pub method : out.method ≡ before.method
  pub carries : get_header out.header d.header_key ≡ d.header_val
  pub no_forward_to :
      canonical_key d.header_key ≢ canonical_key forward_to_header
      → get_header out.header forward_to_header ≡ []
  pub no_provider :
      canonical_key d.header_key ≢ canonical_key secret_provider_header
      → get_header out.header secret_provider_header ≡ []
  pub no_template :
      canonical_key d.header_key ≢ canonical_key template_header
      → get_header out.header template_header ≡ []
  pub others :
      (k : Text)
      → canonical_key d.header_key ≢ canonical_key k
      → (get_header out.header k ≡ get_header before.header k) ⊎ (get_header out.header k ≡ [])

-- A header with three names deleted and then a provider's own.
module _ (a b c : Text) (delete : Header → Header) (only : OnlyDeletes delete) (h : Header) where
  abbrev stripped : Header
  stripped = delete (del_header (del_header (del_header h a) b) c)

  stripped_or_gone :
      (k : Text) → (get_header stripped k ≡ get_header h k) ⊎ (get_header stripped k ≡ [])
  stripped_or_gone k = ground (
    arith,
    only.kept_or_gone (del_header (del_header (del_header h a) b) c) k,
    get_header-del_header (del_header (del_header h a) b) c k,
    get_header-del_header (del_header h a) b k,
    get_header-del_header h a k,
  )

  stripped_gone : (k : Text) → (k ≡ a) ⊎ (k ≡ b) ⊎ (k ≡ c) → get_header stripped k ≡ []
  stripped_gone k e = ground (
    arith,
    only.kept_or_gone (del_header (del_header (del_header h a) b) c) k,
    get_header-del_header (del_header (del_header h a) b) c k,
    get_header-del_header (del_header h a) b k,
    get_header-del_header h a k,
    str_eq_refl (canonical_key k),
  )

  stripped_absent : (k : Text) → (k ≡ a) ⊎ (k ≡ b) ⊎ (k ≡ c) → IsAbsent k stripped
  stripped_absent k e = only.absent _ k (elim e [
    | inl first ↦ rw first (lookup-del_absent _ c a (lookup-del_absent _ b a (lookup-del_self h a)))
    | inr (inl second) ↦ rw second (lookup-del_absent _ c b (lookup-del_self _ b))
    | inr (inr third) ↦ rw third (lookup-del_self _ c)
  ])

get_header-set_other :
    (h : Header) (k j v : Text)
    → canonical_key k ≢ canonical_key j
    → get_header (set_header h k v) j ≡ get_header h j
get_header-set_other h k j v differ =
    ground (arith, get_header-set_header h k j v, str_eq_iff (canonical_key k) (canonical_key j))

get_header-set_self : (h : Header) (k v : Text) → get_header (set_header h k v) k ≡ v
get_header-set_self h k v =
    ground (arith, get_header-set_header h k k v, str_eq_refl (canonical_key k))

-- What leaves for the backend: the target's scheme and host, no Host of the caller's, the secret's
-- header with its value, none of the proxy's three headers unless the secret's header is one of
-- them, and of every other header what came in or nothing.
pub request_rewriter-IsRewritten :
    (d : RewriteDetails) (before : Request)
    → OnlyDeletes d.delete
    → IsRewritten d before (request_rewriter d.url d.header_key d.header_val d.delete before)
unfolding request_rewriter
request_rewriter-IsRewritten d before only =
    let a = forward_to_header in
    let b = secret_provider_header in
    let c = template_header in
    let gone = stripped_gone a b c d.delete only before.header in
    let h = stripped a b c d.delete only before.header in
    record {
      scheme = unfold set_url in refl;
      host = unfold set_url in refl;
      no_host_header = unfold set_url in refl;
      method = unfold set_url in refl;
      carries = unfold set_url in (get_header-set_self h d.header_key d.header_val);
      no_forward_to = λ differ.
          unfold set_url in
          (get_header-set_other h d.header_key a d.header_val differ ∙ gone a (inl refl));
      no_provider = λ differ.
          unfold set_url in
          (get_header-set_other h d.header_key b d.header_val differ ∙ gone b (inr (inl refl)));
      no_template = λ differ.
          unfold set_url in
          (get_header-set_other h d.header_key c d.header_val differ ∙ gone c (inr (inr refl)));
      others = λ k differ.
          unfold set_url in
          (rw (get_header-set_other h d.header_key k d.header_val differ)
            (stripped_or_gone a b c d.delete only before.header k));
    }

-- If a provider's deletion of its headers sets none, no header of the three that steer the proxy
-- leaves for the backend, with whatever value or with none, unless the secret's header has that very
-- name; and the secret's header leaves with the value made of the secret and no other.
pub request_rewriter_strips :
    (url : Url) (key val : Text) (delete : Header → Header) (before : Request) (k : Text)
    → OnlyDeletes delete
    → (k ≡ forward_to_header) ⊎ (k ≡ secret_provider_header) ⊎ (k ≡ template_header)
    → canonical_key key ≢ canonical_key k
    → IsAbsent k (request_rewriter url key val delete before).header
      × (lookup (canonical_key key) (request_rewriter url key val delete before).header
          ≡ some (val ∷ []))
unfolding request_rewriter set_url set_header
request_rewriter_strips url key val delete before k only steers differ =
    let a = forward_to_header in
    let b = secret_provider_header in
    let c = template_header in
    let h = stripped a b c delete only before.header in
    (
      lookup-set_absent h key k val differ
          (stripped_absent a b c delete only before.header k steers),
      rw (lookup-insert, str_eq_refl (canonical_key key)),
    )

module _ {S : Type 0} (url_parse : Text → Result Url) (codec : JsonCodec)
    (providers : Assoc (HttpProvider S)) (outgoing : Request → Request) where
  -- A request is forwarded only with details that are backed: its three headers are there, the
  -- destination is an http or https URL with a host, the provider is configured and has fetched the
  -- secret, and the template has made the header. What is sent is the rewritten request.
  pub serve_http-forwarded :
      (r out : Request) (s s' : S)
      → serve_http url_parse codec providers outgoing r s ≡ (forwarded out, s')
      → (d : RewriteDetails) × IsBacked url_parse codec providers r.header s s' d
        × (out ≡ request_rewriter d.url d.header_key d.header_val d.delete (outgoing r))
  unfolding serve_http
  serve_http-forwarded r out s s' e =
      elim (Result-cases (get_request_rewrite_details url_parse codec providers r.header s).0) [
        | inl (d, found) ↦
            let same : (get_request_rewrite_details url_parse codec providers r.header s).1 ≡ s' =
              ground (arith, found) in
            let sent : request_rewriter d.url d.header_key d.header_val d.delete (outgoing r)
                ≡ out =
              ground (arith, found) in
            (
              d,
              details_sound url_parse codec providers r.header s s' d (λ i. (found i, same i)),
              sym sent,
            )
        | inr (inl (x, failed)) ↦ ground (arith, failed)
        | inr (inr (w, failed)) ↦ ground (arith, failed)
      ]

  -- Where no target is found, the reply tells the error, and the state is as it was.
  pub serve_http-no_target :
      (r : Request) (s : S) (x : Error)
      → get_target url_parse codec providers r.header ≡ err x
      → serve_http url_parse codec providers outgoing r s ≡ (replied (bad_request codec x), s)
  unfolding serve_http
  serve_http-no_target r s x e =
      let failed = details_refused url_parse codec providers r.header s x e in
      rw (failed, serve_http) (λ i. (replied (bad_request codec x), (failed i).1))

  -- The path and the query of the destination URL are dropped: a forwarded request keeps its own,
  -- if its path starts with a slash.
  pub serve_http-path :
      (r out : Request) (s s' : S)
      → serve_http url_parse codec providers outgoing r s ≡ (forwarded out, s')
      → has_prefix (outgoing r).url.path (codes "/") ≡ true
      → (out.url.path ≡ (outgoing r).url.path) × (out.url.raw_query ≡ (outgoing r).url.raw_query)
  unfolding request_rewriter set_url join_slash url_with_scheme_and_host
  serve_http-path r out s s' e slash =
      let (d, backed, same) = serve_http-forwarded r out s s' e in
      let target = backed.is_target.target in
      (rw (same, target) (ground (arith, slash)), rw (same, target) refl)
