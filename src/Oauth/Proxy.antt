-- ===== src/Oauth/Proxy.antt =====
-- The proxy with the OAuth provider: provider, cache and server together.
use hasura_secret_refresh.Base.{◌≡◌, refl, some, ◌++◌, sym, ◌∙◌, ap, Option-cases, inl, inr}
use mathlib.Core.Path.{subst}
use hasura_secret_refresh.Strings.{Text, codes}
use hasura_secret_refresh.Assoc.{Assoc, lookup}
use hasura_secret_refresh.Value.{Object}
use hasura_secret_refresh.Result.{Result, ok, err, panic, ok-injective}
use hasura_secret_refresh.Http.{Header, Url, Request, Reply, get_header}
use hasura_secret_refresh.Provider.{HttpProvider}
use hasura_secret_refresh.Transform.{JsonCodec}
use hasura_secret_refresh.Lru.{
  Lru, IsLru, OnlyAdded, Holds, keep, through, through-Holds, through-hit, through-cached,
}
use hasura_secret_refresh.Server.{secret_provider_header, forwarded, serve_http}
use hasura_secret_refresh.Server.Named.{Carries, serve_http-named}
use hasura_secret_refresh.Oauth.{
  TokenFetcher, token_fetcher, get_cache_key, new_token, keep_token, fetch_token,
}
use hasura_secret_refresh.Oauth.Key.{IsPlain, ids, get_cache_key-injective, get_cache_key-split}
use hasura_secret_refresh.Oauth.Laws.{IsGranted, new_token_sound}
use hasura_secret_refresh.Oauth.Provider.{
  aws_sm_oauth, aws_sm_oauth-OnlyDeletes, secret_fetcher_sound,
}

module _ {S C : Type 0} (get_secret_string : Text → S → Result Text × S)
    (sign : Text → Text → Text → S → Result Text × S) (new_request : Assoc Text → Result (Unit {0}))
    (send : Assoc Text → Header → S → Result Reply × S) (decode : Text → Result Object)
    (lru : Lru C) where
  -- A token that was granted to a fetcher with that key.
  pub record IsGrantedTo (key token : Text) : Type 0 where
    pub fetcher : TokenFetcher
    pub same_key : get_cache_key fetcher ≡ key
    pub is_granted : IsGranted get_secret_string sign new_request send decode lru fetcher token

  abbrev granted : TokenFetcher → C → S → Result Text × C × S
  granted = fetch_token get_secret_string sign new_request send decode lru

  abbrev answer : TokenFetcher → S → Result Text × S
  answer = new_token get_secret_string sign new_request send decode lru

  keep_token-keep :
      (key : Text) (r : Result Text) (c : C) (s : S)
      → keep_token get_secret_string sign new_request send decode lru key r c s ≡ keep lru key r c s
  unfolding keep_token
  keep_token-keep key (ok v) c s = refl
  keep_token-keep key (err e) c s = refl
  keep_token-keep key (panic w) c s = refl

  fetch_token-through :
      (f : TokenFetcher) (c : C) (s : S)
      → granted f c s ≡ through lru (get_cache_key f) (answer f s) c s
  unfolding fetch_token through
  fetch_token-through f c s = elim (Option-cases (lru.get c (get_cache_key f)).0) [
    | inl miss ↦ rw (miss, fetch_token, through) (keep_token-keep (get_cache_key f) _ _ _)
    | inr (v, hit) ↦ rw (hit, fetch_token, through) refl
  ]

  fetch_token-Holds :
      (laws : OnlyAdded lru) (f : TokenFetcher) (c : C) (s : S)
      → Holds lru IsGrantedTo c
      → Holds lru IsGrantedTo (granted f c s).1
        × ((token : Text) → (granted f c s).0 ≡ ok token → IsGrantedTo (get_cache_key f) token)
  fetch_token-Holds laws f c s h = rw (fetch_token-through f c s) (
      through-Holds lru IsGrantedTo laws (get_cache_key f) (answer f s) c s h (λ token e. record {
        fetcher = f;
        same_key = refl;
        is_granted = new_token_sound get_secret_string sign new_request send decode lru f token s e;
      }))

  -- The keys of the cache do not tell where an id ends: after a token was fetched for the client
  -- `client` and the resource b_x, a fetch for the client x_client and the resource b, with the same
  -- private key and certificate, returns that same token and asks nothing of AWS and of the token
  -- endpoint, if the cache finds what was added to it last, and finds again what it found last.
  pub fetch_token_collision :
      (laws : IsLru lru) (certificate private_key b x client token : Text) (c : C) (s t : S)
      → (granted (ids certificate (b ++ (codes "_" ++ x)) client private_key) c s).0 ≡ ok token
      → let first = granted (ids certificate (b ++ (codes "_" ++ x)) client private_key) c s in
        let second =
          granted (ids certificate b (x ++ (codes "_" ++ client)) private_key) first.1 t in
        (second.0 ≡ ok token) × (second.2 ≡ t)
  fetch_token_collision laws certificate private_key b x client token c s t e =
      let f = ids certificate (b ++ (codes "_" ++ x)) client private_key in
      let g = ids certificate b (x ++ (codes "_" ++ client)) private_key in
      let cached : (lru.get (granted f c s).1 (get_cache_key f)).0 ≡ some token =
        rw (fetch_token-through f c s) (
          through-cached lru laws (get_cache_key f) (answer f s) c s token
            (rw (fetch_token-through f c s) at e)) in
      rw (fetch_token-through g (granted f c s).1 t) (
        through-hit lru (get_cache_key g) (answer g t) (granted f c s).1 t token (
          subst (λ k. (lru.get (granted f c s).1 k).0 ≡ some token)
            (get_cache_key-split certificate private_key b x client) cached))

  module _ (url_parse : Text → Result Url) (codec : JsonCodec)
      (providers : Assoc (HttpProvider (C × S))) (outgoing : Request → Request) where
    -- A request that names the OAuth provider, and whose four ids hold no underscore, is forwarded
    -- only with a token that was granted to these very ids: it came in a reply of the token endpoint
    -- to a request with that client and that resource, and with a token signed for that client with
    -- the private key and the certificate that the ids name. It goes out put into the request's
    -- template and its header; and then too every token in the cache was granted to a fetcher with
    -- its key, if that was so before and if the cache finds only what was added.
    pub serve_http-oauth :
        (laws : OnlyAdded lru) (r out : Request) (f : TokenFetcher) (c c' : C) (s s' : S)
        → Holds lru IsGrantedTo c
        → lookup (get_header r.header secret_provider_header) providers
          ≡ some (aws_sm_oauth get_secret_string sign new_request send decode lru)
        → token_fetcher r.header ≡ ok f
        → IsPlain f
        → serve_http url_parse codec providers outgoing r (c, s) ≡ (forwarded out, (c', s'))
        → ((token : Text) × IsGranted get_secret_string sign new_request send decode lru f token
            × Carries codec token r out)
          × Holds lru IsGrantedTo c'
    serve_http-oauth laws r out f c c' s s' honest named asked plain e =
        let (fetch, token, configured, fetches, sent) =
          serve_http-named url_parse codec providers outgoing
            (aws_sm_oauth get_secret_string sign new_request send decode lru) r out (c, s) (c', s')
            (aws_sm_oauth-OnlyDeletes get_secret_string sign new_request send decode lru) named e in
        let (g, asks, runs) =
          secret_fetcher_sound get_secret_string sign new_request send decode lru r.header fetch
            configured in
        let this : g ≡ f = ok-injective _ _ (sym asks ∙ asked) in
        let fetched = sym (runs c s) ∙ fetches in
        let (kept, from) = fetch_token-Holds laws g c s honest in
        let moved : (granted g c s).1 ≡ c' = λ i. (fetched i).1.0 in
        let there = from token (λ i. (fetched i).0) in
        let owner : f ≡ there.fetcher =
          get_cache_key-injective f there.fetcher plain
            (ap get_cache_key (sym this) ∙ sym there.same_key) in
        ((token, rw owner there.is_granted, sent), rw moved at kept)
