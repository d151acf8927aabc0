-- ===== src/Vault/Proxy.antt =====
-- The proxy with the Vault provider: provider, cache and server together.
use hasura_secret_refresh.Base.{◌≡◌, Option, some, sym, ◌∙◌}
use hasura_secret_refresh.Strings.{Text}
use hasura_secret_refresh.Assoc.{Assoc, lookup}
use hasura_secret_refresh.Result.{Result, ok}
use hasura_secret_refresh.Http.{Url, Request, get_header}
use hasura_secret_refresh.Provider.{HttpProvider}
use hasura_secret_refresh.Transform.{JsonCodec}
use hasura_secret_refresh.Server.{secret_provider_header, forwarded, serve_http}
use hasura_secret_refresh.Server.Named.{Carries, serve_http-named}
use hasura_secret_refresh.Lru.{Lru, OnlyAdded}
use hasura_secret_refresh.Vault.{Response}
use hasura_secret_refresh.Vault.Http.{
  SecretFetcher, cache_key, asked, fetch_secret, hashicorp_vault, hashicorp_vault-OnlyDeletes,
  secret_fetcher_sound,
}
use hasura_secret_refresh.Vault.Http.Honest.{IsRead, IsHonest, fetch_secret-IsHonest}

module _ {S C : Type 0} (read : Text → Option Text → S → Response × S) (lru : Lru C)
    (url_parse : Text → Result Url) (codec : JsonCodec) (providers : Assoc (HttpProvider (C × S)))
    (outgoing : Request → Request) where
  -- A request that went out with a secret of Vault: its own headers ask for the secret, Vault gave
  -- it for that cache key, and the header that goes out is what the request's template makes of it.
  pub record IsVaultRequest (default : Text) (r out : Request) : Type 0 where
    pub fetcher : SecretFetcher
    pub asks : asked default r.header ≡ ok fetcher
    pub secret : Text
    pub was_read : IsRead codec read lru (cache_key fetcher) secret
    pub sent : Carries codec secret r out

  -- A request that names a Vault provider is forwarded only with a value that Vault has given for
  -- the cache key of what its headers ask for, put into its template and its header; and then too
  -- every value in the cache was read from Vault under its key, if that was so before and if the
  -- cache finds only what was added.
  pub serve_http-vault :
      (laws : OnlyAdded lru) (default : Text) (r out : Request) (c c' : C) (s s' : S)
      → IsHonest codec read lru c
      → lookup (get_header r.header secret_provider_header) providers
        ≡ some (hashicorp_vault codec read lru default)
      → serve_http url_parse codec providers outgoing r (c, s) ≡ (forwarded out, (c', s'))
      → IsVaultRequest default r out × IsHonest codec read lru c'
  serve_http-vault laws default r out c c' s s' honest named e =
      let (fetch, secret, configured, fetches, sent) =
        serve_http-named url_parse codec providers outgoing (hashicorp_vault codec read lru default)
          r out (c, s) (c', s') (hashicorp_vault-OnlyDeletes codec read lru default) named e in
      let (f, asks, runs) = secret_fetcher_sound codec read lru default r.header fetch configured in
      let fetched = sym (runs c s) ∙ fetches in
      let (kept, from) = fetch_secret-IsHonest codec read lru laws f c s honest in
      let moved : (fetch_secret codec read lru f c s).1 ≡ c' = λ i. (fetched i).1.0 in
      (
        record {
          fetcher = f;
          asks = asks;
          secret = secret;
          was_read = from secret (λ i. (fetched i).0);
          sent = sent;
        },
        rw moved at kept,
      )
