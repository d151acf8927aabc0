-- ===== src/Oauth/Provider.antt =====
-- provider/aws_sm_oauth/provider.go: the provider of the proxy with its two methods.
use hasura_secret_refresh.Base.{◌≡◌, refl}
use hasura_secret_refresh.Strings.{Text}
use hasura_secret_refresh.Assoc.{Assoc}
use hasura_secret_refresh.Value.{Object}
use hasura_secret_refresh.Result.{Result, ok, ◌>>=◌, >>=-eq-ok, ok-injective}
use hasura_secret_refresh.Http.{Header, Reply, del_header}
use hasura_secret_refresh.Provider.{
  Fetcher, HttpProvider, OnlyDeletes, OnlyDeletes-del_header, OnlyDeletes-nothing,
}
use hasura_secret_refresh.Lru.{Lru}
use hasura_secret_refresh.Oauth.{
  TokenFetcher, token_fetcher, fetch_token, certificate_header, private_key_header,
  client_id_header, backend_id_header,
}

module _ {S C : Type 0} (get_secret_string : Text → S → Result Text × S)
    (sign : Text → Text → Text → S → Result Text × S) (new_request : Assoc Text → Result (Unit {0}))
    (send : Assoc Text → Header → S → Result Reply × S) (decode : Text → Result Object)
    (lru : Lru C) where
  token_fetch : TokenFetcher → Fetcher (C × S)
  unfolding fetch_token
  token_fetch f (c, s) =
      let (r, c', s') = fetch_token get_secret_string sign new_request send decode lru f c s in
      (r, (c', s'))

  unfoldable pub aws_sm_oauth : HttpProvider (C × S)
  unfolding token_fetch token_fetcher
  aws_sm_oauth = record {
    secret_fetcher = λ h. token_fetcher h >>= λ f. ok (token_fetch f);
    delete_config_headers = λ h.
        del_header
          (del_header (del_header (del_header h certificate_header) client_id_header)
            backend_id_header)
          private_key_header;
  }

  -- The headers of the provider are only deleted, as the proxy relies on.
  pub aws_sm_oauth-OnlyDeletes : OnlyDeletes aws_sm_oauth.delete_config_headers
  unfolding aws_sm_oauth
  aws_sm_oauth-OnlyDeletes = OnlyDeletes-del_header private_key_header _ (
      OnlyDeletes-del_header backend_id_header _ (
        OnlyDeletes-del_header client_id_header _
          (OnlyDeletes-del_header certificate_header (λ h. h) OnlyDeletes-nothing)))

  -- What a request is answered by, if its headers are accepted.
  pub secret_fetcher_sound :
      (h : Header) (fetch : Fetcher (C × S))
      → aws_sm_oauth.secret_fetcher h ≡ ok fetch
      → (f : TokenFetcher) × (token_fetcher h ≡ ok f)
        × ((c : C) (s : S)
            → let r = fetch_token get_secret_string sign new_request send decode lru f c s in
              fetch (c, s) ≡ (r.0, (r.1, r.2)))
  unfolding aws_sm_oauth
  secret_fetcher_sound h fetch e =
      let (f, read_headers, same) = >>=-eq-ok (token_fetcher h) _ e in
      let is_fetch : token_fetch f ≡ fetch = ok-injective _ _ same in
      (f, read_headers, λ c s. rw (← is_fetch) refl)
