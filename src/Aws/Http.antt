-- ===== src/Aws/Http.antt =====
-- provider/aws_secrets_manager/provider.go and fetcher.go: a secret for the proxy, through the cache
-- of the AWS library.
use hasura_secret_refresh.Base.{◌≡◌, ◌≢◌, [], arith, if◌then◌else◌, not, Bool-cases, inl, inr}
use hasura_secret_refresh.Strings.{Text, codes, is_empty}
use hasura_secret_refresh.Value.{Object}
use hasura_secret_refresh.Result.{new, wrap, nil, wrap_error, Result, ok, err, panic, ◌>>=◌}
use hasura_secret_refresh.Duration.{Duration}
use hasura_secret_refresh.Config.{cache_ttl}
use hasura_secret_refresh.Http.{Header, get_header, del_header}
use hasura_secret_refresh.Provider.{
  Fetcher, HttpProvider, OnlyDeletes, OnlyDeletes-del_header, OnlyDeletes-nothing,
}

abbrev pub secret_id_header : Text
secret_id_header = codes "X-Hasura-Secret-Id"

-- The time to live that Create hands to the cache.
unfoldable pub cache_item_ttl : Object → Result Duration
unfolding cache_ttl
cache_item_ttl config =
    cache_ttl
      (new "aws_secrets_manager: unable to initialize: unable to convert cacheTtl to number") config

-- What FetchSecret makes of the cache's answer. fmt.Errorf returns an error also where its
-- argument is nil.
unfoldable pub answer : Result Text → Result Text
answer (ok secret) = err (wrap "aws_secrets_manager: unable to fetch secret" nil)
answer (err e) = err (wrap "aws_secrets_manager: unable to fetch secret" e)
answer (panic w) = panic w

-- `get_secret_string` is the cache's GetSecretString.
module _ {S : Type 0} (get_secret_string : Text → S → Result Text × S) where
  unfoldable pub fetch_secret : Text → Fetcher S
  unfolding answer
  fetch_secret secret_id s = let (r, s') = get_secret_string secret_id s in (answer r, s')

  -- SecretFetcher
  unfoldable pub secret_fetcher : Header → Result (Fetcher S)
  secret_fetcher h =
      let secret_id = get_header h secret_id_header in
      if not (is_empty secret_id)
      then err (wrap "aws_secrets_manager: required header not found" (new "X-Hasura-Secret-Id"))
      else ok (fetch_secret secret_id)

  unfoldable pub aws_secrets_manager : HttpProvider S
  unfolding secret_fetcher
  aws_secrets_manager = record {
    secret_fetcher = secret_fetcher;
    delete_config_headers = λ h. del_header h secret_id_header;
  }

  -- A request that names a secret is refused, with the error of a missing header.
  pub secret_fetcher-named :
      (h : Header)
      → get_header h secret_id_header ≢ []
      → secret_fetcher h
        ≡ err (wrap "aws_secrets_manager: required header not found" (new "X-Hasura-Secret-Id"))
  unfolding secret_fetcher
  secret_fetcher-named h there = ground (arith, there)

  -- FetchSecret returns an error on every secret, also where the cache returned the secret.
  fetch_secret-ne-ok : (secret_id secret : Text) (s : S) → (fetch_secret secret_id s).0 ≢ ok secret
  unfolding fetch_secret
  fetch_secret-ne-ok secret_id secret s = ground arith

  pub secret_fetcher_fails :
      (h : Header) (f : Fetcher S) (secret : Text) (s : S)
      → secret_fetcher h ≡ ok f
      → (f s).0 ≢ ok secret
  unfolding secret_fetcher
  secret_fetcher_fails h f secret s e =
      elim (Bool-cases (is_empty (get_header h secret_id_header))) [
        | inl missing ↦
            let same : fetch_secret (get_header h secret_id_header) ≡ f = ground (arith, missing) in
            rw (← same) (fetch_secret-ne-ok (get_header h secret_id_header) secret s)
        | inr there ↦ ground (arith, there)
      ]

  -- The header of the provider is only deleted, as the proxy relies on.
  pub aws_secrets_manager-OnlyDeletes : OnlyDeletes aws_secrets_manager.delete_config_headers
  unfolding aws_secrets_manager
  aws_secrets_manager-OnlyDeletes =
      OnlyDeletes-del_header secret_id_header (λ h. h) OnlyDeletes-nothing

-- Create. `new_cache` is secretcache.New with that time to live: the GetSecretString of the cache.
unfoldable pub create :
    {S : Type 0}
    → (Duration → Result (Text → S → Result Text × S))
    → Object
    → Result (HttpProvider S)
unfolding cache_item_ttl
create new_cache config = do
  ttl ← cache_item_ttl config
  get_secret_string ←
      wrap_error "aws_secrets_manager: unable to initialize: unable to convert cacheTtl to int"
        (new_cache ttl)
  ok (aws_secrets_manager get_secret_string)
