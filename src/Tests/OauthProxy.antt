-- ===== src/Tests/OauthProxy.antt =====
-- A request through the proxy that a token of a token endpoint goes out with.
use hasura_secret_refresh.Base.{ℕ, ◌≡◌, refl, some, [], ◌∷◌, ◌++◌, arith}
use hasura_secret_refresh.Strings.{Text, codes, str_eq, split, trim_space, has_prefix}
use hasura_secret_refresh.Assoc.{Assoc, lookup, insert, erase}
use hasura_secret_refresh.Result.{Result, ok}
use hasura_secret_refresh.Http.{
  Header, Url, Request, canonical_key, get_header, set_header, del_header, set_url, all_token,
  canonical_from, join_slash, first_value,
}
use hasura_secret_refresh.Provider.{HttpProvider}
use hasura_secret_refresh.Server.{
  forwarded, request_rewriter, get_target, get_request_config, serve_http, url_with_scheme_and_host,
  get_secret, fetched, details_of, get_header_from, check_url, missing_headers,
  get_request_rewrite_details, parse_destination_url, parse_url, get_provider,
}
use hasura_secret_refresh.Server.Template.{header_from_template}
use hasura_secret_refresh.Server.Named.{Carries}
use hasura_secret_refresh.Template.{
  substitute, segments, replace, json_template, json_path, tag_name,
}
use hasura_secret_refresh.Lru.{Holds}
use hasura_secret_refresh.Tests.Data.{codec}
use hasura_secret_refresh.Tests.Cache.{cache, cache-OnlyAdded, cache-IsLru}
use hasura_secret_refresh.Oauth.{
  TokenFetcher, token_fetcher, get_cache_key, token_of_reply, new_token, keep_token, fetch_token,
  create_jwt_token, get_access_token,
}
use hasura_secret_refresh.Oauth.Key.{IsPlain, ids}
use hasura_secret_refresh.Oauth.Laws.{IsGranted}
use hasura_secret_refresh.Oauth.Provider.{aws_sm_oauth}
use hasura_secret_refresh.Oauth.Proxy.{IsGrantedTo, fetch_token_collision, serve_http-oauth}
use hasura_secret_refresh.Tests.Oauth.{secret_string, sign, new_request, send, decode}

empty-Holds : Holds cache (IsGrantedTo secret_string sign new_request send decode cache) []
unfolding lookup
empty-Holds key v e = absurd (ground (arith, e))

abbrev fetcher : TokenFetcher
fetcher = ids (codes "cert") (codes "api") (codes "me") (codes "key")

fetcher-IsPlain : IsPlain fetcher
fetcher-IsPlain = omega arith

abbrev url : Url
url = record { scheme = codes "http"; host = codes "h"; path = []; raw_query = [] }

abbrev header : Header
header =
    (codes "X-Hasura-Forward-To", codes "http://h" ∷ [])
    ∷ (codes "X-Hasura-Secret-Provider", codes "p" ∷ [])
    ∷ (codes "X-Hasura-Secret-Header", codes "Key: a ##b##" ∷ [])
    ∷ (codes "X-Hasura-Certificate-Id", codes "cert" ∷ [])
    ∷ (codes "X-Hasura-Backend-Id", codes "api" ∷ [])
    ∷ (codes "X-Hasura-Oauth-Client-Id", codes "me" ∷ [])
    ∷ (codes "X-Hasura-Private-Key-Id", codes "key" ∷ [])
    ∷ []

abbrev request : Request
request = record {
  method = codes "POST";
  url = record { scheme = []; host = []; path = codes "/v1"; raw_query = [] };
  host = codes "proxy";
  header = header;
}

abbrev sent : Request
sent = record {
  method = codes "POST";
  url = record { scheme = codes "http"; host = codes "h"; path = codes "/v1"; raw_query = [] };
  host = [];
  header = (codes "Key", codes "a t1" ∷ []) ∷ [];
}

abbrev providers : Assoc (HttpProvider (Assoc Text × ℕ))
providers = (codes "p", aws_sm_oauth secret_string sign new_request send decode cache) ∷ []

abbrev filled : Assoc Text
filled = (codes "cert_api_me_key", codes "t1") ∷ []

forwards :
    serve_http (λ t. ok url) codec providers (λ r. r) request ([], 0)
    ≡ (forwarded sent, (filled, 4))
unfolding serve_http get_request_rewrite_details get_target get_request_config missing_headers
    get_header first_value canonical_key all_token canonical_from lookup str_eq
    parse_destination_url parse_url check_url url_with_scheme_and_host get_provider get_secret
    fetched details_of get_header_from header_from_template split trim_space substitute segments
    replace json_template json_path tag_name request_rewriter set_url join_slash has_prefix
    set_header del_header insert erase aws_sm_oauth token_fetcher fetch_token new_token keep_token
    create_jwt_token get_access_token token_of_reply decode get_cache_key
forwards = refl

finds :
    lookup (get_header header (codes "X-Hasura-Secret-Provider")) providers
    ≡ some (aws_sm_oauth secret_string sign new_request send decode cache)
unfolding get_header canonical_key all_token canonical_from lookup str_eq first_value
finds = refl

asks : token_fetcher header ≡ ok fetcher
unfolding token_fetcher get_header canonical_key all_token canonical_from lookup str_eq first_value
asks = refl

serve_http-oauth_example :
    ((token : Text) × IsGranted secret_string sign new_request send decode cache fetcher token
      × Carries codec token request sent)
    × Holds cache (IsGrantedTo secret_string sign new_request send decode cache) filled
serve_http-oauth_example =
    serve_http-oauth secret_string sign new_request send decode cache (λ t. ok url) codec providers
      (λ r. r) cache-OnlyAdded request sent fetcher [] filled 0 4 empty-Holds finds asks
      fetcher-IsPlain forwards

-- Two requests that differ in the client and the resource, and share a token.
abbrev first : Result Text × Assoc Text × ℕ
first =
    fetch_token secret_string sign new_request send decode cache
      (ids (codes "cert") (codes "b" ++ (codes "_" ++ codes "x")) (codes "me") (codes "key")) [] 0

first_token : first.0 ≡ ok (codes "t1")
unfolding fetch_token new_token create_jwt_token get_access_token token_of_reply decode str_eq
    lookup insert get_cache_key keep_token
first_token = refl

abbrev second : Result Text × Assoc Text × ℕ
second =
    fetch_token secret_string sign new_request send decode cache
      (ids (codes "cert") (codes "b") (codes "x" ++ (codes "_" ++ codes "me")) (codes "key"))
      first.1 7

fetch_token_collision_example : (second.0 ≡ ok (codes "t1")) × (second.2 ≡ 7)
fetch_token_collision_example =
    fetch_token_collision secret_string sign new_request send decode cache cache-IsLru
      (codes "cert") (codes "key") (codes "b") (codes "x") (codes "me") (codes "t1") [] 0 7
      first_token
