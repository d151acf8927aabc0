-- ===== src/Tests/AzureProxy.antt =====
-- A request through the proxy that a secret of Azure Key Vault goes out with.
use hasura_secret_refresh.Base.{ℕ, suc, ◌≡◌, ◌≢◌, refl, Option, some, [], ◌∷◌, arith}
use hasura_secret_refresh.Strings.{Text, codes, str_eq, split, trim_space, has_prefix}
use hasura_secret_refresh.Assoc.{Assoc, lookup, insert, erase}
use hasura_secret_refresh.Result.{Result, ok}
use hasura_secret_refresh.Http.{
  Header, Url, Request, canonical_key, get_header, set_header, del_header, set_url, all_token,
  canonical_from, join_slash, first_value,
}
use hasura_secret_refresh.Provider.{HttpProvider}
use hasura_secret_refresh.Server.{
  forwarded, request_rewriter, get_target, get_request_config, serve_http, url_with_scheme_and_host,
  get_secret, fetched, details_of, get_header_from, check_url, missing_headers,
  get_request_rewrite_details, parse_destination_url, parse_url, get_provider,
}
use hasura_secret_refresh.Server.Template.{header_from_template}
use hasura_secret_refresh.Server.Named.{Carries}
use hasura_secret_refresh.Template.{
  substitute, segments, replace, json_template, json_path, tag_name,
}
use hasura_secret_refresh.Lru.{Holds}
use hasura_secret_refresh.Tests.Data.{codec}
use hasura_secret_refresh.Tests.Cache.{cache, cache-OnlyAdded}
use hasura_secret_refresh.Azure.Http.{
  secret_name_header, secret_fetcher, fetch_secret, value_of, store, azure_key_vault,
}
use hasura_secret_refresh.Azure.Proxy.{IsGiven, serve_http-azure}

-- The key vault has the secret x1 everywhere, and counts its reads.
abbrev pub read_secret : Text → ℕ → Result (Option Text) × ℕ
read_secret name n = (ok (some (codes "x1")), suc n)

empty-Holds : Holds cache (IsGiven read_secret cache) []
unfolding lookup
empty-Holds key v e = absurd (ground (arith, e))

abbrev pub url : Url
url = record { scheme = codes "http"; host = codes "h"; path = []; raw_query = [] }

abbrev pub header : Header
header =
    (codes "X-Hasura-Forward-To", codes "http://h" ∷ [])
    ∷ (codes "X-Hasura-Secret-Provider", codes "p" ∷ [])
    ∷ (codes "X-Hasura-Secret-Header", codes "Key: a ##b##" ∷ [])
    ∷ (codes "X-Hasura-Secret-Name", codes "app" ∷ [])
    ∷ []

abbrev pub request : Request
request = record {
  method = codes "POST";
  url = record { scheme = []; host = []; path = codes "/v1"; raw_query = [] };
  host = codes "proxy";
  header = header;
}

abbrev pub sent : Request
sent = record {
  method = codes "POST";
  url = record { scheme = codes "http"; host = codes "h"; path = codes "/v1"; raw_query = [] };
  host = [];
  header = (codes "Key", codes "a x1" ∷ []) ∷ [];
}

abbrev pub providers : Assoc (HttpProvider (Assoc Text × ℕ))
providers = (codes "p", azure_key_vault read_secret cache) ∷ []

abbrev pub filled : Assoc Text
filled = (codes "app", codes "x1") ∷ []

pub forwards :
    serve_http (λ t. ok url) codec providers (λ r. r) request ([], 0)
    ≡ (forwarded sent, (filled, 1))
unfolding serve_http get_request_rewrite_details get_target get_request_config missing_headers
    get_header first_value canonical_key all_token canonical_from lookup str_eq
    parse_destination_url parse_url check_url url_with_scheme_and_host get_provider get_secret
    fetched details_of get_header_from header_from_template split trim_space substitute segments
    replace json_template json_path tag_name request_rewriter set_url join_slash has_prefix
    set_header del_header insert erase azure_key_vault secret_fetcher fetch_secret value_of store
forwards = refl

finds :
    lookup (get_header header (codes "X-Hasura-Secret-Provider")) providers
    ≡ some (azure_key_vault read_secret cache)
unfolding get_header canonical_key all_token canonical_from lookup str_eq first_value
finds = refl

serve_http-azure_example :
    (get_header header secret_name_header ≢ [])
    × ((secret : Text) × IsGiven read_secret cache (get_header header secret_name_header) secret
        × Carries codec secret request sent)
    × Holds cache (IsGiven read_secret cache) filled
serve_http-azure_example =
    serve_http-azure read_secret cache (λ t. ok url) codec providers (λ r. r) cache-OnlyAdded
      request sent [] filled 0 1 empty-Holds finds forwards
