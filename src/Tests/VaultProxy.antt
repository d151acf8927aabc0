-- ===== src/Tests/VaultProxy.antt =====
-- A request through the proxy that a secret of Vault goes out with.
use hasura_secret_refresh.Base.{ℕ, suc, ◌≡◌, refl, Option, some, [], ◌∷◌, arith}
use hasura_secret_refresh.Strings.{Text, codes, str_eq, split, trim_space, has_prefix}
use hasura_secret_refresh.Assoc.{Assoc, lookup, insert, erase}
use hasura_secret_refresh.Value.{str, obj, field, end, as_object, entries}
use hasura_secret_refresh.Result.{ok}
use hasura_secret_refresh.Http.{
  Header, Url, Request, canonical_key, get_header, set_header, del_header, set_url, all_token,
  canonical_from, join_slash, first_value,
}
use hasura_secret_refresh.Provider.{HttpProvider}
use hasura_secret_refresh.Server.{
  forwarded, request_rewriter, get_target, get_request_config, serve_http, url_with_scheme_and_host,
  get_secret, fetched, details_of, get_header_from, check_url, missing_headers,
  get_request_rewrite_details, parse_destination_url, parse_url, get_provider,
}
use hasura_secret_refresh.Server.Template.{header_from_template}
use hasura_secret_refresh.Template.{
  substitute, segments, replace, json_template, json_path, tag_name,
}
use hasura_secret_refresh.Vault.{Response, build_kvv2_path, extract_field, read_kvv2, data_of}
use hasura_secret_refresh.Vault.Http.{
  cache_key, asked, fetch_secret, read_value, store, hashicorp_vault,
}
use hasura_secret_refresh.Vault.Http.Honest.{IsHonest}
use hasura_secret_refresh.Vault.Proxy.{IsVaultRequest, serve_http-vault}
use hasura_secret_refresh.Tests.Data.{codec}
use hasura_secret_refresh.Tests.Cache.{cache, cache-OnlyAdded}

-- Vault has the secret x1 everywhere, and counts its reads.
abbrev read : Text → Option Text → ℕ → Response × ℕ
read path version n =
    (ok (some ((codes "data", obj (field (codes "k") (str (codes "x1")) end)) ∷ [])), suc n)

empty-IsHonest : IsHonest codec read cache []
unfolding lookup
empty-IsHonest key v e = ground (arith, e)

abbrev url : Url
url = record { scheme = codes "http"; host = codes "h"; path = []; raw_query = [] }

abbrev header : Header
header =
    (codes "X-Hasura-Forward-To", codes "http://h" ∷ [])
    ∷ (codes "X-Hasura-Secret-Provider", codes "p" ∷ [])
    ∷ (codes "X-Hasura-Secret-Header", codes "Key: a ##b##" ∷ [])
    ∷ (codes "X-Hasura-Vault-Path", codes "app" ∷ [])
    ∷ (codes "X-Hasura-Vault-Field", codes "k" ∷ [])
    ∷ []

abbrev request : Request
request = record {
  method = codes "POST";
  url = record { scheme = []; host = []; path = codes "/v1"; raw_query = [] };
  host = codes "proxy";
  header = header;
}

abbrev sent : Request
sent = record {
  method = codes "POST";
  url = record { scheme = codes "http"; host = codes "h"; path = codes "/v1"; raw_query = [] };
  host = [];
  header = (codes "Key", codes "a x1" ∷ []) ∷ [];
}

abbrev providers : Assoc (HttpProvider (Assoc Text × ℕ))
providers = (codes "p", hashicorp_vault codec read cache (codes "kv")) ∷ []

forwards :
    serve_http (λ t. ok url) codec providers (λ r. r) request ([], 0)
    ≡ (forwarded sent, ((codes "kv/app@#k", codes "x1") ∷ [], 1))
unfolding serve_http get_request_rewrite_details get_target get_request_config missing_headers
    get_header first_value canonical_key all_token canonical_from lookup str_eq
    parse_destination_url parse_url check_url url_with_scheme_and_host get_provider get_secret
    fetched details_of get_header_from header_from_template split trim_space substitute segments
    replace json_template json_path tag_name request_rewriter set_url join_slash has_prefix
    set_header del_header insert erase hashicorp_vault asked fetch_secret read_value read_kvv2
    build_kvv2_path extract_field data_of as_object entries store cache_key
forwards = refl

finds :
    lookup (get_header header (codes "X-Hasura-Secret-Provider")) providers
    ≡ some (hashicorp_vault codec read cache (codes "kv"))
unfolding get_header canonical_key all_token canonical_from lookup str_eq first_value
finds = refl

serve_http-vault_example :
    IsVaultRequest read cache (λ t. ok url) codec providers (λ r. r) (codes "kv") request sent
    × IsHonest codec read cache ((codes "kv/app@#k", codes "x1") ∷ [])
serve_http-vault_example =
    serve_http-vault read cache (λ t. ok url) codec providers (λ r. r) cache-OnlyAdded (codes "kv")
      request sent [] ((codes "kv/app@#k", codes "x1") ∷ []) 0 1 empty-IsHonest finds forwards
