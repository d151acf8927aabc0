-- ===== src/Tests/Proxy.antt =====
-- A request through the proxy.
use hasura_secret_refresh.Base.{ℕ, ◌+◌, ◌≡◌, refl, ◌≢◌, some, inl, [], ◌∷◌, if◌then◌else◌}
use hasura_secret_refresh.Strings.{Text, codes, str_eq, split, trim_space, has_prefix}
use hasura_secret_refresh.Assoc.{Assoc, lookup, insert, erase}
use hasura_secret_refresh.Result.{new, Result, ok, err}
use hasura_secret_refresh.Http.{
  Header, Url, Request, canonical_key, get_header, set_header, del_header, set_url, all_token,
  canonical_from, join_slash, first_value,
}
use hasura_secret_refresh.Http.Laws.{IsAbsent}
use hasura_secret_refresh.Provider.{HttpProvider, OnlyDeletes-nothing}
use hasura_secret_refresh.Server.{
  forward_to_header, forwarded, request_rewriter, get_target, get_request_config, serve_http,
  url_with_scheme_and_host, get_secret, fetched, details_of, get_header_from, check_url,
  missing_headers, get_request_rewrite_details, parse_destination_url, parse_url, get_provider,
}
use hasura_secret_refresh.Server.Template.{header_from_template}
use hasura_secret_refresh.Server.Rewrite.{IsBacked}
use hasura_secret_refresh.Server.Serve.{request_rewriter_strips, serve_http-forwarded}
use hasura_secret_refresh.Server.{RewriteDetails}
use hasura_secret_refresh.Template.{
  substitute, segments, replace, json_template, json_path, tag_name,
}
use hasura_secret_refresh.Tests.Data.{codec}

-- url.Parse on the one URL.
abbrev backend : Url
backend = record { scheme = codes "http"; host = codes "h:80"; path = codes "/x"; raw_query = [] }

unfoldable url_parse : Text → Result Url
unfolding str_eq
url_parse t = if str_eq t (codes "http://h:80/x") then ok backend else err (new "no URL")

-- A provider that always has the secret x1, and counts how often it is asked.
abbrev constant : HttpProvider ℕ
constant = record {
  secret_fetcher = λ h. ok (λ n. (ok (codes "x1"), n + 1));
  delete_config_headers = λ h. h;
}

abbrev providers : Assoc (HttpProvider ℕ)
providers = (codes "p", constant) ∷ []

abbrev header : Text → Header
header name =
    (codes "X-Hasura-Forward-To", codes "http://h:80/x" ∷ [])
    ∷ (codes "X-Hasura-Secret-Provider", name ∷ [])
    ∷ (codes "X-Hasura-Secret-Header", codes "Key: a ##b##" ∷ [])
    ∷ []

abbrev request : Text → Request
request name = record {
  method = codes "POST";
  url = record { scheme = []; host = []; path = codes "/v1/q"; raw_query = codes "a=1" };
  host = codes "proxy";
  header = header name;
}

abbrev same : Request → Request
same r = r

abbrev target : Url
target = record { scheme = codes "http"; host = codes "h:80"; path = []; raw_query = [] }

abbrev sent : Request
sent = record {
  method = codes "POST";
  url = record {
    scheme = codes "http";
    host = codes "h:80";
    path = codes "/v1/q";
    raw_query = codes "a=1";
  };
  host = [];
  header = (codes "Key", codes "a x1" ∷ []) ∷ [];
}

serve_http_forwards :
    serve_http url_parse codec providers same (request (codes "p")) 0 ≡ (forwarded sent, 1)
unfolding serve_http get_request_rewrite_details get_target get_request_config missing_headers
    get_header first_value canonical_key all_token canonical_from lookup str_eq
    parse_destination_url parse_url url_parse check_url url_with_scheme_and_host get_provider
    get_secret fetched details_of get_header_from header_from_template split trim_space substitute
    segments replace json_template json_path tag_name request_rewriter set_url join_slash has_prefix
    set_header del_header insert erase
serve_http_forwards = refl

serve_http-forwarded_example :
    (d : RewriteDetails) × IsBacked url_parse codec providers (header (codes "p")) 0 1 d
    × (sent ≡ request_rewriter d.url d.header_key d.header_val d.delete (request (codes "p")))
serve_http-forwarded_example =
    serve_http-forwarded url_parse codec providers same (request (codes "p")) sent 0 1
      serve_http_forwards

key_differs : canonical_key (codes "Key") ≢ canonical_key forward_to_header
unfolding canonical_key all_token canonical_from
key_differs e = cc

request_rewriter_strips_example :
    IsAbsent forward_to_header
      (request_rewriter target (codes "Key") (codes "x1") (λ h. h) (request (codes "p"))).header
    × (lookup
          (canonical_key (codes "Key"))
          (request_rewriter target (codes "Key") (codes "x1") (λ h. h) (request (codes "p"))).header
        ≡ some (codes "x1" ∷ []))
request_rewriter_strips_example =
    request_rewriter_strips target (codes "Key") (codes "x1") (λ h. h) (request (codes "p"))
      forward_to_header OnlyDeletes-nothing (inl refl) key_differs
