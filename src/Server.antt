-- ===== src/Server.antt =====
-- server/: the proxy that puts a secret into a request's header, and the refresh endpoint.
pub mod Template
pub mod Rewrite
pub mod Serve
pub mod Named
pub mod Refusal
pub mod Refresh
pub mod Log
use hasura_secret_refresh.Base.{
  ℕ, Bool, true, false, ◌&&◌, ◌||◌, not, Option, none, some, List, [], ◌∷◌, ◌++◌, if◌then◌else◌,
  String,
}
use hasura_secret_refresh.Strings.{Text, codes, str_eq, is_empty, join}
use hasura_secret_refresh.Assoc.{Assoc, lookup}
use hasura_secret_refresh.Value.{Object, str, obj, field, end}
use hasura_secret_refresh.Result.{
  Error, new, message, error_text, Result, ok, err, panic, ◌>>=◌, or_error,
}
use hasura_secret_refresh.Http.{
  Header, Url, Request, Reply, get_header, set_header, del_header, set_url, status_bad_request,
}
use hasura_secret_refresh.Provider.{Fetcher, HttpProvider}
use hasura_secret_refresh.Transform.{JsonCodec}
use Template.{header_from_template}

abbrev pub forward_to_header : Text
forward_to_header = codes "X-Hasura-Forward-To"

abbrev pub secret_provider_header : Text
secret_provider_header = codes "X-Hasura-Secret-Provider"

abbrev pub template_header : Text
template_header = codes "X-Hasura-Secret-Header"

-- requestConf
pub record RequestConf : Type 0 where
  pub destination_url : Text
  pub secret_provider : Text
  pub header_template : Text

-- The name of a header that the request does not hold, or holds empty.
abbrev pub missing : Header → Text → List Text
missing h name = if is_empty (get_header h name) then name ∷ [] else []

unfoldable pub missing_headers : Header → List Text
missing_headers h =
    missing h forward_to_header ++ (missing h secret_provider_header ++ missing h template_header)

unfoldable pub get_request_config : Header → Result RequestConf
unfolding missing_headers
get_request_config h = elim (missing_headers h) [
  | [] ↦ ok (record {
    destination_url = get_header h forward_to_header;
    secret_provider = get_header h secret_provider_header;
    header_template = get_header h template_header;
  })
  | n ∷ ns ↦ err (message (codes "required headers not found: " ++ join (n ∷ ns) (codes ",")))
]

-- getUrlWithSchemeAndHost
unfoldable pub url_with_scheme_and_host : Url → Url
url_with_scheme_and_host u = record { scheme = u.scheme; host = u.host; path = []; raw_query = [] }

-- The checks of parseUrl on a parsed URL.
unfoldable pub check_url : Url → Result Url
check_url u =
    if str_eq u.scheme (codes "http") || str_eq u.scheme (codes "https")
    then (if is_empty u.host then err (new "URL must contain a host") else ok u)
    else err (new "URL must contain a scheme 'http' or 'https'")

-- `url_parse` is url.Parse.
module _ (url_parse : Text → Result Url) where
  unfoldable pub parse_url : Text → Result Url
  unfolding check_url
  parse_url input = do parsed ← url_parse input; check_url parsed

  unfoldable pub parse_destination_url : RequestConf → Result Url
  unfolding parse_url url_with_scheme_and_host
  parse_destination_url conf = do
    u ← parse_url conf.destination_url
    ok (url_with_scheme_and_host u)

-- makeHasuraError
unfoldable pub make_hasura_error : JsonCodec → Text → Text
make_hasura_error codec msg =
    elim (codec.marshal (
      obj (
        field (codes "message") (str msg) (
          field (codes "extensions") (obj (field (codes "code") (str (codes "hasura-error")) end))
            end)))) [ ok t ↦ t | _ ↦ [] ]

-- http.Error with the status that every failing step uses; a line break ends the body.
unfoldable pub bad_request : JsonCodec → Error → Reply
bad_request codec e = record {
  status = status_bad_request;
  body = make_hasura_error codec (error_text e) ++ codes "\n";
}

-- getSecret logs the error of FetchSecret, and the reply does not name it.
unfoldable pub fetched : Result Text → Result Text
fetched (err e) = err (new "Unable to fetch secret")
fetched r = r

-- The rewriting function that getRequestRewriter returns, on the request that goes out.
unfoldable pub request_rewriter : Url → Text → Text → (Header → Header) → Request → Request
request_rewriter url key val delete out =
    let header = delete (
      del_header (del_header (del_header out.header forward_to_header) secret_provider_header)
        template_header) in
    let sent = set_url url (record out { header = header }) in
    record sent { header = set_header sent.header key val }

-- getHeader
unfoldable pub get_header_from : (Text → Option Object) → RequestConf → Text → Result (Text × Text)
get_header_from unmarshal conf secret =
    elim (header_from_template unmarshal conf.header_template secret) [
      | err e ↦ err (
          message (
            codes "Header template "
            ++ (conf.header_template
                ++ (codes " sent in header " ++ (template_header ++ codes " is not valid")))))
      | r ↦ r
    ]

-- What ServeHTTP does with a request: it replies itself, hands a rewritten request to the reverse
-- proxy, or panics, and then net/http closes the connection.
pub data Handled : Type 0 where
  replied : Reply → Handled
  forwarded : Request → Handled
  aborted : Handled

-- What getRequestRewriteDetails returns.
pub record RewriteDetails : Type 0 where
  pub url : Url
  pub header_key : Text
  pub header_val : Text
  pub delete : Header → Header

module _ {S : Type 0} where
  unfoldable pub get_provider : Assoc (HttpProvider S) → RequestConf → Result (HttpProvider S)
  get_provider providers conf = or_error (lookup conf.secret_provider providers) (
      message (
        codes "Provider name "
        ++ (conf.secret_provider
            ++ (codes " sent in header " ++ (secret_provider_header ++ codes " does not exist")))))

  unfoldable pub get_secret : HttpProvider S → Header → S → Result Text × S
  unfolding fetched
  get_secret p h s = elim (p.secret_fetcher h) [
    | err e ↦ (err (new "Required configurations not found in header"), s)
    | panic w ↦ (panic w, s)
    | ok fetch ↦ (fetched (fetch s).0, (fetch s).1)
  ]

  module _ (url_parse : Text → Result Url) (codec : JsonCodec)
      (providers : Assoc (HttpProvider S)) where
    -- The steps of getRequestRewriteDetails before a secret is fetched.
    unfoldable pub get_target : Header → Result (RequestConf × Url × HttpProvider S)
    unfolding get_provider
    get_target h = do
      conf ← get_request_config h
      url ← parse_destination_url url_parse conf
      provider ← get_provider providers conf
      ok (conf, url, provider)

    unfoldable pub details_of :
        RequestConf → Url → HttpProvider S → Result Text → Result RewriteDetails
    unfolding get_header_from
    details_of conf url provider fetched_secret = do
      secret ← fetched_secret
      header ← get_header_from codec.unmarshal conf secret
      ok (record {
        url = url;
        header_key = header.0;
        header_val = header.1;
        delete = provider.delete_config_headers;
      })

    unfoldable pub get_request_rewrite_details : Header → S → Result RewriteDetails × S
    unfolding get_target get_secret details_of
    get_request_rewrite_details h s = elim (get_target h) [
      | err e ↦ (err e, s)
      | panic w ↦ (panic w, s)
      | ok (conf, url, provider) ↦
          let (r, s') = get_secret provider h s in (details_of conf url provider r, s')
    ]

    -- ServeHTTP. `outgoing` is the copy of a request that httputil.ReverseProxy gives to the
    -- rewriting function.
    unfoldable pub serve_http : (Request → Request) → Request → S → Handled × S
    unfolding get_request_rewrite_details request_rewriter
    serve_http outgoing r s =
        let (found, s') = get_request_rewrite_details r.header s in
        elim found [
          | ok d ↦ (
            forwarded (request_rewriter d.url d.header_key d.header_val d.delete (outgoing r)),
            s',
          )
          | err e ↦ (replied (bad_request codec e), s')
          | panic w ↦ (aborted, s')
        ]
