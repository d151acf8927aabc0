-- ===== src/Tests/Logs.antt =====
-- What is logged of a forwarded request and of a reply of the token endpoint.
use hasura_secret_refresh.Base.{refl, ◌≡◌, some, none, [], ◌∷◌, if◌then◌else◌}
use hasura_secret_refresh.Strings.{Text, codes, str_eq, decimal, decimal_fuel}
use hasura_secret_refresh.Assoc.{Assoc, lookup}
use hasura_secret_refresh.Value.{Object}
use hasura_secret_refresh.Result.{Result, new, message, err}
use hasura_secret_refresh.Http.{Url, canonical_key}
use hasura_secret_refresh.Log.{written}
use hasura_secret_refresh.Server.{RewriteDetails, forwarded}
use hasura_secret_refresh.Server.Log.{log_request, logged_requests}
use hasura_secret_refresh.Server.Rewrite.{IsBacked}
use hasura_secret_refresh.Main.Start.{get_log_level}
use hasura_secret_refresh.Main.Logging.{serve_http-logged}
use hasura_secret_refresh.Oauth.Log.{Body, Response, logged_token, log_oauth_response, read_all}
use hasura_secret_refresh.Tests.Data.{codec}
use hasura_secret_refresh.Tests.AzureProxy.{url, request, sent, providers, filled, forwards}

abbrev url_string : Url → Text
url_string u = u.host

serve_http-logged_example :
    (d : RewriteDetails) × IsBacked
      (λ t. Result.ok url)
      codec
      providers
      request.header
      ([], 0)
      (filled, 1)
      d
    × (dict : Assoc Text) × (lookup
          (codes "headers")
          (log_request url_string sent (codes "Sending request to backend service")).dicts
        ≡ some dict)
    × (lookup (canonical_key d.header_key) dict ≡ some d.header_val)
    × (written (get_log_level (codes "debug")) (logged_requests url_string request (forwarded sent))
        ≡ (if str_eq (codes "debug") (codes "debug")
            then log_request url_string request (codes "Received a request")
              ∷ log_request url_string sent (codes "Sending request to backend service")
              ∷ []
            else []))
serve_http-logged_example =
    serve_http-logged (λ t. Result.ok url) url_string codec providers (λ r. r) request sent ([], 0)
      (filled, 1) (codes "debug") forwards

abbrev refusal : Response
refusal = record {
  status = codes "401 Unauthorized";
  status_code = 401;
  header = [];
  body = record { left = codes "no such client"; fault = none };
}

abbrev no_json : Body → Result Object
no_json b = err (new "no JSON")

-- The body of a refusal stands in the log, and the token request fails.
refusal_logged :
    (lookup (codes "body") (logged_token no_json refusal).0.fields ≡ some (codes "no such client"))
    × ((logged_token no_json refusal).1
        ≡ err (
            message
              (codes "Did not receive 200 response from oauth server. Received: status code: 401")))
unfolding logged_token log_oauth_response read_all lookup str_eq decimal decimal_fuel
refusal_logged = (refl, refl)
