-- ===== src/Server/Refusal.antt =====
-- The requests that the proxy refuses before it fetches a secret.
use hasura_secret_refresh.Base.{◌≡◌, ◌≢◌, ◌⊎◌, none, [], ◌++◌}
use hasura_secret_refresh.Strings.{Text, codes, join}
use hasura_secret_refresh.Assoc.{Assoc, lookup}
use hasura_secret_refresh.Result.{Error, new, message, Result, ok, err}
use hasura_secret_refresh.Http.{Header, Url, get_header}
use hasura_secret_refresh.Provider.{HttpProvider}
use hasura_secret_refresh.Server.{
  forward_to_header, secret_provider_header, template_header, RequestConf, missing_headers,
}

abbrev wrong_scheme_error : Error
wrong_scheme_error = new "URL must contain a scheme 'http' or 'https'"

abbrev no_host_error : Error
no_host_error = new "URL must contain a host"

abbrev config_of : Header → RequestConf
config_of h = record {
  destination_url = get_header h forward_to_header;
  secret_provider = get_header h secret_provider_header;
  header_template = get_header h template_header;
}

abbrev headers_message : Header → Error
headers_message h =
    message (codes "required headers not found: " ++ join (missing_headers h) (codes ","))

module _ {S : Type 0} (url_parse : Text → Result Url) (providers : Assoc (HttpProvider S)) where
  -- A URL that is no destination, with what the reply tells of it.
  pub data IsBadUrl (text : Text) : Error → Type 0 where
    unreadable : (x : Error) → url_parse text ≡ err x → IsBadUrl text x
    wrong_scheme :
        (u : Url)
        → url_parse text ≡ ok u
        → u.scheme ≢ codes "http"
        → u.scheme ≢ codes "https"
        → IsBadUrl text (new "URL must contain a scheme 'http' or 'https'")
    no_host :
        (u : Url)
        → url_parse text ≡ ok u
        → (u.scheme ≡ codes "http") ⊎ (u.scheme ≡ codes "https")
        → u.host ≡ []
        → IsBadUrl text (new "URL must contain a host")

  -- A request with a header missing, with no destination, or with a provider that is not configured.
  abbrev pub IsWrong : Header → Type 0
  IsWrong h =
      (get_header h forward_to_header ≡ [])
      ⊎ (get_header h secret_provider_header ≡ [])
      ⊎ (get_header h template_header ≡ [])
      ⊎ ((x : Error) × IsBadUrl (get_header h forward_to_header) x)
      ⊎ (lookup (get_header h secret_provider_header) providers ≡ none)

  -- What the reply tells: the missing headers, if one is missing; else what is wrong with the URL, and
  -- else that the provider is not known.
  abbrev unknown_provider : Text → Error
  unknown_provider name = message (
      codes "Provider name "
      ++ (name
          ++ (codes " sent in header " ++ (secret_provider_header ++ codes " does not exist"))))

  pub data Tells (h : Header) : Error → Type 0 where
    headers : missing_headers h ≢ [] → Tells h (headers_message h)
    url :
        (x : Error)
        → missing_headers h ≡ []
        → IsBadUrl (get_header h forward_to_header) x
        → Tells h x
    provider :
        missing_headers h ≡ []
        → lookup (get_header h secret_provider_header) providers ≡ none
        → Tells h (unknown_provider (get_header h secret_provider_header))
