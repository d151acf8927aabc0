-- ===== src/Oauth/Create.antt =====
-- provider/aws_sm_oauth/provider.go: Create, and the provider that it makes.
use hasura_secret_refresh.Base.{Option, List, ℕ}
use hasura_secret_refresh.Strings.{Text}
use hasura_secret_refresh.Assoc.{Assoc}
use hasura_secret_refresh.Value.{Value, Object, ℤ, obj, of_entries}
use hasura_secret_refresh.Result.{Result, ok, ◌>>=◌, wrap_error}
use hasura_secret_refresh.Duration.{Duration, seconds}
use hasura_secret_refresh.Http.{Header, Url, Reply}
use hasura_secret_refresh.Provider.{HttpProvider}
use hasura_secret_refresh.Lru.{Lru}
use hasura_secret_refresh.Oauth.Provider.{aws_sm_oauth}
use hasura_secret_refresh.Oauth.Jwt.{create_jwt}

pub record ConfigJson : Type 0 where
  pub token_cache_ttl : ℤ
  pub token_cache_size : ℤ
  pub certificate_cache_ttl : ℤ
  pub certificate_region : Text
  pub oauth_url : Text
  pub jwt_claim_map : Text
  pub jwt_duration : ℤ
  pub http_retry_attempts : ℤ
  pub http_retry_min_wait : ℤ
  pub http_retry_max_wait : ℤ

-- The settings of the retrying client.
pub record HttpClient : Type 0 where
  pub retry_max : ℤ
  pub retry_wait_min : Duration
  pub retry_wait_max : Duration

unfoldable pub get_http_client : ℤ → ℤ → ℤ → HttpClient
get_http_client max_retry min_wait max_wait = record {
  retry_max = max_retry;
  retry_wait_min = seconds min_wait;
  retry_wait_max = seconds max_wait;
}

pub record AwsSmOauth (S C : Type 0) : Type 0 where
  pub cache : Lru C
  pub certificate_region : Text
  pub get_secret_string : Text → S → Result Text × S
  pub oauth_url : Url
  pub jwt_claim_map : Object
  pub jwt_duration : Duration
  pub http_client : HttpClient

-- `marshal` is json.Marshal and `fill` what json.Unmarshal makes of a zero ConfigJson: its error is
-- overwritten before it is looked at. `new_session` is session.NewSession, `new_cache` the cache of
-- the AWS library for a region, a client and a time to live, `new_lru` expirable.NewLRU of a size
-- and a time to live, and `parse_claims` json.Unmarshal into a map.
module _ {S C : Type 0} (marshal : Value → Result Text) (fill : Text → ConfigJson)
    (new_session : Result (Unit {0}))
    (new_cache : Text → HttpClient → Duration → Result (Text → S → Result Text × S))
    (new_lru : ℤ → Duration → Lru C) (url_parse : Text → Result Url)
    (parse_claims : Text → Result Object) where
  unfoldable pub create : Object → Result (AwsSmOauth S C)
  unfolding get_http_client
  create config = do
    text ← wrap_error "aws_sm_oauth: unable to initialize" (marshal (obj (of_entries config)))
    let c = fill text
    session ←
        wrap_error "aws_sm_oauth: unable to initialize: error initializing secrets manager session"
          new_session
    let client = get_http_client c.http_retry_attempts c.http_retry_min_wait c.http_retry_max_wait
    get_secret_string ←
        wrap_error "aws_sm_oauth: unable to initialize: error initializing secrets manager cache"
          (new_cache c.certificate_region client (seconds c.certificate_cache_ttl))
    url ←
        wrap_error "aws_sm_oauth: unable to initialize: unable to parse oauth url"
          (url_parse c.oauth_url)
    claims ←
        wrap_error "aws_sm_oauth: unable to initialize: unable to parse jwt claim map"
          (parse_claims c.jwt_claim_map)
    ok (record {
      cache = new_lru c.token_cache_size (seconds c.token_cache_ttl);
      certificate_region = c.certificate_region;
      get_secret_string = get_secret_string;
      oauth_url = url;
      jwt_claim_map = claims;
      jwt_duration = seconds c.jwt_duration;
      http_client = client;
    })

-- The libraries of the provider's methods: those of Oauth.Jwt, the clock and the random source in a
-- state, and the making and the sending of a request to a URL.
pub record Libraries (S K : Type 0) : Type 0 where
  pub parse_key : Text → Result K
  pub signed : K → Text → Object → Result Text
  pub pem_decode : Text → Option (List ℕ)
  pub parse_certificate : List ℕ → Option (List ℕ)
  pub sha1 : List ℕ → List ℕ
  pub clock : S → ℤ
  pub random : S → Result Text
  pub new_request : Url → Assoc Text → Result (Unit {0})
  pub send : HttpClient → Url → Assoc Text → Header → S → Result Reply × S
  pub decode : Text → Result Object

module _ {S C K : Type 0} (lib : Libraries S K) (p : AwsSmOauth S C) where
  -- The call of createJwtToken that the method of this name makes.
  unfoldable pub sign : Text → Text → Text → S → Result Text × S
  sign key client_id certificate s = (
    create_jwt lib.pem_decode lib.parse_certificate lib.sha1 lib.parse_key lib.signed (lib.random s)
        key p.jwt_claim_map p.jwt_duration (lib.clock s) client_id certificate,
    s,
  )

  -- The provider with all its parts.
  unfoldable pub oauth_provider : HttpProvider (C × S)
  unfolding sign
  oauth_provider =
      aws_sm_oauth p.get_secret_string sign (lib.new_request p.oauth_url)
        (lib.send p.http_client p.oauth_url) lib.decode p.cache
