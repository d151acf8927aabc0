-- ===== src/Oauth.antt =====
-- provider/aws_sm_oauth: an access token for the proxy, got with a signed token, and cached.
pub mod Laws
pub mod Key
pub mod Provider
pub mod Proxy
pub mod Jwt
pub mod Create
pub mod Log
use hasura_secret_refresh.Base.{
  String, ℕ, Option, none, some, List, [], ◌∷◌, ◌++◌, if◌then◌else◌, ◌==◌,
}
use hasura_secret_refresh.Strings.{Text, codes, is_empty, join, decimal}
use hasura_secret_refresh.Assoc.{Assoc, lookup}
use hasura_secret_refresh.Value.{Value, Object, as_str}
use hasura_secret_refresh.Result.{
  Error, new, message, wrap, Result, ok, err, panic, ◌>>=◌, or_error,
}
use hasura_secret_refresh.Http.{Header, Reply, get_header, set_header, del_header}
use hasura_secret_refresh.Provider.{
  Fetcher, HttpProvider, OnlyDeletes, OnlyDeletes-del_header, OnlyDeletes-nothing,
}
use hasura_secret_refresh.Lru.{Lru}

abbrev pub certificate_header : Text
certificate_header = codes "X-Hasura-Certificate-Id"

abbrev pub private_key_header : Text
private_key_header = codes "X-Hasura-Private-Key-Id"

abbrev pub client_id_header : Text
client_id_header = codes "X-Hasura-Oauth-Client-Id"

abbrev pub backend_id_header : Text
backend_id_header = codes "X-Hasura-Backend-Id"

pub record TokenFetcher : Type 0 where
  pub certificate_secret_id : Text
  pub private_key_secret_id : Text
  pub backend_api_id : Text
  pub oauth_client_id : Text

-- The name of a header that the request does not hold, or holds empty.
abbrev absent : Header → Text → List Text
absent h name = if is_empty (get_header h name) then name ∷ [] else []

not_found_headers : Header → List Text
not_found_headers h =
    absent h certificate_header
    ++ (absent h private_key_header ++ (absent h client_id_header ++ absent h backend_id_header))

-- SecretFetcher
unfoldable pub token_fetcher : Header → Result TokenFetcher
unfolding not_found_headers
token_fetcher h = elim (not_found_headers h) [
  | [] ↦ ok (record {
    certificate_secret_id = get_header h certificate_header;
    private_key_secret_id = get_header h private_key_header;
    backend_api_id = get_header h backend_id_header;
    oauth_client_id = get_header h client_id_header;
  })
  | n ∷ ns ↦
      err (wrap "aws_sm_oauth: required header not found" (message (join (n ∷ ns) (codes ", "))))
]

-- getCacheKey
unfoldable pub get_cache_key : TokenFetcher → Text
get_cache_key f =
    f.certificate_secret_id
    ++ (codes "_"
        ++ (f.backend_api_id
            ++ (codes "_" ++ (f.oauth_client_id ++ (codes "_" ++ f.private_key_secret_id)))))

-- getFormData
unfoldable pub get_form_data : Text → Text → Text → Assoc Text
get_form_data client_id jwt_token secret_id =
    (codes "grant_type", codes "client_credentials")
    ∷ (
      codes "client_assertion_type",
      codes "urn:ietf:params:oauth:client-assertion-type:jwt-bearer",
    )
    ∷ (codes "client_id", client_id)
    ∷ (codes "client_assertion", jwt_token)
    ∷ (codes "resource", secret_id)
    ∷ []

-- The header of getOauthRequest.
unfoldable pub get_headers : Header
get_headers =
    set_header (set_header [] (codes "Content-Type") (codes "application/x-www-form-urlencoded"))
      (codes "Accept") (codes "application/x-www-form-url-encoded")

-- What stands in front of most of the errors.
unfoldable pub explained {ℓ} : {A : Type ℓ} → String → Result A → Result A
explained what (ok a) = ok a
explained what (err e) = err (wrap "aws_sm_oauth: unable to fetch secret" (wrap what e))
explained what (panic w) = panic w

-- `decode` is json.Decoder.Decode into a map.
module _ (decode : Text → Result Object) where
  decoded : Text → Result Object
  decoded body = elim (decode body) [
    | ok o ↦ ok o
    | err e ↦ err (wrap "Error converting oauth response to json" e)
    | panic w ↦ panic w
  ]

  -- getAccessTokenFromResponse
  unfoldable pub access_token_of : Text → Result Text
  unfolding decoded
  access_token_of body = do
    o ← decoded body
    v ←
        or_error (lookup (codes "access_token") o)
          (new "Key 'access_token' not found in the response from oauth endpoint")
    or_error (as_str v) (new "Error converting token to string")

  unfoldable pub token_of_reply : Reply → Result Text
  unfolding access_token_of explained
  token_of_reply r =
      if r.status == 200
      then explained "Unable to get access token from oauth response" (access_token_of r.body)
      else err (
          message (
            codes "Did not receive 200 response from oauth server. Received: status code: "
            ++ decimal r.status))

-- `get_secret_string` is the cache's GetSecretString, `sign` the function createJwtToken on a key, a
-- client and a certificate, `new_request` the making of a request and `send` its sending, with the
-- retries of the client. `S` is the state of all of them.
module _ {S C : Type 0} (get_secret_string : Text → S → Result Text × S)
    (sign : Text → Text → Text → S → Result Text × S) (new_request : Assoc Text → Result (Unit {0}))
    (send : Assoc Text → Header → S → Result Reply × S) (decode : Text → Result Object)
    (lru : Lru C) where
  -- An action after another one that may fail.
  abbrev bind : Result Text × S → (Text → S → Result Text × S) → Result Text × S
  bind (ok a, s) next = next a s
  bind (err e, s) next = (err e, s)
  bind (panic w, s) next = (panic w, s)

  abbrev told : String → Result Text × S → Result Text × S
  told what (r, s) = (explained what r, s)

  -- The method createJwtToken: the key is fetched first, then the certificate.
  unfoldable pub create_jwt_token : TokenFetcher → S → Result Text × S
  unfolding explained
  create_jwt_token f s =
      bind
        (told "unable to retrieve private key from aws secrets manager"
          (get_secret_string f.private_key_secret_id s))
        (λ key s1.
          bind
            (told "unable to retrieve certificate from aws secrets manager"
              (get_secret_string f.certificate_secret_id s1))
            (λ certificate s2.
              told "unable to create jwt token" (sign key f.oauth_client_id certificate s2)))

  replied : Result Reply → Result Text
  unfolding token_of_reply explained
  replied r = explained "Unable perform oauth request" r >>= token_of_reply decode

  posted : Result (Unit {0}) → Assoc Text → S → Result Text × S
  unfolding replied explained
  posted (ok u) form s = let (r, s') = send form get_headers s in (replied r, s')
  posted (err e) form s = (explained "Unable to create oauth request" (err e), s)
  posted (panic w) form s = (panic w, s)

  -- getAccessToken
  unfoldable pub get_access_token : TokenFetcher → Text → S → Result Text × S
  unfolding posted get_form_data
  get_access_token f jwt s =
      let form = get_form_data f.oauth_client_id jwt f.backend_api_id in
      posted (new_request form) form s

  unfoldable pub new_token : TokenFetcher → S → Result Text × S
  unfolding create_jwt_token get_access_token
  new_token f s = bind (create_jwt_token f s) (get_access_token f)

  unfoldable pub keep_token : Text → Result Text → C → S → Result Text × C × S
  keep_token key (ok token) c s = (ok token, lru.add c key token, s)
  keep_token key (err e) c s = (err e, c, s)
  keep_token key (panic w) c s = (panic w, c, s)

  -- FetchSecret; entries of the cache expire, `C` has its clock.
  unfoldable pub fetch_token : TokenFetcher → C → S → Result Text × C × S
  unfolding keep_token
  fetch_token f c s =
      let (hit, c') = lru.get c (get_cache_key f) in
      elim hit [
        | some token ↦ (ok token, c', s)
        | none ↦ keep_token (get_cache_key f) (new_token f s).0 c' (new_token f s).1
      ]
