-- ===== src/Oauth/Log.antt =====
-- provider/aws_sm_oauth/log.go: what is logged of the provider, of a token request and of its reply.
use hasura_secret_refresh.Base.{
  ℕ, ◌≡◌, refl, Option, none, some, [], ◌∷◌, ◌++◌, if◌then◌else◌, ◌==◌, Bool-cases, Option-cases,
  inl, inr,
}
use hasura_secret_refresh.Strings.{Text, codes, decimal, str_eq}
use hasura_secret_refresh.Assoc.{Assoc, lookup}
use hasura_secret_refresh.Value.{Object, ℤ, show_int}
use hasura_secret_refresh.Result.{Error, error_text, Result, ok, err, panic, message}
use hasura_secret_refresh.Duration.{Duration}
use hasura_secret_refresh.Http.{Header, Url}
use hasura_secret_refresh.Log.{debug_level, info_level, Event, header_dict}
use hasura_secret_refresh.Oauth.{access_token_of, token_of_reply, explained}
use hasura_secret_refresh.Oauth.Create.{AwsSmOauth}

-- logConfig. `show_duration` is the method String of a duration, and `certificate_ttl` the field of
-- the AWS library's cache.
unfoldable pub log_config :
    {S C : Type 0}
    → (Duration → Text)
    → (Url → Text)
    → AwsSmOauth S C
    → Duration
    → Duration
    → ℤ
    → Event
log_config show_duration url_string config certificate_ttl token_ttl token_size = record {
  level = info_level;
  fields =
      (codes "certificate_cache_ttl", show_duration certificate_ttl)
      ∷ (codes "certificate_region", config.certificate_region)
      ∷ (codes "oauth_url", url_string config.oauth_url)
      ∷ (codes "token_cache_ttl", show_duration token_ttl)
      ∷ (codes "token_cache_size", show_int token_size)
      ∷ (codes "jwt_duration", show_duration config.jwt_duration)
      ∷ [];
  dicts =
      (
        codes "retry_config",
        (codes "max_attempts", show_int config.http_client.retry_max)
            ∷ (codes "min_wait", show_duration config.http_client.retry_wait_min)
            ∷ (codes "max_wait", show_duration config.http_client.retry_wait_max)
            ∷ [],
      )
      ∷ [];
  msg = codes "Creating provider";
}

-- logOauthRequest, on a form with one value for each name.
unfoldable pub log_oauth_request : Text → Text → Assoc Text → Header → Text → Event
unfolding header_dict
log_oauth_request url method form header msg = record {
  level = debug_level;
  fields =
      (codes "url", url) ∷ (codes "method", method) ∷ (codes "log_type", codes "request_log") ∷ [];
  dicts = (codes "headers", header_dict header header) ∷ (codes "form", form) ∷ [];
  msg = msg;
}

-- The body of a reply: what is left to be read, and the error that the connection ends with, if it
-- does. A reader takes all that is left.
pub record Body : Type 0 where
  pub left : Text
  pub fault : Option Error

unfoldable pub read_all : Body → Result Text × Body
read_all b = elim b.fault [
  | none ↦ (ok b.left, record b { left = [] })
  | some e ↦ (err e, record b { left = [] })
]

-- http.Response, with its status as a line and as a code.
pub record Response : Type 0 where
  pub status : Text
  pub status_code : ℕ
  pub header : Header
  pub body : Body

-- The field that tells what was read.
abbrev body_field : Result Text → Assoc Text
body_field (ok text) = (codes "body", text) ∷ []
body_field (err e) = (codes "error", error_text e) ∷ []
body_field (panic w) = []

-- logOAuthResponse: it reads the body of a reply that is no success, and leaves the response with
-- what is left of it.
unfoldable pub log_oauth_response : Response → Text → Event × Response
unfolding read_all header_dict
log_oauth_response r msg =
    let (text, body) = read_all r.body in
    let (read, r') : Assoc Text × Response =
      if r.status_code == 200 then ([], r) else (body_field text, record r { body = body }) in
    (
      record {
        level = debug_level;
        fields = (codes "status", r.status) ∷ (codes "log_type", codes "response_log") ∷ read;
        dicts = (codes "headers", header_dict r.header r.header) ∷ [];
        msg = msg;
      },
      r',
    )

-- The second half of getAccessToken, which logs the reply before it reads the token. `decode` is
-- json.Decoder.Decode on what a body has left.
module _ (decode : Body → Result Object) where
  abbrev pub decode_left : Body → Text → Result Object
  decode_left body text = decode (record body { left = text })

  unfoldable pub logged_token : Response → Event × Result Text
  unfolding log_oauth_response
  logged_token r =
      let (event, r') = log_oauth_response r (codes "Response from oauth endpoint") in
      (
        event,
        if r'.status_code == 200
            then explained "Unable to get access token from oauth response"
                (access_token_of (decode_left r'.body) r'.body.left)
            else err (
                message (
                  codes "Did not receive 200 response from oauth server. Received: status code: "
                  ++ decimal r'.status_code)),
      )

  -- To log a reply takes nothing from the token: what is returned is what the reply as it came gives.
  -- And the log holds the body, with whatever token it has, only of a reply that is no success: the
  -- whole body if it could be read, and the error otherwise.
  pub logged_token_lem :
      (r : Response)
      → ((logged_token r).1
          ≡ token_of_reply
              (decode_left r.body)
              (record { status = r.status_code; body = r.body.left }))
        × (lookup (codes "body") (logged_token r).0.fields ≡ (
            if r.status_code == 200
            then none
            else elim r.body.fault [ none ↦ some r.body.left | some e ↦ none ]))
  unfolding logged_token token_of_reply lookup str_eq
  logged_token_lem r = elim (Bool-cases (r.status_code == 200)) [
    | inl good ↦ (
      rw (good, log_oauth_response, token_of_reply) (rw good refl),
      rw (good, log_oauth_response) refl,
    )
    | inr bad ↦ (
      rw (bad, log_oauth_response, token_of_reply) (rw bad refl),
      elim (Option-cases r.body.fault) [
        | inl whole ↦ rw (bad, whole, log_oauth_response, read_all) refl
        | inr (e, broken) ↦ rw (bad, broken, log_oauth_response, read_all) refl
      ],
    )
  ]
