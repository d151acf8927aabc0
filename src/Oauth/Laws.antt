-- ===== src/Oauth/Laws.antt =====
-- Where a token comes from.
use hasura_secret_refresh.Base.{String, ◌≡◌, ◌≢◌, ◌⊎◌, some, [], arith, inl, inr, Option-cases}
use hasura_secret_refresh.Strings.{Text, codes}
use hasura_secret_refresh.Assoc.{Assoc, lookup}
use hasura_secret_refresh.Value.{Object, str}
use hasura_secret_refresh.Result.{Result, ok, err, panic, Result-cases}
use hasura_secret_refresh.Http.{Header, Reply, get_header}
use hasura_secret_refresh.Lru.{Lru}
use hasura_secret_refresh.Oauth.{
  TokenFetcher, explained, token_fetcher, get_cache_key, get_form_data, get_headers,
  create_jwt_token, get_access_token, token_of_reply, new_token, fetch_token, certificate_header,
  private_key_header, client_id_header, backend_id_header,
}

-- A request is accepted only if its four headers are there and not empty; they are what is fetched
-- with.
pub token_fetcher_sound :
    (h : Header) (f : TokenFetcher)
    → token_fetcher h ≡ ok f
    → ((get_header h certificate_header ≡ f.certificate_secret_id) × (f.certificate_secret_id ≢ []))
      × ((get_header h private_key_header ≡ f.private_key_secret_id)
          × (f.private_key_secret_id ≢ []))
      × ((get_header h client_id_header ≡ f.oauth_client_id) × (f.oauth_client_id ≢ []))
      × ((get_header h backend_id_header ≡ f.backend_api_id) × (f.backend_api_id ≢ []))
unfolding token_fetcher
token_fetcher_sound h f e = ground arith

-- A reply gives a token only if its status is 200 and its body is a JSON object that holds that
-- token as a string under access_token.
pub token_of_reply_sound :
    (decode : Text → Result Object) (r : Reply) (token : Text)
    → token_of_reply decode r ≡ ok token
    → (r.status ≡ 200)
      × ((o : Object) × (decode r.body ≡ ok o)
          × (lookup (codes "access_token") o ≡ some (str token)))
unfolding token_of_reply
token_of_reply_sound decode r token e = elim (Result-cases (decode r.body)) [
  | inl (o, found) ↦ (ground (arith, found), (o, found, ground (arith, found)))
  | inr (inl (x, failed)) ↦ ground (arith, failed)
  | inr (inr (w, failed)) ↦ ground (arith, failed)
]

explained_sound : (what : String) (r : Result Text) (t : Text) → explained what r ≡ ok t → r ≡ ok t
unfolding explained
explained_sound what (ok a) t e = e
explained_sound what (err x) t e = cc
explained_sound what (panic w) t e = cc

module _ {S C : Type 0} (get_secret_string : Text → S → Result Text × S)
    (sign : Text → Text → Text → S → Result Text × S) (new_request : Assoc Text → Result (Unit {0}))
    (send : Assoc Text → Header → S → Result Reply × S) (decode : Text → Result Object)
    (lru : Lru C) where
  -- A signed token of the fetcher: made of the private key and the certificate that it names, for its
  -- client.
  pub record IsSigned (f : TokenFetcher) (jwt : Text) : Type 0 where
    pub key : Text
    pub certificate : Text
    pub before : S
    pub between : S
    pub after : S
    pub key_read : get_secret_string f.private_key_secret_id before ≡ (ok key, between)
    pub certificate_read :
        get_secret_string f.certificate_secret_id between ≡ (ok certificate, after)
    pub signed : (sign key f.oauth_client_id certificate after).0 ≡ ok jwt

  -- A token that came over the wire: the reply to a request that carried a signed token, the client
  -- and the resource of the fetcher.
  pub record IsGranted (f : TokenFetcher) (token : Text) : Type 0 where
    pub jwt : Text
    pub is_signed : IsSigned f jwt
    pub state : S
    pub reply : Reply
    pub answered :
        (send (get_form_data f.oauth_client_id jwt f.backend_api_id) get_headers state).0 ≡ ok reply
    pub read : token_of_reply decode reply ≡ ok token

  create_jwt_token_sound :
      (f : TokenFetcher) (jwt : Text) (s : S)
      → (create_jwt_token get_secret_string sign new_request send decode lru f s).0 ≡ ok jwt
      → IsSigned f jwt
  unfolding create_jwt_token
  create_jwt_token_sound f jwt s e =
      let key_read = get_secret_string f.private_key_secret_id s in
      elim (Result-cases key_read.0) [
        | inl (key, e1) ↦
            let certificate_read = get_secret_string f.certificate_secret_id key_read.1 in
            elim (Result-cases certificate_read.0) [
              | inl (certificate, e2) ↦ record {
                key = key;
                certificate = certificate;
                before = s;
                between = key_read.1;
                after = certificate_read.1;
                key_read = λ i. (e1 i, key_read.1);
                certificate_read = λ i. (e2 i, certificate_read.1);
                signed =
                    explained_sound "unable to create jwt token"
                      (sign key f.oauth_client_id certificate certificate_read.1).0 jwt
                      (ground (arith, e1, e2));
              }
              | inr (inl (x, failed)) ↦ ground (arith, e1, failed)
              | inr (inr (w, failed)) ↦ ground (arith, e1, failed)
            ]
        | inr (inl (x, failed)) ↦ ground (arith, failed)
        | inr (inr (w, failed)) ↦ ground (arith, failed)
      ]

  get_access_token_sound :
      (f : TokenFetcher) (jwt token : Text) (s : S)
      → IsSigned f jwt
      → (get_access_token get_secret_string sign new_request send decode lru f jwt s).0 ≡ ok token
      → IsGranted f token
  unfolding get_access_token
  get_access_token_sound f jwt token s is_signed e =
      let form = get_form_data f.oauth_client_id jwt f.backend_api_id in
      elim (Result-cases (new_request form)) [
        | inl (u, made) ↦ elim (Result-cases (send form get_headers s).0) [
          | inl (r, answered) ↦ record {
            jwt = jwt;
            is_signed = is_signed;
            state = s;
            reply = r;
            answered = answered;
            read = ground (arith, made, answered);
          }
          | inr (inl (x, failed)) ↦ ground (arith, made, failed)
          | inr (inr (w, failed)) ↦ ground (arith, made, failed)
        ]
        | inr (inl (x, failed)) ↦ ground (arith, failed)
        | inr (inr (w, failed)) ↦ ground (arith, failed)
      ]

  pub new_token_sound :
      (f : TokenFetcher) (token : Text) (s : S)
      → (new_token get_secret_string sign new_request send decode lru f s).0 ≡ ok token
      → IsGranted f token
  unfolding new_token
  new_token_sound f token s e =
      let made = create_jwt_token get_secret_string sign new_request send decode lru f s in
      elim (Result-cases made.0) [
        | inl (jwt, good) ↦
            get_access_token_sound f jwt token made.1 (create_jwt_token_sound f jwt s good)
              (ground (arith, good))
        | inr (inl (x, failed)) ↦ ground (arith, failed)
        | inr (inr (w, failed)) ↦ ground (arith, failed)
      ]

  -- A token that FetchSecret returns was in the cache under the fetcher's key, or came in a reply of
  -- the token endpoint to a request with the fetcher's client and resource, and a token signed for
  -- that client with the private key and the certificate that the fetcher names.
  pub fetch_token_sound :
      (f : TokenFetcher) (token : Text) (c : C) (s : S)
      → (fetch_token get_secret_string sign new_request send decode lru f c s).0 ≡ ok token
      → ((lru.get c (get_cache_key f)).0 ≡ some token) ⊎ IsGranted f token
  unfolding fetch_token
  fetch_token_sound f token c s e = elim (Option-cases (lru.get c (get_cache_key f)).0) [
    | inr (t, hit) ↦ inl (ground (arith, e, hit))
    | inl missed ↦
        elim (Result-cases (new_token get_secret_string sign new_request send decode lru f s).0) [
          | inl (t, good) ↦ inr (new_token_sound f token s (ground (arith, missed, good)))
          | inr (inl (x, failed)) ↦ ground (arith, missed, failed)
          | inr (inr (w, failed)) ↦ ground (arith, missed, failed)
        ]
  ]
