-- ===== src/Main/Logging.antt =====
-- What a service logs of the requests that it forwards, by its configured level.
use hasura_secret_refresh.Base.{
  ◌≡◌, refl, some, List, [], ◌∷◌, arith, if◌then◌else◌, Bool-cases, inl, inr,
}
use hasura_secret_refresh.Strings.{Text, codes, str_eq}
use hasura_secret_refresh.Strings.Laws.{str_eq_iff, str_eq_refl}
use hasura_secret_refresh.Assoc.{Assoc, lookup, lookup-insert}
use hasura_secret_refresh.Result.{Result}
use hasura_secret_refresh.Http.{
  Header, Url, Request, get_header, set_header, canonical_key, first_value,
}
use hasura_secret_refresh.Http.Canonical.{canonical_key-twice}
use hasura_secret_refresh.Provider.{HttpProvider}
use hasura_secret_refresh.Transform.{JsonCodec}
use hasura_secret_refresh.Log.{debug_level, Event, is_enabled, written, header_dict}
use hasura_secret_refresh.Server.{RewriteDetails, forwarded, request_rewriter, serve_http}
use hasura_secret_refresh.Server.Log.{log_request, logged_requests}
use hasura_secret_refresh.Server.Rewrite.{IsBacked}
use hasura_secret_refresh.Server.Serve.{serve_http-forwarded}
use hasura_secret_refresh.Main.Start.{get_log_level}

header_dict-lookup :
    (h rest : Header) (k : Text) (values : List Text)
    → lookup k rest ≡ some values
    → lookup k (header_dict h rest) ≡ some (get_header h k)
unfolding lookup header_dict
header_dict-lookup h [] k values e = cc
header_dict-lookup h ((j, vs) ∷ rest) k values e = elim (Bool-cases (str_eq j k)) [
  | inl same ↦ rw (same, (str_eq_iff j k).0 same) refl
  | inr other ↦ rw other (header_dict-lookup h rest k values (rw other at e))
]

-- A header that was set stands in the log with its value.
header_dict-set_header :
    (h : Header) (key value : Text)
    → lookup (canonical_key key) (header_dict (set_header h key value) (set_header h key value))
      ≡ some value
unfolding set_header get_header first_value
header_dict-set_header h key value =
    let k = canonical_key key in
    let there : lookup k (set_header h key value) ≡ some (value ∷ []) =
      rw (lookup-insert k k (value ∷ []) h, str_eq_refl k) refl in
    rw (header_dict-lookup (set_header h key value) (set_header h key value) k (value ∷ []) there)
      (rw (canonical_key-twice key, there) refl)

is_enabled-debug :
    (level : Text) → is_enabled (get_log_level level) debug_level ≡ str_eq level (codes "debug")
unfolding get_log_level
is_enabled-debug level = ground arith

-- Two events of the level debug are written if the configuration names it.
written-debug :
    (level : Text) (a b : Event)
    → a.level ≡ debug_level
    → b.level ≡ debug_level
    → written (get_log_level level) (a ∷ b ∷ [])
      ≡ (if str_eq level (codes "debug") then a ∷ b ∷ [] else [])
written-debug level a b e f =
    rw (e, f, is_enabled-debug level)
      (elim (Bool-cases (str_eq level (codes "debug"))) [
        | inl debug ↦ rw debug refl
        | inr other ↦ rw other refl
      ])

module _ {S : Type 0} (url_parse : Text → Result Url) (url_string : Url → Text) (codec : JsonCodec)
    (providers : Assoc (HttpProvider S)) (outgoing : Request → Request) where
  -- If the configuration names the log level debug, the log shows of a request that is forwarded how
  -- it came and how it goes out, and there the secret's header with the value made of the secret. At
  -- any other level that is named, or at none, the log shows neither.
  pub serve_http-logged :
      (r out : Request) (s s' : S) (level : Text)
      → serve_http url_parse codec providers outgoing r s ≡ (forwarded out, s')
      → (d : RewriteDetails) × IsBacked url_parse codec providers r.header s s' d
        × (dict : Assoc Text) × (lookup
              (codes "headers")
              (log_request url_string out (codes "Sending request to backend service")).dicts
            ≡ some dict)
        × (lookup (canonical_key d.header_key) dict ≡ some d.header_val)
        × (written (get_log_level level) (logged_requests url_string r (forwarded out)) ≡ (
            if str_eq level (codes "debug")
            then log_request url_string r (codes "Received a request")
              ∷ log_request url_string out (codes "Sending request to backend service")
              ∷ []
            else []))
  unfolding log_request lookup str_eq logged_requests request_rewriter
  serve_http-logged r out s s' level e =
      let (d, backed, sent) =
        serve_http-forwarded url_parse codec providers outgoing r out s s' e in
      (
        d,
        backed,
        header_dict out.header out.header,
        refl,
        rw sent (header_dict-set_header _ d.header_key d.header_val),
        written-debug level (log_request url_string r _) (log_request url_string out _) refl refl,
      )
