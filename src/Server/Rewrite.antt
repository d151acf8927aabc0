-- ===== src/Server/Rewrite.antt =====
-- What the proxy has established when it forwards a request, and what it then sends.
use hasura_secret_refresh.Base.{◌≡◌, ◌≢◌, Option, some, [], arith, ◌⊎◌, inl, inr, sym}
use hasura_secret_refresh.Strings.{Text, codes}
use hasura_secret_refresh.Strings.Laws.{str_eq_iff}
use hasura_secret_refresh.Assoc.{Assoc, lookup}
use hasura_secret_refresh.Value.{Object}
use hasura_secret_refresh.Result.{Error, Result, ok, err, panic, >>=-eq-ok, Result-cases}
use hasura_secret_refresh.Http.{Header, Url, get_header}
use hasura_secret_refresh.Provider.{Fetcher, HttpProvider}
use hasura_secret_refresh.Transform.{JsonCodec}
use hasura_secret_refresh.Server.{
  forward_to_header, secret_provider_header, template_header, RequestConf, get_request_config,
  url_with_scheme_and_host, check_url, parse_url, parse_destination_url, get_provider, fetched,
  get_secret, get_header_from, RewriteDetails, get_target, details_of, get_request_rewrite_details,
}
use hasura_secret_refresh.Server.Template.{header_from_template}

-- The three headers of a request that the proxy reads are there and not empty.
pub record HasConf (h : Header) (conf : RequestConf) : Type 0 where
  pub url_read : get_header h forward_to_header ≡ conf.destination_url
  pub provider_read : get_header h secret_provider_header ≡ conf.secret_provider
  pub template_read : get_header h template_header ≡ conf.header_template
  pub url_there : conf.destination_url ≢ []
  pub provider_there : conf.secret_provider ≢ []
  pub template_there : conf.header_template ≢ []

pub get_request_config_sound :
    (h : Header) (conf : RequestConf) → get_request_config h ≡ ok conf → HasConf h conf
unfolding get_request_config
get_request_config_sound h conf e = ground arith

-- The destination of a request: the scheme and the host of the URL that its header names.
pub record IsTarget (url_parse : Text → Result Url) (conf : RequestConf) (u : Url) : Type 0 where
  pub parsed : Url
  pub parses : url_parse conf.destination_url ≡ ok parsed
  pub scheme : (parsed.scheme ≡ codes "http") ⊎ (parsed.scheme ≡ codes "https")
  pub host : parsed.host ≢ []
  pub target : u ≡ url_with_scheme_and_host parsed

check_url_sound :
    (parsed u : Url)
    → check_url parsed ≡ ok u
    → ((parsed.scheme ≡ codes "http") ⊎ (parsed.scheme ≡ codes "https"))
      × (parsed.host ≢ [])
      × (u ≡ parsed)
unfolding check_url
check_url_sound parsed u e =
    ground
      (arith, str_eq_iff parsed.scheme (codes "http"), str_eq_iff parsed.scheme (codes "https"))

parse_destination_url_sound :
    (url_parse : Text → Result Url) (conf : RequestConf) (u : Url)
    → parse_destination_url url_parse conf ≡ ok u
    → IsTarget url_parse conf u
unfolding parse_destination_url
parse_destination_url_sound url_parse conf u e =
    let (checked, e1, e2) = >>=-eq-ok (parse_url url_parse conf.destination_url) _ e in
    let (parsed, e3, e4) = >>=-eq-ok (url_parse conf.destination_url) check_url e1 in
    let (scheme, host, same) = check_url_sound parsed checked e4 in
    record {
      parsed = parsed;
      parses = e3;
      scheme = scheme;
      host = host;
      target = ground (arith, same, e2);
    }

fetched_sound : (r : Result Text) (secret : Text) → fetched r ≡ ok secret → r ≡ ok secret
unfolding fetched
fetched_sound (ok t) secret e = e
fetched_sound (err x) secret e = cc
fetched_sound (panic w) secret e = cc

get_header_from_sound :
    (unmarshal : Text → Option Object) (conf : RequestConf) (secret : Text) (header : Text × Text)
    → get_header_from unmarshal conf secret ≡ ok header
    → header_from_template unmarshal conf.header_template secret ≡ ok header
unfolding get_header_from
get_header_from_sound unmarshal conf secret header e = ground arith

module _ {S : Type 0} (url_parse : Text → Result Url) (codec : JsonCodec)
    (providers : Assoc (HttpProvider S)) where
  -- What stands behind the details of a rewriting: the configured headers, the destination, the
  -- provider of that name, the secret that it fetched, and the header made of the template.
  pub record IsBacked (h : Header) (s s' : S) (d : RewriteDetails) : Type 0 where
    pub conf : RequestConf
    pub has_conf : HasConf h conf
    pub is_target : IsTarget url_parse conf d.url
    pub provider : HttpProvider S
    pub named : lookup conf.secret_provider providers ≡ some provider
    pub fetcher : Fetcher S
    pub configured : provider.secret_fetcher h ≡ ok fetcher
    pub secret : Text
    pub fetches : fetcher s ≡ (ok secret, s')
    pub made :
        header_from_template codec.unmarshal conf.header_template secret
        ≡ ok (d.header_key, d.header_val)
    pub deletes : d.delete ≡ provider.delete_config_headers

  get_provider_sound :
      (conf : RequestConf) (p : HttpProvider S)
      → get_provider providers conf ≡ ok p
      → lookup conf.secret_provider providers ≡ some p
  unfolding get_provider
  get_provider_sound conf p e = ground arith

  get_target_sound :
      (h : Header) (conf : RequestConf) (u : Url) (p : HttpProvider S)
      → get_target url_parse codec providers h ≡ ok (conf, u, p)
      → HasConf h conf
        × IsTarget url_parse conf u
        × (lookup conf.secret_provider providers ≡ some p)
  unfolding get_target
  get_target_sound h conf u p e =
      let (conf', e1, e2) = >>=-eq-ok (get_request_config h) _ e in
      let (u', e3, e4) = >>=-eq-ok (parse_destination_url url_parse conf') _ e2 in
      let (p', e5, e6) = >>=-eq-ok (get_provider providers conf') _ e4 in
      let same : conf' ≡ conf = ground (arith, e6) in
      let same_u : u' ≡ u = ground (arith, e6) in
      let same_p : p' ≡ p = ground (arith, e6) in
      (
        rw (← same) (get_request_config_sound h conf' e1),
        rw (← same, ← same_u) (parse_destination_url_sound url_parse conf' u' e3),
        rw (← same, ← same_p) (get_provider_sound conf' p' e5),
      )

  get_secret_sound :
      (p : HttpProvider S) (h : Header) (s s' : S) (secret : Text)
      → get_secret p h s ≡ (ok secret, s')
      → (f : Fetcher S) × (p.secret_fetcher h ≡ ok f) × (f s ≡ (ok secret, s'))
  unfolding get_secret
  get_secret_sound p h s s' secret e = elim (Result-cases (p.secret_fetcher h)) [
    | inl (f, found) ↦
        let e0 : fetched (f s).0 ≡ ok secret = ground (arith, found) in
        let e1 : (f s).1 ≡ s' = ground (arith, found) in
        (f, found, λ i. (fetched_sound (f s).0 secret e0 i, e1 i))
    | inr (inl (x, failed)) ↦ ground (arith, failed)
    | inr (inr (w, failed)) ↦ ground (arith, failed)
  ]

  details_of_sound :
      (h : Header) (s s' : S) (conf : RequestConf) (u : Url) (p : HttpProvider S)
      (d : RewriteDetails)
      → get_target url_parse codec providers h ≡ ok (conf, u, p)
      → details_of url_parse codec providers conf u p (get_secret p h s).0 ≡ ok d
      → (get_secret p h s).1 ≡ s'
      → IsBacked h s s' d
  unfolding details_of
  details_of_sound h s s' conf u p d found e0 e1 =
      let (secret, e2, e3) = >>=-eq-ok (get_secret p h s).0 _ e0 in
      let (header, e4, e5) = >>=-eq-ok (get_header_from codec.unmarshal conf secret) _ e3 in
      let (has_conf, is_target, named) = get_target_sound h conf u p found in
      let (f, configured, fetches) = get_secret_sound p h s s' secret (λ i. (e2 i, e1 i)) in
      let same_url : u ≡ d.url = ground (arith, e5) in
      let same_key : header.0 ≡ d.header_key = ground (arith, e5) in
      let same_delete : p.delete_config_headers ≡ d.delete = ground (arith, e5) in
      let same_val : header.1 ≡ d.header_val = ground (arith, e5) in
      record {
        conf = conf;
        has_conf = has_conf;
        is_target = rw (← same_url) is_target;
        provider = p;
        named = named;
        fetcher = f;
        configured = configured;
        secret = secret;
        fetches = fetches;
        made =
            rw (← same_key, ← same_val)
              (get_header_from_sound codec.unmarshal conf secret header e4);
        deletes = sym same_delete;
      }

  pub details_sound :
      (h : Header) (s s' : S) (d : RewriteDetails)
      → get_request_rewrite_details url_parse codec providers h s ≡ (ok d, s')
      → IsBacked h s s' d
  unfolding get_request_rewrite_details
  details_sound h s s' d e = elim (Result-cases (get_target url_parse codec providers h)) [
    | inl ((conf, u, p), found) ↦
        let r : Result Text × S = get_secret p h s in
        let e0 : details_of url_parse codec providers conf u p r.0 ≡ ok d = ground (arith, found) in
        let e1 : r.1 ≡ s' = ground (arith, found) in details_of_sound h s s' conf u p d found e0 e1
    | inr (inl (x, failed)) ↦ ground (arith, failed)
    | inr (inr (w, failed)) ↦ ground (arith, failed)
  ]

  pub details_refused :
      (h : Header) (s : S) (x : Error)
      → get_target url_parse codec providers h ≡ err x
      → get_request_rewrite_details url_parse codec providers h s ≡ (err x, s)
  unfolding get_request_rewrite_details
  details_refused h s x e = rw (e, get_request_rewrite_details)
