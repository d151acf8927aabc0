-- ===== src/Server/Refresh.antt =====
-- server/refresh.go: the endpoint that refreshes the file of a provider at once.
use hasura_secret_refresh.Base.{
  ℕ, ◌≡◌, refl, ◌≢◌, Option, none, some, [], ◌∷◌, ◌++◌, arith, ◌⊎◌, inl, inr, if◌then◌else◌, All,
  ◌∙◌,
}
use hasura_secret_refresh.Strings.{Text, codes, str_eq}
use hasura_secret_refresh.Strings.Laws.{str_eq_iff, str_eq_refl}
use hasura_secret_refresh.Assoc.{Assoc, lookup}
use hasura_secret_refresh.Result.{Result, ok, err, panic}
use hasura_secret_refresh.Http.{status_bad_request, status_internal_server_error}
use hasura_secret_refresh.Provider.{FileProvider}

-- A reply with this status and no body, or the connection closed by a panic.
pub data Refreshed : Type 0 where
  status : ℕ → Refreshed
  aborted : Refreshed

abbrev pub status_ok : ℕ
status_ok = 200

abbrev pub post : Text
post = codes "POST"

abbrev pub filename : Text
filename = codes "filename"

-- The reply that stands for the result of a refresh.
abbrev pub outcome : Result (Unit {0}) → Refreshed
outcome (ok u) = status status_ok
outcome (err e) = status status_internal_server_error
outcome (panic w) = aborted

-- `to_slash` is filepath.ToSlash, and `decode` json.Decoder.Decode into a map[string]string.
module _ {S : Type 0} (to_slash : Text → Text) (decode : Text → Option (Assoc Text)) where
  -- The loop over the configured providers, in the order of Go's `range`.
  unfoldable pub refresh_all : Text → Assoc (FileProvider S) → S → Refreshed × S
  refresh_all name [] s = (status status_ok, s)
  refresh_all name ((f, p) ∷ rest) s =
      let next = refresh_all name rest (p.refresh s).1 in
      let skip = refresh_all name rest s in
      if str_eq (to_slash f) (to_slash name)
      then elim (p.refresh s).0 [
        | ok u ↦ next
        | err e ↦ (status status_internal_server_error, (p.refresh s).1)
        | panic w ↦ (aborted, (p.refresh s).1)
      ]
      else skip

  -- RefreshConfig.ServeHTTP, on a request's method and body.
  unfoldable pub serve_refresh : Assoc (FileProvider S) → Text → Text → S → Refreshed × S
  unfolding refresh_all
  serve_refresh configs method body s =
      if str_eq method post
      then elim (decode body) [
        | none ↦ (status status_bad_request, s)
        | some fields ↦ elim (lookup filename fields) [
          | none ↦ (status status_bad_request, s)
          | some name ↦ refresh_all name configs s
        ]
      ]
      else (status status_bad_request, s)

  -- A request that is not a POST, whose body is not decoded, or that names no file, is answered by
  -- 400, and no provider is refreshed.
  pub serve_refresh-refused :
      (configs : Assoc (FileProvider S)) (method body : Text) (s : S)
      → (method ≢ post)
        ⊎ (decode body ≡ none)
        ⊎ ((fields : Assoc Text) × (decode body ≡ some fields) × (lookup filename fields ≡ none))
      → serve_refresh configs method body s ≡ (status status_bad_request, s)
  unfolding serve_refresh
  serve_refresh-refused configs method body s (inl differ) = ground (arith, str_eq_iff method post)
  serve_refresh-refused configs method body s (inr (inl e)) = ground (arith, e)
  serve_refresh-refused configs method body s (inr (inr (fields, e, missing))) =
      ground (arith, e, missing)

  abbrev pub Others : Text → Assoc (FileProvider S) → Type 0
  Others name = All (λ c. to_slash c.0 ≢ to_slash name)

  refresh_all-Others :
      (name : Text) (configs : Assoc (FileProvider S)) (s : S)
      → Others name configs
      → refresh_all name configs s ≡ (status status_ok, s)
  unfolding refresh_all
  refresh_all-Others name [] s h = refl
  refresh_all-Others name ((f, p) ∷ rest) s (h, hs) =
      ground (arith, str_eq_iff (to_slash f) (to_slash name), refresh_all-Others name rest s hs)

  refresh_all-one :
      (name : Text) (before : Assoc (FileProvider S)) (f : Text) (p : FileProvider S)
      (after : Assoc (FileProvider S)) (s : S)
      → Others name before
      → to_slash f ≡ to_slash name
      → Others name after
      → refresh_all name (before ++ (f, p) ∷ after) s ≡ (outcome (p.refresh s).0, (p.refresh s).1)
  unfolding refresh_all
  refresh_all-one name [] f p after s _ same h = ground (
    arith,
    str_eq_iff (to_slash f) (to_slash name),
    refresh_all-Others name after (p.refresh s).1 h,
  )
  refresh_all-one name ((g, q) ∷ before) f p after s (k, ks) same h = ground (
    arith,
    str_eq_iff (to_slash g) (to_slash name),
    refresh_all-one name before f p after s ks same h,
  )

  serve_refresh-named :
      (configs : Assoc (FileProvider S)) (body name : Text) (fields : Assoc Text) (s : S)
      → decode body ≡ some fields
      → lookup filename fields ≡ some name
      → serve_refresh configs post body s ≡ refresh_all name configs s
  unfolding serve_refresh
  serve_refresh-named configs body name fields s decoded named =
      ground (arith, str_eq_refl post, decoded, named)

  -- A POST that names the file of exactly one provider refreshes that provider once and no other;
  -- the reply is 200, 500 or a closed connection as the refresh succeeds, fails or panics.
  pub serve_refresh-one :
      (before : Assoc (FileProvider S)) (f : Text) (p : FileProvider S)
      (after : Assoc (FileProvider S)) (body name : Text) (fields : Assoc Text) (s : S)
      → decode body ≡ some fields
      → lookup filename fields ≡ some name
      → Others name before
      → to_slash f ≡ to_slash name
      → Others name after
      → serve_refresh (before ++ (f, p) ∷ after) post body s
        ≡ (outcome (p.refresh s).0, (p.refresh s).1)
  serve_refresh-one before f p after body name fields s decoded named k same h =
      serve_refresh-named (before ++ (f, p) ∷ after) body name fields s decoded named
      ∙ refresh_all-one name before f p after s k same h

  -- A POST that names a file of no provider is answered by 200 too, and refreshes nothing.
  pub serve_refresh-unknown :
      (configs : Assoc (FileProvider S)) (body name : Text) (fields : Assoc Text) (s : S)
      → decode body ≡ some fields
      → lookup filename fields ≡ some name
      → Others name configs
      → serve_refresh configs post body s ≡ (status status_ok, s)
  serve_refresh-unknown configs body name fields s decoded named h =
      serve_refresh-named configs body name fields s decoded named
      ∙ refresh_all-Others name configs s h
