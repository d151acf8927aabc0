-- ===== src/Azure/Proxy.antt =====
-- The proxy with the Azure Key Vault provider: provider, cache and server together.
use hasura_secret_refresh.Base.{
  ◌≡◌, ◌≢◌, refl, Option, some, [], sym, ◌∙◌, arith, Option-cases, inl, inr,
}
use hasura_secret_refresh.Strings.{Text}
use hasura_secret_refresh.Assoc.{Assoc, lookup}
use hasura_secret_refresh.Result.{Result, ok, err, panic}
use hasura_secret_refresh.Http.{Url, Request, get_header}
use hasura_secret_refresh.Provider.{HttpProvider}
use hasura_secret_refresh.Transform.{JsonCodec}
use hasura_secret_refresh.Lru.{Lru, OnlyAdded, Holds, keep, through, through-Holds}
use hasura_secret_refresh.Server.{secret_provider_header, forwarded, serve_http}
use hasura_secret_refresh.Server.Named.{Carries, serve_http-named}
use hasura_secret_refresh.Azure.Http.{
  secret_name_header, value_of, store, fetch_secret, secret_fetcher_sound, azure_key_vault,
  azure_key_vault-OnlyDeletes,
}

module _ {S C : Type 0} (read_secret : Text → S → Result (Option Text) × S) (lru : Lru C) where
  -- A value that the key vault gave, in some state, for the secret of that name.
  abbrev pub IsGiven : Text → Text → Type 0
  IsGiven name v = (s : S) × ((read_secret name s).0 ≡ ok (some v))

  answer : Text → S → Result Text × S
  answer name s = (value_of (read_secret name s).0, (read_secret name s).1)

  store-keep :
      (name : Text) (r : Result Text) (c : C) (s : S)
      → store read_secret lru name r c s ≡ keep lru name r c s
  unfolding store
  store-keep name (ok v) c s = refl
  store-keep name (err e) c s = refl
  store-keep name (panic w) c s = refl

  fetch_secret-through :
      (name : Text) (c : C) (s : S)
      → fetch_secret read_secret lru name c s ≡ through lru name (answer name s) c s
  unfolding fetch_secret through answer
  fetch_secret-through name c s = elim (Option-cases (lru.get c name).0) [
    | inl miss ↦ rw (miss, fetch_secret, through) (store-keep name _ _ _)
    | inr (v, hit) ↦ rw (hit, fetch_secret, through) refl
  ]

  value_of_sound : (r : Result (Option Text)) (v : Text) → value_of r ≡ ok v → r ≡ ok (some v)
  unfolding value_of
  value_of_sound r v e = ground arith

  fetch_secret-Holds :
      (laws : OnlyAdded lru) (name : Text) (c : C) (s : S)
      → Holds lru IsGiven c
      → Holds lru IsGiven (fetch_secret read_secret lru name c s).1
        × ((v : Text) → (fetch_secret read_secret lru name c s).0 ≡ ok v → IsGiven name v)
  unfolding answer
  fetch_secret-Holds laws name c s h = rw (fetch_secret-through name c s) (
      through-Holds lru IsGiven laws name (answer name s) c s h
        (λ v e. (s, value_of_sound (read_secret name s).0 v e)))

module _ {S C : Type 0} (read_secret : Text → S → Result (Option Text) × S) (lru : Lru C)
    (url_parse : Text → Result Url) (codec : JsonCodec) (providers : Assoc (HttpProvider (C × S)))
    (outgoing : Request → Request) where
  -- A request that names an Azure Key Vault provider is forwarded only if it names a secret too, and
  -- with a value that the key vault has given for that name, put into its template and its header;
  -- and then too every value in the cache was given for its name, if that was so before and if the
  -- cache finds only what was added.
  pub serve_http-azure :
      (laws : OnlyAdded lru) (r out : Request) (c c' : C) (s s' : S)
      → Holds lru (IsGiven read_secret lru) c
      → lookup (get_header r.header secret_provider_header) providers
        ≡ some (azure_key_vault read_secret lru)
      → serve_http url_parse codec providers outgoing r (c, s) ≡ (forwarded out, (c', s'))
      → (get_header r.header secret_name_header ≢ [])
        × ((secret : Text) × IsGiven read_secret lru (get_header r.header secret_name_header) secret
            × Carries codec secret r out)
        × Holds lru (IsGiven read_secret lru) c'
  unfolding azure_key_vault
  serve_http-azure laws r out c c' s s' honest named e =
      let name = get_header r.header secret_name_header in
      let (fetch, secret, configured, fetches, sent) =
        serve_http-named url_parse codec providers outgoing (azure_key_vault read_secret lru) r out
          (c, s) (c', s') (azure_key_vault-OnlyDeletes read_secret lru) named e in
      let (there, runs) = secret_fetcher_sound read_secret lru r.header fetch configured in
      let fetched = sym (runs c s) ∙ fetches in
      let (kept, from) = fetch_secret-Holds read_secret lru laws name c s honest in
      let moved : (fetch_secret read_secret lru name c s).1 ≡ c' = λ i. (fetched i).1.0 in
      (there, (secret, from secret (λ i. (fetched i).0), sent), rw moved at kept)
