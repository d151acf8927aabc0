-- ===== src/Azure/Http.antt =====
-- provider/azure_key_vault/provider.go and fetcher.go: secrets of Azure Key Vault for the proxy,
-- cached.
use hasura_secret_refresh.Base.{
  ℕ, ◌≡◌, ◌≢◌, refl, [], Option, none, some, arith, inl, inr, if◌then◌else◌, Option-cases,
}
use hasura_secret_refresh.Strings.{Text, codes, is_empty}
use hasura_secret_refresh.Result.{
  Error, new, wrap, wrap_error, or_error, ◌>>=◌, Result, ok, err, panic, Result-cases,
}
use hasura_secret_refresh.Assoc.{lookup}
use hasura_secret_refresh.Value.{Object, as_str}
use hasura_secret_refresh.Config.{cache_ttl}
use hasura_secret_refresh.Http.{Header, get_header, del_header}
use hasura_secret_refresh.Provider.{
  Fetcher, HttpProvider, OnlyDeletes, OnlyDeletes-del_header, OnlyDeletes-nothing,
}
use hasura_secret_refresh.Lru.{Lru, IsLru}

abbrev pub secret_name_header : Text
secret_name_header = codes "X-Hasura-Secret-Name"

-- The answer of the client, with its error in the fetcher's words.
unfoldable pub value_of : Result (Option Text) → Result Text
value_of (ok none) =
    err (wrap "azure_key_vault: unable to fetch secret" (new "secret value is nil"))
value_of (ok (some v)) = ok v
value_of (err e) = err (wrap "azure_key_vault: unable to fetch secret" e)
value_of (panic w) = panic w

-- An error that takes the place of another.
refused {ℓ} : {A : Type ℓ} → Error → Result A → Result A
refused other (ok a) = ok a
refused other (err e) = err other
refused other (panic w) = panic w

-- `S` is the state of Azure Key Vault, `C` that of the cache; `read_secret` is the client's
-- GetSecret of the latest version of a secret: the field Value, which may be nil.
module _ {S C : Type 0} (read_secret : Text → S → Result (Option Text) × S) (lru : Lru C) where
  unfoldable pub store : Text → Result Text → C → S → Result Text × C × S
  store key (ok v) c s = (ok v, lru.add c key v, s)
  store key (err e) c s = (err e, c, s)
  store key (panic w) c s = (panic w, c, s)

  -- FetchSecret, on the cache and the key vault.
  unfoldable pub fetch_secret : Text → C → S → Result Text × C × S
  unfolding store value_of
  fetch_secret name c s =
      let (hit, c') = lru.get c name in
      elim hit [
        | some v ↦ (ok v, c', s)
        | none ↦ store name (value_of (read_secret name s).0) c' (read_secret name s).1
      ]

  fetcher_of : Text → Fetcher (C × S)
  unfolding fetch_secret
  fetcher_of name (c, s) = let (r, c', s') = fetch_secret name c s in (r, (c', s'))

  -- SecretFetcher
  unfoldable pub secret_fetcher : Header → Result (Fetcher (C × S))
  unfolding fetcher_of
  secret_fetcher h =
      let name = get_header h secret_name_header in
      if is_empty name
      then err (wrap "azure_key_vault: required header not found" (new "X-Hasura-Secret-Name"))
      else ok (fetcher_of name)

  unfoldable pub azure_key_vault : HttpProvider (C × S)
  unfolding secret_fetcher
  azure_key_vault = record {
    secret_fetcher = secret_fetcher;
    delete_config_headers = λ h. del_header h secret_name_header;
  }

  -- A request is accepted only if it names a secret; it is what is fetched.
  pub secret_fetcher_sound :
      (h : Header) (fetch : Fetcher (C × S))
      → secret_fetcher h ≡ ok fetch
      → (get_header h secret_name_header ≢ [])
        × ((c : C) (s : S)
            → fetch (c, s) ≡ (
              (fetch_secret (get_header h secret_name_header) c s).0,
              (
                (fetch_secret (get_header h secret_name_header) c s).1,
                (fetch_secret (get_header h secret_name_header) c s).2,
              ),
            ))
  unfolding secret_fetcher
  secret_fetcher_sound h fetch e =
      let is_fetch : fetcher_of (get_header h secret_name_header) ≡ fetch = ground (arith, e) in
      (ground (arith, e), λ c s. rw (← is_fetch) refl)

  -- Once a secret was fetched, the next fetch of it returns the same value without asking Azure,
  -- whatever state the key vault is in then, if the cache finds what was added to it last, and finds
  -- again what it found last.
  pub fetch_secret_cached :
      (laws : IsLru lru) (name : Text) (c : C) (s t : S) (v : Text)
      → (fetch_secret name c s).0 ≡ ok v
      → ((fetch_secret name (fetch_secret name c s).1 t).0 ≡ ok v)
        × ((fetch_secret name (fetch_secret name c s).1 t).2 ≡ t)
  unfolding fetch_secret
  fetch_secret_cached laws name c s t v e =
      let found : (lru.get (fetch_secret name c s).1 name).0 ≡ some v =
        elim (Option-cases (lru.get c name).0) [
          | inl x ↦ elim (Result-cases (value_of (read_secret name s).0)) [
            | inl (w, y) ↦ ground (arith, e, x, y, laws.get-add (lru.get c name).1 name w)
            | inr (inl (w, y)) ↦ ground (arith, e, x, y)
            | inr (inr (w, y)) ↦ ground (arith, e, x, y)
          ]
          | inr (w, x) ↦ ground (arith, e, x, laws.get-get c name w x)
        ] in
      (ground (arith, found), ground (arith, found))

  -- The header of the provider is only deleted, as the proxy relies on.
  pub azure_key_vault-OnlyDeletes : OnlyDeletes azure_key_vault.delete_config_headers
  unfolding azure_key_vault
  azure_key_vault-OnlyDeletes =
      OnlyDeletes-del_header secret_name_header (λ h. h) OnlyDeletes-nothing

abbrev default_cache_size : ℕ
default_cache_size = 100

-- Create. `new_credential` and `new_client` are the SDK's: a credential of type `K`, and the
-- client's GetSecret for a vault's URL; `new_lru` is lru.New for a number of entries. The time to
-- live is read, and nothing is made of it.
unfoldable pub create :
    {S C K : Type 0}
    → Result K
    → (Text → K → Result (Text → S → Result (Option Text) × S))
    → (ℕ → Result (Lru C))
    → Object
    → Result (HttpProvider (C × S))
unfolding refused
create new_credential new_client new_lru config = do
  found ←
      or_error (lookup (codes "vault_url") config)
        (new "azure_key_vault: unable to initialize: required config 'vault_url' not found")
  vault_url ←
      or_error (as_str found)
        (new "azure_key_vault: unable to initialize: 'vault_url' must be a string")
  ttl ←
      cache_ttl (new "azure_key_vault: unable to initialize: unable to convert cache_ttl to number")
        config
  credential ← refused (new "failed to create credential") new_credential
  read_secret ←
      wrap_error "azure_key_vault: unable to initialize: failed to create Azure Key Vault client"
        (new_client vault_url credential)
  lru ←
      wrap_error "azure_key_vault: unable to initialize: failed to create cache"
        (new_lru default_cache_size)
  ok (azure_key_vault read_secret lru)
