-- ===== src/Vault/Http.antt =====
-- provider/hashicorp_vault/provider.go and fetcher.go: secrets of Vault for the proxy, cached.
pub mod Cache
pub mod Honest
use hasura_secret_refresh.Base.{
  ℕ, ◌≡◌, refl, Bool, true, false, Option, none, some, [], ◌∷◌, ◌++◌, if◌then◌else◌,
}
use hasura_secret_refresh.Strings.{Text, codes, is_empty, trim_space}
use hasura_secret_refresh.Value.{Value, as_str, Object}
use hasura_secret_refresh.Result.{
  wrap_error, or_error, Error, new, wrap, Result, ok, err, panic, ◌>>=◌, >>=-eq-ok, ok-injective,
}
use hasura_secret_refresh.Transform.{JsonCodec}
use hasura_secret_refresh.Lru.{Lru}
use hasura_secret_refresh.Assoc.{lookup}
use hasura_secret_refresh.Config.{cache_ttl}
use hasura_secret_refresh.Http.{Header, get_header, del_header}
use hasura_secret_refresh.Provider.{
  Fetcher, HttpProvider, OnlyDeletes, OnlyDeletes-del_header, OnlyDeletes-nothing,
}
use hasura_secret_refresh.Vault.Auth.{VaultConfig, parse_vault_config}
use hasura_secret_refresh.Vault.{default_mount, Response, extract_field, read_kvv2}

abbrev pub path_header : Text
path_header = codes "X-Hasura-Vault-Path"

abbrev pub field_header : Text
field_header = codes "X-Hasura-Vault-Field"

abbrev pub version_header : Text
version_header = codes "X-Hasura-Vault-Version"

abbrev pub mount_header : Text
mount_header = codes "X-Hasura-Vault-Mount"

pub record SecretFetcher : Type 0 where
  pub mount : Text
  pub path : Text
  pub field : Text
  pub version : Text

-- The method cacheKey.
unfoldable pub cache_key : SecretFetcher → Text
cache_key f =
    f.mount ++ (codes "/" ++ (f.path ++ (codes "@" ++ (f.version ++ (codes "#" ++ f.field)))))

-- The method SecretFetcher: what the headers of a request ask for.
unfoldable pub asked : Text → Header → Result SecretFetcher
asked default h =
    let path = trim_space (get_header h path_header) in
    let mount = get_header h mount_header in
    if is_empty path
    then err (wrap "hashicorp_vault: required header not found" (new "X-Hasura-Vault-Path"))
    else ok (record {
      mount = if is_empty mount then default else mount;
      path = path;
      field = get_header h field_header;
      version = get_header h version_header;
    })

-- `S` is the state of Vault itself, `C` that of the cache.
module _ {S C : Type 0} (codec : JsonCodec) (read : Text → Option Text → S → Response × S)
    (lru : Lru C) where
  unfoldable pub store : Text → Result Text → C → S → Result Text × C × S
  store key (ok v) c s = (ok v, lru.add c key v, s)
  store key (err e) c s = (err (wrap "hashicorp_vault: unable to fetch secret" e), c, s)
  store key (panic w) c s = (panic w, c, s)

  unfoldable pub read_value : SecretFetcher → S → Result Text × S
  read_value f s =
      let (r, s') = read_kvv2 read f.mount f.path f.version s in
      (r >>= λ secret. extract_field codec secret f.field, s')

  -- FetchSecret, on the cache and Vault.
  unfoldable pub fetch_secret : SecretFetcher → C → S → Result Text × C × S
  unfolding store
  fetch_secret f c s =
      let (hit, c') = lru.get c (cache_key f) in
      elim hit [
        | some v ↦ (ok v, c', s)
        | none ↦ store (cache_key f) (read_value f s).0 c' (read_value f s).1
      ]

  fetcher_of : SecretFetcher → Fetcher (C × S)
  unfolding fetch_secret
  fetcher_of f (c, s) = let (r, c', s') = fetch_secret f c s in (r, (c', s'))

  unfoldable pub hashicorp_vault : Text → HttpProvider (C × S)
  unfolding fetcher_of
  hashicorp_vault default = record {
    secret_fetcher = λ h. asked default h >>= λ f. ok (fetcher_of f);
    delete_config_headers = λ h.
        del_header (del_header (del_header (del_header h path_header) field_header) version_header)
          mount_header;
  }

  -- The headers of the provider are only deleted, as the proxy relies on.
  pub hashicorp_vault-OnlyDeletes :
      (default : Text) → OnlyDeletes (hashicorp_vault default).delete_config_headers
  unfolding hashicorp_vault
  hashicorp_vault-OnlyDeletes default = OnlyDeletes-del_header mount_header _ (
      OnlyDeletes-del_header version_header _ (
        OnlyDeletes-del_header field_header _
          (OnlyDeletes-del_header path_header (λ h. h) OnlyDeletes-nothing)))

  -- What a request is answered by, if its headers are accepted.
  pub secret_fetcher_sound :
      (default : Text) (h : Header) (fetch : Fetcher (C × S))
      → (hashicorp_vault default).secret_fetcher h ≡ ok fetch
      → (f : SecretFetcher) × (asked default h ≡ ok f)
        × ((c : C) (s : S)
            → fetch (c, s)
              ≡ ((fetch_secret f c s).0, ((fetch_secret f c s).1, (fetch_secret f c s).2)))
  unfolding hashicorp_vault fetcher_of
  secret_fetcher_sound default h fetch e =
      let (f, read_headers, same) = >>=-eq-ok (asked default h) _ e in
      let is_fetch : fetcher_of f ≡ fetch = ok-injective _ _ same in
      (f, read_headers, λ c s. rw (← is_fetch) refl)

abbrev default_cache_size : ℕ
default_cache_size = 100

-- The key `mount` of the configuration; an empty text leaves the default.
mount_of_config : Option Value → Result Text
mount_of_config none = ok default_mount
mount_of_config (some v) = do
  m ← or_error (as_str v) (new "hashicorp_vault: unable to initialize: 'mount' must be a string")
  ok (if is_empty m then default_mount else m)

-- Create. `make_client` is newAuthenticatedClient: the reads of the client that it makes; `new_lru`
-- is lru.New for a number of entries. The time to live is read, and nothing is made of it.
unfoldable pub create :
    {S C : Type 0}
    → JsonCodec
    → (VaultConfig → Result (Text → Option Text → S → Response × S))
    → (ℕ → Result (Lru C))
    → Object
    → Result (HttpProvider (C × S))
unfolding mount_of_config
create codec make_client new_lru config = do
  vc ← wrap_error "hashicorp_vault: unable to initialize" (parse_vault_config config)
  ttl ←
      cache_ttl (new "hashicorp_vault: unable to initialize: unable to convert cache_ttl to number")
        config
  mount ← mount_of_config (lookup (codes "mount") config)
  read ← wrap_error "hashicorp_vault: unable to initialize" (make_client vc)
  lru ←
      wrap_error "hashicorp_vault: unable to initialize: failed to create cache"
        (new_lru default_cache_size)
  ok (hashicorp_vault codec read lru mount)
