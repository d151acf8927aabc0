-- ===== src/Vault/Http/Honest.antt =====
-- Where the values that the Vault provider serves come from.
use hasura_secret_refresh.Base.{◌≡◌, refl, Option, Option-cases, inl, inr}
use hasura_secret_refresh.Strings.{Text}
use hasura_secret_refresh.Result.{Result, ok, err, panic, wrap_error}
use hasura_secret_refresh.Transform.{JsonCodec}
use hasura_secret_refresh.Lru.{Lru, OnlyAdded, Holds, keep, through, through-Holds}
use hasura_secret_refresh.Vault.{Response}
use hasura_secret_refresh.Vault.Http.{SecretFetcher, cache_key, store, read_value, fetch_secret}

module _ {S C : Type 0} (codec : JsonCodec) (read : Text → Option Text → S → Response × S)
    (lru : Lru C) where
  -- A value that Vault gave, in some state, to a request with that key.
  pub record IsRead (key v : Text) : Type 0 where
    pub fetcher : SecretFetcher
    pub state : S
    pub same_key : cache_key fetcher ≡ key
    pub answered : (read_value codec read lru fetcher state).0 ≡ ok v

  -- Every value in the cache was read from Vault under its key.
  abbrev pub IsHonest : C → Type 0
  IsHonest = Holds lru IsRead

  -- What Vault answers, with its error in the fetcher's words.
  abbrev pub answer : SecretFetcher → S → Result Text × S
  answer f s =
      let (r, s') = read_value codec read lru f s in
      (wrap_error "hashicorp_vault: unable to fetch secret" r, s')

  store-keep :
      (key : Text) (r : Result Text) (c : C) (s : S)
      → store codec read lru key r c s
        ≡ keep lru key (wrap_error "hashicorp_vault: unable to fetch secret" r) c s
  unfolding store
  store-keep key (ok v) c s = refl
  store-keep key (err e) c s = refl
  store-keep key (panic w) c s = refl

  -- FetchSecret is a fetch through the cache.
  pub fetch_secret-through :
      (f : SecretFetcher) (c : C) (s : S)
      → fetch_secret codec read lru f c s ≡ through lru (cache_key f) (answer f s) c s
  unfolding fetch_secret through
  fetch_secret-through f c s = elim (Option-cases (lru.get c (cache_key f)).0) [
    | inl miss ↦ rw (miss, fetch_secret, through) (store-keep (cache_key f) _ _ _)
    | inr (v, hit) ↦ rw (hit, fetch_secret, through) refl
  ]

  answer-IsRead :
      (f : SecretFetcher) (s : S) (v : Text) → (answer f s).0 ≡ ok v → IsRead (cache_key f) v
  answer-IsRead f s v e = record {
    fetcher = f;
    state = s;
    same_key = refl;
    answered = unwrapped (read_value codec read lru f s).0 e;
  }
    where
      unwrapped :
          (r : Result Text)
          → wrap_error "hashicorp_vault: unable to fetch secret" r ≡ ok v
          → r ≡ ok v
      unwrapped (ok u) q = q
      unwrapped (err x) q = cc
      unwrapped (panic w) q = cc

  -- If every value in the cache was read from Vault under its key, that is so after every fetch
  -- too, and a value that the fetch returns was read from Vault, then or before, for a request
  -- with the same key.
  pub fetch_secret-IsHonest :
      (laws : OnlyAdded lru) (f : SecretFetcher) (c : C) (s : S)
      → IsHonest c
      → IsHonest (fetch_secret codec read lru f c s).1
        × ((v : Text) → (fetch_secret codec read lru f c s).0 ≡ ok v → IsRead (cache_key f) v)
  fetch_secret-IsHonest laws f c s honest =
      rw (fetch_secret-through f c s)
        (through-Holds lru IsRead laws (cache_key f) (answer f s) c s honest (answer-IsRead f s))
