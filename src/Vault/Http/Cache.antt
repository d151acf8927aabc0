-- ===== src/Vault/Http/Cache.antt =====
-- What the cache of the Vault provider gives back.
use hasura_secret_refresh.Base.{
  ◌≡◌, Option, some, ◌++◌, arith, append_assoc, Option-cases, inl, inr,
}
use mathlib.Core.Path.{subst}
use hasura_secret_refresh.Strings.{Text, codes}
use hasura_secret_refresh.Result.{ok, err, Error, Result-cases}
use hasura_secret_refresh.Transform.{JsonCodec}
use hasura_secret_refresh.Lru.{Lru, IsLru, through-hit, through-cached}
use hasura_secret_refresh.Vault.{Response}
use hasura_secret_refresh.Vault.Http.{SecretFetcher, cache_key, store, read_value, fetch_secret}
use hasura_secret_refresh.Vault.Http.Honest.{answer, fetch_secret-through}

cache_key-split :
    (a b p version field : Text)
    → cache_key
        (record { mount = a; path = b ++ (codes "/" ++ p); field = field; version = version })
      ≡ cache_key
          (record { mount = a ++ (codes "/" ++ b); path = p; field = field; version = version })
unfolding cache_key
cache_key-split a b p version field = simp (append_assoc)

module _ {S C : Type 0} (codec : JsonCodec) (read : Text → Option Text → S → Response × S)
    (lru : Lru C) where
  fetch_secret-hit :
      (g : SecretFetcher) (c : C) (t : S) (v : Text)
      → (lru.get c (cache_key g)).0 ≡ some v
      → ((fetch_secret codec read lru g c t).0 ≡ ok v) × ((fetch_secret codec read lru g c t).2 ≡ t)
  fetch_secret-hit g c t v hit =
      rw (fetch_secret-through codec read lru g c t)
        (through-hit lru (cache_key g) (answer codec read lru g t) c t v hit)

  -- A fetch that fails leaves the cache as the lookup left it: no error is cached.
  pub fetch_secret-failed :
      (f : SecretFetcher) (c : C) (s : S) (x : Error)
      → (fetch_secret codec read lru f c s).0 ≡ err x
      → (fetch_secret codec read lru f c s).1 ≡ (lru.get c (cache_key f)).1
  unfolding fetch_secret store
  fetch_secret-failed f c s x e = elim (Option-cases (lru.get c (cache_key f)).0) [
    | inl h ↦ elim (Result-cases (read_value codec read lru f s).0) [
      | inl (w, y) ↦ ground (arith, e, h, y)
      | inr (inl (w, y)) ↦ ground (arith, e, h, y)
      | inr (inr (w, y)) ↦ ground (arith, e, h, y)
    ]
    | inr (w, h) ↦ ground (arith, e, h)
  ]

module _ {S C : Type 0} (codec : JsonCodec) (read : Text → Option Text → S → Response × S)
    (lru : Lru C) (laws : IsLru lru) where
  cached :
      (f : SecretFetcher) (c : C) (s : S) (v : Text)
      → (fetch_secret codec read lru f c s).0 ≡ ok v
      → (lru.get (fetch_secret codec read lru f c s).1 (cache_key f)).0 ≡ some v
  cached f c s v e = rw (fetch_secret-through codec read lru f c s) (
      through-cached lru laws (cache_key f) (answer codec read lru f s) c s v
        (rw (fetch_secret-through codec read lru f c s) at e))

  -- Once a secret was fetched, the next fetch of it returns the same value without asking Vault,
  -- whatever state Vault is in then, if the cache finds what was added to it last, and finds again
  -- what it found last.
  pub fetch_secret_again :
      (f : SecretFetcher) (c : C) (s t : S) (v : Text)
      → (fetch_secret codec read lru f c s).0 ≡ ok v
      → ((fetch_secret codec read lru f (fetch_secret codec read lru f c s).1 t).0 ≡ ok v)
        × ((fetch_secret codec read lru f (fetch_secret codec read lru f c s).1 t).2 ≡ t)
  fetch_secret_again f c s t v e =
      fetch_secret-hit codec read lru f (fetch_secret codec read lru f c s).1 t v (cached f c s v e)

  -- The keys of the cache do not tell a mount from the path behind it: after the secret b/c of the
  -- mount a was fetched, a fetch of the secret c of the mount a/b, with the same version and field,
  -- returns that same value, if the cache finds what was added to it last, and finds again what it
  -- found last.
  pub fetch_secret_collision :
      (a b p version field v : Text) (c : C) (s t : S)
      → (fetch_secret codec read lru
          (record { mount = a; path = b ++ (codes "/" ++ p); field = field; version = version })
          c
          s).0
        ≡ ok v
      → (fetch_secret codec read lru
          (record { mount = a ++ (codes "/" ++ b); path = p; field = field; version = version })
          (fetch_secret codec read lru
            (record { mount = a; path = b ++ (codes "/" ++ p); field = field; version = version })
            c
            s).1
          t).0
        ≡ ok v
  fetch_secret_collision a b p version field v c s t e =
      let f : SecretFetcher = record {
        mount = a;
        path = b ++ (codes "/" ++ p);
        field = field;
        version = version;
      } in
      let g : SecretFetcher = record {
        mount = a ++ (codes "/" ++ b);
        path = p;
        field = field;
        version = version;
      } in
      (fetch_secret-hit codec read lru g (fetch_secret codec read lru f c s).1 t v (
        subst (λ k. (lru.get (fetch_secret codec read lru f c s).1 k).0 ≡ some v)
          (cache_key-split a b p version field) (cached f c s v e))).0
