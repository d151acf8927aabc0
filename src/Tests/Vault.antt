-- ===== src/Tests/Vault.antt =====
-- Reads of Vault and of Azure Key Vault, through a small cache.
use hasura_secret_refresh.Base.{ℕ, zero, suc, ◌≡◌, refl, ◌++◌, Option, some, none, [], ◌∷◌, map}
use hasura_secret_refresh.Strings.{Text, codes, str_eq}
use hasura_secret_refresh.Assoc.{lookup}
use hasura_secret_refresh.Value.{str, obj, field, end, entries, as_object}
use hasura_secret_refresh.Result.{Result, new, message, wrap, ok, err}
use hasura_secret_refresh.Vault.{Response, build_kvv2_path, extract_field, read_kvv2}
use hasura_secret_refresh.Vault.Http.{SecretFetcher, fetch_secret, read_value, store}
use hasura_secret_refresh.Vault.Http.Cache.{fetch_secret_collision}
use hasura_secret_refresh.Vault.Login.{re_login, waits, re_login-waits}
use hasura_secret_refresh.Azure.Http as AzureHttp
use hasura_secret_refresh.Azure.Http.{fetch_secret_cached}
use hasura_secret_refresh.Tests.Data.{codec}
use hasura_secret_refresh.Tests.Cache.{cache, cache-IsLru}

-- Vault in its n-th state has the secret x1 everywhere, and then none.
abbrev read : Text → Option Text → ℕ → Response × ℕ
read path version zero =
    (ok (some ((codes "data", obj (field (codes "k") (str (codes "x1")) end)) ∷ [])), 1)
read path version (suc n) = (ok none, suc (suc n))

abbrev wanted : SecretFetcher
wanted = record {
  mount = codes "a";
  path = codes "b" ++ (codes "/" ++ codes "c");
  field = codes "k";
  version = [];
}

fetches : (fetch_secret codec read cache wanted [] 0).0 ≡ ok (codes "x1")
unfolding fetch_secret read_value read_kvv2 build_kvv2_path extract_field lookup str_eq as_object
    entries store
fetches = refl

fetch_fails :
    (fetch_secret codec read cache wanted [] 1).0
    ≡ err (
        wrap "hashicorp_vault: unable to fetch secret"
          (message (codes "hashicorp_vault: secret not found: a/data/b/c")))
unfolding fetch_secret read_value read_kvv2 build_kvv2_path lookup store
fetch_fails = refl

fetch_secret_collision_example :
    (fetch_secret codec read cache
      (record {
        mount = codes "a" ++ (codes "/" ++ codes "b");
        path = codes "c";
        field = codes "k";
        version = [];
      })
      (fetch_secret codec read cache wanted [] 0).1
      5).0
    ≡ ok (codes "x1")
fetch_secret_collision_example =
    fetch_secret_collision codec read cache cache-IsLru (codes "a") (codes "b") (codes "c") []
      (codes "k") (codes "x1") [] 0 5 fetches

re_login-waits_example :
    re_login {A = Text} (map err (new "down" ∷ new "down" ∷ []) ++ ok (codes "t") ∷ [])
    ≡ (waits 0 2, some (ok (codes "t")))
re_login-waits_example = re_login-waits (new "down" ∷ new "down" ∷ []) (codes "t") []

-- A key vault that has the secret x1 once.
abbrev read_secret : Text → ℕ → Result (Option Text) × ℕ
read_secret name zero = (ok (some (codes "x1")), 1)
read_secret name (suc n) = (ok none, suc (suc n))

fetches_azure : (AzureHttp.fetch_secret read_secret cache (codes "db") [] 0).0 ≡ ok (codes "x1")
unfolding AzureHttp.fetch_secret lookup
fetches_azure = refl
