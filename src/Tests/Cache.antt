-- ===== src/Tests/Cache.antt =====
-- A cache that never drops an entry, as the providers of the proxy are tried with.
use hasura_secret_refresh.Base.{◌≡◌, ◌⊎◌, Bool-cases, inl, inr, some, arith}
use hasura_secret_refresh.Strings.{Text, str_eq}
use hasura_secret_refresh.Strings.Laws.{str_eq_iff, str_eq_refl}
use hasura_secret_refresh.Assoc.{Assoc, lookup, insert, lookup-insert}
use hasura_secret_refresh.Lru.{Lru, IsLru, OnlyAdded}

abbrev pub cache : Lru (Assoc Text)
cache = record { get = λ c k. (lookup k c, c); add = λ c k v. insert k v c }

pub cache-IsLru : IsLru cache
cache-IsLru = record {
  get-add = λ c k v. rw (lookup-insert k k v c, str_eq_refl k);
  get-get = λ c k v e. e;
}

lookup-added :
    (c : Assoc Text) (k v j u : Text)
    → lookup j (insert k v c) ≡ some u
    → ((k ≡ j) × (v ≡ u)) ⊎ (lookup j c ≡ some u)
lookup-added c k v j u e = elim (Bool-cases (str_eq k j)) [
  | inl same ↦ ground (arith, rw (lookup-insert, same) at e, str_eq_iff k j)
  | inr differ ↦ inr (rw (lookup-insert, differ) at e)
]

pub cache-OnlyAdded : OnlyAdded cache
cache-OnlyAdded = record { after_add = lookup-added; after_get = λ c k j u e. e }
