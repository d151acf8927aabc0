-- ===== src/Provider.antt =====
-- provider/provider.go: the interfaces of the providers. `S` is the state that the providers of a
-- process share with the world: their caches, the secret stores, the disk.
use hasura_secret_refresh.Base.{◌≡◌, ◌⊎◌, [], arith}
use hasura_secret_refresh.Strings.{Text}
use hasura_secret_refresh.Result.{Result}
use hasura_secret_refresh.Http.{Header, get_header, del_header}
use hasura_secret_refresh.Http.Laws.{get_header-del_header, IsAbsent, lookup-del_absent}

-- SecretFetcher: its one method, FetchSecret.
abbrev pub Fetcher : Type 0 → Type 0
Fetcher S = S → Result Text × S

pub record HttpProvider (S : Type 0) : Type 0 where
  pub secret_fetcher : Header → Result (Fetcher S)
  pub delete_config_headers : Header → Header

-- The method Start never returns; `iterate` is one round of its loop, which goes on after an error
-- and ends by a panic only, and `prepare` what it does before the loop.
pub record FileProvider (S : Type 0) : Type 0 where
  pub prepare : S → S
  pub iterate : S → Result (Unit {0}) × S
  pub refresh : S → Result (Unit {0}) × S
  pub file_name : Text

-- What a client of an HttpProvider relies on: deleting headers sets none.
pub record OnlyDeletes (delete : Header → Header) : Type 0 where
  pub kept_or_gone :
      (h : Header) (k : Text)
      → (get_header (delete h) k ≡ get_header h k) ⊎ (get_header (delete h) k ≡ [])
  pub absent : (h : Header) (k : Text) → IsAbsent k h → IsAbsent k (delete h)

pub OnlyDeletes-del_header :
    (name : Text) (delete : Header → Header)
    → OnlyDeletes delete
    → OnlyDeletes (λ h. del_header (delete h) name)
OnlyDeletes-del_header name delete only = record {
  kept_or_gone =
      λ h k. ground (arith, get_header-del_header (delete h) name k, only.kept_or_gone h k);
  absent = λ h k gone. lookup-del_absent (delete h) name k (only.absent h k gone);
}

pub OnlyDeletes-nothing : OnlyDeletes (λ h. h)
OnlyDeletes-nothing = record { kept_or_gone = λ h k. ground arith; absent = λ h k gone. gone }
