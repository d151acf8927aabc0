-- ===== src/Vault/Login.antt =====
-- provider/hashicorp_vault/client.go: how reLogin waits between its attempts.
use hasura_secret_refresh.Base.{
  ℕ, zero, suc, ◌*◌, ◌^◌, ◌≡◌, refl, List, [], ◌∷◌, arith, ltb, if◌then◌else◌, length, map, Option,
  none, some, ◌++◌,
}
use Prim.Native.Nat.{min}
use native.Mathlib.Nat.{pow-suc}
use hasura_secret_refresh.Duration.{second}
use hasura_secret_refresh.Result.{Error, Result, ok, err, panic}

abbrev pub max_backoff : ℕ
max_backoff = 60 * second

unfoldable pub next_backoff : ℕ → ℕ
next_backoff backoff = if ltb max_backoff (backoff * 2) then max_backoff else backoff * 2

-- The loop of reLogin over the answers of its login attempts: the sleeps that it makes, and the
-- answer that ends it; none, if the list runs out where the loop would go on.
unfoldable pub re_login_from {ℓ} : {A : Type ℓ} → ℕ → List (Result A) → List ℕ × Option (Result A)
unfolding next_backoff
re_login_from backoff [] = ([], none)
re_login_from backoff (r ∷ rs) =
    let later = re_login_from (next_backoff backoff) rs in
    elim r [
      | ok a ↦ ([], some (ok a))
      | err e ↦ (backoff ∷ later.0, later.1)
      | panic w ↦ ([], some (panic w))
    ]

unfoldable pub re_login {ℓ} : {A : Type ℓ} → List (Result A) → List ℕ × Option (Result A)
unfolding re_login_from
re_login answers = re_login_from second answers

-- The n-th wait, counted from 0: 2^n seconds, or a minute where that is longer.
abbrev pub wait : ℕ → ℕ
wait n = min (2 ^ n * second) max_backoff

-- The waits from the k-th on before n attempts.
abbrev pub waits : ℕ → ℕ → List ℕ
waits k zero = []
waits k (suc n) = wait k ∷ waits (suc k) n

next_backoff-wait : (k : ℕ) → next_backoff (wait k) ≡ wait (suc k)
unfolding next_backoff
next_backoff-wait k = ground (arith, pow-suc 2 k)

re_login_from-waits {ℓ} :
    {A : Type ℓ} (k : ℕ) (es : List Error) (a : A) (rest : List (Result A))
    → re_login_from (wait k) (map err es ++ ok a ∷ rest) ≡ (waits k (length es), some (ok a))
unfolding re_login_from
re_login_from-waits k [] a rest = refl
re_login_from-waits k (e ∷ es) a rest =
    rw (next_backoff-wait k, re_login_from-waits (suc k) es a rest)

-- After any number of failed attempts reLogin returns the first answer that is no error. Before its
-- n-th new attempt, counted from 0, it has slept 2^n seconds, or a minute where that is longer.
pub re_login-waits {ℓ} :
    {A : Type ℓ} (es : List Error) (a : A) (rest : List (Result A))
    → re_login (map err es ++ ok a ∷ rest) ≡ (waits 0 (length es), some (ok a))
unfolding re_login
re_login-waits es a rest = re_login_from-waits 0 es a rest
