-- ===== src/Result.antt =====
-- Go's error values and results `(v, err)`, with the run-time panics of the code that computes them
-- as a third case. An error carries its text as the program builds it.
use hasura_secret_refresh.Base.{ℕ, ◌≡◌, refl, Option, none, some, String, ◌++◌, ◌⊎◌, inl, inr}
use hasura_secret_refresh.Strings.{Text, codes, decimal}

-- `nil` is what `%w` prints when no error was given to it.
pub data Error : Type 0 where
  new : String → Error
  message : Text → Error
  indexed : String → ℕ → String → Error
  wrap : String → Error → Error
  within : Text → Error → Error
  nil : Error

-- err.Error()
unfoldable pub error_text : Error → Text
unfolding decimal
error_text (new s) = codes s
error_text (message t) = t
error_text (indexed s n t) = codes s ++ (decimal n ++ codes t)
error_text (wrap s e) = codes s ++ (codes ": " ++ error_text e)
error_text (within t e) = t ++ (codes ": " ++ error_text e)
error_text nil = codes "%!w(<nil>)"

pub data Result {ℓ} (A : Type ℓ) : Type ℓ where
  ok : A → Result A
  err : Error → Result A
  panic : String → Result A

infixl 5 ◌>>=◌ ◌>>◌
abbrev pub ◌>>=◌ {ℓ} : {A B : Type ℓ} → Result A → (A → Result B) → Result B
panic w >>= next = panic w
err e >>= next = err e
ok a >>= next = next a

abbrev pub ◌>>◌ : {B : Type 0} → Result (Unit {0}) → Result B → Result B
m >> later = m >>= λ u. later

abbrev pub or_error {ℓ} : {A : Type ℓ} → Option A → Error → Result A
or_error none e = err e
or_error (some a) e = ok a

-- An error with words in front.
abbrev pub wrap_error {ℓ} : {A : Type ℓ} → String → Result A → Result A
wrap_error what (ok a) = ok a
wrap_error what (err e) = err (wrap what e)
wrap_error what (panic w) = panic w

-- Inversion of a successful step.
pub >>=-eq-ok {ℓ} :
    {A B : Type ℓ} {b : B} (m : Result A) (next : A → Result B)
    → (m >>= next) ≡ ok b
    → (a : A) × (m ≡ ok a) × (next a ≡ ok b)
>>=-eq-ok (panic w) next e = cc
>>=-eq-ok (err x) next e = cc
>>=-eq-ok (ok a) next e = (a, refl, e)

pub Result-cases {ℓ} :
    {A : Type ℓ} (r : Result A)
    → ((a : A) × (r ≡ ok a)) ⊎ ((e : Error) × (r ≡ err e)) ⊎ ((w : String) × (r ≡ panic w))
Result-cases (ok a) = inl (a, refl)
Result-cases (err e) = inr (inl (e, refl))
Result-cases (panic w) = inr (inr (w, refl))

pub ok-injective {ℓ} : {A : Type ℓ} (a b : A) → ◌≡◌ {A = Result A} (ok a) (ok b) → a ≡ b
ok-injective a b e = cc
