-- ===== src/Duration.antt =====
-- time.Duration: a signed 64-bit number of nanoseconds.
use hasura_secret_refresh.Base.{
  ℕ, zero, suc, ◌/◌, Bool, false, ◌-◌, ◌*◌, ◌%◌, ◌^◌, ◌<◌, ◌≡◌, ltb, if◌then◌else◌, arith,
}
use hasura_secret_refresh.Value.{ℤ, pos, negsuc}

abbrev pub Duration : Type 0
Duration = ℤ

abbrev pub second : ℕ
second = 1000000000

-- The 64-bit pattern of an integer, and the integer of a pattern.
to_word : ℤ → ℕ
to_word (pos n) = n % 2 ^ 64
to_word (negsuc n) = (2 ^ 64 - suc n % 2 ^ 64) % 2 ^ 64

of_word : ℕ → ℤ
of_word m = if ltb m (2 ^ 63) then pos m else negsuc (2 ^ 64 - m - 1)

-- time.Duration(n) * time.Second
unfoldable pub seconds : ℤ → Duration
unfolding to_word of_word
seconds n = of_word (to_word n * second % 2 ^ 64)

-- A number of seconds below 292 years and not negative is multiplied exactly.
pub seconds-exact : (n : ℕ) → n < 9223372037 → seconds (pos n) ≡ pos (n * second)
unfolding seconds
seconds-exact n h = ground arith

-- d * n, for a small constant n.
unfoldable pub times : Duration → ℕ → Duration
unfolding to_word of_word
times d n = of_word (to_word d * n % 2 ^ 64)

minus : ℕ → ℤ
minus zero = pos 0
minus (suc n) = negsuc n

-- d / k, which rounds towards 0.
unfoldable pub over : Duration → ℕ → Duration
unfolding minus
over (pos n) k = pos (n / k)
over (negsuc n) k = minus (suc n / k)

-- d > 0
unfoldable pub is_positive : Duration → Bool
is_positive (pos n) = ltb 0 n
is_positive (negsuc n) = false

-- A product that fits is exact.
pub times_four : (d : ℕ) → d * 4 < 2 ^ 63 → times (pos d) 4 ≡ pos (d * 4)
unfolding times
times_four d h = ground arith
