-- ===== src/Oauth/Jwt/Fingerprint.antt =====
-- The fingerprint spells the bytes of the digest.
use hasura_secret_refresh.Base.{
  ℕ, ◌+◌, ◌-◌, ◌*◌, ◌/◌, ◌%◌, ◌<◌, ◌≡◌, refl, List, [], ◌∷◌, arith, All, ltb, if◌then◌else◌,
}
use hasura_secret_refresh.Strings.{Text}
use hasura_secret_refresh.Oauth.Jwt.{hex_digit, hex_bytes}

-- The value of a digit in upper case.
abbrev pub digit_value : ℕ → ℕ
digit_value c = if ltb c b'A' then c - b'0' else 10 + (c - b'A')

-- The bytes that pairs of digits spell.
pub unhex : Text → List ℕ
unhex [] = []
unhex (h ∷ []) = []
unhex (h ∷ l ∷ s) = (16 * digit_value h + digit_value l) ∷ unhex s

digit_value-hex_digit : (d : ℕ) → d < 16 → digit_value (hex_digit d) ≡ d
unfolding hex_digit
digit_value-hex_digit d h = ground arith

-- Two digits a byte, from which every digest can be read back: two certificates have one
-- fingerprint only if their digests are equal.
pub unhex-hex_bytes : (bs : List ℕ) → All (λ b. b < 256) bs → unhex (hex_bytes bs) ≡ bs
unfolding hex_bytes unhex
unhex-hex_bytes [] h = refl
unhex-hex_bytes (b ∷ bs) (h, hs) =
    rw
      (
        digit_value-hex_digit (b / 16) (omega arith),
        digit_value-hex_digit (b % 16) (omega arith),
        unhex-hex_bytes bs hs,
      )
      (ground arith)
