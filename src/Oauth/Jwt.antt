-- ===== src/Oauth/Jwt.antt =====
-- provider/aws_sm_oauth/jwt.go: the signed token that asks for an access token.
pub mod Claims
pub mod Fingerprint
use hasura_secret_refresh.Base.{
  ℕ, suc, ◌+◌, ◌-◌, ◌/◌, ◌%◌, Option, none, some, List, [], ◌∷◌, ◌++◌, ltb, if◌then◌else◌, String,
}
use hasura_secret_refresh.Strings.{Text, codes}
use hasura_secret_refresh.Assoc.{insert}
use hasura_secret_refresh.Value.{Value, Object, ℤ, pos, negsuc, int, str}
use hasura_secret_refresh.Result.{Error, new, wrap_error, Result, ok, err, panic, ◌>>=◌, or_error}
use hasura_secret_refresh.Duration.{Duration, second}

-- A point of time, as the nanoseconds since 1970: time.Time.Add and Unix, which rounds down.
unfoldable pub add_time : ℤ → Duration → ℤ
add_time (pos a) (pos b) = pos (a + b)
add_time (pos a) (negsuc b) = if ltb b a then pos (a - suc b) else negsuc (b - a)
add_time (negsuc a) (pos b) = if ltb a b then pos (b - suc a) else negsuc (a - b)
add_time (negsuc a) (negsuc b) = negsuc (suc (a + b))

unfoldable pub unix : ℤ → ℤ
unix (pos n) = pos (n / second)
unix (negsuc n) = negsuc (n / second)

-- The loop that copies the configured claims, in the order of Go's `range`.
unfoldable pub add_claims : Object → Object → Object
add_claims [] claims = claims
add_claims ((k, v) ∷ config) claims = add_claims config (insert k v claims)

-- The five claims that the program makes itself.
unfoldable pub own_claims : ℤ → ℤ → Text → Text → Object
own_claims expiry now client_id uuid = insert (codes "iat") (int now) (
    insert (codes "jti") (str uuid) (
      insert (codes "iss") (str client_id)
        (insert (codes "sub") (str client_id) (insert (codes "exp") (int expiry) []))))

-- makeClaims; `random` is uuid.NewRandom, as the text that a claim shows.
unfoldable pub make_claims : Result Text → Duration → ℤ → Text → Object → Result Object
unfolding add_claims own_claims add_time unix
make_claims random duration now client_id config = do
  uuid ← wrap_error "Unable to generate random UUID for 'jti' claim" random
  ok (add_claims config (own_claims (unix (add_time now duration)) (unix now) client_id uuid))

-- fmt's `%02X` of a byte.
unfoldable pub hex_digit : ℕ → ℕ
hex_digit d = if ltb d 10 then b'0' + d else b'A' + (d - 10)

unfoldable pub hex_bytes : List ℕ → Text
unfolding hex_digit
hex_bytes [] = []
hex_bytes (b ∷ bs) = hex_digit (b / 16) ∷ hex_digit (b % 16) ∷ hex_bytes bs

-- `pem_decode` is the Bytes of the first block that pem.Decode finds, `parse_certificate` the Raw
-- of x509.ParseCertificate, `sha1` is sha1.Sum.
module _ (pem_decode : Text → Option (List ℕ)) (parse_certificate : List ℕ → Option (List ℕ))
    (sha1 : List ℕ → List ℕ) where
  -- createFingerprint; its ToUpper finds no lower case letter.
  unfoldable pub create_fingerprint : Text → Result Text
  unfolding hex_bytes
  create_fingerprint ssl_cert = do
    block ← or_error (pem_decode ssl_cert) (new "unable to parse pem content for certificate")
    raw ← or_error (parse_certificate block) (new "unable to parse x509 certificate")
    ok (hex_bytes (sha1 raw))

  -- createJwtToken. `parse_key` reads a private key of type `K`, `signed` is the token of a key, a
  -- key id and claims, both of the JWT library.
  unfoldable pub create_jwt :
      {K : Type 0}
      → (Text → Result K)
      → (K → Text → Object → Result Text)
      → Result Text
      → Text
      → Object
      → Duration
      → ℤ
      → Text
      → Text
      → Result Text
  unfolding make_claims create_fingerprint
  create_jwt parse_key signed random key_pem config duration now client_id ssl_cert = do
    key ← wrap_error "Error parsing rsa private key" (parse_key key_pem)
    claims ←
        wrap_error "Failed to create claims for JWT"
          (make_claims random duration now client_id config)
    kid ← wrap_error "Failed to create fingerprint for JWT" (create_fingerprint ssl_cert)
    signed key kid claims
