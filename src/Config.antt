-- ===== src/Config.antt =====
-- Reading a provider's configuration: required and optional keys with a type.
use hasura_secret_refresh.Base.{◌≡◌, Option, none, some, ◌&&◌, ◌⊎◌, arith, [], if◌then◌else◌, not}
use hasura_secret_refresh.Strings.{Text, codes, is_empty}
use hasura_secret_refresh.Assoc.{lookup}
use hasura_secret_refresh.Value.{Value, Object, ℤ, pos, as_str, as_int}
use hasura_secret_refresh.Result.{Error, new, Result, ok, err, ◌>>=◌, or_error}
use hasura_secret_refresh.Duration.{Duration, seconds}
use hasura_secret_refresh.Transform.{SecretTransform, has_transformations}

abbrev pub not_found : Error
not_found = new "required configs not found"

abbrev pub not_valid : Error
not_valid = new "config not valid"

-- The value of a key that must be there, and must be a string or an integer.
unfoldable pub required_str : Object → Text → Result Text
required_str config key = do
  v ← or_error (lookup key config) not_found
  or_error (as_str v) not_valid

-- The same, with the error of a missing key given.
unfoldable pub required_or : Error → Object → Text → Result Text
required_or missing config key = do
  v ← or_error (lookup key config) missing
  or_error (as_str v) not_valid

unfoldable pub required_int : Object → Text → Result ℤ
required_int config key = do
  v ← or_error (lookup key config) not_found
  or_error (as_int v) not_valid

optional_of : Option Value → Text → Result Text
optional_of none default = ok default
optional_of (some v) default = or_error (as_str v) not_valid

-- The value of a key that may be left out.
unfoldable pub optional_str : Object → Text → Text → Result Text
unfolding optional_of
optional_str config key default = optional_of (lookup key config) default

-- Only one of the template and the transformation may be configured.
unfoldable pub one_of_two : Text → SecretTransform → Result (Unit {0})
unfolding has_transformations
one_of_two template st =
    if not (is_empty template) && has_transformations st
    then err
        (new "config not valid: Only one of 'template' or 'transform' can be configured, not both")
    else ok tt

-- How long a cache of the proxy keeps a secret, if the configuration does not say: five minutes.
abbrev pub default_cache_ttl : Duration
default_cache_ttl = pos 300000000000

ttl_of : Error → Option Value → Result Duration
ttl_of wrong none = ok default_cache_ttl
ttl_of wrong (some v) = do n ← or_error (as_int v) wrong; ok (seconds n)

-- The value of `cache_ttl`, in seconds, with the error of a value that is no integer.
unfoldable pub cache_ttl : Error → Object → Result Duration
unfolding ttl_of
cache_ttl wrong config = ttl_of wrong (lookup (codes "cache_ttl") config)

pub one_of_two_sound :
    (template : Text) (st : SecretTransform)
    → one_of_two template st ≡ ok tt
    → (template ≡ []) ⊎ (st.mappings ≡ [])
unfolding one_of_two
one_of_two_sound template st e = ground arith
