-- ===== src/Vault.antt =====
-- provider/hashicorp_vault: reading the KV v2 engine (kv.go) and the file provider (file_provider.go).
pub mod Path
pub mod Http
pub mod Login
pub mod Auth
pub mod File
pub mod Client
pub mod Proxy
pub mod Lifecycle
use hasura_secret_refresh.Base.{
  ℕ, String, Bool, true, false, Option, none, some, List, [], ◌∷◌, ◌++◌, if◌then◌else◌, ◌==◌,
}
use hasura_secret_refresh.Strings.{Text, codes, str_eq, is_empty, trim_left, trim_right, has_prefix}
use hasura_secret_refresh.Assoc.{lookup}
use hasura_secret_refresh.Value.{
  Value, Object, ℤ, pos, negsuc, int, str, obj, of_entries, as_object, as_str,
}
use hasura_secret_refresh.Result.{Error, message, within, Result, ok, err, panic, ◌>>=◌, or_error}
use hasura_secret_refresh.Transform.{JsonCodec}

abbrev pub default_mount : Text
default_mount = codes "secret"

abbrev pub is_slash : ℕ → Bool
is_slash c = c == b'/'

-- The mount without its outer slashes, or the default one.
unfoldable pub mount_of : Text → Text
unfolding trim_left trim_right
mount_of mount =
    let trimmed = trim_right is_slash (trim_left is_slash mount) in
    if is_empty trimmed then default_mount else trimmed

-- buildKVv2Path
unfoldable pub build_kvv2_path : Text → Text → Text
unfolding mount_of has_prefix
build_kvv2_path mount path =
    let rest = trim_left is_slash path in
    if has_prefix rest (codes "data/")
    then mount_of mount ++ (codes "/" ++ rest)
    else mount_of mount ++ (codes "/data/" ++ rest)

-- json.Marshal, from the codec, with the text that its error is put in.
marshalled : JsonCodec → Text → Value → Result Text
marshalled codec what v = elim (codec.marshal v) [
  | ok t ↦ ok t
  | err e ↦ err (within (codes "hashicorp_vault: failed to marshal " ++ what) e)
  | panic w ↦ panic w
]

field_text : JsonCodec → Text → Value → Result Text
field_text codec field (str s) = ok s
field_text codec field v = marshalled codec (codes "field '" ++ (field ++ codes "'")) v

-- extractField
unfoldable pub extract_field : JsonCodec → Object → Text → Result Text
unfolding field_text marshalled
extract_field codec secret field =
    if is_empty field
    then marshalled codec (codes "secret data") (obj (of_entries secret))
    else or_error (lookup field secret)
        (message (codes "hashicorp_vault: field '" ++ (field ++ codes "' not found in secret")))
      >>= field_text codec field

-- What a read of Vault may return: the secret's data, or nil where there is no secret.
abbrev pub Response : Type 0
Response = Result (Option Object)

abbrev invalid : String → Text → Error
invalid what path =
    message (codes "hashicorp_vault: invalid KV v2 response payload: " ++ (codes what ++ path))

unfoldable pub data_of : Text → Option Object → Result Object
data_of path none = err (message (codes "hashicorp_vault: secret not found: " ++ path))
data_of path (some response) = do
  v ←
      or_error (lookup (codes "data") response)
        (invalid "missing 'data' key in response from " path)
  or_error (as_object v) (invalid "'data' is not an object in response from " path)

-- The version is sent only if it is neither empty nor 0.
version_asked : Text → Option Text
version_asked version =
    if is_empty version then none else if str_eq version (codes "0") then none else some version

unwrapped : Text → Response → Result Object
unwrapped path (err e) =
    err (within (codes "hashicorp_vault: failed to read '" ++ (path ++ codes "'")) e)
unwrapped path (panic w) = panic w
unwrapped path (ok response) = data_of path response

-- readKVv2. `read` is the client's read of a path, at a version if one is given; the context only
-- bounds its time.
module _ {S : Type 0} (read : Text → Option Text → S → Response × S) where
  unfoldable pub read_kvv2 : Text → Text → Text → S → Result Object × S
  unfolding build_kvv2_path unwrapped version_asked data_of
  read_kvv2 mount path version s =
      let full = build_kvv2_path mount path in
      let (r, s') = read full (version_asked version) s in (unwrapped full r, s')
