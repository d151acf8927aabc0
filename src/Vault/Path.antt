-- ===== src/Vault/Path.antt =====
-- The path that is read from Vault.
use hasura_secret_refresh.Base.{◌≡◌, refl, false, [], ◌∷◌, ◌++◌, arith}
use hasura_secret_refresh.Strings.{Text, codes, has_prefix, trim_left}
use hasura_secret_refresh.Vault.{is_slash, build_kvv2_path}

-- Slashes in front of the mount and of the path make no difference.
pub build_kvv2_path-slashes :
    (mount path : Text) → build_kvv2_path (b'/' ∷ mount) (b'/' ∷ path) ≡ build_kvv2_path mount path
unfolding build_kvv2_path trim_left
build_kvv2_path-slashes mount path = refl

trim_left-slash :
    (path : Text) → has_prefix path (codes "/") ≡ false → trim_left is_slash path ≡ path
unfolding trim_left has_prefix
trim_left-slash [] h = refl
trim_left-slash (c ∷ s) h = ground arith

-- A path that has its data/ already is read as the path without it, if that has none and does not
-- begin with a slash.
pub build_kvv2_path-data :
    (mount path : Text)
    → has_prefix path (codes "data/") ≡ false
    → has_prefix path (codes "/") ≡ false
    → build_kvv2_path mount (codes "data/" ++ path) ≡ build_kvv2_path mount path
unfolding build_kvv2_path trim_left
build_kvv2_path-data mount path h k = rw (trim_left-slash path k, build_kvv2_path, h)
