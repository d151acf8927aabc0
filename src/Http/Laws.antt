-- ===== src/Http/Laws.antt =====
-- What a header holds after it was written.
use hasura_secret_refresh.Base.{◌≡◌, if◌then◌else◌, [], arith, ◌≢◌, none}
use hasura_secret_refresh.Strings.{Text, str_eq}
use hasura_secret_refresh.Strings.Laws.{str_eq_iff, str_eq_refl}
use hasura_secret_refresh.Assoc.{lookup, lookup-insert, lookup-erase}
use hasura_secret_refresh.Http.{
  Header, canonical_key, first_value, get_header, set_header, del_header,
}

pub get_header-set_header :
    (h : Header) (k j v : Text)
    → get_header (set_header h k v) j
      ≡ (if str_eq (canonical_key k) (canonical_key j) then v else get_header h j)
unfolding get_header set_header first_value
get_header-set_header h k j v = rw lookup-insert (ground arith)

pub get_header-del_header :
    (h : Header) (k j : Text)
    → get_header (del_header h k) j
      ≡ (if str_eq (canonical_key k) (canonical_key j) then [] else get_header h j)
unfolding get_header del_header first_value
get_header-del_header h k j = rw lookup-erase (ground arith)

-- A header that is not there, under any value.
abbrev pub IsAbsent : Text → Header → Type 0
IsAbsent k h = lookup (canonical_key k) h ≡ none

pub lookup-del_self : (h : Header) (k : Text) → IsAbsent k (del_header h k)
unfolding del_header
lookup-del_self h k = rw (lookup-erase, str_eq_refl (canonical_key k))

pub lookup-del_absent : (h : Header) (k j : Text) → IsAbsent j h → IsAbsent j (del_header h k)
unfolding del_header
lookup-del_absent h k j gone = rw lookup-erase (ground arith)

pub lookup-set_absent :
    (h : Header) (k j v : Text)
    → canonical_key k ≢ canonical_key j
    → IsAbsent j h
    → IsAbsent j (set_header h k v)
unfolding set_header
lookup-set_absent h k j v differ gone =
    rw lookup-insert (ground (arith, str_eq_iff (canonical_key k) (canonical_key j)))
