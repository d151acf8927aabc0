-- ===== src/Http.antt =====
-- net/http and net/url as far as the program uses them: headers, URLs, requests and replies.
pub mod Laws
pub mod Canonical
use hasura_secret_refresh.Base.{
  ℕ, suc, ◌+◌, ◌-◌, Bool, true, false, ◌&&◌, ◌||◌, Option, none, some, List, [], ◌∷◌, ◌++◌, map,
  String, leb, ltb, ◌==◌, if◌then◌else◌,
}
use hasura_secret_refresh.Strings.{Text, codes, str_eq, has_prefix}
use hasura_secret_refresh.Assoc.{Assoc, lookup, insert, erase}

-- http.Header: the values under each canonical name.
abbrev pub Header : Type 0
Header = Assoc (List Text)

unfoldable pub is_upper : ℕ → Bool
is_upper c = leb b'A' c && leb c b'Z'

unfoldable pub is_lower : ℕ → Bool
is_lower c = leb b'a' c && leb c b'z'

unfoldable pub is_digit : ℕ → Bool
is_digit c = leb b'0' c && leb c b'9'

member : ℕ → Text → Bool
member c [] = false
member c (d ∷ s) = c == d || member c s

-- The characters of a token, of which a header name consists.
unfoldable pub is_token : ℕ → Bool
unfolding is_upper is_lower is_digit member
is_token c = is_upper c || is_lower c || is_digit c || member c (codes "!#$%&'*+-.^_`|~")

unfoldable pub all_token : Text → Bool
unfolding is_token
all_token [] = true
all_token (c ∷ s) = is_token c && all_token s

-- The first letter and each letter behind a dash in upper case, the others in lower case.
unfoldable pub canonical_case : Bool → ℕ → ℕ
unfolding is_upper is_lower
canonical_case true c = if is_lower c then c - 32 else c
canonical_case false c = if is_upper c then c + 32 else c

unfoldable pub canonical_from : Bool → Text → Text
unfolding canonical_case
canonical_from up [] = []
canonical_from up (c ∷ s) = canonical_case up c ∷ canonical_from (c == b'-') s

-- textproto.CanonicalMIMEHeaderKey
unfoldable pub canonical_key : Text → Text
unfolding all_token canonical_from
canonical_key s = if all_token s then canonical_from true s else s

-- h.Get(key), h.Set(key, value), h.Del(key)
unfoldable pub first_value : Option (List Text) → Text
first_value none = []
first_value (some []) = []
first_value (some (v ∷ vs)) = v

unfoldable pub get_header : Header → Text → Text
unfolding first_value
get_header h key = first_value (lookup (canonical_key key) h)

unfoldable pub set_header : Header → Text → Text → Header
set_header h key value = insert (canonical_key key) (value ∷ []) h

unfoldable pub del_header : Header → Text → Header
del_header h key = erase (canonical_key key) h

-- url.URL, without user, opaque part, raw path and fragment.
pub record Url : Type 0 where
  pub scheme : Text
  pub host : Text
  pub path : Text
  pub raw_query : Text

-- A request as the handlers and the reverse proxy's `Out` see it; `host` is Request.Host.
pub record Request : Type 0 where
  pub method : Text
  pub url : Url
  pub host : Text
  pub header : Header

pub record Reply : Type 0 where
  pub status : ℕ
  pub body : Text

abbrev pub status_bad_request : ℕ
status_bad_request = 400

abbrev pub status_internal_server_error : ℕ
status_internal_server_error = 500

ends_with_slash : Text → Bool
ends_with_slash [] = false
ends_with_slash (c ∷ []) = c == b'/'
ends_with_slash (c ∷ d ∷ s) = ends_with_slash (d ∷ s)

-- singleJoiningSlash of net/http/httputil.
tail_slash : Text → Text
tail_slash [] = []
tail_slash (c ∷ s) = s

unfoldable pub join_slash : Text → Text → Text
unfolding ends_with_slash tail_slash has_prefix
join_slash a b =
    if ends_with_slash a && has_prefix b (codes "/")
    then a ++ tail_slash b
    else if ends_with_slash a || has_prefix b (codes "/")
    then a ++ b
    else a ++ (codes "/" ++ b)

join_query : Text → Text → Text
join_query [] b = b
join_query (c ∷ a) [] = c ∷ a
join_query (c ∷ a) (d ∷ b) = (c ∷ a) ++ (codes "&" ++ d ∷ b)

-- ProxyRequest.SetURL: the target's scheme and host, its path in front, and no Host of its own.
unfoldable pub set_url : Url → Request → Request
unfolding join_slash join_query
set_url target out = record out {
  url = record {
    scheme = target.scheme;
    host = target.host;
    path = join_slash target.path out.url.path;
    raw_query = join_query target.raw_query out.url.raw_query;
  };
  host = [];
}
