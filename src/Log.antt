-- ===== src/Log.antt =====
-- Events of the log, as far as zerolog is used: their level, their fields, and which are written.
use hasura_secret_refresh.Base.{Bool, true, false, List, [], ◌∷◌, if◌then◌else◌}
use hasura_secret_refresh.Strings.{Text}
use hasura_secret_refresh.Assoc.{Assoc}
use hasura_secret_refresh.Http.{Header, get_header}

-- zerolog's levels that a configuration can name.
pub data Level : Type 0 where
  debug_level : Level
  info_level : Level
  error_level : Level

-- An event with its fields and its dictionaries.
pub record Event : Type 0 where
  pub level : Level
  pub fields : Assoc Text
  pub dicts : Assoc (Assoc Text)
  pub msg : Text

-- Is an event of the second level written, if the first is the global level?
abbrev pub is_enabled : Level → Level → Bool
is_enabled debug_level level = true
is_enabled info_level debug_level = false
is_enabled info_level level = true
is_enabled error_level error_level = true
is_enabled error_level level = false

abbrev pub written : Level → List Event → List Event
written global [] = []
written global (e ∷ events) =
    let rest = written global events in if is_enabled global e.level then e ∷ rest else rest

-- The loop over a header map: under each name its first value.
unfoldable pub header_dict : Header → Header → Assoc Text
header_dict h [] = []
header_dict h ((k, values) ∷ rest) = (k, get_header h k) ∷ header_dict h rest
