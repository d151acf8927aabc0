-- ===== src/Main.antt =====
-- main.go: the providers that a configuration names, and what main starts with them.
pub mod Laws
pub mod Start
pub mod Logging
pub mod Files
pub mod Sidecar
pub mod Init
pub mod Providers
pub mod Entries
pub mod Names
pub mod Distinct
pub mod Order
pub mod Own
pub mod Assembly
use hasura_secret_refresh.Base.{
  ℕ, Bool, true, false, ◌||◌, Option, none, some, List, [], ◌∷◌, ◌++◌, if◌then◌else◌,
}
use hasura_secret_refresh.Strings.{Text, codes, str_eq}
use hasura_secret_refresh.Assoc.{Assoc, lookup, insert}
use hasura_secret_refresh.Value.{Value, Object, str, as_str, as_object}
use hasura_secret_refresh.Result.{Error, message, Result, ok, err, panic}
use hasura_secret_refresh.Provider.{HttpProvider, FileProvider}

-- DeploymentType: its two constants, and the empty text where no type is configured.
abbrev pub init_container : Text
init_container = codes "initcontainer"

abbrev pub sidecar : Text
sidecar = codes "sidecar"

-- What parseConfig returns next to its error.
pub record Config (S : Type 0) : Type 0 where
  pub providers : Assoc (HttpProvider S)
  pub file_providers : List (FileProvider S)
  pub deployment_type : Text

-- The functions that create a provider from its configuration, named as main.go names them.
pub record Makers (S : Type 0) : Type 0 where
  pub aws_secrets_manager : Object → Result (HttpProvider S)
  pub aws_sm_oauth : Object → Result (HttpProvider S)
  pub aws_sm_file : Object → Result (FileProvider S)
  pub aws_iam_auth_rds : Object → Result (FileProvider S)
  pub azure_key_vault : Object → Result (HttpProvider S)
  pub azure_key_vault_file : Object → Result (FileProvider S)
  pub hashicorp_vault : Object → Result (HttpProvider S)
  pub hashicorp_vault_file : Object → Result (FileProvider S)
  pub file_json_provider : Object → Result (FileProvider S)

-- A provider of one of the two kinds, as its creation returned it, or no such type.
pub data Made (S : Type 0) : Type 0 where
  proxy : Result (HttpProvider S) → Made S
  file : Result (FileProvider S) → Made S
  unknown : Made S

-- What one round of the loop of parseConfig does: it goes on, or parseConfig returns.
pub data Step (S : Type 0) : Type 0 where
  next : Config S → Step S
  done : Result (Config S) → Step S

abbrev unknown_type : Text → Text → Error
unknown_type type k = message (
    codes "Unknown provider type '"
    ++ (type ++ (codes "' specified for provider '" ++ (k ++ codes "'"))))

-- The fields of a provider: an object with a type that is a string.
unfoldable pub typed : Value → Option (Text × Object)
typed v = elim (as_object v) [
  | none ↦ none
  | some fields ↦ elim (lookup (codes "type") fields) [
    | none ↦ none
    | some t ↦ elim (as_str t) [ none ↦ none | some s ↦ some (s, fields) ]
  ]
]

module _ {S : Type 0} where
  -- The chain of comparisons with the provider's type.
  unfoldable pub make : Makers S → Text → Object → Made S
  make mk type data_ =
      if str_eq type (codes "proxy_aws_secrets_manager")
      then proxy (mk.aws_secrets_manager data_)
      else if str_eq type (codes "proxy_awssm_oauth")
      then proxy (mk.aws_sm_oauth data_)
      else if str_eq type (codes "file_aws_secrets_manager")
      then file (mk.aws_sm_file data_)
      else if str_eq type (codes "file_aws_iam_auth_rds")
      then file (mk.aws_iam_auth_rds data_)
      else if str_eq type (codes "proxy_azure_key_vault")
      then proxy (mk.azure_key_vault data_)
      else if str_eq type (codes "file_azure_key_vault")
      then file (mk.azure_key_vault_file data_)
      else if str_eq type (codes "proxy_hashicorp_vault")
      then proxy (mk.hashicorp_vault data_)
      else if str_eq type (codes "file_hashicorp_vault")
      then file (mk.hashicorp_vault_file data_)
      else if str_eq type (codes "file_json")
      then file (mk.file_json_provider data_)
      else unknown

  -- The provider goes into the map of the proxy's, or behind the file providers.
  unfoldable pub add_made : Text → Text → Config S → Made S → Step S
  add_made type k c (proxy (ok p)) = next (record c { providers = insert k p c.providers })
  add_made type k c (proxy (err e)) = done (err e)
  add_made type k c (proxy (panic w)) = done (panic w)
  add_made type k c (file (ok p)) = next (record c { file_providers = c.file_providers ++ p ∷ [] })
  add_made type k c (file (err e)) = done (err e)
  add_made type k c (file (panic w)) = done (panic w)
  add_made type k c unknown = done (err (unknown_type type k))

  unfoldable pub set_deployment : Option Text → Config S → Step S
  set_deployment none c = done (panic "interface conversion: interface {} is not string")
  set_deployment (some t) c =
      next
        (record c { deployment_type = if str_eq t init_container then init_container else sidecar })

  -- Where the fields are not such, parseConfig returns what it has so far, and no error.
  unfoldable pub add_provider : Makers S → Text → Option (Text × Object) → Config S → Step S
  unfolding add_made make
  add_provider mk k none c = done (ok c)
  add_provider mk k (some (type, fields)) c = add_made type k c (make mk type fields)

  unfoldable pub parse_entry : Makers S → Text → Value → Config S → Step S
  unfolding set_deployment typed add_provider
  parse_entry mk k v c =
      if str_eq k (codes "type")
      then set_deployment (as_str v) c
      else if str_eq k (codes "log_config") || str_eq k (codes "refresh_config")
      then next c
      else add_provider mk k (typed v) c

  -- The loop over the configuration, in the order of Go's `range`.
  unfoldable pub parse_entries : Makers S → Object → Config S → Result (Config S)
  parse_entries mk [] c = ok c
  parse_entries mk ((k, v) ∷ rest) c = elim (parse_entry mk k v c) [
    | next c' ↦ parse_entries mk rest c'
    | done r ↦ r
  ]

  -- parseConfig
  unfoldable pub parse_config : Makers S → Object → Result (Config S)
  unfolding parse_entries
  parse_config mk raw =
      parse_entries mk raw (record { providers = []; file_providers = []; deployment_type = [] })

  -- The init container: every file is refreshed once, in order, up to the first failure. The exit
  -- code; a panic ends a Go process with 2.
  unfoldable pub run_init : List (FileProvider S) → S → ℕ × S
  run_init [] s = (0, s)
  run_init (p ∷ ps) s =
      let later = run_init ps (p.refresh s).1 in
      elim (p.refresh s).0 [
        | ok u ↦ later
        | err e ↦ (1, (p.refresh s).1)
        | panic w ↦ (2, (p.refresh s).1)
      ]

  -- The map of the refresh endpoint, by file names.
  unfoldable pub refresh_configs :
      List (FileProvider S) → Assoc (FileProvider S) → Assoc (FileProvider S)
  refresh_configs [] m = m
  refresh_configs (p ∷ ps) m = refresh_configs ps (insert p.file_name p m)
