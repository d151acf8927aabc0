-- ===== src/Main/Providers.antt =====
-- What the functions that create file providers promise holds of every file provider that
-- parseConfig returns.
use hasura_secret_refresh.Base.{◌≡◌, ◌||◌, Option, none, some, [], ◌∷◌, All, All-append, if-either}
use hasura_secret_refresh.Strings.{Text, codes, str_eq}
use hasura_secret_refresh.Value.{Value, Object, as_str}
use hasura_secret_refresh.Result.{Result, ok, err, panic}
use hasura_secret_refresh.Provider.{FileProvider}
use hasura_secret_refresh.Main.{
  Config, Makers, Made, proxy, file, unknown, Step, next, done, typed, make, add_made,
  set_deployment, add_provider, parse_entry, parse_entries, parse_config,
}

module _ {S : Type 0} (P : FileProvider S → Type 0) where
  -- A property of what was returned, if no error was.
  abbrev pub IfOk : Result (FileProvider S) → Type 0
  IfOk (ok p) = P p
  IfOk (err e) = Unit
  IfOk (panic w) = Unit

  -- The promise of the five functions that create file providers.
  pub record AllMake (mk : Makers S) : Type 0 where
    pub aws_sm_file : (config : Object) → IfOk (mk.aws_sm_file config)
    pub aws_iam_auth_rds : (config : Object) → IfOk (mk.aws_iam_auth_rds config)
    pub azure_key_vault_file : (config : Object) → IfOk (mk.azure_key_vault_file config)
    pub hashicorp_vault_file : (config : Object) → IfOk (mk.hashicorp_vault_file config)
    pub file_json_provider : (config : Object) → IfOk (mk.file_json_provider config)

  abbrev MadeHolds : Made S → Type 0
  MadeHolds (proxy r) = Unit
  MadeHolds (file r) = IfOk r
  MadeHolds unknown = Unit

  abbrev ConfigHolds : Result (Config S) → Type 0
  ConfigHolds (ok c) = All P c.file_providers
  ConfigHolds (err e) = Unit
  ConfigHolds (panic w) = Unit

  abbrev StepHolds : Step S → Type 0
  StepHolds (next c) = All P c.file_providers
  StepHolds (done r) = ConfigHolds r

  module _ (mk : Makers S) (good : AllMake mk) where
    make-MadeHolds : (type : Text) (data_ : Object) → MadeHolds (make mk type data_)
    unfolding make
    make-MadeHolds type data_ =
        if-either MadeHolds (str_eq type (codes "proxy_aws_secrets_manager")) tt (
          if-either MadeHolds (str_eq type (codes "proxy_awssm_oauth")) tt (
            if-either MadeHolds (str_eq type (codes "file_aws_secrets_manager"))
              (good.aws_sm_file data_)
              (if-either MadeHolds (str_eq type (codes "file_aws_iam_auth_rds"))
                (good.aws_iam_auth_rds data_)
                (if-either MadeHolds (str_eq type (codes "proxy_azure_key_vault")) tt (
                  if-either MadeHolds (str_eq type (codes "file_azure_key_vault"))
                    (good.azure_key_vault_file data_)
                    (if-either MadeHolds (str_eq type (codes "proxy_hashicorp_vault")) tt (
                      if-either MadeHolds (str_eq type (codes "file_hashicorp_vault"))
                        (good.hashicorp_vault_file data_)
                        (if-either MadeHolds (str_eq type (codes "file_json"))
                          (good.file_json_provider data_) tt))))))))

    add_made-StepHolds :
        (type k : Text) (c : Config S) (m : Made S)
        → All P c.file_providers
        → MadeHolds m
        → StepHolds (add_made type k c m)
    unfolding add_made
    add_made-StepHolds type k c (proxy (ok p)) h m = h
    add_made-StepHolds type k c (proxy (err e)) h m = tt
    add_made-StepHolds type k c (proxy (panic w)) h m = tt
    add_made-StepHolds type k c (file (ok p)) h m = All-append P c.file_providers (p ∷ []) h (m, tt)
    add_made-StepHolds type k c (file (err e)) h m = tt
    add_made-StepHolds type k c (file (panic w)) h m = tt
    add_made-StepHolds type k c unknown h m = tt

    set_deployment-StepHolds :
        (t : Option Text) (c : Config S) → All P c.file_providers → StepHolds (set_deployment t c)
    unfolding set_deployment
    set_deployment-StepHolds none c h = tt
    set_deployment-StepHolds (some t) c h = h

    add_provider-StepHolds :
        (k : Text) (t : Option (Text × Object)) (c : Config S)
        → All P c.file_providers
        → StepHolds (add_provider mk k t c)
    unfolding add_provider
    add_provider-StepHolds k none c h = h
    add_provider-StepHolds k (some (type, fields)) c h =
        add_made-StepHolds type k c _ h (make-MadeHolds type fields)

    parse_entry-StepHolds :
        (k : Text) (v : Value) (c : Config S)
        → All P c.file_providers
        → StepHolds (parse_entry mk k v c)
    unfolding parse_entry
    parse_entry-StepHolds k v c h =
        if-either StepHolds (str_eq k (codes "type")) (set_deployment-StepHolds (as_str v) c h) (
          if-either StepHolds (str_eq k (codes "log_config") || str_eq k (codes "refresh_config")) h
            (add_provider-StepHolds k (typed v) c h))

    after_step-ConfigHolds :
        (rest : Object) (s : Step S)
        → ((c : Config S) → All P c.file_providers → ConfigHolds (parse_entries mk rest c))
        → StepHolds s
        → ConfigHolds (elim s [ next c ↦ parse_entries mk rest c | done r ↦ r ])
    after_step-ConfigHolds rest (next c) later h = later c h
    after_step-ConfigHolds rest (done r) later h = h

    parse_entries-ConfigHolds :
        (raw : Object) (c : Config S)
        → All P c.file_providers
        → ConfigHolds (parse_entries mk raw c)
    unfolding parse_entries
    parse_entries-ConfigHolds [] c h = h
    parse_entries-ConfigHolds ((k, v) ∷ rest) c h =
        after_step-ConfigHolds rest (parse_entry mk k v c) (parse_entries-ConfigHolds rest)
          (parse_entry-StepHolds k v c h)

    -- Every file provider of a configuration that is accepted has what its creation promises.
    pub parse_config-All :
        (raw : Object) (c : Config S) → parse_config mk raw ≡ ok c → All P c.file_providers
    unfolding parse_config
    parse_config-All raw c e =
        let held : ConfigHolds (parse_config mk raw) = parse_entries-ConfigHolds raw _ tt in
        rw e at held
