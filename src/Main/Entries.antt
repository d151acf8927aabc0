-- ===== src/Main/Entries.antt =====
-- Which entries of a configuration become file providers.
use hasura_secret_refresh.Base.{
  ◌≡◌, refl, ◌⊎◌, Bool, true, false, ◌||◌, Option, none, some, List, [], ◌∷◌, ◌++◌, All, ap, sym,
  ◌∙◌, append_assoc, append-nil, arith, if◌then◌else◌, inl, inr,
}
use hasura_secret_refresh.Strings.{Text, codes, str_eq}
use hasura_secret_refresh.Value.{Value, Object, as_str}
use hasura_secret_refresh.Result.{ok, err, panic, ok-injective}
use hasura_secret_refresh.Provider.{FileProvider}
use hasura_secret_refresh.Main.{
  Config, Makers, Made, proxy, file, unknown, Step, next, done, typed, make, add_made,
  set_deployment, add_provider, parse_entry, parse_entries, parse_config,
}

-- The keys that stand for no provider.
abbrev pub is_reserved : Text → Bool
is_reserved k =
    str_eq k (codes "type") || (str_eq k (codes "log_config") || str_eq k (codes "refresh_config"))

-- Every provider of a configuration is an object with a type that is a string.
abbrev pub AllTyped : Object → Type 0
AllTyped =
    All (λ (e : Text × Value).
      (is_reserved e.0 ≡ true) ⊎ ((t : Text × Object) × (typed e.1 ≡ some t)))

module _ {S : Type 0} (mk : Makers S) where
  -- The file provider that a creating function has returned.
  abbrev pub file_made : Made S → List (FileProvider S)
  file_made (file (ok p)) = p ∷ []
  file_made _ = []

  abbrev pub made_of : Option (Text × Object) → List (FileProvider S)
  made_of none = []
  made_of (some (type, fields)) = file_made (make mk type fields)

  -- The file provider that an entry makes, and those that the entries of a configuration make, in
  -- the order of the entries.
  abbrev pub file_entry : Text × Value → List (FileProvider S)
  file_entry (k, v) = if is_reserved k then [] else made_of (typed v)

  abbrev pub file_entries : Object → List (FileProvider S)
  file_entries [] = []
  file_entries (e ∷ rest) = file_entry e ++ file_entries rest

  -- What a round of the loop does to the file providers of `c`, if `made` is what the entry makes.
  abbrev pub Adds : List (FileProvider S) → Config S → Step S → Type 0
  Adds made c (next c') = c'.file_providers ≡ c.file_providers ++ made
  Adds made c (done (ok c')) = ⊥
  Adds made c (done (err e)) = Unit
  Adds made c (done (panic w)) = Unit

  add_made-Adds :
      (type k : Text) (c : Config S) (m : Made S) → Adds (file_made m) c (add_made type k c m)
  unfolding add_made
  add_made-Adds type k c (proxy (ok p)) = sym (append-nil c.file_providers)
  add_made-Adds type k c (proxy (err e)) = tt
  add_made-Adds type k c (proxy (panic w)) = tt
  add_made-Adds type k c (file (ok p)) = refl
  add_made-Adds type k c (file (err e)) = tt
  add_made-Adds type k c (file (panic w)) = tt
  add_made-Adds type k c unknown = tt

  set_deployment-Adds : (t : Option Text) (c : Config S) → Adds [] c (set_deployment t c)
  unfolding set_deployment
  set_deployment-Adds none c = tt
  set_deployment-Adds (some t) c = sym (append-nil c.file_providers)

  add_provider-Adds :
      (k type : Text) (fields : Object) (c : Config S)
      → Adds (file_made (make mk type fields)) c (add_provider mk k (some (type, fields)) c)
  unfolding add_provider
  add_provider-Adds k type fields c = add_made-Adds type k c (make mk type fields)

  -- One round, with the tests on the key given.
  chosen-Adds :
      (a b : Bool) (k : Text) (v : Value) (c : Config S)
      → (a || b ≡ true) ⊎ ((t : Text × Object) × (typed v ≡ some t))
      → Adds (if a || b then [] else made_of (typed v)) c (
          if a
          then set_deployment (as_str v) c
          else if b
          then next c
          else add_provider mk k (typed v) c)
  chosen-Adds true b k v c h = set_deployment-Adds (as_str v) c
  chosen-Adds false true k v c h = sym (append-nil c.file_providers)
  chosen-Adds false false k v c (inl e) = cc
  chosen-Adds false false k v c (inr ((type, fields), e)) = rw e (add_provider-Adds k type fields c)

  pub parse_entry-Adds :
      (k : Text) (v : Value) (c : Config S)
      → (is_reserved k ≡ true) ⊎ ((t : Text × Object) × (typed v ≡ some t))
      → Adds (file_entry (k, v)) c (parse_entry mk k v c)
  unfolding parse_entry
  parse_entry-Adds k v c h =
      chosen-Adds (str_eq k (codes "type"))
        (str_eq k (codes "log_config") || str_eq k (codes "refresh_config")) k v c h

  after_step-files :
      (made : List (FileProvider S)) (rest : Object) (c c' : Config S) (s : Step S)
      → ((d : Config S)
          → parse_entries mk rest d ≡ ok c'
          → c'.file_providers ≡ d.file_providers ++ file_entries rest)
      → Adds made c s
      → (elim s [ next d ↦ parse_entries mk rest d | done r ↦ r ]) ≡ ok c'
      → c'.file_providers ≡ c.file_providers ++ (made ++ file_entries rest)
  after_step-files made rest c c' (next d) later adds e =
      later d e
      ∙ (ap (λ (l : List (FileProvider S)). l ++ file_entries rest) adds
          ∙ append_assoc c.file_providers made (file_entries rest))
  after_step-files made rest c c' (done (ok d)) later adds e = absurd adds
  after_step-files made rest c c' (done (err x)) later adds e = ground (arith, e)
  after_step-files made rest c c' (done (panic w)) later adds e = cc

  parse_entries-files :
      (raw : Object) (c c' : Config S)
      → AllTyped raw
      → parse_entries mk raw c ≡ ok c'
      → c'.file_providers ≡ c.file_providers ++ file_entries raw
  unfolding parse_entries
  parse_entries-files [] c c' h e =
      ap (λ (d : Config S). d.file_providers) (sym (ok-injective c c' e))
      ∙ sym (append-nil c.file_providers)
  parse_entries-files ((k, v) ∷ rest) c c' (h, hs) e =
      after_step-files (file_entry (k, v)) rest c c' (parse_entry mk k v c)
        (λ d. parse_entries-files rest d c' hs) (parse_entry-Adds k v c h) e

  -- If parseConfig accepts a configuration in which every provider is an object with a type, its
  -- file providers are exactly those that the entries of the configuration make, each once, in the
  -- order in which the range loop visits the entries.
  pub parse_config-file_entries :
      (raw : Object) (c : Config S)
      → AllTyped raw
      → parse_config mk raw ≡ ok c
      → c.file_providers ≡ file_entries raw
  unfolding parse_config
  parse_config-file_entries raw c h e = parse_entries-files raw _ c h e
