-- ===== src/Main/Order.antt =====
-- parseConfig does not depend on the order in which its range loop visits the configuration.
use hasura_secret_refresh.Base.{
  ◌≡◌, refl, Bool, true, false, ◌||◌, Option, none, some, [], ◌∷◌, All, ap, sym, ◌∙◌, append_assoc,
  arith, if◌then◌else◌,
}
use mathlib.Core.Path.{subst₂}
use mathlib.Core.List.{Permᴰ}
use mathlib.Core.List.Permᴰ
use mathlib.Core.Option.{some-injective}
use hasura_secret_refresh.Strings.{Text, codes, str_eq}
use hasura_secret_refresh.Strings.Laws.{str_eq_iff}
use hasura_secret_refresh.Assoc.{lookup}
use hasura_secret_refresh.Value.{Value, Object, as_str}
use hasura_secret_refresh.Result.{ok, err, panic}
use hasura_secret_refresh.Provider.{HttpProvider}
use hasura_secret_refresh.Main.{
  Config, Makers, Made, proxy, file, unknown, Step, next, done, typed, make, add_made,
  set_deployment, add_provider, parse_entry, parse_entries, parse_config,
}
use hasura_secret_refresh.Main.Entries.{
  AllTyped, Adds, parse_entry-Adds, file_entry, file_entries, parse_config-file_entries,
}
use hasura_secret_refresh.Main.Distinct.{All-Permᴰ, DistinctKeys, last_of-Permᴰ}
use hasura_secret_refresh.Main.Names.{over, deployment_entry, proxy_entry, parse_config-IsNamed}

-- Two configurations that name the same providers of the proxy and the same deployment type, and
-- have the same file providers, each as often, in some order.
pub record SameConfig {S : Type 0} (c c' : Config S) : Type 0 where
  pub deployment_type : c.deployment_type ≡ c'.deployment_type
  pub providers : (name : Text) → lookup name c.providers ≡ lookup name c'.providers
  pub file_providers : Permᴰ c.file_providers c'.file_providers

module _ {S : Type 0} (mk : Makers S) where
  file_entries-Permᴰ :
      {raw other : Object} → Permᴰ raw other → Permᴰ (file_entries mk raw) (file_entries mk other)
  file_entries-Permᴰ Permᴰ.nil = Permᴰ.nil
  file_entries-Permᴰ (Permᴰ.cons {a} {b} e m) =
      rw e (Permᴰ.append_left (file_entry mk b) (file_entries-Permᴰ m))
  file_entries-Permᴰ (Permᴰ.swap {a} {b} {a' = c} {b' = d} {l} e f) =
      rw
        (
          e,
          f,
          ← append_assoc (file_entry mk d) (file_entry mk c) (file_entries mk l),
          ← append_assoc (file_entry mk c) (file_entry mk d) (file_entries mk l),
        )
        (Permᴰ.append_right (file_entries mk l)
          (Permᴰ.append_comm (file_entry mk d) (file_entry mk c)))
  file_entries-Permᴰ (Permᴰ.trans m n) = Permᴰ.trans (file_entries-Permᴰ m) (file_entries-Permᴰ n)

  abbrev goes_on : Step S → Bool
  goes_on (next c) = true
  goes_on (done r) = false

  add_made-goes_on :
      (type k : Text) (c d : Config S) (m : Made S)
      → goes_on (add_made type k c m) ≡ goes_on (add_made type k d m)
  unfolding add_made
  add_made-goes_on type k c d (proxy (ok p)) = refl
  add_made-goes_on type k c d (proxy (err e)) = refl
  add_made-goes_on type k c d (proxy (panic w)) = refl
  add_made-goes_on type k c d (file (ok p)) = refl
  add_made-goes_on type k c d (file (err e)) = refl
  add_made-goes_on type k c d (file (panic w)) = refl
  add_made-goes_on type k c d unknown = refl

  set_deployment-goes_on :
      (t : Option Text) (c d : Config S)
      → goes_on (set_deployment t c) ≡ goes_on (set_deployment t d)
  unfolding set_deployment
  set_deployment-goes_on none c d = refl
  set_deployment-goes_on (some t) c d = refl

  add_provider-goes_on :
      (k : Text) (t : Option (Text × Object)) (c d : Config S)
      → goes_on (add_provider mk k t c) ≡ goes_on (add_provider mk k t d)
  unfolding add_provider
  add_provider-goes_on k none c d = refl
  add_provider-goes_on k (some (type, fields)) c d =
      add_made-goes_on type k c d (make mk type fields)

  chosen-goes_on :
      (a b : Bool) (k : Text) (v : Value) (c d : Config S)
      → goes_on (
          if a
          then set_deployment (as_str v) c
          else if b
          then next c
          else add_provider mk k (typed v) c)
        ≡ goes_on (
            if a
            then set_deployment (as_str v) d
            else if b
            then next d
            else add_provider mk k (typed v) d)
  chosen-goes_on true b k v c d = set_deployment-goes_on (as_str v) c d
  chosen-goes_on false true k v c d = refl
  chosen-goes_on false false k v c d = add_provider-goes_on k (typed v) c d

  -- Whether the loop goes on behind an entry does not depend on what it has so far.
  parse_entry-goes_on :
      (k : Text) (v : Value) (c d : Config S)
      → goes_on (parse_entry mk k v c) ≡ goes_on (parse_entry mk k v d)
  unfolding parse_entry
  parse_entry-goes_on k v c d =
      chosen-goes_on (str_eq k (codes "type"))
        (str_eq k (codes "log_config") || str_eq k (codes "refresh_config")) k v c d

  abbrev AllGoOn : Object → Type 0
  AllGoOn = All (λ (e : Text × Value). (c : Config S) → goes_on (parse_entry mk e.0 e.1 c) ≡ true)

  after_step-ok :
      (rest : Object) (s : Step S)
      → ((d : Config S) → (c : Config S) × (parse_entries mk rest d ≡ ok c))
      → goes_on s ≡ true
      → (c : Config S) × ((elim s [ next d ↦ parse_entries mk rest d | done r ↦ r ]) ≡ ok c)
  after_step-ok rest (next d) later e = later d
  after_step-ok rest (done r) later e = cc

  AllGoOn-ok :
      (raw : Object) (c : Config S)
      → AllGoOn raw
      → (c' : Config S) × (parse_entries mk raw c ≡ ok c')
  unfolding parse_entries
  AllGoOn-ok [] c h = (c, refl)
  AllGoOn-ok ((k, v) ∷ rest) c (h, hs) =
      after_step-ok rest (parse_entry mk k v c) (λ d. AllGoOn-ok rest d hs) (h c)

  -- An accepted configuration in which every provider is an object with a type: no round ended the
  -- loop, and so none would, whatever the loop had before it.
  after_step-goes_on :
      (e : Text × Value) (rest : Object) (c c' : Config S) (s : Step S)
      → ((d : Config S) → parse_entries mk rest d ≡ ok c' → AllGoOn rest)
      → Adds mk (file_entry mk e) c s
      → (elim s [ next d ↦ parse_entries mk rest d | done r ↦ r ]) ≡ ok c'
      → (goes_on s ≡ true) × AllGoOn rest
  after_step-goes_on e rest c c' (next d) later adds q = (refl, later d q)
  after_step-goes_on e rest c c' (done (ok d)) later adds q = absurd adds
  after_step-goes_on e rest c c' (done (err x)) later adds q = absurd (ground (arith, q))
  after_step-goes_on e rest c c' (done (panic w)) later adds q = absurd (cc)

  parse_entries-AllGoOn :
      (raw : Object) (c c' : Config S) → AllTyped raw → parse_entries mk raw c ≡ ok c' → AllGoOn raw
  unfolding parse_entries
  parse_entries-AllGoOn [] c c' h e = tt
  parse_entries-AllGoOn ((k, v) ∷ rest) c c' (h, hs) e =
      let (on, later) =
        after_step-goes_on (k, v) rest c c' (parse_entry mk k v c)
          (λ d. parse_entries-AllGoOn rest d c' hs) (parse_entry-Adds mk k v c h) e in
      (λ d. parse_entry-goes_on k v d c ∙ on, later)

  proxy_entry-only :
      (name : Text) (e : Text × Value) (p : HttpProvider S)
      → proxy_entry mk name e ≡ some p
      → e.0 ≡ name
  proxy_entry-only name (k, v) p e = ground (arith, str_eq_iff k name)

  deployment_entry-only :
      (e : Text × Value) (t : Text) → deployment_entry e ≡ some t → e.0 ≡ codes "type"
  deployment_entry-only (k, v) t e = ground (arith, str_eq_iff k (codes "type"))

  -- Whether parseConfig accepts a configuration, and what it makes of it, does not depend on the
  -- order in which the range loop visits the entries, if each provider is an object with a type: in
  -- another order it is accepted too, with the same deployment type, the same provider of the proxy
  -- under each name, and the same file providers up to their order.
  pub parse_config-Permᴰ :
      (raw other : Object) (c : Config S)
      → Permᴰ raw other
      → DistinctKeys raw
      → AllTyped raw
      → parse_config mk raw ≡ ok c
      → (c' : Config S) × (parse_config mk other ≡ ok c') × SameConfig c c'
  unfolding parse_config
  parse_config-Permᴰ raw other c m distinct h e =
      let h' = All-Permᴰ _ m h in
      let (c', accepted) = AllGoOn-ok other _ (All-Permᴰ _ m (parse_entries-AllGoOn raw _ c h e)) in
      let (names, type) = parse_config-IsNamed mk raw c h e in
      let (names', type') = parse_config-IsNamed mk other c' h' accepted in
      (
        c',
        accepted,
        record {
          deployment_type = some-injective _ _ (
              type
              ∙ (ap (λ t. over t (some []))
                    (last_of-Permᴰ deployment_entry (codes "type") deployment_entry-only m distinct)
                  ∙ sym type'));
          providers = λ name.
              names name
              ∙ (last_of-Permᴰ (proxy_entry mk name) name (proxy_entry-only name) m distinct
                  ∙ sym (names' name));
          file_providers =
              subst₂ Permᴰ (sym (parse_config-file_entries mk raw c h e))
                (sym (parse_config-file_entries mk other c' h' accepted)) (file_entries-Permᴰ m);
        },
      )
