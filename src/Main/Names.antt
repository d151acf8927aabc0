-- ===== src/Main/Names.antt =====
-- Which name of a configuration stands for which provider of the proxy, and the deployment type.
use hasura_secret_refresh.Base.{
  ◌≡◌, refl, ◌⊎◌, Bool, true, false, ◌||◌, Option, none, some, [], ◌∷◌, ap, sym, ◌∙◌, arith,
  if◌then◌else◌, inl, inr,
}
use hasura_secret_refresh.Strings.{Text, codes, str_eq}
use hasura_secret_refresh.Assoc.{lookup, lookup-insert}
use hasura_secret_refresh.Value.{Value, Object, as_str}
use hasura_secret_refresh.Result.{ok, err, panic, ok-injective}
use hasura_secret_refresh.Provider.{HttpProvider}
use hasura_secret_refresh.Main.{
  Config, Makers, Made, proxy, file, unknown, Step, next, done, init_container, sidecar, typed,
  make, add_made, set_deployment, add_provider, parse_entry, parse_entries, parse_config,
}
use hasura_secret_refresh.Main.Entries.{is_reserved, AllTyped}

-- The first of two that is there.
abbrev pub over {ℓ} : {A : Type ℓ} → Option A → Option A → Option A
over none o = o
over (some a) o = some a

pub over_assoc {ℓ} : {A : Type ℓ} (a b c : Option A) → over (over a b) c ≡ over a (over b c)
over_assoc none b c = refl
over_assoc (some a) b c = refl

pub over-none {ℓ} : {A : Type ℓ} (a : Option A) → over a none ≡ a
over-none none = refl
over-none (some a) = refl

-- What the last entry gives that gives anything.
abbrev pub last_of {ℓ} : {A : Type ℓ} → (Text × Value → Option A) → Object → Option A
last_of f [] = none
last_of f (e ∷ rest) = over (last_of f rest) (f e)

-- The deployment type that an entry sets.
abbrev deployment_named : Option Text → Option Text
deployment_named none = none
deployment_named (some t) = some (if str_eq t init_container then init_container else sidecar)

abbrev pub deployment_entry : Text × Value → Option Text
deployment_entry (k, v) = if str_eq k (codes "type") then deployment_named (as_str v) else none

module _ {S : Type 0} (mk : Makers S) where
  abbrev proxy_made : Made S → Option (HttpProvider S)
  proxy_made (proxy (ok p)) = some p
  proxy_made _ = none

  abbrev proxy_of_typed : Option (Text × Object) → Option (HttpProvider S)
  proxy_of_typed none = none
  proxy_of_typed (some (type, fields)) = proxy_made (make mk type fields)

  -- The provider of the proxy that an entry makes, if its name is `name`.
  abbrev pub proxy_entry : Text → Text × Value → Option (HttpProvider S)
  proxy_entry name (k, v) =
      if str_eq k name then (if is_reserved k then none else proxy_of_typed (typed v)) else none

  -- What a round of the loop does to `c`, if the entry of the key `k` makes `made` and sets the
  -- deployment type to `type`.
  abbrev Sets : Text → Option (HttpProvider S) → Option Text → Config S → Step S → Type 0
  Sets k made type c (next c') =
      ((name : Text)
        → lookup name c'.providers
          ≡ over (if str_eq k name then made else none) (lookup name c.providers))
      × (some c'.deployment_type ≡ over type (some c.deployment_type))
  Sets k made type c (done (ok c')) = ⊥
  Sets k made type c (done (err e)) = Unit
  Sets k made type c (done (panic w)) = Unit

  -- A round that leaves the map and the type alone.
  keeps :
      (k name : Text) (c : Config S)
      → lookup name c.providers
        ≡ over (if str_eq k name then none else none) (lookup name c.providers)
  keeps k name c = ground arith

  add_made-Sets :
      (type k : Text) (c : Config S) (m : Made S)
      → Sets k (proxy_made m) none c (add_made type k c m)
  unfolding add_made
  add_made-Sets type k c (proxy (ok p)) =
      (λ name. ground (arith, lookup-insert k name p c.providers), refl)
  add_made-Sets type k c (proxy (err e)) = tt
  add_made-Sets type k c (proxy (panic w)) = tt
  add_made-Sets type k c (file (ok p)) = (λ name. keeps k name c, refl)
  add_made-Sets type k c (file (err e)) = tt
  add_made-Sets type k c (file (panic w)) = tt
  add_made-Sets type k c unknown = tt

  set_deployment-Sets :
      (k : Text) (t : Option Text) (c : Config S)
      → Sets k none (deployment_named t) c (set_deployment t c)
  unfolding set_deployment
  set_deployment-Sets k none c = tt
  set_deployment-Sets k (some t) c = (λ name. keeps k name c, refl)

  -- One round, with the tests on the key given.
  chosen-Sets :
      (a b : Bool) (k : Text) (v : Value) (c : Config S)
      → (a || b ≡ true) ⊎ ((t : Text × Object) × (typed v ≡ some t))
      → Sets k
          (if a || b then none else proxy_of_typed (typed v))
          (if a then deployment_named (as_str v) else none)
          c
          (if a
            then set_deployment (as_str v) c
            else if b
            then next c
            else add_provider mk k (typed v) c)
  unfolding add_provider
  chosen-Sets true b k v c h = set_deployment-Sets k (as_str v) c
  chosen-Sets false true k v c h = (λ name. keeps k name c, refl)
  chosen-Sets false false k v c (inl e) = cc
  chosen-Sets false false k v c (inr ((type, fields), e)) =
      rw e (add_made-Sets type k c (make mk type fields))

  parse_entry-Sets :
      (k : Text) (v : Value) (c : Config S)
      → (is_reserved k ≡ true) ⊎ ((t : Text × Object) × (typed v ≡ some t))
      → Sets k
          (if is_reserved k then none else proxy_of_typed (typed v))
          (deployment_entry (k, v))
          c
          (parse_entry mk k v c)
  unfolding parse_entry
  parse_entry-Sets k v c h =
      chosen-Sets (str_eq k (codes "type"))
        (str_eq k (codes "log_config") || str_eq k (codes "refresh_config")) k v c h

  -- The map and the deployment type that the entries of a configuration make of those of `c`.
  pub record IsNamed (raw : Object) (c c' : Config S) : Type 0 where
    pub named :
        (name : Text)
        → lookup name c'.providers ≡ over (last_of (proxy_entry name) raw) (lookup name c.providers)
    pub deployed :
        some c'.deployment_type ≡ over (last_of deployment_entry raw) (some c.deployment_type)

  after_step-IsNamed :
      (k : Text) (v : Value) (rest : Object) (c c' : Config S) (s : Step S)
      → ((d : Config S) → parse_entries mk rest d ≡ ok c' → IsNamed rest d c')
      → Sets k
          (if is_reserved k then none else proxy_of_typed (typed v))
          (deployment_entry (k, v))
          c
          s
      → (elim s [ next d ↦ parse_entries mk rest d | done r ↦ r ]) ≡ ok c'
      → IsNamed ((k, v) ∷ rest) c c'
  after_step-IsNamed k v rest c c' (next d) later (names, type) e = record {
    named = λ name.
        (later d e).named name
        ∙ (ap (over (last_of (proxy_entry name) rest)) (names name)
            ∙ sym (over_assoc (last_of (proxy_entry name) rest) (proxy_entry name (k, v)) _));
    deployed =
        (later d e).deployed
        ∙ (ap (over (last_of deployment_entry rest)) type
            ∙ sym (over_assoc (last_of deployment_entry rest) (deployment_entry (k, v)) _));
  }
  after_step-IsNamed k v rest c c' (done (ok d)) later sets e = absurd sets
  after_step-IsNamed k v rest c c' (done (err x)) later sets e = absurd (ground (arith, e))
  after_step-IsNamed k v rest c c' (done (panic w)) later sets e = absurd (cc)

  parse_entries-IsNamed :
      (raw : Object) (c c' : Config S)
      → AllTyped raw
      → parse_entries mk raw c ≡ ok c'
      → IsNamed raw c c'
  unfolding parse_entries
  parse_entries-IsNamed [] c c' h e =
      let same : c ≡ c' = ok-injective c c' e in
      record {
        named = λ name. ap (λ (d : Config S). lookup name d.providers) (sym same);
        deployed = ap (λ (d : Config S). some d.deployment_type) (sym same);
      }
  parse_entries-IsNamed ((k, v) ∷ rest) c c' (h, hs) e =
      after_step-IsNamed k v rest c c' (parse_entry mk k v c)
        (λ d. parse_entries-IsNamed rest d c' hs) (parse_entry-Sets k v c h) e

  -- If parseConfig accepts a configuration in which every provider is an object with a type, each
  -- name stands in the map of the proxy for what the last entry of that name makes, if that is a
  -- provider of the proxy, and the last `type` entry is the deployment type.
  pub parse_config-IsNamed :
      (raw : Object) (c : Config S)
      → AllTyped raw
      → parse_config mk raw ≡ ok c
      → ((name : Text) → lookup name c.providers ≡ last_of (proxy_entry name) raw)
        × (some c.deployment_type ≡ over (last_of deployment_entry raw) (some []))
  unfolding parse_config lookup
  parse_config-IsNamed raw c h e =
      let n = parse_entries-IsNamed raw _ c h e in
      (λ name. n.named name ∙ over-none (last_of (proxy_entry name) raw), n.deployed)
