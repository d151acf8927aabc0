-- ===== src/Main/Laws.antt =====
-- What main makes of a configuration.
use hasura_secret_refresh.Base.{
  ℕ, ◌≡◌, refl, ◌≢◌, ◌↔◌, none, some, List, [], ◌∷◌, ◌++◌, arith, inl, inr, All, ap,
}
use hasura_secret_refresh.Strings.{Text, codes}
use hasura_secret_refresh.Strings.Laws.{str_eq_iff, str_eq_refl}
use hasura_secret_refresh.Assoc.{Assoc, lookup, insert, lookup-insert}
use hasura_secret_refresh.Value.{Value, Object}
use hasura_secret_refresh.Result.{Result, ok, Result-cases}
use hasura_secret_refresh.Provider.{FileProvider}
use hasura_secret_refresh.Main.{
  Config, Makers, Step, next, done, typed, parse_entry, parse_entries, parse_config, run_init,
  refresh_configs, add_provider,
}

-- A key of the configuration that stands for a provider.
abbrev pub IsProviderKey : Text → Type 0
IsProviderKey k = (k ≢ codes "type") × (k ≢ codes "log_config") × (k ≢ codes "refresh_config")

-- Two loops that agree behind a round agree with it.
after_step :
    {S : Type 0} (f g : Config S → Result (Config S)) (r : Step S)
    → ((c : Config S) → f c ≡ g c)
    → (elim r [ next c ↦ f c | done q ↦ q ]) ≡ (elim r [ next c ↦ g c | done q ↦ q ])
after_step f g (next c) same = same c
after_step f g (done q) same = refl

module _ {S : Type 0} where
  parse_entry_malformed :
      (mk : Makers S) (k : Text) (v : Value) (c : Config S)
      → IsProviderKey k
      → typed v ≡ none
      → parse_entry mk k v c ≡ done (ok c)
  unfolding parse_entry add_provider
  parse_entry_malformed mk k v c (a, b, d) e = ground (
    arith,
    e,
    str_eq_iff k (codes "type"),
    str_eq_iff k (codes "log_config"),
    str_eq_iff k (codes "refresh_config"),
  )

  parse_entries_malformed :
      (mk : Makers S) (before : Object) (k : Text) (v : Value) (after : Object) (c : Config S)
      → IsProviderKey k
      → typed v ≡ none
      → parse_entries mk (before ++ (k, v) ∷ after) c ≡ parse_entries mk before c
  unfolding parse_entries
  parse_entries_malformed mk [] k v after c p e =
      ap (λ r. elim r [ next c' ↦ parse_entries mk after c' | done q ↦ q ])
        (parse_entry_malformed mk k v c p e)
  parse_entries_malformed mk ((j, u) ∷ before) k v after c p e =
      after_step (parse_entries mk (before ++ (k, v) ∷ after)) (parse_entries mk before)
        (parse_entry mk j u c) (λ c'. parse_entries_malformed mk before k v after c' p e)

  -- A provider whose entry is no object with a type that is a string makes parseConfig skip every
  -- entry behind it, with no error: the result is that of the entries before it.
  pub parse_config_malformed :
      (mk : Makers S) (before : Object) (k : Text) (v : Value) (after : Object)
      → IsProviderKey k
      → typed v ≡ none
      → parse_config mk (before ++ (k, v) ∷ after) ≡ parse_config mk before
  unfolding parse_config
  parse_config_malformed mk before k v after p e = parse_entries_malformed mk before k v after _ p e

  -- The refreshes of the providers, one after the other, all succeed and lead from one state to the
  -- other.
  abbrev pub AllRefresh : List (FileProvider S) → S → S → Type 0
  AllRefresh [] s s' = s ≡ s'
  AllRefresh (p ∷ ps) s s' = ((p.refresh s).0 ≡ ok tt) × AllRefresh ps (p.refresh s).1 s'

  -- The init container exits with 0 only if every file provider was refreshed, in order, and every
  -- refresh succeeded.
  pub run_init-AllRefresh :
      (ps : List (FileProvider S)) (s s' : S) → run_init ps s ≡ (0, s') → AllRefresh ps s s'
  unfolding run_init
  run_init-AllRefresh [] s s' e = ap (λ (r : ℕ × S). r.1) e
  run_init-AllRefresh (p ∷ ps) s s' e = elim (Result-cases (p.refresh s).0) [
    | inl (u, good) ↦ (good, run_init-AllRefresh ps (p.refresh s).1 s' (rw good at e))
    | inr (inl (x, failed)) ↦ ground (arith, failed)
    | inr (inr (w, failed)) ↦ ground (arith, failed)
  ]

  run_init-AllRefresh_back :
      (ps : List (FileProvider S)) (s s' : S) → AllRefresh ps s s' → run_init ps s ≡ (0, s')
  unfolding run_init
  run_init-AllRefresh_back [] s s' e = ap (λ (t : S). (0, t)) e
  run_init-AllRefresh_back (p ∷ ps) s s' (good, rest) =
      ground (arith, good, run_init-AllRefresh_back ps (p.refresh s).1 s' rest)

  -- The init container exits with 0 exactly if every file provider was refreshed, in order, and
  -- every refresh succeeded.
  pub run_init_iff :
      (ps : List (FileProvider S)) (s s' : S) → (run_init ps s ≡ (0, s')) ↔ AllRefresh ps s s'
  run_init_iff ps s s' = (run_init-AllRefresh ps s s', run_init-AllRefresh_back ps s s')

  lookup-refresh_configs :
      (name : Text) (ps : List (FileProvider S)) (m : Assoc (FileProvider S))
      → All (λ (q : FileProvider S). q.file_name ≢ name) ps
      → lookup name (refresh_configs ps m) ≡ lookup name m
  unfolding refresh_configs
  lookup-refresh_configs name [] m h = refl
  lookup-refresh_configs name (q ∷ ps) m (h, hs) =
      rw (lookup-refresh_configs name ps (insert q.file_name q m) hs, lookup-insert)
        (ground (arith, str_eq_iff q.file_name name))

  -- Of several providers with one file name the refresh endpoint knows the last only.
  pub lookup-refresh_configs_last :
      (before : List (FileProvider S)) (p : FileProvider S) (after : List (FileProvider S))
      (m : Assoc (FileProvider S))
      → All (λ (q : FileProvider S). q.file_name ≢ p.file_name) after
      → lookup p.file_name (refresh_configs (before ++ p ∷ after) m) ≡ some p
  unfolding refresh_configs
  lookup-refresh_configs_last [] p after m h = rw (
    lookup-refresh_configs p.file_name after (insert p.file_name p m) h,
    lookup-insert,
    str_eq_refl p.file_name,
  )
  lookup-refresh_configs_last (q ∷ before) p after m h =
      lookup-refresh_configs_last before p after (insert q.file_name q m) h
