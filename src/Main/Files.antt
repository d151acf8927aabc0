-- ===== src/Main/Files.antt =====
-- The file providers of a configuration: what an init container has done when it exits with 0, and
-- what the goroutines of a sidecar do to each other's files.
use hasura_secret_refresh.Base.{◌≡◌, ◌≢◌, List, [], ◌∷◌, All, ap, sym, ◌∙◌}
use hasura_secret_refresh.Strings.{Text}
use hasura_secret_refresh.Assoc.{lookup}
use hasura_secret_refresh.Provider.{FileProvider}
use hasura_secret_refresh.FileLoop.{World}
use hasura_secret_refresh.FileLoop.Writer.{IsWriter}
use hasura_secret_refresh.Main.Own.{
  Outside, IsOwn, HoldsSecret, IsOwn-IsWriter, refresh-HoldsSecret,
}
use hasura_secret_refresh.Main.{run_init}
use hasura_secret_refresh.Main.Laws.{AllRefresh, run_init-AllRefresh}

-- No two of the providers have one file.
abbrev pub AllDiffer : List (FileProvider World) → Type 0
AllDiffer [] = Unit
AllDiffer (p ∷ ps) = All (λ (q : FileProvider World). q.file_name ≢ p.file_name) ps × AllDiffer ps

AllRefresh-others :
    (ps : List (FileProvider World)) (w w' : World) (other : Text)
    → All IsWriter ps
    → All (λ (q : FileProvider World). q.file_name ≢ other) ps
    → AllRefresh ps w w'
    → lookup other w'.disk ≡ lookup other w.disk
AllRefresh-others [] w w' other _ _ e = ap (λ (u : World). lookup other u.disk) (sym e)
AllRefresh-others (p ∷ ps) w w' other (writer, writers) (differ, differs) (good, rest) =
    AllRefresh-others ps (p.refresh w).1 w' other writers differs rest
    ∙ writer.spares other w differ

module _ {C : Type 0} (out : Outside C) where
  pub All-IsWriter : (ps : List (FileProvider World)) → All (IsOwn out) ps → All IsWriter ps
  All-IsWriter [] h = tt
  All-IsWriter (p ∷ ps) (own, owns) = (IsOwn-IsWriter out own, All-IsWriter ps owns)

  -- The providers are refreshed one after another, from the world `w` on; in the world `v` each one's
  -- file holds the secret of its turn.
  abbrev pub AllHold : List (FileProvider World) → World → World → Type 0
  AllHold [] w v = Unit
  AllHold (p ∷ ps) w v = HoldsSecret out p w v × AllHold ps (p.refresh w).1 v

  AllRefresh-AllHold :
      (ps : List (FileProvider World)) (w w' : World)
      → All (IsOwn out) ps
      → AllDiffer ps
      → AllRefresh ps w w'
      → AllHold ps w w'
  AllRefresh-AllHold [] w w' _ _ _ = tt
  AllRefresh-AllHold (p ∷ ps) w w' (own, owns) (differs, all_differ) (good, rest) =
      let (secret, got, holds) =
        refresh-HoldsSecret out w (p.refresh w).1 own (λ i. (good i, (p.refresh w).1)) in
      (
        (
          secret,
          got,
          AllRefresh-others ps (p.refresh w).1 w' p.file_name (All-IsWriter ps owns) differs rest
              ∙ holds,
        ),
        AllRefresh-AllHold ps (p.refresh w).1 w' owns all_differ rest,
      )

  -- If the init container exits with 0, the file of every one of its providers then holds the secret
  -- that was there at the provider's turn, with mode 0644, also where other files were written after
  -- it, if no two providers have one file.
  pub run_init-AllHold :
      (ps : List (FileProvider World)) (w w' : World)
      → All (IsOwn out) ps
      → AllDiffer ps
      → run_init ps w ≡ (0, w')
      → AllHold ps w w'
  run_init-AllHold ps w w' owns differ e =
      AllRefresh-AllHold ps w w' owns differ (run_init-AllRefresh ps w w' e)
