-- ===== src/FileLoop/Laws.antt =====
-- What refreshing leaves in a provider's file and in every other file.
use hasura_secret_refresh.Base.{ℕ, zero, suc, ◌≡◌, refl, ◌≢◌, some, arith, inl, inr, ◌∙◌, ap}
use hasura_secret_refresh.Strings.{Text}
use hasura_secret_refresh.Assoc.{lookup}
use hasura_secret_refresh.Result.{Error, Result, ok, err, Result-cases}
use hasura_secret_refresh.Files.{Os, secret_file_mode}
use hasura_secret_refresh.Files.Laws.{write_secret_file-ok, write_secret_file-others}
use hasura_secret_refresh.FileLoop.{World, write_file, write_if_ok, refresh, iterate, rounds}

module _ (os : ℕ → Os) (path : Text) where
  pub write_file-others :
      (secret other : Text) (w : World)
      → path ≢ other
      → lookup other (write_file os path secret w).1.disk ≡ lookup other w.disk
  unfolding write_file
  write_file-others secret other w differ =
      write_secret_file-others (os w.calls) path secret other w.disk differ

  write_file-ok :
      (secret : Text) (w w' : World)
      → write_file os path secret w ≡ (ok tt, w')
      → lookup path w'.disk ≡ some (record { contents = secret; mode = secret_file_mode })
  unfolding write_file
  write_file-ok secret w w' e =
      write_secret_file-ok (os w.calls) path secret w.disk w'.disk (λ i. ((e i).0, (e i).1.disk))

  module _ (get_secret : World → Result Text × World) where
    -- When Refresh returns no error, a secret was got, and the file holds exactly it, with mode 0644.
    pub refresh-ok :
        (w w' : World)
        → refresh os path get_secret w ≡ (ok tt, w')
        → (secret : Text) × ((get_secret w).0 ≡ ok secret)
          × (lookup path w'.disk ≡ some (record { contents = secret; mode = secret_file_mode }))
    unfolding refresh
    refresh-ok w w' e = elim (Result-cases (get_secret w).0) [
      | inl (secret, got) ↦
          (secret, got, write_file-ok secret (get_secret w).1 w' (rw (got, write_if_ok) at e))
      | inr (inl (x, failed)) ↦ ground (arith, failed)
      | inr (inr (x, failed)) ↦ ground (arith, failed)
    ]

    -- When no secret is got, Refresh returns that error and writes nothing.
    pub refresh-failed :
        (w : World) (x : Error)
        → (get_secret w).0 ≡ err x
        → refresh os path get_secret w ≡ (err x, (get_secret w).1)
    unfolding refresh
    refresh-failed w x e = ground (arith, e)

    -- A round of Start leaves the world that Refresh leaves.
    pub iterate-refresh :
        (w : World) → (iterate os path get_secret w).1 ≡ (refresh os path get_secret w).1
    unfolding iterate refresh
    iterate-refresh w = ground arith

    module _ (quiet : (w : World) → (get_secret w).1.disk ≡ w.disk) where
      pub refresh-others :
          (other : Text) (w : World)
          → path ≢ other
          → lookup other (refresh os path get_secret w).1.disk ≡ lookup other w.disk
      unfolding refresh
      refresh-others other w differ = elim (Result-cases (get_secret w).0) [
        | inl (secret, got) ↦
            rw (got, write_if_ok)
              (write_file-others secret other (get_secret w).1 differ
                ∙ ap (λ d. lookup other d) (quiet w))
        | inr (inl (x, failed)) ↦ rw (failed, write_if_ok) (ap (λ d. lookup other d) (quiet w))
        | inr (inr (x, failed)) ↦ rw (failed, write_if_ok) (ap (λ d. lookup other d) (quiet w))
      ]

      -- Start never changes another file, however many rounds it has run, if getting a secret writes
      -- nothing to the disk.
      pub rounds-others :
          (n : ℕ) (other : Text) (w : World)
          → path ≢ other
          → lookup other (rounds os path get_secret n w).1.disk ≡ lookup other w.disk
      unfolding rounds
      rounds-others zero other w differ = refl
      rounds-others (suc n) other w differ =
          let w' = (iterate os path get_secret w).1 in
          let step : lookup other w'.disk ≡ lookup other w.disk =
            rw (iterate-refresh w) (refresh-others other w differ) in
          elim (Result-cases (iterate os path get_secret w).0) [
            | inl (u, e) ↦ ground (arith, e, rounds-others n other w' differ)
            | inr (inl (x, e)) ↦ ground (arith, e, rounds-others n other w' differ)
            | inr (inr (x, e)) ↦ ground (arith, e)
          ]
