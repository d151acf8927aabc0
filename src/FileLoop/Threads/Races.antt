-- ===== src/FileLoop/Threads/Races.antt =====
-- What the mutex of a file provider does not order: it is held for the write only, and Start clears
-- its file without it.
use hasura_secret_refresh.Base.{◌≡◌, refl, true, false, some, List, [], ◌∷◌, ℕ, get_elem?, ◌++◌}
use hasura_secret_refresh.Strings.{Text}
use hasura_secret_refresh.Strings.Laws.{str_eq_refl}
use hasura_secret_refresh.Assoc.{lookup, lookup-insert}
use hasura_secret_refresh.Result.{ok}
use hasura_secret_refresh.Files.{Disk, written, put_file, chmod, secret_file_mode}
use hasura_secret_refresh.FileLoop.Threads.{
  start, refresh, Phase, clearing, fetching, returned, Moment, State, open_file, fill_file, move,
  step, run,
}

-- A moment at which every call works, and the secret store answers `secret`.
abbrev pub gives : Text → Moment
gives secret = record {
  os = record { write_fate = written; chmod_works = true; masked = λ mode. mode };
  answer = ok secret;
}

-- The goroutine of Start and one refresh.
abbrev pub pair : Phase → Disk → State
pair phase disk = record {
  threads = (start, phase) ∷ (refresh, fetching) ∷ [];
  shared = record { locked = false; disk = disk };
}

-- A goroutine takes the mutex, writes what it has got, and gives the mutex back.
abbrev writes : ℕ → Text → List (ℕ × Moment)
writes i secret =
    (i, gives secret)
    ∷ (i, gives secret)
    ∷ (i, gives secret)
    ∷ (i, gives secret)
    ∷ (i, gives secret)
    ∷ []

-- Start gets a secret, then the refresh gets one and writes it, and then Start writes.
abbrev pub overtaken : Text → Text → List (ℕ × Moment)
overtaken old new = (0, gives old) ∷ (1, gives new) ∷ (writes 1 new ++ writes 0 old)

-- The refresh gets a secret and writes it, and then Start begins by clearing the file.
abbrev pub cleared : Text → List (ℕ × Moment)
cleared new = (1, gives new) ∷ (writes 1 new ++ (0, gives new) ∷ (0, gives new) ∷ [])

-- The refresh has returned no error, no goroutine holds the mutex, and the file holds this.
abbrev pub ReturnedBut : Text → State → Text → Type 0
ReturnedBut path st contents =
    (get_elem? st.threads 1 ≡ some (refresh, returned (ok tt)))
    × (st.shared.locked ≡ false)
    × (lookup path st.shared.disk ≡ some (record { contents = contents; mode = secret_file_mode }))

-- What was put into the map is read back.
ruleset read_back = (lookup-insert, str_eq_refl)

module _ (path old new : Text) (disk : Disk) where
  -- A refresh that has returned no error can be undone: where a round of Start got its secret before
  -- the refresh got a newer one, it can write the older one last; and where Start has not cleared its
  -- file yet, it can clear what the refresh has written. Every call works, and the mutex is free.
  pub refresh_undone :
      ReturnedBut path (run path (overtaken old new) (pair fetching disk)) old
      × ReturnedBut path (run path (cleared new) (pair clearing disk)) []
  unfolding run step move open_file fill_file put_file chmod
  refresh_undone = ((simp read_back, refl, simp read_back), (simp read_back, refl, simp read_back))
