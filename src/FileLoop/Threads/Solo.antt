-- ===== src/FileLoop/Threads/Solo.antt =====
-- A refresh that no other goroutine interrupts does what the sequential method does.
use hasura_secret_refresh.Base.{◌≡◌, refl, Bool, false, List, [], ◌∷◌, take, arith, ℕ}
use hasura_secret_refresh.Strings.{Text}
use hasura_secret_refresh.Strings.Laws.{str_eq_refl}
use hasura_secret_refresh.Assoc.{Assoc, lookup, insert, lookup-insert}
use hasura_secret_refresh.Result.{Result, ok, err, panic}
use hasura_secret_refresh.Files.{
  Disk, Os, WriteFate, written, not_opened, cut_short, put_file, write_file, write_secret_file,
  secret_file_mode,
}
use hasura_secret_refresh.FileLoop
use hasura_secret_refresh.FileLoop.{World, write_if_ok}
use hasura_secret_refresh.FileLoop.Threads.{
  refresh, fetching, returned, Moment, State, open_file, fill, fill_file, move, step, run,
}

insert-insert :
    {V : Type 0} (k : Text) (v w : V) (m : Assoc V) → insert k w (insert k v m) ≡ insert k w m
unfolding insert
insert-insert k v w [] = rw (str_eq_refl k) refl
insert-insert k v w ((j, u) ∷ m) = ground (arith, str_eq_refl k, insert-insert k v w m)

-- What is written into a file that was opened just before.
fill-put_file :
    (os : Os) (path text : Text) (disk : Disk)
    → fill path text
        (lookup path (put_file os path [] secret_file_mode disk))
        (put_file os path [] secret_file_mode disk)
      ≡ put_file os path text secret_file_mode disk
unfolding put_file
fill-put_file os path text disk = rw (lookup-insert, str_eq_refl path) (insert-insert path _ _ disk)

-- One goroutine alone, and the end of its run.
abbrev pub alone : Disk → State
alone disk = record {
  threads = (refresh, fetching) ∷ [];
  shared = record { locked = false; disk = disk };
}

abbrev pub ended : Result (Unit {0}) × World → State
ended (r, w) = record {
  threads = (refresh, returned r) ∷ [];
  shared = record { locked = false; disk = w.disk };
}

-- Its turns from getSecret to the end of writeFile, at a moment that lasts.
abbrev pub turns : Moment → List (ℕ × Moment)
turns m = (0, m) ∷ (0, m) ∷ (0, m) ∷ (0, m) ∷ (0, m) ∷ (0, m) ∷ []

module _ (path : Text) where
  abbrev pub sequential : Moment → World → Result (Unit {0}) × World
  sequential m = FileLoop.refresh (λ n. m.os) path (λ w. (m.answer, w))

  abbrev moment : WriteFate → Bool → (ℕ → ℕ) → Result Text → Moment
  moment f b k answer = record {
    os = record { write_fate = f; chmod_works = b; masked = k };
    answer = answer;
  }

  run-at :
      (f : WriteFate) (b : Bool) (k : ℕ → ℕ) (answer : Result Text) (w : World)
      → run path (turns (moment f b k answer)) (alone w.disk)
        ≡ ended (sequential (moment f b k answer) w)
  unfolding run step move FileLoop.refresh FileLoop.write_file write_secret_file write_file
      open_file fill_file
  run-at f b k (err x) w = refl
  run-at f b k (panic x) w = refl
  run-at not_opened b k (ok secret) w = refl
  run-at (cut_short n) b k (ok secret) w =
      rw (fill-put_file (moment (cut_short n) b k (ok secret)).os path (take n secret) w.disk) refl
  run-at written b k (ok secret) w =
      rw (fill-put_file (moment written b k (ok secret)).os path secret w.disk) refl

  -- A refresh whose steps are not interrupted does what the method does as a whole: on every branch
  -- it returns the same result, and leaves the same disk and a free mutex.
  pub run-refresh :
      (m : Moment) (w : World) → run path (turns m) (alone w.disk) ≡ ended (sequential m w)
  run-refresh m w = run-at m.os.write_fate m.os.chmod_works m.os.masked m.answer w
