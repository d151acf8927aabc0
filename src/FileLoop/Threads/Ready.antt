-- ===== src/FileLoop/Threads/Ready.antt =====
-- What a goroutine of a file provider relies on where it stands, and what its steps leave.
use hasura_secret_refresh.Base.{
  ◌≡◌, refl, true, false, some, arith, set, ap, Bool-cases, inl, inr, ◌⊎◌, ◌∙◌,
}
use hasura_secret_refresh.Strings.{Text}
use hasura_secret_refresh.Assoc.{lookup}
use hasura_secret_refresh.Result.{Result, ok, err, panic}
use hasura_secret_refresh.Files.{File, Disk, secret_file_mode}
use hasura_secret_refresh.FileLoop.Threads.{
  Method, start, refresh, Phase, clearing, clearing_mode, fetching, locking, opening, filling,
  setting_mode, unlocking, returned, Shared, Moment, answered, after_round, move,
}
use hasura_secret_refresh.FileLoop.Threads.Mutex.{holds}
use hasura_secret_refresh.FileLoop.Threads.Calls.{
  Works, open_file-works, fill_file-works, chmod-works,
}

-- `P` is what is known of every secret that the goroutines get.
module _ (path : Text) (P : Text → Type 0) where
  -- The file holds a secret, whole and with mode 0644.
  abbrev pub IsWritten : Disk → Type 0
  IsWritten disk =
      (secret : Text) × P secret
      × (lookup path disk ≡ some (record { contents = secret; mode = secret_file_mode }))

  -- What a goroutine relies on where it stands.
  abbrev pub Ready : Phase → Disk → Type 0
  Ready clearing disk = ⊥
  Ready clearing_mode disk = ⊥
  Ready fetching disk = Unit
  Ready (locking secret) disk = P secret
  Ready (opening secret) disk = P secret
  Ready (filling secret) disk = P secret × ((f : File) × (lookup path disk ≡ some f))
  Ready (setting_mode secret) disk =
      P secret × ((f : File) × (lookup path disk ≡ some f) × (f.contents ≡ secret))
  Ready (unlocking r) disk = IsWritten disk
  Ready (returned r) disk = Unit

  -- A moment at which calls of the operating system work, and a secret that is got is one of `P`.
  abbrev pub Grants : Moment → Type 0
  Grants m = Works m.os × ((secret : Text) → m.answer ≡ ok secret → P secret)

  answered-Ready :
      (method : Method) (r : Result Text) (disk : Disk)
      → ((secret : Text) → r ≡ ok secret → P secret)
      → Ready (answered method r) disk
  answered-Ready method (ok secret) disk h = h secret refl
  answered-Ready start (err e) disk h = tt
  answered-Ready refresh (err e) disk h = tt
  answered-Ready method (panic w) disk h = tt

  after_round-Ready :
      (method : Method) (r : Result (Unit {0})) (disk : Disk) → Ready (after_round method r) disk
  after_round-Ready start r disk = tt
  after_round-Ready refresh r disk = tt

  -- A step leads to where its goroutine can rely on what it needs there.
  pub move-Ready :
      (m : Moment) (method : Method) (phase : Phase) (sh : Shared)
      → Grants m
      → Ready phase sh.disk
      → Ready (move path m method phase sh).0 (move path m method phase sh).1.disk
  unfolding move
  move-Ready m method clearing sh g h = absurd h
  move-Ready m method clearing_mode sh g h = absurd h
  move-Ready m method fetching sh g h = answered-Ready method m.answer sh.disk g.1
  move-Ready m method (locking secret) (sh) g h = elim (Bool-cases sh.locked) [
    | inl taken ↦ rw taken h
    | inr free ↦ rw free h
  ]
  move-Ready m method (opening secret) sh g h =
      let (good, there) = open_file-works path m.os sh.disk g.0 in rw good (h, there)
  move-Ready m method (filling secret) sh g (h, (f, there)) =
      let (good, full) = fill_file-works path m.os sh.disk g.0 secret f there in
      rw good (h, (_, full, refl))
  move-Ready m method (setting_mode secret) sh g (h, (f, there, same)) =
      let (good, set) = chmod-works path m.os sh.disk g.0 f there in
      (secret, h, set ∙ ap (λ t. some (record { contents = t; mode = secret_file_mode })) same)
  move-Ready m method (unlocking r) sh g h = after_round-Ready method r sh.disk
  move-Ready m method (returned r) sh g h = tt

  -- Where a goroutine does not hold the mutex, it does not change the disk.
  pub move-disk :
      (m : Moment) (method : Method) (phase : Phase) (sh : Shared)
      → holds phase ≡ 0
      → Ready phase sh.disk
      → (move path m method phase sh).1.disk ≡ sh.disk
  unfolding move
  move-disk m method clearing sh free h = absurd h
  move-disk m method clearing_mode sh free h = absurd h
  move-disk m method fetching sh free h = refl
  move-disk m method (locking secret) sh free h = ground arith
  move-disk m method (opening secret) sh free h = absurd (omega arith)
  move-disk m method (filling secret) sh free h = absurd (omega arith)
  move-disk m method (setting_mode secret) sh free h = absurd (omega arith)
  move-disk m method (unlocking r) sh free h = absurd (omega arith)
  move-disk m method (returned r) sh free h = refl

  -- There it relies on nothing that the disk holds.
  pub Ready-elsewhere :
      (phase : Phase) (disk disk' : Disk) → holds phase ≡ 0 → Ready phase disk → Ready phase disk'
  Ready-elsewhere clearing disk disk' free h = h
  Ready-elsewhere clearing_mode disk disk' free h = h
  Ready-elsewhere fetching disk disk' free h = h
  Ready-elsewhere (locking secret) disk disk' free h = h
  Ready-elsewhere (opening secret) disk disk' free h = h
  Ready-elsewhere (filling secret) disk disk' free h = absurd (omega arith)
  Ready-elsewhere (setting_mode secret) disk disk' free h = absurd (omega arith)
  Ready-elsewhere (unlocking r) disk disk' free h = absurd (omega arith)
  Ready-elsewhere (returned r) disk disk' free h = h

  -- A step that frees the mutex leaves a whole file.
  pub move-unlocks :
      (m : Moment) (method : Method) (phase : Phase) (sh : Shared)
      → Ready phase sh.disk
      → sh.locked ≡ true
      → (move path m method phase sh).1.locked ≡ false
      → IsWritten (move path m method phase sh).1.disk
  unfolding move
  move-unlocks m method (unlocking r) sh h taken free = h
  move-unlocks m method (locking secret) sh h taken free = absurd (ground arith)
  move-unlocks m method phase sh h taken free = absurd (ground arith)

  -- A refresh has returned no error by this step only if the file is whole.
  move-returns :
      (m : Moment) (phase : Phase) (sh : Shared)
      → Ready phase sh.disk
      → (move path m refresh phase sh).0 ≡ returned (ok tt)
      → IsWritten (move path m refresh phase sh).1.disk
        ⊎ ((phase ≡ returned (ok tt)) × ((move path m refresh phase sh).1 ≡ sh))
  unfolding move
  move-returns m clearing sh h e = absurd h
  move-returns m clearing_mode sh h e = absurd h
  move-returns m fetching sh h e = absurd (ground arith)
  move-returns m (locking secret) sh h e = absurd (ground arith)
  move-returns m (opening secret) sh h e = absurd (ground arith)
  move-returns m (filling secret) sh h e = absurd (ground arith)
  move-returns m (setting_mode secret) sh h e = absurd (ground arith)
  move-returns m (unlocking r) sh h e = inl h
  move-returns m (returned r) sh h e = inr (e, refl)

  pub returns_of :
      (m : Moment) (method : Method) (phase : Phase) (sh : Shared)
      → Ready phase sh.disk
      → method ≡ refresh
      → (move path m method phase sh).0 ≡ returned (ok tt)
      → IsWritten (move path m method phase sh).1.disk
        ⊎ ((phase ≡ returned (ok tt)) × ((move path m method phase sh).1 ≡ sh))
  returns_of m start phase sh h same e = cc
  returns_of m refresh phase sh h same e = move-returns m phase sh h e
