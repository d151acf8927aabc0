-- ===== src/FileLoop/Threads/Rank.antt =====
-- How far a goroutine of a file provider has to go, and what its next step leaves of that.
use hasura_secret_refresh.Base.{ℕ, suc, ◌≤◌, ◌≡◌, refl, false, arith, inl, inr, ◌⊎◌}
use hasura_secret_refresh.Strings.{Text}
use hasura_secret_refresh.Result.{Result}
use hasura_secret_refresh.FileLoop.Threads.{
  Method, refresh, Phase, clearing, clearing_mode, fetching, locking, opening, filling,
  setting_mode, unlocking, returned, Shared, Moment, answered, after_open, after_fill, after_clear,
  open_file, fill_file, move,
}
use hasura_secret_refresh.FileLoop.Threads.Mutex.{holds}

-- How many steps a refresh has before it at most, if it need not wait.
abbrev pub rank : Phase → ℕ
rank clearing = 8
rank clearing_mode = 7
rank fetching = 6
rank (locking secret) = 5
rank (opening secret) = 4
rank (filling secret) = 3
rank (setting_mode secret) = 2
rank (unlocking r) = 1
rank (returned r) = 0

pub rank-le : (phase : Phase) → rank phase ≤ 8
rank-le phase = ground arith

pub rank-returned :
    (phase : Phase) → rank phase ≤ 0 → (r : Result (Unit {0})) × (phase ≡ returned r)
rank-returned (returned r) h = (r, refl)
rank-returned phase h = absurd (omega (arith, h))

-- One that holds the mutex gives it back within four steps.
pub rank-holds : (phase : Phase) → holds phase ≡ 1 → (1 ≤ rank phase) × (rank phase ≤ 4)
rank-holds phase h = ground (arith, h)

pub holds-le : (phase : Phase) → holds phase ≤ 1
holds-le phase = ground arith

after_clear-rank : (r : Result (Unit {0})) → suc (rank (after_clear r)) ≤ 8
after_clear-rank r = ground arith

answered-rank : (r : Result Text) → suc (rank (answered refresh r)) ≤ 6
answered-rank r = ground arith

after_open-rank :
    (secret : Text) (r : Result (Unit {0}))
    → (suc (rank (after_open secret r)) ≤ 4) × (holds (after_open secret r) ≡ 1)
after_open-rank secret r = ground arith

after_fill-rank :
    (secret : Text) (r : Result (Unit {0}))
    → (suc (rank (after_fill secret r)) ≤ 3) × (holds (after_fill secret r) ≡ 1)
after_fill-rank secret r = ground arith

-- A goroutine that need not wait: the mutex is free, or it has it.
abbrev pub Goes : Phase → Shared → Type 0
Goes phase sh = (sh.locked ≡ false) ⊎ (holds phase ≡ 1)

module _ (path : Text) where
  -- A step of a refresh that need not wait.
  pub move-refresh :
      (m : Moment) (phase : Phase) (sh : Shared)
      → Goes phase sh
      → 1 ≤ rank phase
      → (suc (rank (move path m refresh phase sh).0) ≤ rank phase)
        × Goes (move path m refresh phase sh).0 (move path m refresh phase sh).1
  unfolding move
  move-refresh m clearing sh (inl free) h =
      (after_clear-rank (open_file m.os path sh.disk).0, inl free)
  move-refresh m clearing sh (inr held) h = absurd (omega arith)
  move-refresh m clearing_mode sh (inl free) h = (omega arith, inl free)
  move-refresh m clearing_mode sh (inr held) h = absurd (omega arith)
  move-refresh m fetching sh (inl free) h = (answered-rank m.answer, inl free)
  move-refresh m fetching sh (inr held) h = absurd (omega arith)
  move-refresh m (locking secret) sh (inl free) h = rw free (omega arith, inr refl)
  move-refresh m (locking secret) sh (inr held) h = absurd (omega arith)
  move-refresh m (opening secret) sh goes h =
      let (less, held) = after_open-rank secret (open_file m.os path sh.disk).0 in (less, inr held)
  move-refresh m (filling secret) sh goes h =
      let (less, held) = after_fill-rank secret (fill_file m.os path secret sh.disk).0 in
      (less, inr held)
  move-refresh m (setting_mode secret) sh goes h = (omega arith, inr refl)
  move-refresh m (unlocking r) sh goes h = (omega arith, inl refl)
  move-refresh m (returned r) sh goes h = absurd (omega (arith, h))

  -- A step of a goroutine that holds the mutex.
  pub move-holder :
      (m : Moment) (method : Method) (phase : Phase) (sh : Shared)
      → holds phase ≡ 1
      → ((move path m method phase sh).1.locked ≡ false)
        ⊎ ((suc (rank (move path m method phase sh).0) ≤ rank phase)
            × (holds (move path m method phase sh).0 ≡ 1))
  unfolding move
  move-holder m method clearing sh h = absurd (omega arith)
  move-holder m method clearing_mode sh h = absurd (omega arith)
  move-holder m method fetching sh h = absurd (omega arith)
  move-holder m method (locking secret) sh h = absurd (omega arith)
  move-holder m method (opening secret) sh h =
      inr (after_open-rank secret (open_file m.os path sh.disk).0)
  move-holder m method (filling secret) sh h =
      inr (after_fill-rank secret (fill_file m.os path secret sh.disk).0)
  move-holder m method (setting_mode secret) sh h = inr (omega arith, refl)
  move-holder m method (unlocking r) sh h = inl refl
  move-holder m method (returned r) sh h = absurd (omega arith)
