-- ===== src/FileLoop/Threads.antt =====
-- The methods Start, Refresh and writeFile of one file provider, run by several goroutines: Start by
-- one of them, Refresh by one for each request to the refresh endpoint. Each step between two calls
-- of the operating system, of the secret store or of the mutex is a step of its own.
pub mod Mutex
pub mod Calls
pub mod Ready
pub mod Written
pub mod Races
pub mod Solo
pub mod Rank
pub mod Progress
use hasura_secret_refresh.Base.{
  ℕ, Bool, true, false, Option, none, some, List, [], ◌∷◌, if◌then◌else◌, get_elem?, set, take,
}
use hasura_secret_refresh.Strings.{Text}
use hasura_secret_refresh.Result.{new, Result, ok, err, panic}
use hasura_secret_refresh.Assoc.{lookup, insert}
use hasura_secret_refresh.Files.{
  File, Disk, Os, written, not_opened, cut_short, put_file, chmod, secret_file_mode,
}

pub data Method : Type 0 where
  start : Method
  refresh : Method

-- Where a goroutine stands. From `opening` up to `unlocking` it holds the mutex.
pub data Phase : Type 0 where
  clearing : Phase
  clearing_mode : Phase
  fetching : Phase
  locking : Text → Phase
  opening : Text → Phase
  filling : Text → Phase
  setting_mode : Text → Phase
  unlocking : Result (Unit {0}) → Phase
  returned : Result (Unit {0}) → Phase

-- What the goroutines share: the mutex of the provider and the disk.
pub record Shared : Type 0 where
  pub locked : Bool
  pub disk : Disk

-- What the world outside does at a step, as far as the step asks: the fate of a write and of a
-- chmod, and what the first half of the method, getSecret, comes to.
pub record Moment : Type 0 where
  pub os : Os
  pub answer : Result Text

-- Start goes on with the next round after its sleep; Refresh returns.
abbrev pub after_round : Method → Result (Unit {0}) → Phase
after_round start r = fetching
after_round refresh r = returned r

-- The end of writeFile in either method.
abbrev pub answered : Method → Result Text → Phase
answered method (ok secret) = locking secret
answered method (err e) = after_round method (err e)
answered method (panic w) = returned (panic w)

-- WriteSecretFile sets the mode if the contents are written.
abbrev pub after_open : Text → Result (Unit {0}) → Phase
after_open secret (ok u) = filling secret
after_open secret (err e) = unlocking (err e)
after_open secret (panic w) = unlocking (panic w)

abbrev pub after_fill : Text → Result (Unit {0}) → Phase
after_fill secret (ok u) = setting_mode secret
after_fill secret (err e) = unlocking (err e)
after_fill secret (panic w) = unlocking (panic w)

-- Before its loop Start writes an empty file, without the mutex, and goes on if that fails. There is
-- nothing to write into the file that was opened.
abbrev pub after_clear : Result (Unit {0}) → Phase
after_clear (ok u) = clearing_mode
after_clear (err e) = fetching
after_clear (panic w) = fetching

-- The first half of os.WriteFile: the file is opened, and truncated or created.
unfoldable pub open_file : Os → Text → Disk → Result (Unit {0}) × Disk
open_file os path disk = elim os.write_fate [
  | not_opened ↦ (err (new "open failed"), disk)
  | fate ↦ (ok tt, put_file os path [] secret_file_mode disk)
]

-- What goes into an open file. One that was removed meanwhile keeps no name.
abbrev pub fill : Text → Text → Option File → Disk → Disk
fill path contents none disk = disk
fill path contents (some f) disk = insert path (record f { contents = contents }) disk

-- The second half: the contents are written.
unfoldable pub fill_file : Os → Text → Text → Disk → Result (Unit {0}) × Disk
fill_file os path contents disk = elim os.write_fate [
  | cut_short n ↦ (err (new "write failed"), fill path (take n contents) (lookup path disk) disk)
  | fate ↦ (ok tt, fill path contents (lookup path disk) disk)
]

-- The goroutines with their methods, and what they share.
pub record State : Type 0 where
  pub threads : List (Method × Phase)
  pub shared : Shared

module _ (path : Text) where
  -- A step of a goroutine. One that wants the mutex waits while another holds it.
  unfoldable pub move : Moment → Method → Phase → Shared → Phase × Shared
  move m method clearing sh =
      let (r, disk) = open_file m.os path sh.disk in (after_clear r, record sh { disk = disk })
  move m method clearing_mode sh =
      (fetching, record sh { disk = (chmod m.os path secret_file_mode sh.disk).1 })
  move m method fetching sh = (answered method m.answer, sh)
  move m method (locking secret) sh =
      if sh.locked then (locking secret, sh) else (opening secret, record sh { locked = true })
  move m method (opening secret) sh =
      let (r, disk) = open_file m.os path sh.disk in
      (after_open secret r, record sh { disk = disk })
  move m method (filling secret) sh =
      let (r, disk) = fill_file m.os path secret sh.disk in
      (after_fill secret r, record sh { disk = disk })
  move m method (setting_mode secret) sh =
      let (r, disk) = chmod m.os path secret_file_mode sh.disk in
      (unlocking r, record sh { disk = disk })
  move m method (unlocking r) sh = (after_round method r, record sh { locked = false })
  move m method (returned r) sh = (returned r, sh)

  -- The scheduler lets a goroutine go on.
  abbrev pub moved : Moment → ℕ → State → Option (Method × Phase) → State
  moved m i st none = st
  moved m i st (some (method, phase)) =
      let (phase', shared') = move m method phase st.shared in
      record { threads = set st.threads i (method, phase'); shared = shared' }

  unfoldable pub step : Moment → ℕ → State → State
  unfolding move
  step m i st = moved m i st (get_elem? st.threads i)

  unfoldable pub run : List (ℕ × Moment) → State → State
  run [] st = st
  run ((i, m) ∷ schedule) st = run schedule (step m i st)
