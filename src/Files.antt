-- ===== src/Files.antt =====
-- provider/file_permissions.go: writing a secret's file, on a disk whose calls may fail.
pub mod Laws
use hasura_secret_refresh.Base.{
  ℕ, Bool, true, false, Option, none, some, List, take, if◌then◌else◌, length,
}
use hasura_secret_refresh.Strings.{Text}
use hasura_secret_refresh.Assoc.{Assoc, lookup, insert}
use hasura_secret_refresh.Result.{Error, new, Result, ok, err}

-- A file: its contents and its permission bits.
pub record File : Type 0 where
  pub contents : Text
  pub mode : ℕ

abbrev pub Disk : Type 0
Disk = Assoc File

-- What becomes of one os.WriteFile: it writes everything, fails to open the file, or fails when
-- some of the contents are written.
pub data WriteFate : Type 0 where
  written : WriteFate
  not_opened : WriteFate
  cut_short : ℕ → WriteFate

-- What the operating system decides on a write and the chmod that follows it. `masked` takes the
-- umask's bits off the mode of a new file.
pub record Os : Type 0 where
  pub write_fate : WriteFate
  pub chmod_works : Bool
  pub masked : ℕ → ℕ

-- SecretFileMode, 0o644
abbrev pub secret_file_mode : ℕ
secret_file_mode = 0o644

mode_after : Os → Option File → ℕ → ℕ
mode_after os none mode = os.masked mode
mode_after os (some old) mode = old.mode

-- The file after the open call has truncated or created it and `contents` is written.
unfoldable pub put_file : Os → Text → Text → ℕ → Disk → Disk
unfolding mode_after
put_file os path contents mode disk =
    insert path (record { contents = contents; mode = mode_after os (lookup path disk) mode }) disk

-- os.WriteFile
unfoldable pub write_file : Os → Text → Text → ℕ → Disk → Result (Unit {0}) × Disk
unfolding put_file
write_file os path contents mode disk = elim os.write_fate [
  | written ↦ (ok tt, put_file os path contents mode disk)
  | not_opened ↦ (err (new "open failed"), disk)
  | cut_short n ↦ (err (new "write failed"), put_file os path (take n contents) mode disk)
]

set_mode : ℕ → Option File → Text → Disk → Result (Unit {0}) × Disk
set_mode mode none path disk = (err (new "no such file"), disk)
set_mode mode (some f) path disk = (ok tt, insert path (record f { mode = mode }) disk)

-- os.Chmod
unfoldable pub chmod : Os → Text → ℕ → Disk → Result (Unit {0}) × Disk
unfolding set_mode
chmod os path mode disk =
    if os.chmod_works
    then set_mode mode (lookup path disk) path disk
    else (err (new "chmod failed"), disk)

-- WriteSecretFile
unfoldable pub write_secret_file : Os → Text → Text → Disk → Result (Unit {0}) × Disk
unfolding write_file chmod
write_secret_file os path contents disk =
    let (r, disk') = write_file os path contents secret_file_mode disk in
    elim r [ ok u ↦ chmod os path secret_file_mode disk' | failed ↦ (failed, disk') ]
