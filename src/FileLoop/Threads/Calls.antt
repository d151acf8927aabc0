-- ===== src/FileLoop/Threads/Calls.antt =====
-- The calls of the operating system that a goroutine makes, where they work.
use hasura_secret_refresh.Base.{◌≡◌, refl, true, some, arith}
use hasura_secret_refresh.Strings.{Text}
use hasura_secret_refresh.Strings.Laws.{str_eq_refl}
use hasura_secret_refresh.Assoc.{lookup, lookup-insert}
use hasura_secret_refresh.Result.{ok}
use hasura_secret_refresh.Files.{File, Disk, Os, written, put_file, chmod, secret_file_mode}
use hasura_secret_refresh.FileLoop.Threads.{open_file, fill_file}

-- The operating system grants every write and every chmod.
abbrev pub Works : Os → Type 0
Works os = (os.write_fate ≡ written) × (os.chmod_works ≡ true)

module _ (path : Text) (os : Os) (disk : Disk) (works : Works os) where
  pub open_file-works :
      ((open_file os path disk).0 ≡ ok tt)
      × ((f : File) × (lookup path (open_file os path disk).1 ≡ some f))
  unfolding open_file put_file
  open_file-works =
      (ground (arith, works.0), rw (works.0, open_file, lookup-insert, str_eq_refl path) (_, refl))

  pub fill_file-works :
      (secret : Text) (f : File)
      → lookup path disk ≡ some f
      → ((fill_file os path secret disk).0 ≡ ok tt)
        × (lookup path (fill_file os path secret disk).1 ≡ some (record f { contents = secret }))
  unfolding fill_file
  fill_file-works secret f there = (
    ground (arith, works.0),
    rw (works.0, fill_file, there) (rw (lookup-insert, str_eq_refl path) refl),
  )

  pub chmod-works :
      (f : File)
      → lookup path disk ≡ some f
      → ((chmod os path secret_file_mode disk).0 ≡ ok tt)
        × (lookup path (chmod os path secret_file_mode disk).1
            ≡ some (record f { mode = secret_file_mode }))
  unfolding chmod
  chmod-works f there = (
    rw (works.1, chmod, there) refl,
    rw (works.1, chmod, there) (rw (lookup-insert, str_eq_refl path) refl),
  )
