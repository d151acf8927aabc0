-- ===== src/Files/Laws.antt =====
-- What WriteSecretFile leaves on the disk.
use hasura_secret_refresh.Base.{◌≡◌, ◌≢◌, some, arith}
use hasura_secret_refresh.Strings.{Text}
use hasura_secret_refresh.Strings.Laws.{str_eq_iff, str_eq_refl}
use hasura_secret_refresh.Assoc.{lookup, lookup-insert}
use hasura_secret_refresh.Result.{ok}
use hasura_secret_refresh.Files.{Disk, Os, secret_file_mode, write_secret_file}

-- When WriteSecretFile returns no error, the file holds exactly the contents, with mode 0644,
-- whatever its mode and contents were before and whatever the umask is.
pub write_secret_file-ok :
    (os : Os) (path contents : Text) (disk disk' : Disk)
    → write_secret_file os path contents disk ≡ (ok tt, disk')
    → lookup path disk' ≡ some (record { contents = contents; mode = secret_file_mode })
unfolding write_secret_file
write_secret_file-ok os path contents disk disk' e = grind (arith, lookup-insert, str_eq_refl)

-- No other file changes, on any outcome.
pub write_secret_file-others :
    (os : Os) (path contents other : Text) (disk : Disk)
    → path ≢ other
    → lookup other (write_secret_file os path contents disk).1 ≡ lookup other disk
unfolding write_secret_file
write_secret_file-others os path contents other disk differ =
    grind (arith, lookup-insert, str_eq_iff)
