-- ===== src/FileLoop/Writer.antt =====
-- What the code that runs file providers relies on, and that every loop of a file provider gives it.
use hasura_secret_refresh.Base.{ℕ, ◌≡◌, ◌≢◌, []}
use hasura_secret_refresh.Strings.{Text}
use hasura_secret_refresh.Assoc.{lookup}
use hasura_secret_refresh.Result.{Result}
use hasura_secret_refresh.Provider.{FileProvider}
use hasura_secret_refresh.Files.{Os}
use hasura_secret_refresh.FileLoop.{World, refresh, iterate, prepare}
use hasura_secret_refresh.FileLoop.Laws.{write_file-others, refresh-others, iterate-refresh}

-- A provider of one file: it leaves the others alone.
pub record IsWriter (p : FileProvider World) : Type 0 where
  pub spares :
      (other : Text) (w : World)
      → p.file_name ≢ other
      → lookup other (p.refresh w).1.disk ≡ lookup other w.disk
  pub clears :
      (other : Text) (w : World)
      → p.file_name ≢ other
      → lookup other (p.prepare w).disk ≡ lookup other w.disk
  pub follows : (w : World) → (p.iterate w).1 ≡ (p.refresh w).1

module _ (os : ℕ → Os) (path : Text) (get_secret : World → Result Text × World) where
  -- The provider that runs the loop on its own way of getting a secret.
  abbrev pub loop_provider : FileProvider World
  loop_provider = record {
    prepare = prepare os path get_secret;
    iterate = iterate os path get_secret;
    refresh = refresh os path get_secret;
    file_name = path;
  }

  pub loop_provider-IsWriter :
      ((w : World) → (get_secret w).1.disk ≡ w.disk) → IsWriter loop_provider
  unfolding prepare
  loop_provider-IsWriter quiet = record {
    spares = λ other w differ. refresh-others os path get_secret quiet other w differ;
    clears = λ other w differ. write_file-others os path [] other w differ;
    follows = iterate-refresh os path get_secret;
  }
