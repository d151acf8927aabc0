-- ===== src/Tests/Sidecar.antt =====
-- Two file providers that run side by side.
use hasura_secret_refresh.Base.{◌≡◌, refl, ◌≢◌, [], ◌∷◌, arith}
use mathlib.Core.List.{Memᴰ}
use hasura_secret_refresh.Strings.{Text, codes, str_eq}
use hasura_secret_refresh.Assoc.{lookup, insert}
use hasura_secret_refresh.Result.{ok}
use hasura_secret_refresh.Files.{secret_file_mode, write_secret_file}
use hasura_secret_refresh.FileLoop as FileLoop
use hasura_secret_refresh.FileLoop.{World, render_secret}
use hasura_secret_refresh.Aws.{AwsSecretsManagerFile, aws_secrets_manager_file}
use hasura_secret_refresh.Provider.{FileProvider}
use hasura_secret_refresh.Main.Own.{aws_own, HoldsSecret}
use hasura_secret_refresh.Main.Sidecar.{prepared, iterated, Moves, start, move, Moves-HoldsSecret}
use hasura_secret_refresh.Tests.Init.{outside, aws_provider}

abbrev at : Text → AwsSecretsManagerFile
at path = record aws_provider { file_path = path }

abbrev at_path : Text → FileProvider World
at_path path = aws_secrets_manager_file outside.rt outside.os outside.get_secret_value (at path)

abbrev before : World
before = record { disk = []; calls = 0 }

abbrev after : World
after = record {
  disk = (codes "/a", record { contents = codes "db!"; mode = secret_file_mode }) ∷ [];
  calls = 2;
}

refreshes : (at_path (codes "/a")).refresh before ≡ (ok tt, after)
unfolding aws_secrets_manager_file render_secret FileLoop.refresh FileLoop.write_file
    FileLoop.write_if_ok write_secret_file lookup insert str_eq
refreshes = refl

abbrev later : World
later = ((at_path (codes "/b")).iterate ((at_path (codes "/b")).prepare after)).1

b_runs : Moves (at_path (codes "/b") ∷ []) after later
b_runs = move (move start (Memᴰ.head refl) prepared) (Memᴰ.head refl) iterated

b-ne-a : codes "/b" ≢ codes "/a"
b-ne-a = ground arith

Moves-HoldsSecret_example : HoldsSecret outside (at_path (codes "/a")) before later
unfolding aws_secrets_manager_file
Moves-HoldsSecret_example =
    Moves-HoldsSecret outside (aws_own (at (codes "/a"))) (aws_own (at (codes "/b")), tt)
      (b-ne-a, tt) refreshes b_runs
