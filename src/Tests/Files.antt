-- ===== src/Tests/Files.antt =====
-- A file_json provider on a small disk.
use hasura_secret_refresh.Base.{◌*◌, ◌≡◌, refl, true, some, none, [], ◌∷◌}
use hasura_secret_refresh.Strings.{Text, codes, str_eq}
use hasura_secret_refresh.Assoc.{lookup, insert}
use hasura_secret_refresh.Value.{Object, str, int, pos}
use hasura_secret_refresh.Result.{ok}
use hasura_secret_refresh.Duration.{second, seconds}
use hasura_secret_refresh.Config.{required_str, required_int, optional_str, one_of_two}
use hasura_secret_refresh.Transform.{keep_all, new_secret_transform}
use hasura_secret_refresh.Transform.Config.{parse_secret_transform}
use hasura_secret_refresh.Files.{File, Disk, Os, written, secret_file_mode, write_secret_file}
use hasura_secret_refresh.Files.Laws.{write_secret_file-ok}
use hasura_secret_refresh.FileLoop
use hasura_secret_refresh.FileLoop.{
  World, Runtime, render_secret, refresh, rounds, iterate, write_if_ok,
}
use hasura_secret_refresh.FileJson.{
  FileJsonProvider, create_file_json_provider, file_json, read_file,
}
use hasura_secret_refresh.FileJson.Laws.{
  IsConfigured, create_file_json_provider-IsConfigured, file_json-refresh_ok,
}
use hasura_secret_refresh.Tests.Data.{codec, lower, in_order}

abbrev os : Os
os = record { write_fate = written; chmod_works = true; masked = λ m. m }

abbrev disk : Disk
disk =
    (codes "/in", record { contents = codes "x1"; mode = 0o600 })
    ∷ (codes "/out", record { contents = codes "old"; mode = 0o600 })
    ∷ []

abbrev after : Disk
after =
    (codes "/in", record { contents = codes "x1"; mode = 0o600 })
    ∷ (codes "/out", record { contents = codes "x1"; mode = secret_file_mode })
    ∷ []

writes : write_secret_file os (codes "/out") (codes "x1") disk ≡ (ok tt, after)
unfolding write_secret_file lookup insert str_eq
writes = refl

write_secret_file-ok_example :
    lookup (codes "/out") after ≡ some (record { contents = codes "x1"; mode = secret_file_mode })
write_secret_file-ok_example = write_secret_file-ok os (codes "/out") (codes "x1") disk after writes

abbrev provider : FileJsonProvider
provider = record {
  refresh_interval = pos (60 * second);
  input_path = codes "/in";
  file_path = codes "/out";
  template = [];
  secret_transform = record { mappings = []; mode = keep_all };
}

abbrev config : Object
config =
    (codes "input_path", str (codes "/in"))
    ∷ (codes "path", str (codes "/out"))
    ∷ (codes "refresh", int (pos 60))
    ∷ []

creates : create_file_json_provider config ≡ ok provider
unfolding create_file_json_provider required_str required_int optional_str one_of_two lookup str_eq
    parse_secret_transform seconds new_secret_transform
creates = refl

create_file_json_provider-IsConfigured_example : IsConfigured config provider
create_file_json_provider-IsConfigured_example =
    create_file_json_provider-IsConfigured config provider creates

abbrev rt : Runtime
rt = record { codec = codec; lower = lower; orders = in_order }

abbrev before : World
before = record { disk = disk; calls = 0 }

abbrev later : World
later = record { disk = after; calls = 2 }

refreshes : (file_json rt (λ n. os) (λ n. none) provider).refresh before ≡ (ok tt, later)
unfolding file_json read_file render_secret FileLoop.write_file write_secret_file lookup insert
    str_eq
refreshes = refl

file_json-refresh_ok_example :
    (input : File) × (secret : Text) × (lookup (codes "/in") disk ≡ some input)
    × (render_secret rt provider.secret_transform provider.template input.contents ≡ ok secret)
    × (lookup (codes "/out") after ≡ some (record { contents = secret; mode = secret_file_mode }))
file_json-refresh_ok_example =
    file_json-refresh_ok rt (λ n. os) (λ n. none) provider before later refreshes
