-- ===== src/FileJson.antt =====
-- provider/file_json/file_provider.go: a secret read from one file and written to another.
pub mod Laws
use hasura_secret_refresh.Base.{ℕ, suc, Option, none, some}
use hasura_secret_refresh.Strings.{Text, codes}
use hasura_secret_refresh.Assoc.{lookup}
use hasura_secret_refresh.Value.{Object}
use hasura_secret_refresh.Result.{Error, new, Result, ok, err, panic, ◌>>=◌, ◌>>◌}
use hasura_secret_refresh.Duration.{Duration, seconds}
use hasura_secret_refresh.Config.{required_str, required_int, optional_str, one_of_two}
use hasura_secret_refresh.Transform.{SecretTransform}
use hasura_secret_refresh.Transform.Config.{parse_secret_transform}
use hasura_secret_refresh.Files.{Disk, File, Os}
use hasura_secret_refresh.FileLoop
use hasura_secret_refresh.FileLoop.{World, Runtime, render_secret}
use hasura_secret_refresh.Provider.{FileProvider}

pub record FileJsonProvider : Type 0 where
  pub refresh_interval : Duration
  pub input_path : Text
  pub file_path : Text
  pub template : Text
  pub secret_transform : SecretTransform

unfoldable pub create_file_json_provider : Object → Result FileJsonProvider
create_file_json_provider config = do
  input_path ← required_str config (codes "input_path")
  file_path ← required_str config (codes "path")
  interval ← required_int config (codes "refresh")
  template ← optional_str config (codes "template") (codes "")
  st ← parse_secret_transform config
  one_of_two template st
  ok (record {
    refresh_interval = seconds interval;
    input_path = input_path;
    file_path = file_path;
    template = template;
    secret_transform = st;
  })

contents_of : Option File → Result Text
contents_of none = err (new "no such file")
contents_of (some f) = ok f.contents

-- `read_fault` is the error of a read, if the operating system refuses it.
module _ (read_fault : ℕ → Option Error) where
  -- os.ReadFile
  unfoldable pub read_file : Text → World → Result Text
  unfolding contents_of
  read_file path w = elim (read_fault w.calls) [
    | some e ↦ err e
    | none ↦ contents_of (lookup path w.disk)
  ]

module _ (rt : Runtime) (os : ℕ → Os) (read_fault : ℕ → Option Error) where
  -- The method getSecret.
  unfoldable pub get_secret : FileJsonProvider → World → Result Text × World
  unfolding read_file
  get_secret p w = (
    read_file read_fault p.input_path w >>= render_secret rt p.secret_transform p.template,
    record w { calls = suc w.calls },
  )

  -- The methods of FileProvider.
  unfoldable pub file_json : FileJsonProvider → FileProvider World
  unfolding get_secret FileLoop.refresh FileLoop.iterate FileLoop.prepare
  file_json p = record {
    prepare = FileLoop.prepare os p.file_path (get_secret p);
    iterate = FileLoop.iterate os p.file_path (get_secret p);
    refresh = FileLoop.refresh os p.file_path (get_secret p);
    file_name = p.file_path;
  }
