-- ===== src/FileJson/Laws.antt =====
-- A file_json provider from its configuration to its file.
use hasura_secret_refresh.Base.{ℕ, ◌≡◌, [], Option, none, some, arith, ◌⊎◌, inl, inr, Option-cases}
use hasura_secret_refresh.Strings.{Text, codes}
use hasura_secret_refresh.Assoc.{lookup}
use hasura_secret_refresh.Value.{Object, str, int, ℤ}
use hasura_secret_refresh.Result.{Error, ok, Result-cases, >>=-eq-ok}
use hasura_secret_refresh.Duration.{seconds}
use hasura_secret_refresh.Config.{required_str, required_int, optional_str, one_of_two_sound}
use hasura_secret_refresh.Transform.Config.{
  IsMode, parse_secret_transform, parse_secret_transform-IsMode,
}
use hasura_secret_refresh.Files.{File, Os, secret_file_mode}
use hasura_secret_refresh.FileLoop.{World, Runtime, render_secret}
use hasura_secret_refresh.FileLoop.Laws.{refresh-ok}
use hasura_secret_refresh.FileJson.{
  FileJsonProvider, create_file_json_provider, read_file, get_secret, file_json,
}

-- A text that a configuration may leave out: it is its own, or empty where it is left out.
abbrev pub IsOptional : Object → Text → Text → Type 0
IsOptional config key t =
    (lookup key config ≡ some (str t)) ⊎ ((lookup key config ≡ none) × (t ≡ []))

optional_str_sound :
    (config : Object) (key t : Text) → optional_str config key [] ≡ ok t → IsOptional config key t
unfolding optional_str
optional_str_sound config key t e = ground arith

-- A provider agrees with the configuration that it was made of.
pub record IsConfigured (config : Object) (p : FileJsonProvider) : Type 0 where
  pub seconds_read : ℤ
  pub input : lookup (codes "input_path") config ≡ some (str p.input_path)
  pub output : lookup (codes "path") config ≡ some (str p.file_path)
  pub interval : lookup (codes "refresh") config ≡ some (int seconds_read)
  pub interval_set : p.refresh_interval ≡ seconds seconds_read
  pub template : IsOptional config (codes "template") p.template
  pub transform : parse_secret_transform config ≡ ok p.secret_transform
  pub not_both : (p.template ≡ []) ⊎ (p.secret_transform.mappings ≡ [])
  pub mode : IsMode p.secret_transform.mode

required_str_sound :
    (config : Object) (key s : Text)
    → required_str config key ≡ ok s
    → lookup key config ≡ some (str s)
unfolding required_str
required_str_sound config key s e = ground arith

required_int_sound :
    (config : Object) (key : Text) (i : ℤ)
    → required_int config key ≡ ok i
    → lookup key config ≡ some (int i)
unfolding required_int
required_int_sound config key i e = ground arith

-- A configuration that is accepted has its paths and its interval, of the right types, and they are
-- the provider's. The provider's template is the configured text, or empty where none is configured,
-- and its transformation is the one that ParseSecretTransformFromConfig reads. It does not have both
-- a template and mappings, and its mode is one of the two.
pub create_file_json_provider-IsConfigured :
    (config : Object) (p : FileJsonProvider)
    → create_file_json_provider config ≡ ok p
    → IsConfigured config p
unfolding create_file_json_provider
create_file_json_provider-IsConfigured config p e =
    elim (Result-cases (required_int config (codes "refresh"))) [
      | inl (i, read) ↦ record {
        seconds_read = i;
        input = ground (arith, required_str_sound config (codes "input_path") p.input_path);
        output = ground (arith, required_str_sound config (codes "path") p.file_path);
        interval = required_int_sound config (codes "refresh") i read;
        interval_set = ground (arith, read);
        template = ground (arith, optional_str_sound config (codes "template") p.template);
        transform = ground arith;
        not_both = ground (arith, one_of_two_sound p.template p.secret_transform);
        mode = ground (arith, parse_secret_transform-IsMode config p.secret_transform);
      }
      | inr (inl (x, failed)) ↦ ground (arith, failed)
      | inr (inr (x, failed)) ↦ ground (arith, failed)
    ]

read_file_sound :
    (fault : ℕ → Option Error) (path : Text) (w : World) (text : Text)
    → read_file fault path w ≡ ok text
    → (f : File) × (lookup path w.disk ≡ some f) × (f.contents ≡ text)
unfolding read_file
read_file_sound fault path w text e = elim (Option-cases (lookup path w.disk)) [
  | inl missing ↦ ground (arith, missing)
  | inr (f, there) ↦ (f, there, ground (arith, there))
]

-- After a Refresh that returns no error, the input file was there, and the output file holds, with
-- mode 0644, exactly what the transformation and the template make of its contents.
pub file_json-refresh_ok :
    (rt : Runtime) (os : ℕ → Os) (fault : ℕ → Option Error) (p : FileJsonProvider) (w w' : World)
    → (file_json rt os fault p).refresh w ≡ (ok tt, w')
    → (input : File) × (secret : Text) × (lookup p.input_path w.disk ≡ some input)
      × (render_secret rt p.secret_transform p.template input.contents ≡ ok secret)
      × (lookup p.file_path w'.disk ≡ some (record { contents = secret; mode = secret_file_mode }))
unfolding file_json
file_json-refresh_ok rt os fault p w w' e =
    let (secret, got, holds) = refresh-ok os p.file_path (get_secret rt os fault p) w w' e in
    let (text, read, rendered) = >>=-eq-ok (read_file fault p.input_path w) _ got in
    let (input, there, same) = read_file_sound fault p.input_path w text read in
    (input, secret, there, rw same rendered, holds)
