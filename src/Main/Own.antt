-- ===== src/Main/Own.antt =====
-- The repository's own file providers with all that they ask of the world outside, and what their
-- files hold.
use hasura_secret_refresh.Base.{ℕ, ◌≡◌, refl, Option, some, arith, ap, ◌∙◌}
use hasura_secret_refresh.Strings.{Text}
use hasura_secret_refresh.Value.{Object}
use hasura_secret_refresh.Assoc.{lookup}
use hasura_secret_refresh.Result.{Error, new, Result, ok, >>=-eq-ok, or_error}
use hasura_secret_refresh.Provider.{FileProvider}
use hasura_secret_refresh.Files.{File, Os, secret_file_mode}
use hasura_secret_refresh.FileLoop.{World, Runtime, render_secret}
use hasura_secret_refresh.FileLoop.Laws.{refresh-ok}
use hasura_secret_refresh.FileLoop.Writer.{IsWriter, loop_provider-IsWriter}
use hasura_secret_refresh.FileJson as FileJson
use hasura_secret_refresh.FileJson.{FileJsonProvider, file_json}
use hasura_secret_refresh.FileJson.Laws.{file_json-refresh_ok}
use hasura_secret_refresh.Aws as Aws
use hasura_secret_refresh.Aws.{AwsSecretsManagerFile, aws_secrets_manager_file, deref}
use hasura_secret_refresh.Azure as Azure
use hasura_secret_refresh.Azure.{AzureKeyVaultFile, azure_key_vault_file}
use hasura_secret_refresh.Vault.{Response, read_kvv2, extract_field}
use hasura_secret_refresh.Vault.Auth.{VaultConfig}
use hasura_secret_refresh.Vault.File as VaultFile
use hasura_secret_refresh.Vault.File.{HashicorpVaultFile, counted, hashicorp_vault_file}
use hasura_secret_refresh.IamRds.{AwsIamAuthRdsFile, aws_iam_auth_rds_file}
use hasura_secret_refresh.IamRds.Laws.{
  IsTried, get_checked_secret-quiet, aws_iam_auth_rds-refresh_ok,
}

-- What the file providers ask of the world outside, with the words of their modules.
pub record Outside (C : Type 0) : Type 0 where
  pub rt : Runtime
  pub os : ℕ → Os
  pub read_fault : ℕ → Option Error
  pub new_session : Result (Unit {0})
  pub get_secret_value : ℕ → Text → Result (Option Text)
  pub new_azure_client : Text → Result (Unit {0})
  pub read_secret : ℕ → Text → Text → Result (Option Text)
  pub new_vault_client : VaultConfig → Result (Unit {0})
  pub read_vault : ℕ → Text → Option Text → Response
  pub load_config : ℕ → Result C
  pub build_auth_token : ℕ → Text → Text → Text → C → Result Text
  pub open_db : ℕ → Text → Result (Unit {0})
  pub ping : ℕ → Text → Result (Unit {0})

module _ {C : Type 0} (out : Outside C) where
  -- The five kinds of file providers.
  pub data IsOwn : FileProvider World → Type 0 where
    json_own : (a : FileJsonProvider) → IsOwn (file_json out.rt out.os out.read_fault a)
    aws_own :
        (a : AwsSecretsManagerFile)
        → IsOwn (aws_secrets_manager_file out.rt out.os out.get_secret_value a)
    azure_own :
        (a : AzureKeyVaultFile) → IsOwn (azure_key_vault_file out.rt out.os out.read_secret a)
    vault_own :
        (a : HashicorpVaultFile) → IsOwn (hashicorp_vault_file out.rt out.os out.read_vault a)
    iam_own :
        (a : AwsIamAuthRdsFile)
        → IsOwn (
            aws_iam_auth_rds_file out.rt.codec.unmarshal out.os out.load_config out.build_auth_token
              out.open_db out.ping a)

  -- The secret of a provider that is refreshed in that world: what its transformation and its
  -- template make of its input file, or of what its store answers then, or a token that its
  -- database has accepted.
  pub data SecretOf (w : World) (secret : Text) : FileProvider World → Type 0 where
    of_file :
        (a : FileJsonProvider) (input : File)
        → lookup a.input_path w.disk ≡ some input
        → render_secret out.rt a.secret_transform a.template input.contents ≡ ok secret
        → SecretOf w secret (file_json out.rt out.os out.read_fault a)
    of_aws :
        (a : AwsSecretsManagerFile) (raw : Text)
        → out.get_secret_value w.calls a.secret_id ≡ ok (some raw)
        → render_secret out.rt a.secret_transform a.template raw ≡ ok secret
        → SecretOf w secret (aws_secrets_manager_file out.rt out.os out.get_secret_value a)
    of_azure :
        (a : AzureKeyVaultFile) (raw : Text)
        → out.read_secret w.calls a.secret_name a.secret_version ≡ ok (some raw)
        → render_secret out.rt a.secret_transform a.template raw ≡ ok secret
        → SecretOf w secret (azure_key_vault_file out.rt out.os out.read_secret a)
    of_vault :
        (a : HashicorpVaultFile) (fields : Object) (raw : Text)
        → (read_kvv2 (counted out.rt out.os out.read_vault) a.mount a.path a.version w.calls).0
          ≡ ok fields
        → extract_field out.rt.codec fields a.field ≡ ok raw
        → render_secret out.rt a.secret_transform a.template raw ≡ ok secret
        → SecretOf w secret (hashicorp_vault_file out.rt out.os out.read_vault a)
    of_iam :
        (a : AwsIamAuthRdsFile)
        → IsTried out.rt.codec.unmarshal out.os out.load_config out.build_auth_token out.open_db
            out.ping a w.calls secret
        → SecretOf w secret (
            aws_iam_auth_rds_file out.rt.codec.unmarshal out.os out.load_config out.build_auth_token
              out.open_db out.ping a)

  -- In the world `v` the provider's file holds its secret of the world `w`, with mode 0644.
  abbrev pub HoldsSecret : FileProvider World → World → World → Type 0
  HoldsSecret p w v =
      (secret : Text) × SecretOf w secret p
      × (lookup p.file_name v.disk ≡ some (record { contents = secret; mode = secret_file_mode }))

  pub IsOwn-IsWriter : {p : FileProvider World} → IsOwn p → IsWriter p
  unfolding file_json FileJson.get_secret aws_secrets_manager_file Aws.get_secret
      azure_key_vault_file Azure.get_secret hashicorp_vault_file VaultFile.get_secret
      aws_iam_auth_rds_file
  IsOwn-IsWriter (json_own a) = loop_provider-IsWriter out.os a.file_path _ (λ w. refl)
  IsOwn-IsWriter (aws_own a) = loop_provider-IsWriter out.os a.file_path _ (λ w. refl)
  IsOwn-IsWriter (azure_own a) = loop_provider-IsWriter out.os a.file_path _ (λ w. refl)
  IsOwn-IsWriter (vault_own a) = loop_provider-IsWriter out.os a.file_path _ (λ w. refl)
  IsOwn-IsWriter (iam_own a) = loop_provider-IsWriter out.os a.file_path _ (λ w.
      get_checked_secret-quiet out.rt.codec.unmarshal out.os out.load_config out.build_auth_token
        out.open_db out.ping a w)

  deref_sound : (o : Option Text) (t : Text) → deref o ≡ ok t → o ≡ some t
  unfolding deref
  deref_sound o t e = ground arith

  or_error_sound : (o : Option Text) (x : Error) (t : Text) → or_error o x ≡ ok t → o ≡ some t
  or_error_sound o x t e = ground arith

  -- A refresh that returns no error has written the provider's secret.
  pub refresh-HoldsSecret :
      {p : FileProvider World} (w w' : World)
      → IsOwn p
      → p.refresh w ≡ (ok tt, w')
      → HoldsSecret p w w'
  unfolding file_json aws_secrets_manager_file Aws.get_secret azure_key_vault_file Azure.get_secret
      hashicorp_vault_file VaultFile.get_secret aws_iam_auth_rds_file
  refresh-HoldsSecret w w' (json_own a) e =
      let (input, secret, there, rendered, holds) =
        file_json-refresh_ok out.rt out.os out.read_fault a w w' e in
      (secret, of_file a input there rendered, holds)
  refresh-HoldsSecret w w' (aws_own a) e =
      let (secret, got, holds) =
        refresh-ok out.os a.file_path (Aws.get_secret out.rt out.os out.get_secret_value a) w w'
          e in
      let (res, answered, rest) = >>=-eq-ok (out.get_secret_value w.calls a.secret_id) _ got in
      let (raw, there, rendered) =
        >>=-eq-ok (deref res) (render_secret out.rt a.secret_transform a.template) rest in
      (secret, of_aws a raw (answered ∙ ap ok (deref_sound res raw there)) rendered, holds)
  refresh-HoldsSecret w w' (azure_own a) e =
      let (secret, got, holds) =
        refresh-ok out.os a.file_path (Azure.get_secret out.rt out.os out.read_secret a) w w' e in
      let (value, answered, rest) =
        >>=-eq-ok (out.read_secret w.calls a.secret_name a.secret_version) _ got in
      let (raw, there, rendered) =
        >>=-eq-ok (or_error value (new "secret value is nil"))
          (render_secret out.rt a.secret_transform a.template) rest in
      (secret, of_azure a raw (answered ∙ ap ok (or_error_sound value _ raw there)) rendered, holds)
  refresh-HoldsSecret w w' (vault_own a) e =
      let (secret, got, holds) =
        refresh-ok out.os a.file_path (VaultFile.get_secret out.rt out.os out.read_vault a) w w'
          e in
      let (fields, answered, rest) =
        >>=-eq-ok
          (read_kvv2 (counted out.rt out.os out.read_vault) a.mount a.path a.version w.calls).0 _
          got in
      let (raw, there, rendered) =
        >>=-eq-ok (extract_field out.rt.codec fields a.field)
          (render_secret out.rt a.secret_transform a.template) rest in
      (secret, of_vault a fields raw answered there rendered, holds)
  refresh-HoldsSecret w w' (iam_own a) e =
      let (secret, tried, holds) =
        aws_iam_auth_rds-refresh_ok out.rt.codec.unmarshal out.os out.load_config
          out.build_auth_token out.open_db out.ping a w w' e in
      (secret, of_iam a tried, holds)
