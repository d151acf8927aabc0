-- ===== src/Main/Assembly.antt =====
-- main.go with the repository's own functions that create file providers.
use hasura_secret_refresh.Value.{Object}
use hasura_secret_refresh.Result.{Result, ok, err, panic, ◌>>=◌}
use hasura_secret_refresh.Provider.{HttpProvider, FileProvider}
use hasura_secret_refresh.FileLoop.{World}
use hasura_secret_refresh.FileJson.{FileJsonProvider, create_file_json_provider, file_json}
use hasura_secret_refresh.Aws.{
  AwsSecretsManagerFile, create_aws_secrets_manager_file, aws_secrets_manager_file,
}
use hasura_secret_refresh.Azure.{
  AzureKeyVaultFile, create_azure_key_vault_file, azure_key_vault_file,
}
use hasura_secret_refresh.Vault.File.{
  HashicorpVaultFile, create_hashicorp_vault_file, hashicorp_vault_file,
}
use hasura_secret_refresh.IamRds.{
  AwsIamAuthRdsFile, new_aws_iam_auth_rds_file, aws_iam_auth_rds_file,
}
use hasura_secret_refresh.Main.Own.{
  Outside, IsOwn, json_own, aws_own, azure_own, vault_own, iam_own,
}
use hasura_secret_refresh.Main.{Makers}
use hasura_secret_refresh.Main.Providers.{IfOk, AllMake}

-- The functions that create the providers of the proxy, each of which keeps a state of its own.
pub record ProxyMakers : Type 0 where
  pub aws_secrets_manager : Object → Result (HttpProvider World)
  pub aws_sm_oauth : Object → Result (HttpProvider World)
  pub azure_key_vault : Object → Result (HttpProvider World)
  pub hashicorp_vault : Object → Result (HttpProvider World)

module _ {C : Type 0} (out : Outside C) where
  json_file : FileJsonProvider → FileProvider World
  json_file p = file_json out.rt out.os out.read_fault p

  aws_file : AwsSecretsManagerFile → FileProvider World
  aws_file p = aws_secrets_manager_file out.rt out.os out.get_secret_value p

  azure_file : AzureKeyVaultFile → FileProvider World
  azure_file p = azure_key_vault_file out.rt out.os out.read_secret p

  vault_file : HashicorpVaultFile → FileProvider World
  vault_file p = hashicorp_vault_file out.rt out.os out.read_vault p

  iam_file : AwsIamAuthRdsFile → FileProvider World
  iam_file p =
      aws_iam_auth_rds_file out.rt.codec.unmarshal out.os out.load_config out.build_auth_token
        out.open_db out.ping p

  -- The calls of main.go.
  unfoldable pub assembled : ProxyMakers → Makers World
  unfolding json_file aws_file azure_file vault_file iam_file
  assembled proxies = record {
    aws_secrets_manager = proxies.aws_secrets_manager;
    aws_sm_oauth = proxies.aws_sm_oauth;
    aws_sm_file =
        λ config. create_aws_secrets_manager_file out.new_session config >>= λ p. ok (aws_file p);
    aws_iam_auth_rds = λ config. new_aws_iam_auth_rds_file config >>= λ p. ok (iam_file p);
    azure_key_vault = proxies.azure_key_vault;
    azure_key_vault_file = λ config.
        create_azure_key_vault_file out.new_azure_client config >>= λ p. ok (azure_file p);
    hashicorp_vault = proxies.hashicorp_vault;
    hashicorp_vault_file = λ config.
        create_hashicorp_vault_file out.new_vault_client config >>= λ p. ok (vault_file p);
    file_json_provider = λ config. create_file_json_provider config >>= λ p. ok (json_file p);
  }

  json_file-IsOwn : (p : FileJsonProvider) → IsOwn out (json_file p)
  unfolding json_file
  json_file-IsOwn p = json_own p

  aws_file-IsOwn : (p : AwsSecretsManagerFile) → IsOwn out (aws_file p)
  unfolding aws_file
  aws_file-IsOwn p = aws_own p

  azure_file-IsOwn : (p : AzureKeyVaultFile) → IsOwn out (azure_file p)
  unfolding azure_file
  azure_file-IsOwn p = azure_own p

  vault_file-IsOwn : (p : HashicorpVaultFile) → IsOwn out (vault_file p)
  unfolding vault_file
  vault_file-IsOwn p = vault_own p

  iam_file-IsOwn : (p : AwsIamAuthRdsFile) → IsOwn out (iam_file p)
  unfolding iam_file
  iam_file-IsOwn p = iam_own p

  made-IfOk :
      {A : Type 0} (make : A → FileProvider World) (r : Result A)
      → ((a : A) → IsOwn out (make a))
      → IfOk (IsOwn out) (r >>= λ a. ok (make a))
  made-IfOk make (ok a) good = good a
  made-IfOk make (err e) good = tt
  made-IfOk make (panic w) good = tt

  pub assembled-AllMake : (proxies : ProxyMakers) → AllMake (IsOwn out) (assembled proxies)
  unfolding assembled
  assembled-AllMake proxies = record {
    aws_sm_file = λ config.
        made-IfOk aws_file (create_aws_secrets_manager_file out.new_session config) aws_file-IsOwn;
    aws_iam_auth_rds =
        λ config. made-IfOk iam_file (new_aws_iam_auth_rds_file config) iam_file-IsOwn;
    azure_key_vault_file = λ config.
        made-IfOk azure_file (create_azure_key_vault_file out.new_azure_client config)
          azure_file-IsOwn;
    hashicorp_vault_file = λ config.
        made-IfOk vault_file (create_hashicorp_vault_file out.new_vault_client config)
          vault_file-IsOwn;
    file_json_provider =
        λ config. made-IfOk json_file (create_file_json_provider config) json_file-IsOwn;
  }
