-- ===== src/Tests/Main.antt =====
-- A configuration with two file providers and a broken entry.
use hasura_secret_refresh.Base.{ℕ, ◌+◌, ◌≡◌, refl, inl, inr, [], ◌∷◌, ◌++◌, arith}
use mathlib.Core.List.{Permᴰ}
use hasura_secret_refresh.Strings.{Text, codes, str_eq}
use hasura_secret_refresh.Assoc.{lookup}
use hasura_secret_refresh.Value.{Object, str, obj, field, end, as_object, entries}
use hasura_secret_refresh.Result.{Result, ok, err, new}
use hasura_secret_refresh.Provider.{HttpProvider, FileProvider}
use hasura_secret_refresh.Main.{Config, Makers, parse_config, parse_entry, typed, sidecar}
use hasura_secret_refresh.Main.Distinct.{DistinctKeys}
use hasura_secret_refresh.Main.Entries.{AllTyped}
use hasura_secret_refresh.Main.Order.{SameConfig, parse_config-Permᴰ}
use hasura_secret_refresh.Main.Laws.{IsProviderKey, parse_config_malformed}

abbrev counter : Text → ℕ → FileProvider ℕ
counter name step = record {
  prepare = λ n. n;
  iterate = λ n. (ok tt, n + step);
  refresh = λ n. (ok tt, n + step);
  file_name = name;
}

abbrev no_proxy : Object → Result (HttpProvider ℕ)
no_proxy c = err (new "none")

abbrev a_file : Object → Result (FileProvider ℕ)
a_file c = ok (counter (codes "/f") 1)

abbrev makers : Makers ℕ
makers = record {
  aws_secrets_manager = no_proxy;
  aws_sm_oauth = no_proxy;
  aws_sm_file = a_file;
  aws_iam_auth_rds = a_file;
  azure_key_vault = no_proxy;
  azure_key_vault_file = a_file;
  hashicorp_vault = no_proxy;
  hashicorp_vault_file = a_file;
  file_json_provider = a_file;
}

abbrev first : Object
first = (codes "a", obj (field (codes "type") (str (codes "file_json")) end)) ∷ []

IsProviderKey-b : IsProviderKey (codes "b")
IsProviderKey-b = ground arith

parse_config_malformed_example :
    parse_config makers (first ++ (codes "b", obj end) ∷ first) ≡ parse_config makers first
unfolding typed as_object entries lookup
parse_config_malformed_example =
    parse_config_malformed makers first (codes "b") (obj end) first IsProviderKey-b refl

-- A configuration of a sidecar in one order, and in the other.
abbrev two : Object
two = (codes "type", str (codes "sidecar")) ∷ first

abbrev reversed : Object
reversed = first ++ (codes "type", str (codes "sidecar")) ∷ []

abbrev parsed : Config ℕ
parsed = record {
  providers = [];
  file_providers = counter (codes "/f") 1 ∷ [];
  deployment_type = sidecar;
}

two-DistinctKeys : DistinctKeys two
two-DistinctKeys = ((ground arith, tt), (tt, tt))

two-AllTyped : AllTyped two
unfolding typed as_object entries lookup str_eq
two-AllTyped = (inl refl, (inr ((codes "file_json", _), refl), tt))

parses : parse_config makers two ≡ ok parsed
unfolding parse_config typed as_object entries lookup str_eq parse_entry
parses = refl

parse_config-Permᴰ_example :
    (c' : Config ℕ) × (parse_config makers reversed ≡ ok c') × SameConfig parsed c'
parse_config-Permᴰ_example =
    parse_config-Permᴰ makers two reversed parsed (Permᴰ.swap refl refl) two-DistinctKeys
      two-AllTyped parses
