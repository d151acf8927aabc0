-- ===== src/Tests/Refresh.antt =====
-- Requests to the refresh endpoint.
use hasura_secret_refresh.Base.{
  ℕ, ◌+◌, ◌≡◌, refl, Option, some, none, [], ◌∷◌, ◌++◌, arith, if◌then◌else◌,
}
use hasura_secret_refresh.Strings.{Text, codes, str_eq}
use hasura_secret_refresh.Assoc.{Assoc, lookup}
use hasura_secret_refresh.Result.{new, ok, err}
use hasura_secret_refresh.Provider.{FileProvider}
use hasura_secret_refresh.Server.Refresh.{
  outcome, post, filename, serve_refresh, Others, serve_refresh-one,
}

-- A provider that counts its refreshes by `step` and fails.
abbrev counter : ℕ → FileProvider ℕ
counter step = record {
  prepare = λ n. n;
  iterate = λ n. (ok tt, n + step);
  refresh = λ n. (err (new "no secret"), n + step);
  file_name = codes "/f";
}

-- json.Decoder on the one body, and filepath.ToSlash where nothing is to be done.
unfoldable decode : Text → Option (Assoc Text)
unfolding str_eq
decode t = if str_eq t (codes "{..}") then some ((filename, codes "/f") ∷ []) else none

abbrev slashed : Text → Text
slashed t = t

Others-g : Others {S = ℕ} slashed decode (codes "/f") ((codes "/g", counter 7) ∷ [])
Others-g = ground arith

serve_refresh-one_example :
    serve_refresh slashed decode
      ((codes "/g", counter 7) ∷ [] ++ (codes "/f", counter 1) ∷ (codes "/g", counter 7) ∷ [])
      post
      (codes "{..}")
      3
    ≡ (outcome ((counter 1).refresh 3).0, ((counter 1).refresh 3).1)
unfolding decode str_eq lookup
serve_refresh-one_example =
    serve_refresh-one slashed decode ((codes "/g", counter 7) ∷ []) (codes "/f") (counter 1)
      ((codes "/g", counter 7) ∷ []) (codes "{..}") (codes "/f") ((filename, codes "/f") ∷ []) 3
      refl refl Others-g refl Others-g
