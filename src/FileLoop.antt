-- ===== src/FileLoop.antt =====
-- What the file providers have in common: a secret is transformed or put into a template, and
-- written to a file, on demand (Refresh) and for ever (Start).
pub mod Laws
pub mod Writer
pub mod Threads
use hasura_secret_refresh.Base.{
  ℕ, [], zero, suc, Bool, true, false, Option, none, some, if◌then◌else◌,
}
use hasura_secret_refresh.Strings.{Text, is_empty}
use hasura_secret_refresh.Value.{Object}
use hasura_secret_refresh.Result.{Result, ok, err, panic, ◌>>=◌}
use hasura_secret_refresh.Transform.{SecretTransform, JsonCodec, has_transformations, transform}
use hasura_secret_refresh.Template.{substitute}
use hasura_secret_refresh.Files.{Disk, Os, write_secret_file}

-- The disk, and how many calls of the world outside were made: the world's answers may differ from
-- call to call.
pub record World : Type 0 where
  pub disk : Disk
  pub calls : ℕ

-- encoding/json, strings.ToLower and the orders of Go's `range` over a secret.
pub record Runtime : Type 0 where
  pub codec : JsonCodec
  pub lower : Text → Text
  pub orders : Object → ℕ → Object

module _ (rt : Runtime) where
  transformed : SecretTransform → Text → Result Text
  transformed st secret =
      if has_transformations st then transform rt.lower rt.codec rt.orders st secret else ok secret

  templated : Text → Text → Text
  templated template secret =
      if is_empty template then secret else substitute rt.codec.unmarshal template secret

  -- The second half of every getSecret: the configured transformation, and then the template.
  unfoldable pub render_secret : SecretTransform → Text → Text → Result Text
  unfolding transformed templated has_transformations
  render_secret st template secret = do
    changed ← transformed st secret
    ok (templated template changed)

-- `os` decides on every write.
module _ (os : ℕ → Os) (path : Text) where
  -- The method writeFile; its mutex makes it one step.
  unfoldable pub write_file : Text → World → Result (Unit {0}) × World
  write_file secret w =
      let (r, disk) = write_secret_file (os w.calls) path secret w.disk in
      (r, record { disk = disk; calls = suc w.calls })

  module _ (get_secret : World → Result Text × World) where
    unfoldable pub write_if_ok : Result Text → World → Result (Unit {0}) × World
    write_if_ok (ok secret) w = write_file secret w
    write_if_ok (err e) w = (err e, w)
    write_if_ok (panic s) w = (panic s, w)

    -- The method Refresh.
    unfoldable pub refresh : World → Result (Unit {0}) × World
    unfolding write_if_ok
    refresh w = let (r, w') = get_secret w in write_if_ok r w'

    -- What Start does before its loop; an error is logged only.
    unfoldable pub prepare : World → World
    prepare w = (write_file [] w).1

    written_or_not : Result (Unit {0}) × World → Result (Unit {0}) × World
    written_or_not (r, w) = (ok tt, w)

    -- One round of Start's loop: after an error it sleeps and goes on.
    unfoldable pub iterate : World → Result (Unit {0}) × World
    unfolding written_or_not
    iterate w =
        let (r, w') = get_secret w in
        elim r [
          | ok secret ↦ written_or_not (write_file secret w')
          | err e ↦ (ok tt, w')
          | panic s ↦ (panic s, w')
        ]

    -- The first n rounds of Start's loop; a panic ends it.
    unfoldable pub rounds : ℕ → World → Result (Unit {0}) × World
    unfolding iterate
    rounds zero w = (ok tt, w)
    rounds (suc n) w =
        let (r, w') = iterate w in
        let later = rounds n w' in elim r [ ok u ↦ later | err e ↦ later | panic s ↦ (panic s, w') ]
