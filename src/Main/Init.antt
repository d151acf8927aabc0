-- ===== src/Main/Init.antt =====
-- main as an init container, from the configuration to the files.
use hasura_secret_refresh.Base.{◌≡◌, Option, arith}
use hasura_secret_refresh.Strings.{Text}
use hasura_secret_refresh.Strings.Laws.{str_eq_refl}
use hasura_secret_refresh.Value.{Object}
use hasura_secret_refresh.Result.{Result, ok}
use hasura_secret_refresh.FileLoop.{World}
use hasura_secret_refresh.Main.Own.{Outside, IsOwn}
use hasura_secret_refresh.Main.{Config, init_container, parse_config, run_init}
use hasura_secret_refresh.Main.Providers.{parse_config-All}
use hasura_secret_refresh.Main.Files.{AllDiffer, AllHold, run_init-AllHold}
use hasura_secret_refresh.Main.Start.{exited, deploy, start}
use hasura_secret_refresh.Main.Assembly.{ProxyMakers, assembled, assembled-AllMake}

deploy-run_init :
    (handle : Text → Result (Unit {0})) (c : Config World) (endpoint : Option Text) (w w' : World)
    → c.deployment_type ≡ init_container
    → deploy handle c endpoint w ≡ exited 0 w'
    → run_init c.file_providers w ≡ (0, w')
unfolding deploy
deploy-run_init handle c endpoint w w' kind e = ground (arith, str_eq_refl init_container, kind)

-- If main, with the repository's own file providers, accepts a configuration of the type
-- initcontainer and exits with 0, the file of every file provider that it configures holds, with mode
-- 0644, the provider's own secret of its turn: what its transformation and its template made of its
-- input file, or of what its store answered, or a token that its database had accepted; unless two
-- providers have one file.
pub start-AllHold :
    {C : Type 0} (out : Outside C) (proxies : ProxyMakers) (handle : Text → Result (Unit {0}))
    (conf : Object) (endpoint : Text) (c : Config World) (w w' : World)
    → parse_config (assembled out proxies) conf ≡ ok c
    → c.deployment_type ≡ init_container
    → AllDiffer c.file_providers
    → start handle (assembled out proxies) conf endpoint w ≡ exited 0 w'
    → AllHold out c.file_providers w w'
unfolding start
start-AllHold out proxies handle conf endpoint c w w' parsed kind differ e =
    run_init-AllHold out c.file_providers w w'
      (parse_config-All (IsOwn out) (assembled out proxies) (assembled-AllMake out proxies) conf c
        parsed)
      differ (deploy-run_init handle c _ w w' kind (rw (start, parsed) at e))
