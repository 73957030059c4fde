-- ===== src/Commands.antt =====
-- The programs that start a client or a server: internal/cmd/relaybaton, `Run` of cmd/desktop/core.go
-- and of cmd/relaybaton_mobile/main.go, and `Client.Run` of pkg/core/client.go. fx calls the
-- functions that are provided when their results are asked for, and `app.Start` returns the first
-- error; `InitLog` and `InitDNS`, which it calls too, have none. What gnet answers is a parameter.
pub mod Serving
use relaybaton.Common.{ℕ, Bool, true, false, Option, none, some, Result, ok, err}
use relaybaton.Config.Toml.{ConfigToml}
use relaybaton.Config.Init.{Host, ClientGo, ConfigGo}
use relaybaton.Config.Init
use relaybaton.Config.Database.{Drivers, DbGo}
use relaybaton.Config.Load.{Call, panics, returns, new_conf_client, new_conf_server}
use relaybaton.Router.State.{Router, Files, new_router}
use relaybaton.Router.State
use relaybaton.Client.Conn.{Account}
use relaybaton.Client.React.{Client}
use relaybaton.Client.Starting.{new_client}
use relaybaton.Bindings.Desktop.{Form, run_form}
use relaybaton.Bindings.Mobile.{AndroidError, run_android}
use relaybaton.Server.Starting.{Random, SessionKeys, StartError, session_keys, run}

-- Why `app.Start` fails.
pub data AppError : Type 0 where
  not_loaded : Init.Error → AppError
  no_router : State.Error → AppError

module _ {Reader : Type 0} (host : Host) (files : Files Reader) where
  pub made : ClientGo → Result State.Error (Router Reader) → Result AppError (Client Reader)
  unfolding new_client
  made g (err e) = err (no_router e)
  made g (ok router) =
      ok (new_client router (record { username = g.username; password = g.password }) g.port)

  -- `NewRouter` and `NewClient`; both read the section of the client.
  pub provide_client : Bool → Option ClientGo → Call (Result AppError (Client Reader))
  unfolding made
  provide_client is_mobile none = panics
  provide_client is_mobile (some g) = returns (made g (new_router g.proxy_all is_mobile files))

  pub start : Bool → Result Init.Error (ConfigGo host) → Call (Result AppError (Client Reader))
  unfolding provide_client
  start is_mobile (err e) = returns (err (not_loaded e))
  start is_mobile (ok conf) = provide_client is_mobile conf.client

  pub start_loaded :
      Bool → Call (Result Init.Error (ConfigGo host)) → Call (Result AppError (Client Reader))
  unfolding start
  start_loaded is_mobile panics = panics
  start_loaded is_mobile (returns loaded) = start is_mobile loaded

  module _ (serves : ℕ → Bool) where
    -- `Client.Run`: whether `gnet.Serve` on the port of the client ends with no error.
    pub run_client : Client Reader → Bool
    run_client c = serves c.port

    -- After an error of `app.Start`, the client is nil, and is run all the same.
    pub run_started : Call (Result AppError (Client Reader)) → Call (Client Reader × Bool)
    unfolding run_client
    run_started panics = panics
    run_started (returns (err e)) = panics
    run_started (returns (ok c)) = returns (c, run_client c)

    unfoldable pub client_exec : Option ConfigToml → Call (Client Reader × Bool)
    unfolding run_started start_loaded
    client_exec read = run_started (start_loaded false (new_conf_client host read))

  -- `Run` of the desktop program: the error, or the client that a goroutine runs.
  pub run_desktop : Form → Call (Result AppError (Client Reader))
  unfolding start
  run_desktop form = start false (run_form host form)

  -- `app.Start` or `client.Run` of the Android program.
  data RunError : Type 0 where
    start_error : AppError → RunError
    serve_error : RunError

  serve_failed : Bool → Option RunError
  serve_failed true = none
  serve_failed false = some serve_error

  run_result :
      (ℕ → Bool) → Call (Result AppError (Client Reader)) → Call (Option (AndroidError RunError))
  unfolding serve_failed run_client
  run_result serves panics = panics
  run_result serves (returns (err e)) = returns (run_android (some (start_error e)) none)
  run_result serves (returns (ok c)) =
      returns (run_android none (serve_failed (run_client serves c)))

  -- `RelaybatonAndroid.Run`, of the configuration that `NewAndroid` has made.
  run_mobile : (ℕ → Bool) → ConfigGo host → Call (Option (AndroidError RunError))
  unfolding run_result start
  run_mobile serves conf = run_result serves (start true (ok conf))

module _ (host : Host) (drivers : Drivers) (random : Random) (listens : ℕ → Bool) where
  -- `Server.Run` of a nil pointer: it panics once it has its keys.
  run_nil : Result StartError SessionKeys → Call (Result StartError (SessionKeys × ℕ))
  run_nil (err e) = returns (err e)
  run_nil (ok keys) = panics

  run_server :
      Call (Result Init.Error (ConfigGo host × DbGo drivers))
      → Call (Result StartError (SessionKeys × ℕ))
  unfolding run_nil
  run_server panics = panics
  run_server (returns (err e)) = run_nil (session_keys random)
  run_server (returns (ok conf)) = returns (run random listens)

  server_exec : Option ConfigToml → Call (Result StartError (SessionKeys × ℕ))
  unfolding run_server
  server_exec read = run_server (new_conf_server host drivers read)
