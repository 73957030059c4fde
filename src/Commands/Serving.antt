-- ===== src/Commands/Serving.antt =====
-- What the command `client` serves (internal/cmd/relaybaton/client.go).
use mathlib.Core.Path.{subst}
use relaybaton.Common.{
  ℕ, ◌^◌, ◌<◌, ◌≡◌, refl, ◌∙◌, Bool, true, false, Option, none, some, [], Result, ok, err,
  some_injective, ok_injective,
}
use relaybaton.Common.Integers.{pos}
use relaybaton.Config.Toml.{ClientToml, ConfigToml}
use relaybaton.Config.Init.{Host, ClientGo, ConfigGo}
use relaybaton.Config.Init
use relaybaton.Config.Load.{Call, panics, returns, new_conf_client}
use relaybaton.Config.Load.Laws.{IsLoaded, new_conf_client-IsLoaded}
use relaybaton.Router.State.{Router, Files, IsReady, new_router, new_router-IsReady}
use relaybaton.Router.State
use relaybaton.Client.React.{Client}
use relaybaton.Client.Starting.{new_client}
use relaybaton.Commands.{
  AppError, made, provide_client, start, start_loaded, run_client, run_started, client_exec,
}

-- A client that serves what its file says, and has no connection yet.
pub record IsServing {Reader : Type 0} (t : ConfigToml) (c : Client Reader) : Type 0 where
  pub client_toml : ClientToml
  pub section : t.client ≡ some client_toml
  pub port : client_toml.port ≡ pos c.port
  pub bounds : (0 < c.port) × (c.port < 2 ^ 16)
  pub username : c.account.username ≡ client_toml.username
  pub password : c.account.password ≡ client_toml.password
  pub conns : c.conns ≡ []
  pub shutdown : c.shutdown ≡ 0
  pub ready : IsReady c.router
  pub everything : client_toml.proxy_all ≡ true → c.router.on ≡ false

module _ {Reader : Type 0} (host : Host) (files : Files Reader) where
  run_started-inv :
      (serves : ℕ → Bool) (x : Call (Result AppError (Client Reader))) (c : Client Reader)
      (ended : Bool)
      → run_started host files serves x ≡ returns (c, ended)
      → (x ≡ returns (ok c)) × (ended ≡ serves c.port)
  unfolding run_started run_client
  run_started-inv serves panics c ended h = cc
  run_started-inv serves (returns (err e)) c ended h = cc
  run_started-inv serves (returns (ok d)) c ended h = (cc, cc)

  start_loaded-inv :
      (l : Call (Result Init.Error (ConfigGo host))) (c : Client Reader)
      → start_loaded host files false l ≡ returns (ok c)
      → (conf : ConfigGo host) × (l ≡ returns (ok conf))
        × (provide_client host files false conf.client ≡ returns (ok c))
  unfolding start_loaded start
  start_loaded-inv panics c h = cc
  start_loaded-inv (returns (err e)) c h = cc
  start_loaded-inv (returns (ok conf)) c h = (conf, refl, h)

  made-inv :
      (g : ClientGo) (r : Result State.Error (Router Reader)) (c : Client Reader)
      → made host files g r ≡ ok c
      → (router : Router Reader) × (r ≡ ok router)
        × (new_client router (record { username = g.username; password = g.password }) g.port ≡ c)
  unfolding made
  made-inv g (err e) c h = cc
  made-inv g (ok router) c h = (router, refl, ok_injective h)

  provided-made :
      (o : Option ClientGo) (g : ClientGo) (c : Client Reader)
      → o ≡ some g
      → provide_client host files false o ≡ returns (ok c)
      → made host files g (new_router g.proxy_all false files) ≡ ok c
  unfolding provide_client
  provided-made none g c e h = cc
  provided-made (some x) g c e h =
      subst (λ (y : ClientGo). made host files y (new_router y.proxy_all false files) ≡ ok c)
        (some_injective e) (cc)

  new_router-off :
      (p m : Bool) (r : Router Reader) → new_router p m files ≡ ok r → p ≡ true → r.on ≡ false
  unfolding new_router
  new_router-off true m r h e = cc
  new_router-off false m r h e = cc

  made-IsServing :
      (t : ConfigToml) (conf : ConfigGo host) (l : IsLoaded host t conf) (router : Router Reader)
      → new_router l.client_go.proxy_all false files ≡ ok router
      → IsServing t (
          new_client router
            (record { username = l.client_go.username; password = l.client_go.password })
            l.client_go.port)
  unfolding new_client
  made-IsServing t conf l router e = record {
    client_toml = l.client_toml;
    section = l.section;
    port = l.is_client.ports.port;
    bounds = (l.is_client.ports.positive.0, l.is_client.ports.bounded.0);
    username = l.is_client.username;
    password = l.is_client.password;
    conns = refl;
    shutdown = refl;
    ready = new_router-IsReady l.client_go.proxy_all false files router e;
    everything =
        λ h. new_router-off l.client_go.proxy_all false router e (l.is_client.proxy_all ∙ h);
  }

  -- If the command `client` comes to serve, then the file was read; what it serves is the port of the
  -- file, from 1 to 65535, with the account of the file, no connection, no shutdown under way, and a
  -- router that has a database where it is on, and that is off where everything is to be proxied.
  pub client_exec-IsServing :
      (serves : ℕ → Bool) (read : Option ConfigToml) (c : Client Reader) (ended : Bool)
      → client_exec host files serves read ≡ returns (c, ended)
      → (t : ConfigToml) × (read ≡ some t) × IsServing t c × (ended ≡ serves c.port)
  unfolding client_exec provide_client
  client_exec-IsServing serves read c ended h =
      let (started, e) =
        run_started-inv serves (start_loaded host files false (new_conf_client host read)) c ended
          h in
      let (conf, loaded, provided) = start_loaded-inv (new_conf_client host read) c started in
      let (t, was, l) = new_conf_client-IsLoaded host read conf loaded in
      let (router, made_router, same) =
        made-inv l.client_go (new_router l.client_go.proxy_all false files) c
          (provided-made conf.client l.client_go c l.client provided) in
      (t, was, subst (IsServing t) same (made-IsServing t conf l router made_router), e)

  -- A configuration that is refused ends the command with a panic, and not with the error.
  client_exec-panics :
      (serves : ℕ → Bool) (read : Option ConfigToml) (e : Init.Error)
      → new_conf_client host read ≡ returns (err e)
      → client_exec host files serves read ≡ panics
  unfolding client_exec start_loaded start run_started
  client_exec-panics serves read e h = rw (h, start_loaded, start, run_started)
