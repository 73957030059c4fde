-- ===== src/Config/Load/Served.antt =====
-- What a server's configuration that was loaded promises (pkg/config/config.go, server.go and db.go).
use mathlib.Core.Path.{subst}
use relaybaton.Common.{
  bind_ok, ◌^◌, ◌<◌, ◌≡◌, refl, sym, ap, ◌∙◌, Bool, true, false, Option, none, some, Result, ok,
  err, ok_injective, &&-split, guard,
}
use relaybaton.Common.Integers.{pos}
use relaybaton.Config.Toml.{ServerToml, DbToml, ConfigToml}
use relaybaton.Config.Validate.{filled, port_number, there, valid_server, valid_db}
use relaybaton.Config.Init.{
  Host, Error, ConfigGo, ServerGo, invalid, or_error, init_server, init_config,
}
use relaybaton.Config.Database.{Drivers, DbGo, init_db}
use relaybaton.Config.Database.Opened.{IsOpened, or_error_ok, init_db-IsOpened}
use relaybaton.Config.Load.{
  returns, new_conf, new_conf_server, init_conf_server, server_of, panic_on_error,
}
use relaybaton.Config.Load.Laws.{port_number-fits, init_config-toml}

-- The port is the one of the file, from 1 to 65535, and so is the password, which is not empty.
pub record IsServerOf (t : ServerToml) (g : ServerGo) : Type 0 where
  pub port : t.port ≡ pos g.port
  pub positive : 0 < g.port
  pub bounded : g.port < 2 ^ 16
  pub admin_password : g.admin_password ≡ t.admin_password
  pub has_password : filled g.admin_password ≡ true

valid_server-IsServerOf : (t : ServerToml) → valid_server t ≡ true → IsServerOf t (init_server t)
unfolding valid_server init_server
valid_server-IsServerOf t v =
    let (vp, vf) = &&-split (port_number t.port) _ v in
    let (e, l, b) = port_number-fits t.port vp in
    record { port = e; positive = l; bounded = b; admin_password = refl; has_password = vf }

guard_ok {ℓ} : {E : Type ℓ} (b : Bool) (e : E) (u : Unit {0}) → guard b e ≡ ok u → b ≡ true
guard_ok true e u h = refl
guard_ok false e u h = cc

module _ (host : Host) (drivers : Drivers) where
  -- The sections that a server's configuration which was loaded has, and what was made of them.
  pub record IsServed (t : ConfigToml) (conf : ConfigGo host) (db : DbGo drivers) : Type 0 where
    pub server_toml : ServerToml
    pub server_go : ServerGo
    pub db_toml : DbToml
    pub section : t.server ≡ some server_toml
    pub server : conf.server ≡ some server_go
    pub is_server : IsServerOf server_toml server_go
    pub db_section : t.db ≡ some db_toml
    pub is_opened : IsOpened drivers db_toml db

  init_conf_server-IsServed :
      (made conf : ConfigGo host) (db : DbGo drivers)
      → init_conf_server host drivers made ≡ ok (conf, db)
      → IsServed made.toml conf db
  unfolding init_conf_server
  init_conf_server-IsServed made conf db h =
      let (u, valid, h1) = bind_ok (guard (there valid_server made.toml.server) invalid) _ _ h in
      let (server, has, h2) = bind_ok (or_error invalid made.toml.server) _ _ h1 in
      let (u', valid', h3) = bind_ok (guard (there valid_db made.toml.db) invalid) _ _ h2 in
      let (db_toml, has', h4) = bind_ok (or_error invalid made.toml.db) _ _ h3 in
      let (opened, o, h5) = bind_ok (init_db drivers db_toml) _ _ h4 in
      let section = or_error_ok invalid made.toml.server server has in
      let same = ok_injective h5 in
      record {
        server_toml = server;
        server_go = init_server server;
        db_toml = db_toml;
        section = section;
        server = ap (λ (x : ConfigGo host × DbGo drivers). x.0.server) (sym same);
        is_server = valid_server-IsServerOf server (
            ap (there valid_server) (sym section)
            ∙ guard_ok (there valid_server made.toml.server) invalid u valid);
        db_section = or_error_ok invalid made.toml.db db_toml has';
        is_opened =
            init_db-IsOpened drivers db_toml db
              (o ∙ ap (λ (x : ConfigGo host × DbGo drivers). ok x.1) same);
      }

  server_of-made :
      (r : Result Error (ConfigGo host)) (served : ConfigGo host × DbGo drivers)
      → server_of host drivers (panic_on_error host r) ≡ returns (ok served)
      → (made : ConfigGo host) × (r ≡ ok made) × (init_conf_server host drivers made ≡ ok served)
  unfolding server_of panic_on_error
  server_of-made (err x) served h = cc
  server_of-made (ok made) served h = (made, refl, cc)

  -- If `NewConfServer` returns a configuration, then the file was read and has the two sections of a
  -- server: the port is the one of the file, not cut off to 16 bits and not 0, and the administrator's
  -- password is the one of the file and not empty; the database was opened by the driver of the name
  -- in the file with that driver's connection string, written out, and then the tables of the users,
  -- of the log, of the meta data, of the notices and of the plans were migrated, each without an
  -- error.
  pub new_conf_server-IsServed :
      (read : Option ConfigToml) (conf : ConfigGo host) (db : DbGo drivers)
      → new_conf_server host drivers read ≡ returns (ok (conf, db))
      → (t : ConfigToml) × (read ≡ some t) × IsServed t conf db
  unfolding new_conf_server new_conf
  new_conf_server-IsServed none conf db h = cc
  new_conf_server-IsServed (some t) conf db h =
      let (made, e, c) = server_of-made (init_config host t) (conf, db) h in
      (
        t,
        refl,
        subst (λ (x : ConfigToml). IsServed x conf db) (init_config-toml host t made e)
            (init_conf_server-IsServed made conf db c),
      )
