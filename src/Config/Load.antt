-- ===== src/Config/Load.antt =====
-- `NewConf`, `NewConfClient`, `NewConfServer`, `InitClient` and `SaveClient` of pkg/config/config.go.
-- What viper reads and unmarshals is an argument: `none` is an error.
pub mod Laws
pub mod Served
pub mod Saving
use relaybaton.Common.{
  String, Bool, Option, none, some, [], ◌∷◌, same_nat, same_string, same_bytes, Result, ok, err,
  ◌>>=◌, ◌>>◌, guard,
}
use relaybaton.Common.Dict.{Dict}
use relaybaton.Common.Integers.{ℤ}
use relaybaton.Config.Toml.{LogToml, DnsToml, ClientToml, ConfigToml}
use relaybaton.Config.Validate.{valid_client, valid_server, valid_db, there}
use relaybaton.Config.Init.{
  Host, Error, invalid, or_error, ConfigGo, init_config, init_client, init_server,
}
use relaybaton.Config.Database.{Drivers, DbGo, init_db}

-- A call that can panic.
pub data Call {ℓ} (A : Type ℓ) : Type ℓ where
  panics : Call A
  returns : A → Call A

-- The value of a key.
pub data Value : Type 0 where
  number : ℤ → Value
  text : String → Value
  flag : Bool → Value

-- The keys that `SaveClient` sets, from the sections of the file that was read; it panics where one
-- of them is nil.
pub settings : LogToml → DnsToml → ClientToml → Dict String Value
settings log dns client =
    ("client.port", number client.port)
    ∷ ("client.http_port", number client.http_port)
    ∷ ("client.redir_port", number client.redir_port)
    ∷ ("client.server", text client.server)
    ∷ ("client.username", text client.username)
    ∷ ("client.password", text client.password)
    ∷ ("client.proxy_all", flag client.proxy_all)
    ∷ ("dns.type", text dns.type)
    ∷ ("dns.server", text dns.server)
    ∷ ("dns.addr", text dns.addr)
    ∷ ("log.file", text log.file)
    ∷ ("log.level", text log.level)
    ∷ []

save_sections : Option LogToml → Option DnsToml → Option ClientToml → Call (Dict String Value)
unfolding settings
save_sections (some log) (some dns) (some client) = returns (settings log dns client)
save_sections (some log) (some dns) none = panics
save_sections (some log) none client = panics
save_sections none dns client = panics

module _ (host : Host) where
  open host use {formats}

  unfoldable pub save_client : ConfigGo host → Call (Dict String Value)
  unfolding save_sections
  save_client conf = save_sections conf.toml.log conf.toml.dns conf.toml.client

  pub panic_on_error : Result Error (ConfigGo host) → Call (ConfigGo host)
  panic_on_error (ok conf) = returns conf
  panic_on_error (err e) = panics

  unfoldable pub new_conf : Option ConfigToml → Call (ConfigGo host)
  unfolding panic_on_error
  new_conf none = panics
  new_conf (some t) = panic_on_error (init_config host t)

  unfoldable pub init_conf_client : ConfigGo host → Result Error (ConfigGo host)
  init_conf_client conf = do
    guard (there (valid_client formats) conf.toml.client) invalid
    t ← or_error invalid conf.toml.client
    ok (record conf { client = some (init_client t) })

  -- The configuration that `NewConfClient` returns beside an error is not used.
  pub client_of : Call (ConfigGo host) → Call (Result Error (ConfigGo host))
  unfolding init_conf_client
  client_of panics = panics
  client_of (returns conf) = returns (init_conf_client conf)

  unfoldable pub new_conf_client : Option ConfigToml → Call (Result Error (ConfigGo host))
  unfolding client_of
  new_conf_client read = client_of (new_conf read)

  module _ (drivers : Drivers) where
    unfoldable pub init_conf_server : ConfigGo host → Result Error (ConfigGo host × DbGo drivers)
    init_conf_server conf = do
      guard (there valid_server conf.toml.server) invalid
      server ← or_error invalid conf.toml.server
      guard (there valid_db conf.toml.db) invalid
      db_toml ← or_error invalid conf.toml.db
      db ← init_db drivers db_toml
      ok (record conf { server = some (init_server server) }, db)

    pub server_of : Call (ConfigGo host) → Call (Result Error (ConfigGo host × DbGo drivers))
    unfolding init_conf_server
    server_of panics = panics
    server_of (returns conf) = returns (init_conf_server conf)

    unfoldable pub new_conf_server :
        Option ConfigToml → Call (Result Error (ConfigGo host × DbGo drivers))
    unfolding server_of
    new_conf_server read = server_of (new_conf read)
