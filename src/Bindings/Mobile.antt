-- ===== src/Bindings/Mobile.antt =====
-- cmd/relaybaton_mobile/main.go: the object that the Android program holds. What viper reads is an
-- argument, as is whether it can write. The addresses and levels are those of the packages `net` and
-- `logrus`, and so are their texts.
pub mod Saved
use relaybaton.Common.{
  ℕ, Bytes, String, Bool, Option, none, some, if◌then◌else◌, same_nat, same_string, same_bytes,
  Result, ok, err, ◌>>=◌, ◌>>◌, guard,
}
use relaybaton.Common.Dict.{Dict}
use relaybaton.Common.Integers.{ℤ, pos, u16_of_int}
use relaybaton.Config.Toml.{LogToml, DnsToml, ClientToml, ConfigToml}
use relaybaton.Config.Validate.{valid_client, there}
use relaybaton.Config.Init.{
  Host, Error, DnsType, default, dot, doh, ClientGo, ConfigGo, init_client, init_config, invalid,
  or_error, read_error, write_error,
}
use relaybaton.Config.Load.{Value, Call, panics, returns, save_client}

-- The arguments of `Save`.
pub record Choice : Type 0 where
  pub server : String
  pub username : String
  pub password : String
  pub proxy_all : Bool
  pub dns_type : String
  pub dns_server : String
  pub dns_addr : String
  pub log_level : String

unfoldable pub log_of_choice : Choice → LogToml
log_of_choice c = record {
  file = "/data/data/org.iyouport.relaybaton_android/files/log.xml";
  level = c.log_level;
}

unfoldable pub dns_of_choice : Choice → DnsToml
dns_of_choice c = record { type = c.dns_type; server = c.dns_server; addr = c.dns_addr }

pub client_of_choice : Choice → ClientToml
client_of_choice c = record {
  port = pos 1080;
  http_port = pos 1088;
  redir_port = pos 1090;
  server = c.server;
  username = c.username;
  password = c.password;
  proxy_all = c.proxy_all;
}

unfoldable pub toml_of_choice : Choice → ConfigToml
toml_of_choice c = record {
  log = some (log_of_choice c);
  dns = some (dns_of_choice c);
  client = some (client_of_choice c);
  server = none;
  db = none;
}

-- `AndroidError` around an error, which can be nil.
pub record AndroidError (E : Type 0) : Type 0 where
  pub error : Option E

module _ {E : Type 0} where
  -- `Error`.
  pub message : (E → String) → AndroidError E → Call String
  message text e = message_of e.error
    where
      message_of : Option E → Call String
      message_of none = panics
      message_of (some x) = returns (text x)

  -- `Run`, from what `app.Start` and `client.Run` return; the result is nil or an error.
  pub run_android : Option E → Option E → Option (AndroidError E)
  run_android (some e) run = some (record { error = some e })
  run_android none (some e) = some (record { error = some e })
  run_android none none = some (record { error = none })

  -- `Shutdown`, from what `lwipStack.Close` and `app.Stop` return.
  shutdown_android : Option E → Option E → Option (AndroidError E)
  shutdown_android (some e) stop = some (record { error = some e })
  shutdown_android none stop = some (record { error = stop })

-- The stack of the phone, by where it sends its connections.
record Stack : Type 0 where
  pub proxy_host : String
  pub proxy_port : ℕ

-- `StartSocks`, from whether there is a flow of packets; the port is cut off to 16 bits.
start_socks : Bool → String → ℤ → Option Stack → Option Stack
start_socks flow proxy_host proxy_port stack =
    if flow
    then some (record { proxy_host = proxy_host; proxy_port = u16_of_int proxy_port })
    else stack

-- `InputPacket`: what the stack is given.
input_packet : Option Stack → Bytes → Call Bytes
input_packet none packet = panics
input_packet (some stack) packet = returns packet

module _ (host : Host) where
  open host use {formats, Addr, Level}

  -- The configuration of the object that `NewAndroid` makes.
  pub new_android : Option ConfigToml → Result Error (ConfigGo host)
  new_android read = do
    t ← or_error read_error read
    made ← init_config host t
    guard (there (valid_client formats) t.client) invalid
    client ← or_error invalid t.client
    ok (record made { client = some (init_client client) })

  module _ (writes : Dict String Value → Bool) where
    pub written :
        ConfigGo host
        → Call (Dict String Value)
        → Call (Result Error (ConfigGo host × Dict String Value))
    written conf panics = panics
    written conf (returns d) = returns (if writes d then ok (conf, d) else err write_error)

    pub saved :
        Result Error (ConfigGo host) → Call (Result Error (ConfigGo host × Dict String Value))
    unfolding written
    saved (ok conf) = written conf (save_client host conf)
    saved (err e) = returns (err e)

    -- The configuration that takes the place of the object's, and the file. Beside an error, the
    -- object keeps the one that it has.
    unfoldable pub save_android : Choice → Call (Result Error (ConfigGo host × Dict String Value))
    unfolding saved
    save_android c = saved (do
      made ← init_config host (toml_of_choice c)
      ok (record made { client = some (init_client (client_of_choice c)) }))

  -- The field of a pointer, which can be nil.
  field : {A B : Type 0} → (A → B) → Option A → Call B
  field read none = panics
  field read (some a) = returns (read a)

  get_client_server : ConfigGo host → Call String
  unfolding field
  get_client_server conf = field (λ (c : ClientGo). c.server) conf.client

  get_client_username : ConfigGo host → Call String
  unfolding field
  get_client_username conf = field (λ (c : ClientGo). c.username) conf.client

  get_client_password : ConfigGo host → Call String
  unfolding field
  get_client_password conf = field (λ (c : ClientGo). c.password) conf.client

  get_client_proxy_all : ConfigGo host → Call Bool
  unfolding field
  get_client_proxy_all conf = field (λ (c : ClientGo). c.proxy_all) conf.client

  get_dns_type : ConfigGo host → String
  get_dns_type conf = text_of conf.dns.type
    where
      text_of : DnsType → String
      text_of default = "default"
      text_of dot = "dot"
      text_of doh = "doh"

  get_dns_server : ConfigGo host → String
  get_dns_server conf = conf.dns.server

  -- `String` of a nil `net.Addr` panics.
  get_dns_addr : (Addr → String) → ConfigGo host → Call String
  unfolding field
  get_dns_addr text conf = field text conf.dns.addr

  get_log_level : (Level → String) → ConfigGo host → String
  get_log_level text conf = text conf.log.level
