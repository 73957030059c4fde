-- ===== src/Bindings/Desktop.antt =====
-- cmd/desktop/core.go: the form that the window of the desktop program fills in, and what
-- `OpenConfFile`, `SaveConfFile`, `Validate` and `Run` make of it. An error is returned as its text
-- and the lack of one as the empty text. What viper reads from a file is an argument, as is whether
-- it can write one.
pub mod Saved
use relaybaton.Common.{
  String, Bool, not, Option, none, some, if◌then◌else◌, same_nat, same_string, same_bytes, Result,
  ok, err, ◌>>=◌, ◌>>◌, guard,
}
use relaybaton.Common.Dict.{Dict}
use relaybaton.Common.Integers.{ℤ, pos, ◌=ℤ◌, i32_of_int}
use relaybaton.Config.Toml.{LogToml, DnsToml, ClientToml, ConfigToml}
use relaybaton.Config.Validate.{Formats, valid_config, valid_client, there}
use relaybaton.Config.Init.{
  Host, Error, ConfigGo, init_client, init_config, invalid, or_error, read_error, write_error,
}
use relaybaton.Config.Load.{Value, Call, panics, returns, save_client, init_conf_client}

pub record Form : Type 0 where
  pub port : ℤ
  pub http_port : ℤ
  pub redir_port : ℤ
  pub server : String
  pub username : String
  pub password : String
  pub proxy_all : ℤ
  pub dns_type : String
  pub dns_server : String
  pub dns_addr : String
  pub log_file : String
  pub log_level : String

-- What `OpenConfFile` returns beside an error.
abbrev blank_form : Form
blank_form = record {
  port = pos 0;
  http_port = pos 0;
  redir_port = pos 0;
  server = "";
  username = "";
  password = "";
  proxy_all = pos 0;
  dns_type = "";
  dns_server = "";
  dns_addr = "";
  log_file = "";
  log_level = "";
}

unfoldable pub log_of_form : Form → LogToml
log_of_form f = record { file = f.log_file; level = f.log_level }

unfoldable pub dns_of_form : Form → DnsToml
dns_of_form f = record { type = f.dns_type; server = f.dns_server; addr = f.dns_addr }

unfoldable pub client_of_form : Form → ClientToml
client_of_form f = record {
  port = f.port;
  http_port = f.http_port;
  redir_port = f.redir_port;
  server = f.server;
  username = f.username;
  password = f.password;
  proxy_all = not (f.proxy_all =ℤ pos 0);
}

-- The literal that `SaveConfFile`, `Validate` and `Run` share.
pub toml_of_form : Form → ConfigToml
toml_of_form f = record {
  log = some (log_of_form f);
  dns = some (dns_of_form f);
  client = some (client_of_form f);
  server = none;
  db = none;
}

module _ (formats : Formats) where
  -- `validate.Struct` of the whole, then of the client's section.
  pub validate_toml : ConfigToml → Result Error (Unit {0})
  validate_toml t = do
    guard (valid_config formats t) invalid
    guard (there (valid_client formats) t.client) invalid

  pub validate_form : Form → Result Error (Unit {0})
  unfolding toml_of_form validate_toml
  validate_form f = validate_toml (toml_of_form f)

  pub form_of_toml : ConfigToml → Result Error Form
  unfolding validate_toml
  form_of_toml t = do
    validate_toml t
    client ← or_error invalid t.client
    dns ← or_error invalid t.dns
    log ← or_error invalid t.log
    ok (record {
      port = i32_of_int client.port;
      http_port = i32_of_int client.http_port;
      redir_port = i32_of_int client.redir_port;
      server = client.server;
      username = client.username;
      password = client.password;
      proxy_all = if client.proxy_all then pos 1 else pos 0;
      dns_type = dns.type;
      dns_server = dns.server;
      dns_addr = dns.addr;
      log_file = log.file;
      log_level = log.level;
    })

  pub shown : Result Error Form → Form × Result Error (Unit {0})
  shown (ok f) = (f, ok tt)
  shown (err e) = (blank_form, err e)

  pub open_form : Option ConfigToml → Form × Result Error (Unit {0})
  unfolding form_of_toml shown
  open_form none = (blank_form, err read_error)
  open_form (some t) = shown (form_of_toml t)

module _ (host : Host) where
  open host use {formats}

  -- The function that `Run` provides.
  pub run_form : Form → Result Error (ConfigGo host)
  unfolding toml_of_form
  run_form f = do made ← init_config host (toml_of_form f); init_conf_client host made

  pub form_conf : Form → Result Error (ConfigGo host)
  unfolding toml_of_form validate_form
  form_conf f = do
    validate_form formats f
    made ← init_config host (toml_of_form f)
    ok (record made { client = some (init_client (client_of_form f)) })

  module _ (writes : Dict String Value → Bool) where
    pub written : Call (Dict String Value) → Call (Result Error (Dict String Value))
    written panics = panics
    written (returns d) = returns (if writes d then ok d else err write_error)

    pub saved : Result Error (ConfigGo host) → Call (Result Error (Dict String Value))
    unfolding written
    saved (ok conf) = written (save_client host conf)
    saved (err e) = returns (err e)

    -- The file that is written, where one is.
    unfoldable pub save_form : Form → Call (Result Error (Dict String Value))
    unfolding form_conf saved
    save_form f = saved (form_conf f)
