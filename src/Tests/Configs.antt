-- ===== src/Tests/Configs.antt =====
-- A host on which every file can be opened, and the files and forms of a client.
use relaybaton.Common.{
  String, ◌≡◌, refl, Bool, true, false, Option, none, some, if◌then◌else◌, ◌==◌, same_nat,
  same_string, same_bytes, ok,
}
use relaybaton.Common.Dict
use relaybaton.Common.Dict.{Dict}
use relaybaton.Common.Integers.{ℤ, pos, u16_of_int}
use relaybaton.Config.Toml.{ConfigToml}
use relaybaton.Config.Validate.{Formats, valid_config, valid_log, valid_dns, valid_client}
use relaybaton.Config.Init.{Host, ConfigGo, file, missing, doh, init_config, init_client}
use relaybaton.Config.Load.{
  Value, number, text, flag, returns, save_client, new_conf, new_conf_client,
}
use relaybaton.Config.Load.Laws.{IsLoaded, new_conf_client-IsLoaded}
use relaybaton.Config.Load.Saving.{Fills, client_file, client_part, new_conf_client-save_client}
use relaybaton.Bindings.Desktop.{
  Form, log_of_form, dns_of_form, client_of_form, save_form, open_form, run_form,
}
use relaybaton.Bindings.Desktop.Saved.{file_of_form, save_form-new_conf_client, save_form-open_form}

abbrev pub formats : Formats
formats = record {
  hostname = λ s. s == "example.org";
  hostname_or_fqdn = λ s. s == "dns.example.org";
  address = λ s. s == "203.0.113.1";
}

abbrev pub host : Host
host = record {
  formats = formats;
  File = String;
  Level = String;
  Addr = String;
  stat = λ path. if path == "old.xml" then file else missing;
  open_file = λ path. some path;
  parse_level = λ level. some level;
  resolve_tcp_addr = λ addr. none;
  is_ip = λ addr. addr == "203.0.113.1";
  resolve_ip_addr = λ addr. some addr;
}

abbrev form : Form
form = record {
  port = pos 1080;
  http_port = pos 1088;
  redir_port = pos 1090;
  server = "example.org";
  username = "alice";
  password = "secret";
  proxy_all = pos 7;
  dns_type = "doh";
  dns_server = "dns.example.org";
  dns_addr = "203.0.113.1";
  log_file = "new.xml";
  log_level = "info";
}

-- What viper reads: the sections of which it finds the keys.
section : {A : Type 0} → Option Value → A → Option A
section (some v) a = some a
section none a = none

int_of : Option Value → ℤ
int_of (some (number n)) = n
int_of (some (text s)) = pos 0
int_of (some (flag b)) = pos 0
int_of none = pos 0

text_of : Option Value → String
text_of (some (text s)) = s
text_of (some (number n)) = ""
text_of (some (flag b)) = ""
text_of none = ""

flag_of : Option Value → Bool
flag_of (some (flag b)) = b
flag_of (some (number n)) = false
flag_of (some (text s)) = false
flag_of none = false

pub viper : Dict String Value → Option ConfigToml
unfolding section int_of text_of flag_of
viper d = some (record {
  log =
      section (Dict.get "log.file" d) (record {
        file = text_of (Dict.get "log.file" d);
        level = text_of (Dict.get "log.level" d);
      });
  dns = section (Dict.get "dns.type" d) (record {
    type = text_of (Dict.get "dns.type" d);
    server = text_of (Dict.get "dns.server" d);
    addr = text_of (Dict.get "dns.addr" d);
  });
  client = section (Dict.get "client.port" d) (record {
    port = int_of (Dict.get "client.port" d);
    http_port = int_of (Dict.get "client.http_port" d);
    redir_port = int_of (Dict.get "client.redir_port" d);
    server = text_of (Dict.get "client.server" d);
    username = text_of (Dict.get "client.username" d);
    password = text_of (Dict.get "client.password" d);
    proxy_all = flag_of (Dict.get "client.proxy_all" d);
  });
  server = none;
  db = none;
})

pub viper-Fills : (d : Dict String Value) (u : ConfigToml) → Fills d u → viper d ≡ some u
unfolding viper section
viper-Fills d u (client_file {log} {dns} {client} p hp rp s un pw pa dt ds da lf ll sp sa db) =
    rw (p, hp, rp, s, un, pw, pa, dt, ds, da, lf, ll) refl

abbrev pub served : ConfigToml
served = record {
  log = some (record { file = "new.xml"; level = "info" });
  dns = some (record { type = "doh"; server = "dns.example.org"; addr = "203.0.113.1" });
  client = some (record {
    port = pos 1080;
    http_port = pos 1088;
    redir_port = pos 1090;
    server = "example.org";
    username = "alice";
    password = "secret";
    proxy_all = true;
  });
  server = some (record { port = pos 443; admin_password = "root" });
  db = none;
}

abbrev served_conf : ConfigGo host
served_conf = record {
  toml = served;
  log = record { file = "new.xml"; level = "info" };
  dns = record { type = doh; server = "dns.example.org"; addr = some "203.0.113.1" };
  client = some (record {
    port = 1080;
    http_port = 1088;
    redir_port = 1090;
    server = "example.org";
    username = "alice";
    password = "secret";
    proxy_all = true;
  });
  server = none;
}

served_made : new_conf_client host (some served) ≡ returns (ok served_conf)
unfolding new_conf_client new_conf init_config valid_config valid_log valid_dns valid_client
    init_client u16_of_int
served_made = refl

new_conf_client-IsLoaded_example :
    (t : ConfigToml) × (some served ≡ some t) × IsLoaded host t served_conf
new_conf_client-IsLoaded_example =
    new_conf_client-IsLoaded host (some served) served_conf served_made

new_conf_client-save_client_example :
    (d : Dict String Value) × (save_client host served_conf ≡ returns d)
    × (new_conf_client host (viper d)
        ≡ returns (ok (record served_conf { toml = client_part served })))
new_conf_client-save_client_example =
    new_conf_client-save_client host viper served served_conf viper-Fills served_made

abbrev pub writes : Dict String Value → Bool
writes d = true

form_saved : save_form host writes form ≡ returns (ok (file_of_form form))
unfolding save_form valid_config valid_log log_of_form valid_dns dns_of_form valid_client
    client_of_form init_config save_client file_of_form
form_saved = refl

save_form-new_conf_client_example :
    (conf : ConfigGo host) × (run_form host form ≡ ok conf)
    × (new_conf_client host (viper (file_of_form form)) ≡ returns (ok conf))
save_form-new_conf_client_example =
    save_form-new_conf_client host writes viper form (file_of_form form) viper-Fills form_saved

save_form-open_form_example :
    open_form formats (viper (file_of_form form)) ≡ (record form { proxy_all = pos 1 }, ok tt)
save_form-open_form_example =
    save_form-open_form host writes viper form (file_of_form form) viper-Fills form_saved
