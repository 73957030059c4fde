-- ===== src/Tests/Servers.antt =====
-- A server whose file names a database.
use relaybaton.Common.{ℕ, ◌+◌, ◌≡◌, refl, none, some, ok}
use relaybaton.Common.Integers.{pos, u16_of_int}
use relaybaton.Config.Toml.{ConfigToml}
use relaybaton.Config.Validate.{valid_config, valid_log, valid_dns, valid_server, valid_db}
use relaybaton.Config.Init.{ConfigGo, doh, init_config, init_server}
use relaybaton.Config.Database.{sqlite3, Drivers, DbGo, db_type_of, migrate, init_db}
use relaybaton.Config.Load.{returns, new_conf, new_conf_server, init_conf_server}
use relaybaton.Config.Load.Served.{IsServed, new_conf_server-IsServed}
use relaybaton.Tests.Configs.{host}

-- A database that counts its tables.
abbrev drivers : Drivers
drivers = record {
  Db = ℕ;
  open_db = λ type pieces. ok (some 0);
  auto_migrate = λ tables model. some (tables + 1);
}

abbrev with_database : ConfigToml
with_database = record {
  log = some (record { file = "new.xml"; level = "info" });
  dns = some (record { type = "doh"; server = "dns.example.org"; addr = "203.0.113.1" });
  client = none;
  server = some (record { port = pos 443; admin_password = "root" });
  db = some (record {
    type = "sqlite3";
    username = "relay";
    password = "secret";
    host = "localhost";
    port = pos 1;
    database = "relay.db";
  });
}

abbrev serving : ConfigGo host
serving = record {
  toml = with_database;
  log = record { file = "new.xml"; level = "info" };
  dns = record { type = doh; server = "dns.example.org"; addr = some "203.0.113.1" };
  client = none;
  server = some (record { port = 443; admin_password = "root" });
}

abbrev five_tables : DbGo drivers
five_tables = record { type = sqlite3; db = 5 }

serving_made :
    new_conf_server host drivers (some with_database) ≡ returns (ok (serving, five_tables))
unfolding new_conf_server new_conf init_conf_server init_config valid_config valid_log valid_dns
    valid_server valid_db init_server init_db db_type_of migrate u16_of_int
serving_made = refl

new_conf_server-IsServed_example :
    (t : ConfigToml) × (some with_database ≡ some t) × IsServed host drivers t serving five_tables
new_conf_server-IsServed_example =
    new_conf_server-IsServed host drivers (some with_database) serving five_tables serving_made
