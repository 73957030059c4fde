-- ===== src/Tests/Commands.antt =====
-- The command `client` with a file that sends everything through the server.
use relaybaton.Common.{ℕ, ◌≡◌, refl, true, false, none, some, []}
use relaybaton.Common.Integers.{u16_of_int}
use relaybaton.Config.Toml.{ConfigToml}
use relaybaton.Config.Validate.{valid_config, valid_log, valid_dns, valid_client}
use relaybaton.Config.Init.{init_config, init_client}
use relaybaton.Config.Load.{returns, new_conf, new_conf_client}
use relaybaton.Router.State.{Files, not_exist, new_router}
use relaybaton.Client.React.{Client}
use relaybaton.Client.Starting.{new_client}
use relaybaton.Commands.{client_exec}
use relaybaton.Commands.Serving.{IsServing, client_exec-IsServing}
use relaybaton.Tests.Configs.{host, served}

abbrev no_files : Files ℕ
no_files = record { executable = true; stat_mmdb = not_exist; open_mmdb = none }

abbrev serving : Client ℕ
serving = record {
  conns = [];
  shutdown = 0;
  router = record { on = false; geo_ip_db = none; hash_map = [] };
  account = record { username = "alice"; password = "secret" };
  port = 1080;
}

serves : client_exec host no_files (λ port. true) (some served) ≡ returns (serving, true)
unfolding client_exec new_conf_client new_conf init_config valid_config valid_log valid_dns
    valid_client init_client u16_of_int new_router new_client
serves = refl

client_exec-IsServing_example :
    (t : ConfigToml) × (some served ≡ some t) × IsServing t serving × (true ≡ true)
client_exec-IsServing_example =
    client_exec-IsServing host no_files (λ port. true) (some served) serving true serves
