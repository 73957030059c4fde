-- ===== src/Tests/Phones.antt =====
-- A phone on which a choice is saved that the program does not start with.
use relaybaton.Common.{◌≡◌, refl, true, none, some, ok, err}
use relaybaton.Config.Validate.{valid_config, valid_log, valid_dns}
use relaybaton.Config.Init.{ConfigGo, default, invalid, init_config, init_client}
use relaybaton.Config.Load.{returns, save_client}
use relaybaton.Bindings.Mobile.{
  Choice, toml_of_choice, log_of_choice, dns_of_choice, client_of_choice, new_android, save_android,
}
use relaybaton.Bindings.Mobile.Saved.{file_of_choice, save_android-new_android}
use relaybaton.Tests.Configs.{host, viper, viper-Fills, writes}

-- A choice without a server is saved, but the program does not start with it again.
abbrev choice : Choice
choice = record {
  server = "";
  username = "alice";
  password = "secret";
  proxy_all = true;
  dns_type = "default";
  dns_server = "";
  dns_addr = "";
  log_level = "info";
}

abbrev choice_conf : ConfigGo host
choice_conf = record {
  toml = toml_of_choice choice;
  log = record {
    file = "/data/data/org.iyouport.relaybaton_android/files/log.xml";
    level = "info";
  };
  dns = record { type = default; server = ""; addr = none };
  client = some (init_client (client_of_choice choice));
  server = none;
}

choice_saved : save_android host writes choice ≡ returns (ok (choice_conf, file_of_choice choice))
unfolding save_android init_config valid_config toml_of_choice valid_log log_of_choice valid_dns
    dns_of_choice save_client file_of_choice
choice_saved = refl

save_android-new_android_example : new_android host (viper (file_of_choice choice)) ≡ err invalid
save_android-new_android_example =
    save_android-new_android host writes viper choice choice_conf (file_of_choice choice)
      viper-Fills choice_saved
