-- ===== src/Config/Load/Saving.antt =====
-- The file that `SaveClient` writes, read again (pkg/config). Which key fills which field is what the
-- struct tags `mapstructure` say; that viper fills the fields so is the hypothesis of a theorem.
use relaybaton.Common.{
  String, ◌≡◌, refl, ap, ◌∙◌, Option, none, some, arith, same_nat, same_string, same_bytes, ok,
}
use relaybaton.Common.Dict
use relaybaton.Common.Dict.{Dict}
use relaybaton.Config.Toml.{LogToml, DnsToml, ClientToml, ConfigToml}
use relaybaton.Config.Validate.{valid_config}
use relaybaton.Config.Init.{Host, ConfigGo, init_config}
use relaybaton.Config.Load.Laws.{init_config-toml, init_conf_client-IsLoaded, client_of-made}
use relaybaton.Config.Load.{
  Value, number, text, flag, returns, settings, save_client, new_conf, new_conf_client,
  init_conf_client,
}

-- The sections that a file of these settings fills: those that have a key.
pub data Fills (d : Dict String Value) : ConfigToml → Type 0 where
  client_file :
      {log : LogToml} {dns : DnsToml} {client : ClientToml}
      → Dict.get "client.port" d ≡ some (number client.port)
      → Dict.get "client.http_port" d ≡ some (number client.http_port)
      → Dict.get "client.redir_port" d ≡ some (number client.redir_port)
      → Dict.get "client.server" d ≡ some (text client.server)
      → Dict.get "client.username" d ≡ some (text client.username)
      → Dict.get "client.password" d ≡ some (text client.password)
      → Dict.get "client.proxy_all" d ≡ some (flag client.proxy_all)
      → Dict.get "dns.type" d ≡ some (text dns.type)
      → Dict.get "dns.server" d ≡ some (text dns.server)
      → Dict.get "dns.addr" d ≡ some (text dns.addr)
      → Dict.get "log.file" d ≡ some (text log.file)
      → Dict.get "log.level" d ≡ some (text log.level)
      → Dict.get "server.port" d ≡ none
      → Dict.get "server.admin_password" d ≡ none
      → Dict.get "db.type" d ≡ none
      → Fills d (record {
        log = some log;
        dns = some dns;
        client = some client;
        server = none;
        db = none;
      })

-- The sections that are saved.
abbrev pub client_part : ConfigToml → ConfigToml
client_part t = record t { server = none; db = none }

pub settings-Fills :
    (log : LogToml) (dns : DnsToml) (client : ClientToml)
    → Fills
        (settings log dns client)
        (record { log = some log; dns = some dns; client = some client; server = none; db = none })
unfolding settings Dict.get
settings-Fills log dns client =
    client_file refl refl refl refl refl refl refl refl refl refl refl refl refl refl refl

module _ (host : Host) where
  open host use {formats}

  init_config-client_part :
      (t : ConfigToml) (made : ConfigGo host)
      → init_config host t ≡ ok made
      → init_config host (client_part t) ≡ ok (record made { toml = client_part t })
  unfolding init_config valid_config
  init_config-client_part t made h = ground arith

  init_config-sections :
      (t : ConfigToml) (made : ConfigGo host)
      → init_config host t ≡ ok made
      → (log : LogToml) × (dns : DnsToml) × (t.log ≡ some log) × (t.dns ≡ some dns)
  unfolding init_config
  init_config-sections t made h = sections t.log t.dns refl refl
    where
      sections :
          (l : Option LogToml) (d : Option DnsToml)
          → t.log ≡ l
          → t.dns ≡ d
          → (log : LogToml) × (dns : DnsToml) × (t.log ≡ some log) × (t.dns ≡ some dns)
      sections (some log) (some dns) e f = (log, dns, e, f)
      sections none d e f = ground arith
      sections (some log) none e f = ground arith

  init_conf_client-client_part :
      (made conf : ConfigGo host)
      → init_conf_client host made ≡ ok conf
      → init_conf_client host (record made { toml = client_part made.toml })
        ≡ ok (record conf { toml = client_part made.toml })
  unfolding init_conf_client
  init_conf_client-client_part made conf h = ground arith

  save_client-Fills :
      (conf : ConfigGo host) (log : LogToml) (dns : DnsToml) (client : ClientToml)
      → conf.toml.log ≡ some log
      → conf.toml.dns ≡ some dns
      → conf.toml.client ≡ some client
      → (save_client host conf ≡ returns (settings log dns client))
        × Fills (settings log dns client) (client_part conf.toml)
  unfolding save_client
  save_client-Fills conf log dns client l d c =
      (rw (l, d, c) refl, rw (l, d, c) (settings-Fills log dns client))

  -- A client's configuration that was loaded can be saved without a panic, and the file that is
  -- written gives the same configuration when it is loaded again, but that the sections for a server
  -- are gone from what is kept of the file; provided that viper fills the fields of a file by the
  -- keys that their tags name.
  pub new_conf_client-save_client :
      (viper : Dict String Value → Option ConfigToml) (t : ConfigToml) (conf : ConfigGo host)
      → ((d : Dict String Value) (u : ConfigToml) → Fills d u → viper d ≡ some u)
      → new_conf_client host (some t) ≡ returns (ok conf)
      → (d : Dict String Value) × (save_client host conf ≡ returns d)
        × (new_conf_client host (viper d) ≡ returns (ok (record conf { toml = client_part t })))
  unfolding new_conf_client new_conf
  new_conf_client-save_client viper t conf fills h =
      let (made, e, c) = client_of-made host (init_config host t) conf h in
      let l =
        init_conf_client-IsLoaded host t t.client made conf (init_config-toml host t made e) refl
          c in
      let (log, dns, el, ed) = init_config-sections t made e in
      let (saved, f) =
        save_client-Fills conf log dns l.client_toml (ap (λ (x : ConfigToml). x.log) l.toml ∙ el)
          (ap (λ (x : ConfigToml). x.dns) l.toml ∙ ed)
          (ap (λ (x : ConfigToml). x.client) l.toml ∙ l.section) in
      (
        _,
        saved,
        rw (fills _ _ f, l.toml, init_config-client_part t made e)
            (ap returns
              (rw (init_config-toml host t made e) at (init_conf_client-client_part made conf c))),
      )
