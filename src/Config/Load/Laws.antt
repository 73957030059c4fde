-- ===== src/Config/Load/Laws.antt =====
-- What a client's configuration that was loaded promises (pkg/config).
use relaybaton.Common.{
  ◌^◌, ◌<◌, ◌≡◌, refl, sym, ap, ◌∙◌, ◌≢◌, inl, inr, true, Option, none, some, arith, Bool-cases,
  Result, ok, err, &&-split,
}
use relaybaton.Common.Integers.{ℤ, pos, negsuc, u16_of_int}
use relaybaton.Config.Toml.{ClientToml, ConfigToml}
use relaybaton.Config.Validate.{Formats, port_number, port_other_than, valid_client}
use relaybaton.Config.Init.{Host, Error, ConfigGo, ClientGo, init_client, init_config}
use relaybaton.Config.Load.{
  returns, new_conf, new_conf_client, init_conf_client, client_of, panic_on_error,
}

-- The ports are those of the file, from 1 to 65535, and no two are the same.
pub record ServesPorts (t : ClientToml) (g : ClientGo) : Type 0 where
  pub port : t.port ≡ pos g.port
  pub http_port : t.http_port ≡ pos g.http_port
  pub redir_port : t.redir_port ≡ pos g.redir_port
  pub positive : (0 < g.port) × (0 < g.http_port) × (0 < g.redir_port)
  pub bounded : (g.port < 2 ^ 16) × (g.http_port < 2 ^ 16) × (g.redir_port < 2 ^ 16)
  pub distinct : (g.port ≢ g.http_port) × (g.http_port ≢ g.redir_port) × (g.redir_port ≢ g.port)

-- The other settings are those of the file.
pub record IsClientOf (t : ClientToml) (g : ClientGo) : Type 0 where
  pub ports : ServesPorts t g
  pub server : g.server ≡ t.server
  pub username : g.username ≡ t.username
  pub password : g.password ≡ t.password
  pub proxy_all : g.proxy_all ≡ t.proxy_all

-- A port that passes the checks of its tag is not cut off to 16 bits.
pub port_number-fits :
    (p : ℤ)
    → port_number p ≡ true
    → (p ≡ pos (u16_of_int p)) × (0 < u16_of_int p) × (u16_of_int p < 2 ^ 16)
unfolding u16_of_int
port_number-fits (pos n) h = ground arith
port_number-fits (negsuc n) h = cc

port_fits :
    (p q : ℤ)
    → port_other_than q p ≡ true
    → (p ≡ pos (u16_of_int p)) × (0 < u16_of_int p) × (u16_of_int p < 2 ^ 16)
port_fits p q h = port_number-fits p (&&-split (port_number p) _ h).0

ports_differ : (p q : ℤ) → port_other_than q p ≡ true → p ≢ q
ports_differ (pos n) (pos m) h e = ground arith
ports_differ (pos n) (negsuc m) h e = cc
ports_differ (negsuc n) q h e = cc

valid_ports :
    (p h r : ℤ)
    → port_other_than h p ≡ true
    → port_other_than r h ≡ true
    → port_other_than p r ≡ true
    → (u16_of_int p ≢ u16_of_int h) × (u16_of_int h ≢ u16_of_int r) × (u16_of_int r ≢ u16_of_int p)
valid_ports p h r vp vh vr =
    let (ep, _, _) = port_fits p h vp in
    let (eh, _, _) = port_fits h r vh in
    let (er, _, _) = port_fits r p vr in
    (
      λ e. ports_differ p h vp (ep ∙ ap pos e ∙ sym eh),
      λ e. ports_differ h r vh (eh ∙ ap pos e ∙ sym er),
      λ e. ports_differ r p vr (er ∙ ap pos e ∙ sym ep),
    )

pub valid_client-IsClientOf :
    (formats : Formats) (t : ClientToml)
    → valid_client formats t ≡ true
    → IsClientOf t (init_client t)
unfolding valid_client init_client
valid_client-IsClientOf formats t v =
    let (vp, vh, vr) = checks in
    let (ep, lp, bp) = port_fits t.port t.http_port vp in
    let (eh, lh, bh) = port_fits t.http_port t.redir_port vh in
    let (er, lr, br) = port_fits t.redir_port t.port vr in
    record {
      ports = record {
        port = ep;
        http_port = eh;
        redir_port = er;
        positive = (lp, lh, lr);
        bounded = (bp, bh, br);
        distinct = valid_ports t.port t.http_port t.redir_port vp vh vr;
      };
      server = refl;
      username = refl;
      password = refl;
      proxy_all = refl;
    }
  where
    checks :
        (port_other_than t.http_port t.port ≡ true)
        × (port_other_than t.redir_port t.http_port ≡ true)
        × (port_other_than t.port t.redir_port ≡ true)
    checks =
        let (vp, rest) = &&-split (port_other_than t.http_port t.port) _ v in
        let (vh, rest') = &&-split (port_other_than t.redir_port t.http_port) _ rest in
        (vp, vh, (&&-split (port_other_than t.port t.redir_port) _ rest').0)

module _ (host : Host) where
  open host use {formats}

  -- The sections that a configuration which was loaded has, and what was made of them.
  pub record IsLoaded (t : ConfigToml) (conf : ConfigGo host) : Type 0 where
    pub client_toml : ClientToml
    pub client_go : ClientGo
    pub toml : conf.toml ≡ t
    pub section : t.client ≡ some client_toml
    pub client : conf.client ≡ some client_go
    pub is_client : IsClientOf client_toml client_go

  pub init_config-toml :
      (t : ConfigToml) (conf : ConfigGo host) → init_config host t ≡ ok conf → conf.toml ≡ t
  unfolding init_config
  init_config-toml t conf h = ground arith

  pub init_conf_client-valid :
      (made : ConfigGo host) (t : ClientToml)
      → made.toml.client ≡ some t
      → valid_client formats t ≡ true
      → init_conf_client host made ≡ ok (record made { client = some (init_client t) })
  unfolding init_conf_client
  init_conf_client-valid made t e v = rw (e, v) refl

  pub new_conf_client-made :
      (t : ConfigToml) (made conf : ConfigGo host)
      → init_config host t ≡ ok made
      → init_conf_client host made ≡ ok conf
      → new_conf_client host (some t) ≡ returns (ok conf)
  unfolding new_conf_client new_conf client_of panic_on_error
  new_conf_client-made t made conf e c = rw (e, c) refl

  pub init_conf_client-IsLoaded :
      (t : ConfigToml) (c : Option ClientToml) (made conf : ConfigGo host)
      → made.toml ≡ t
      → t.client ≡ c
      → init_conf_client host made ≡ ok conf
      → IsLoaded t conf
  unfolding init_conf_client
  init_conf_client-IsLoaded t none made conf e c h =
      cc (rw (ap (λ (x : ConfigToml). x.client) e ∙ c) at h)
  init_conf_client-IsLoaded t (some client_toml) made conf e c h =
      let section = ap (λ (x : ConfigToml). x.client) e ∙ c in
      elim (Bool-cases (valid_client formats client_toml)) [
        | inr bad ↦ cc (rw (section, bad) at h)
        | inl good ↦
            let same : record made { client = some (init_client client_toml) } ≡ conf = cc in
            record {
              client_toml = client_toml;
              client_go = init_client client_toml;
              toml = ap (λ (x : ConfigGo host). x.toml) (sym same) ∙ e;
              section = c;
              client = ap (λ (x : ConfigGo host). x.client) (sym same);
              is_client = valid_client-IsClientOf formats client_toml good;
            }
      ]

  pub client_of-made :
      (r : Result Error (ConfigGo host)) (conf : ConfigGo host)
      → client_of host (panic_on_error host r) ≡ returns (ok conf)
      → (made : ConfigGo host) × (r ≡ ok made) × (init_conf_client host made ≡ ok conf)
  unfolding client_of panic_on_error
  client_of-made (err x) conf h = cc
  client_of-made (ok made) conf h = (made, refl, cc)

  -- If `NewConfClient` returns a configuration, then the file was read, and the client has the
  -- settings of the file: no port is cut off to 16 bits, none is 0, and the three ports are
  -- pairwise different.
  pub new_conf_client-IsLoaded :
      (read : Option ConfigToml) (conf : ConfigGo host)
      → new_conf_client host read ≡ returns (ok conf)
      → (t : ConfigToml) × (read ≡ some t) × IsLoaded t conf
  unfolding new_conf_client new_conf
  new_conf_client-IsLoaded none conf h = cc
  new_conf_client-IsLoaded (some t) conf h =
      let (made, e, c) = client_of-made (init_config host t) conf h in
      (t, refl, init_conf_client-IsLoaded t t.client made conf (init_config-toml t made e) refl c)
