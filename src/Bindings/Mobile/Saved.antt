-- ===== src/Bindings/Mobile/Saved.antt =====
-- What the Android program saves and what it finds when it starts again
-- (cmd/relaybaton_mobile/main.go with pkg/config).
use relaybaton.Common.{
  String, ◌≡◌, refl, sym, ap, ◌∙◌, ◌↔◌, inl, inr, Bool, true, false, ◌&&◌, Option, none, some,
  arith, if◌then◌else◌, same_nat, same_string, same_bytes, Result, ok, err, Result-cases,
  ok_injective, ◌>>◌, guard,
}
use relaybaton.Common.Dict.{Dict}
use relaybaton.Config.Toml.{ConfigToml}
use relaybaton.Config.Validate.{filled, valid_client}
use relaybaton.Config.Init.{Host, Error, ConfigGo, init_client, init_config, invalid}
use relaybaton.Config.Load.{
  Value, returns, settings, save_client, init_conf_client, new_conf, new_conf_client,
}
use relaybaton.Config.Load.Laws.{init_config-toml, client_of-made, new_conf_client-made}
use relaybaton.Config.Load.Saving.{Fills, settings-Fills}
use relaybaton.Bindings.Mobile.{
  Choice, toml_of_choice, log_of_choice, dns_of_choice, client_of_choice, new_android, save_android,
  written, saved,
}

unfoldable pub file_of_choice : Choice → Dict String Value
file_of_choice c = settings (log_of_choice c) (dns_of_choice c) (client_of_choice c)

file_of_choice-Fills : (c : Choice) → Fills (file_of_choice c) (toml_of_choice c)
unfolding file_of_choice toml_of_choice
file_of_choice-Fills c = settings-Fills (log_of_choice c) (dns_of_choice c) (client_of_choice c)

guard_if :
    {E A : Type 0} (b : Bool) (e : E) (m : Result E A) → (guard b e >> m) ≡ (if b then m else err e)
guard_if true e m = refl
guard_if false e m = refl

module _ (host : Host) where
  open host use {formats}

  new_android-init :
      (t : ConfigToml) (made : ConfigGo host)
      → init_config host t ≡ ok made
      → new_android host (some t) ≡ init_conf_client host made
  unfolding new_android init_conf_client
  new_android-init t made e = rw (e, init_config-toml host t made e) refl

  new_android-made :
      (t : ConfigToml) (conf : ConfigGo host)
      → new_android host (some t) ≡ ok conf
      → (made : ConfigGo host) × (init_config host t ≡ ok made)
        × (init_conf_client host made ≡ ok conf)
  unfolding new_android
  new_android-made t conf h = elim (Result-cases (init_config host t)) [
    | inl (made, e) ↦ (made, e, sym (new_android-init t made e) ∙ h)
    | inr (x, e) ↦ cc (rw (e) at h)
  ]

  -- `NewAndroid` makes a configuration just where `NewConfClient` does of the same file, and the
  -- same one.
  new_android_iff :
      (read : Option ConfigToml) (conf : ConfigGo host)
      → (new_android host read ≡ ok conf) ↔ (new_conf_client host read ≡ returns (ok conf))
  unfolding new_android new_conf_client new_conf
  new_android_iff none conf = (λ h. cc, λ h. cc)
  new_android_iff (some t) conf = (
    λ h.
        (let (made, e, c) = new_android-made t conf h in new_conf_client-made host t made conf e c),
    λ h.
        (let (made, e, c) = client_of-made host (init_config host t) conf h in
          new_android-init t made e ∙ c),
  )

  init_conf_client-choice :
      (c : Choice) (made conf : ConfigGo host)
      → made.toml ≡ toml_of_choice c
      → conf ≡ record made { client = some (init_client (client_of_choice c)) }
      → init_conf_client host made ≡ (
          if (formats.hostname c.server && filled c.server)
            && (filled c.username && filled c.password)
          then ok conf
          else err invalid)
  unfolding init_conf_client valid_client client_of_choice toml_of_choice
  init_conf_client-choice c made conf e h =
      rw (h, e)
        (guard_if
          ((formats.hostname c.server && filled c.server)
            && (filled c.username && filled c.password))
          invalid
          (ok (record made {
            toml = toml_of_choice c;
            client = some (init_client (client_of_choice c));
          })))

  module _ (writes : Dict String Value → Bool) where
    saved-ok :
        (r : Result Error (ConfigGo host)) (conf : ConfigGo host) (d : Dict String Value)
        → saved host writes r ≡ returns (ok (conf, d))
        → (made : ConfigGo host) × (r ≡ ok made)
          × (written host writes made (save_client host made) ≡ returns (ok (conf, d)))
    unfolding saved
    saved-ok (ok made) conf d h = (made, refl, h)
    saved-ok (err e) conf d h = cc

    written-ok :
        (made conf : ConfigGo host) (x d : Dict String Value)
        → written host writes made (returns x) ≡ returns (ok (conf, d))
        → (conf ≡ made) × (d ≡ x)
    unfolding written
    written-ok made conf x d h = ground arith

    save_client-file_of_choice :
        (c : Choice) (conf : ConfigGo host)
        → conf.toml ≡ toml_of_choice c
        → save_client host conf ≡ returns (file_of_choice c)
    unfolding save_client file_of_choice toml_of_choice
    save_client-file_of_choice c conf e = rw (e) refl

    save_android-made :
        (c : Choice) (conf : ConfigGo host) (d : Dict String Value)
        → save_android host writes c ≡ returns (ok (conf, d))
        → (made : ConfigGo host) × (init_config host (toml_of_choice c) ≡ ok made)
          × (conf ≡ record made { client = some (init_client (client_of_choice c)) })
          × (d ≡ file_of_choice c)
    unfolding save_android
    save_android-made c conf d h = elim (Result-cases (init_config host (toml_of_choice c))) [
      | inr (x, e) ↦ cc (rw (e) at h)
      | inl (made, e) ↦
          let (all, same, w) = saved-ok _ conf d (rw (e) at h) in
          let toml =
            ap (λ (x : ConfigGo host). x.toml) (sym (ok_injective same))
            ∙ init_config-toml host (toml_of_choice c) made e in
          let (conf_is, d_is) =
            written-ok all conf (file_of_choice c) d
              (rw (save_client-file_of_choice c all toml) at w) in
          (made, e, conf_is ∙ sym (ok_injective same), d_is)
    ]

    -- If `Save` wrote a file and viper fills the fields of that file by the keys that their tags
    -- name, then the next start finds the configuration that was saved where the server is a host
    -- name and the user's name and password are not empty, and fails elsewhere.
    pub save_android-new_android :
        (viper : Dict String Value → Option ConfigToml) (c : Choice) (conf : ConfigGo host)
        (d : Dict String Value)
        → ((x : Dict String Value) (u : ConfigToml) → Fills x u → viper x ≡ some u)
        → save_android host writes c ≡ returns (ok (conf, d))
        → new_android host (viper d) ≡ (
            if (formats.hostname c.server && filled c.server)
              && (filled c.username && filled c.password)
            then ok conf
            else err invalid)
    save_android-new_android viper c conf d fills h =
        let (made, e, conf_is, d_is) = save_android-made c conf d h in
        let read =
          ap viper d_is ∙ fills (file_of_choice c) (toml_of_choice c) (file_of_choice-Fills c) in
        let init = new_android-init (toml_of_choice c) made e in
        rw (read, init)
          (init_conf_client-choice c made conf (init_config-toml host (toml_of_choice c) made e)
            conf_is)
