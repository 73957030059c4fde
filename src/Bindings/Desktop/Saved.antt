-- ===== src/Bindings/Desktop/Saved.antt =====
-- The form, the file that is saved from it and the configuration that is made of either
-- (cmd/desktop/core.go with pkg/config).
use relaybaton.Common.{
  ℕ, ◌^◌, ◌<◌, String, ◌≡◌, refl, ap, ◌∙◌, ◌↔◌, inl, inr, Bool, true, false, not, Option, some,
  arith, if◌then◌else◌, same_nat, same_string, same_bytes, Result, ok, err, Result-cases,
}
use relaybaton.Common.Dict.{Dict}
use relaybaton.Common.Integers.{ℤ, pos, negsuc, ◌=ℤ◌, i32_of_int}
use relaybaton.Config.Toml.{ConfigToml}
use relaybaton.Config.Validate.{Formats, valid_client}
use relaybaton.Config.Init.{Host, Error, ConfigGo, init_client, init_config}
use relaybaton.Config.Load.{
  Value, returns, settings, save_client, init_conf_client, new_conf_client,
}
use relaybaton.Config.Load.Laws.{
  init_config-toml, init_conf_client-valid, valid_client-IsClientOf, new_conf_client-made,
}
use relaybaton.Config.Load.Saving.{Fills, settings-Fills}
use relaybaton.Bindings.Desktop.{
  Form, toml_of_form, log_of_form, dns_of_form, client_of_form, validate_toml, validate_form,
  open_form, run_form, form_conf, save_form, saved, written, form_of_toml, shown,
}

unfoldable pub file_of_form : Form → Dict String Value
file_of_form f = settings (log_of_form f) (dns_of_form f) (client_of_form f)

file_of_form-Fills : (f : Form) → Fills (file_of_form f) (toml_of_form f)
unfolding file_of_form toml_of_form
file_of_form-Fills f = settings-Fills (log_of_form f) (dns_of_form f) (client_of_form f)

i32_of_port : (p : ℤ) (n : ℕ) → p ≡ pos n → n < 2 ^ 16 → i32_of_int p ≡ p
i32_of_port (pos m) n e b = ground arith
i32_of_port (negsuc m) n e b = cc

if_not : {A : Type 0} (b : Bool) (x y : A) → (if not b then x else y) ≡ (if b then y else x)
if_not true x y = refl
if_not false x y = refl

module _ (formats : Formats) where
  validate_form-valid :
      (f : Form) → validate_form formats f ≡ ok tt → valid_client formats (client_of_form f) ≡ true
  unfolding validate_form validate_toml toml_of_form
  validate_form-valid f h = ground arith

  form_of_toml-toml_of_form :
      (f : Form)
      → validate_form formats f ≡ ok tt
      → form_of_toml formats (toml_of_form f)
        ≡ ok (record f { proxy_all = if f.proxy_all =ℤ pos 0 then pos 0 else pos 1 })
  unfolding form_of_toml validate_form toml_of_form client_of_form dns_of_form log_of_form
  form_of_toml-toml_of_form f h =
      let c = valid_client-IsClientOf formats (client_of_form f) (validate_form-valid f h) in
      let (b, b', b'') = c.ports.bounded in
      rw
        (
          h,
          i32_of_port f.port _ c.ports.port b,
          i32_of_port f.http_port _ c.ports.http_port b',
          i32_of_port f.redir_port _ c.ports.redir_port b'',
          if_not (f.proxy_all =ℤ pos 0) (pos 1) (pos 0),
        )
        refl

module _ (host : Host) where
  open host use {formats}

  form_conf-made :
      (f : Form) (conf : ConfigGo host)
      → form_conf host f ≡ ok conf
      → (made : ConfigGo host) × (init_config host (toml_of_form f) ≡ ok made)
        × (validate_form formats f ≡ ok tt)
        × (conf ≡ record made { client = some (init_client (client_of_form f)) })
  unfolding form_conf
  form_conf-made f conf h = elim (Result-cases (validate_form formats f)) [
    | inr (e, bad) ↦ cc (rw (bad) at h)
    | inl (_, good) ↦ elim (Result-cases (init_config host (toml_of_form f))) [
      | inr (e, bad) ↦ cc (rw (good, bad) at h)
      | inl (made, i) ↦ (made, i, good, cc (rw (good, i) at h))
    ]
  ]

  save_client-file_of_form :
      (f : Form) (conf : ConfigGo host)
      → conf.toml ≡ toml_of_form f
      → save_client host conf ≡ returns (file_of_form f)
  unfolding save_client file_of_form toml_of_form
  save_client-file_of_form f conf e = rw (e) refl

  init_conf_client-made :
      (f : Form) (made : ConfigGo host)
      → init_config host (toml_of_form f) ≡ ok made
      → validate_form formats f ≡ ok tt
      → init_conf_client host made
        ≡ ok (record made { client = some (init_client (client_of_form f)) })
  unfolding toml_of_form
  init_conf_client-made f made i good =
      init_conf_client-valid host made (client_of_form f)
        (ap (λ (t : ConfigToml). t.client) (init_config-toml host (toml_of_form f) made i))
        (validate_form-valid formats f good)

  module _ (writes : Dict String Value → Bool) where
    saved-ok :
        (r : Result Error (ConfigGo host)) (d : Dict String Value)
        → saved host writes r ≡ returns (ok d)
        → (conf : ConfigGo host) × (r ≡ ok conf)
          × (written host writes (save_client host conf) ≡ returns (ok d))
    unfolding saved
    saved-ok (ok conf) d h = (conf, refl, h)
    saved-ok (err e) d h = cc

    written-ok :
        (x d : Dict String Value)
        → written host writes (returns x) ≡ returns (ok d)
        → (writes d ≡ true) × (d ≡ x)
    unfolding written
    written-ok x d h = ground arith

    save_form-made :
        (f : Form) (d : Dict String Value)
        → save_form host writes f ≡ returns (ok d)
        → (made : ConfigGo host) × (init_config host (toml_of_form f) ≡ ok made)
          × (validate_form formats f ≡ ok tt)
          × (writes d ≡ true)
          × (d ≡ file_of_form f)
    unfolding save_form
    save_form-made f d h =
        let (conf, c, w) = saved-ok (form_conf host f) d h in
        let (made, i, good, e) = form_conf-made f conf c in
        let toml =
          ap (λ (x : ConfigGo host). x.toml) e ∙ init_config-toml host (toml_of_form f) made i in
        let (can, same) =
          written-ok (file_of_form f) d (rw (save_client-file_of_form f conf toml) at w) in
        (made, i, good, can, same)

    made-save_form :
        (f : Form) (made : ConfigGo host)
        → init_config host (toml_of_form f) ≡ ok made
        → validate_form formats f ≡ ok tt
        → writes (file_of_form f) ≡ true
        → save_form host writes f ≡ returns (ok (file_of_form f))
    unfolding save_form saved written form_conf
    made-save_form f made i good can =
        rw
          (
            good,
            i,
            save_client-file_of_form f
                (record made { client = some (init_client (client_of_form f)) })
                (init_config-toml host (toml_of_form f) made i),
            can,
          )
          refl

    -- `SaveConfFile` writes a file just where `Validate` has nothing to say of the form, the log
    -- file and the address of the resolver can be made of it, and viper can write; and the file
    -- has what is in the form.
    save_form_iff :
        (f : Form) (d : Dict String Value)
        → (save_form host writes f ≡ returns (ok d)) ↔ (
            (validate_form formats f ≡ ok tt)
            × ((made : ConfigGo host) × (init_config host (toml_of_form f) ≡ ok made))
            × (writes d ≡ true)
            × (d ≡ file_of_form f))
    save_form_iff f d = (
      λ h. (let (made, i, good, can, same) = save_form-made f d h in (good, (made, i), can, same)),
      λ (good, (made, i), can, same). rw (same) (made-save_form f made i good (rw (same) at can)),
    )

    run_form-made :
        (f : Form) (made : ConfigGo host)
        → init_config host (toml_of_form f) ≡ ok made
        → validate_form formats f ≡ ok tt
        → run_form host f ≡ ok (record made { client = some (init_client (client_of_form f)) })
    unfolding run_form
    run_form-made f made i good = rw (i) (init_conf_client-made f made i good)

    -- If `SaveConfFile` wrote a file and viper fills the fields of that file by the keys that their
    -- tags name, then `Run` with the same form and `NewConfClient` with the file make the same
    -- configuration, and make one.
    pub save_form-new_conf_client :
        (viper : Dict String Value → Option ConfigToml) (f : Form) (d : Dict String Value)
        → ((x : Dict String Value) (u : ConfigToml) → Fills x u → viper x ≡ some u)
        → save_form host writes f ≡ returns (ok d)
        → (conf : ConfigGo host) × (run_form host f ≡ ok conf)
          × (new_conf_client host (viper d) ≡ returns (ok conf))
    save_form-new_conf_client viper f d fills h =
        let (made, i, good, can, same) = save_form-made f d h in
        let read = ap viper same ∙ fills (file_of_form f) (toml_of_form f) (file_of_form-Fills f) in
        (
          record made { client = some (init_client (client_of_form f)) },
          run_form-made f made i good,
          rw (read) (
              new_conf_client-made host (toml_of_form f) made _ i
                (init_conf_client-made f made i good)),
        )

    -- If `SaveConfFile` wrote a file and viper fills the fields of that file by the keys that their
    -- tags name, then `OpenConfFile` gives the form back without an error, but that the choice to
    -- proxy all is 1 where it was not 0.
    pub save_form-open_form :
        (viper : Dict String Value → Option ConfigToml) (f : Form) (d : Dict String Value)
        → ((x : Dict String Value) (u : ConfigToml) → Fills x u → viper x ≡ some u)
        → save_form host writes f ≡ returns (ok d)
        → open_form formats (viper d)
          ≡ (record f { proxy_all = if f.proxy_all =ℤ pos 0 then pos 0 else pos 1 }, ok tt)
    unfolding open_form shown
    save_form-open_form viper f d fills h =
        let (made, i, good, can, same) = save_form-made f d h in
        let read = ap viper same ∙ fills (file_of_form f) (toml_of_form f) (file_of_form-Fills f) in
        rw (read) (ap (shown formats) (form_of_toml-toml_of_form formats f good))
