-- ===== src/Tests/Charges.antt =====
-- Two relays of one user that end.
use relaybaton.Common.{
  ℕ, ◌+◌, String, ◌≡◌, refl, ap, inl, inr, List, [], ◌∷◌, ◌++◌, arith, ◌=ℕ◌, if◌then◌else◌,
  Bool-cases, same_nat, same_string, same_bytes, eq_self, ok, err, ok_injective,
}
use relaybaton.Common.Words.{u64}
use relaybaton.Common.Dict.{get, put}
use relaybaton.Server.Charging.{
  SavesColumns, turns, start, serial, loads, saves, writes, saves-overwrites, serial-charges,
}
use relaybaton.Server.Relay.{Event, downloads, uploads, stops_download, new_relay, relay, charge}
use relaybaton.Web.Rows.{User}
use relaybaton.Web.Database.{Gorm}
use relaybaton.Tests.Handlers.{gorm, alice}
use relaybaton.Tests.Quotas.{gorm-FindsSaved}

abbrev rounds : ℕ → List Event
rounds k =
    if k =ℕ 0
    then downloads (1 ∷ 2 ∷ []) ∷ stops_download ∷ uploads (3 ∷ []) ∷ []
    else uploads (4 ∷ 5 ∷ []) ∷ []

-- A database of one user and one plan, of which a save of the user writes the first alone.
abbrev columns : Gorm
columns = record gorm {
  first_plan = λ u id. if u.plan.id =ℕ id then ok u.plan else err "record not found";
  save_user = λ u user. record user { plan = u.plan };
}

columns-SavesColumns : SavesColumns columns
columns-SavesColumns db now user plan there same belongs stands =
    elim (Bool-cases (db.plan.id =ℕ user.plan_id)) [
      | inl h ↦
          rw (eq_self user.username)
            (ap (λ p. ok (record user { plan = p })) (ok_injective (rw h at stands)))
      | inr h ↦ absurd (no_plan "record not found" (rw h at stands))
    ]
  where
    no_plan : (e : String) → ¬ (err e ≡ ok plan)
    no_plan e h = cc

-- While the first relay runs, the user is given another password, and the plan another limit.
abbrev rewrite : User → User
rewrite u = record u { password = "new"; plan = record u.plan { traffic_limit = 5000 } }

saves-overwrites_example :
    columns.user_with_plan
      (turns columns "alice" rounds
        (start columns "alice" rounds alice)
        (loads 0 ∷ (writes rewrite ∷ loads 1 ∷ saves 1 ∷ []) ++ saves 0 ∷ [])).db
      "alice"
    ≡ ok (record alice {
      traffic_used = u64 (0 + 3);
      plan = record alice.plan { traffic_limit = 5000 };
    })
unfolding turns get put charge start relay new_relay
saves-overwrites_example =
    saves-overwrites columns "alice" rounds alice alice
      (record alice {
        password = "new";
        traffic_used = 2;
        plan = record alice.plan { traffic_limit = 5000 };
      })
      (record alice.plan { traffic_limit = 5000 }) 0 (writes rewrite ∷ loads 1 ∷ saves 1 ∷ [])
      columns-SavesColumns refl refl refl (tt, (refl, (tt, tt))) refl refl refl

serial-charges_example :
    gorm.user_with_plan
      (turns gorm "alice" rounds
        (start gorm "alice" rounds alice)
        (serial gorm "alice" rounds (0 ∷ 1 ∷ []))).db
      "alice"
    ≡ ok (record alice { traffic_used = u64 (0 + (3 + (2 + 0))) })
unfolding relay new_relay
serial-charges_example =
    serial-charges gorm "alice" rounds gorm-FindsSaved (0 ∷ 1 ∷ []) alice alice refl refl
      (omega arith)
