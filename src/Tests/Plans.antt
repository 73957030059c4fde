-- ===== src/Tests/Plans.antt =====
-- The plan of the one user, changed to one without a limit of traffic.
use mathlib.Core.Path.{subst}
use relaybaton.Common.{
  String, ◌≡◌, refl, ap, ◌↔◌, inl, inr, true, Option, none, some, [], ◌∷◌, ◌=ℕ◌, if◌then◌else◌,
  Bool-cases, ok, err, ok_injective,
}
use relaybaton.Common.Decimal.{parse_uint}
use relaybaton.Web.Rows.{User, Plan}
use relaybaton.Web.Views.{PlanView}
use relaybaton.Web.Database.{Gorm}
use relaybaton.Web.Exchange.{Session, text, is_admin, get_role}
use relaybaton.Web.Plans.{put_plan, get_plan_one}
use relaybaton.Web.Plans.Written.{Overwrites, overwritten, IsWhole, put_plan-get_plan_one}
use relaybaton.Tests.Handlers.{gorm, alice}

abbrev with_plan : Gorm
with_plan = record gorm {
  first_plan = λ u id. if u.plan.id =ℕ id then ok u.plan else err "record not found";
  update_plan = λ u id new.
      if u.plan.id =ℕ id then (none, record u { plan = overwritten u.plan new }) else (none, u);
}

with_plan-Overwrites : Overwrites with_plan
with_plan-Overwrites db db' id row new f w = elim (Bool-cases (db.plan.id =ℕ id)) [
  | inr other ↦ cc (rw (other) at f)
  | inl same ↦
      let found : db.plan ≡ row = ok_injective (rw (same) at f) in
      let changed : record db { plan = overwritten db.plan new } ≡ db' =
        ap (λ (x : Option String × User). x.1) (rw (same) at w) in
      subst (λ (x : User). with_plan.first_plan x id ≡ ok (overwritten row new)) changed
        (rw (same) (ap (λ (p : Plan). ok (overwritten p new)) found))
]

abbrev as_admin_user : Session
as_admin_user = record { user_id = some (text "admin"); captcha_id = none }

abbrev unlimited : PlanView
unlimited = record { id = 1; name = "free"; bandwidth_limit = 200; traffic_limit = 0 }

admin_role : is_admin with_plan alice as_admin_user ≡ true
unfolding is_admin get_role
admin_role = refl

one_read : parse_uint (b'1' ∷ []) ≡ some 1
unfolding parse_uint
one_read = refl

abbrev after_put : User
after_put = record alice { plan = record alice.plan { bandwidth_limit = 200 } }

put_plan-get_plan_one_example :
    ((get_plan_one with_plan
        (put_plan with_plan alice as_admin_user (b'1' ∷ []) (some unlimited)).1
        (b'1' ∷ [])).0
      ≡ (put_plan with_plan alice as_admin_user (b'1' ∷ []) (some unlimited)).0)
    ↔ IsWhole alice.plan unlimited
put_plan-get_plan_one_example =
    put_plan-get_plan_one with_plan alice after_put as_admin_user (b'1' ∷ []) 1 alice.plan unlimited
      with_plan-Overwrites admin_role one_read refl refl
