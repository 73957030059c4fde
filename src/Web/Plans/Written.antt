-- ===== src/Web/Plans/Written.antt =====
-- A plan that is changed and looked at again (pkg/core/server_web.go).
use relaybaton.Common.{
  ℕ, ◌<◌, String, ◌≡◌, refl, sym, ap, ◌↔◌, ◌⊎◌, inl, inr, true, false, none, some, [], ◌∷◌, arith,
  ◌=ℕ◌, if◌then◌else◌, =ℕ_iff, Bool-cases, Bytes, ◌==◌, same_nat, same_string, same_bytes, ok,
}
use relaybaton.Common.Decimal.{parse_uint}
use relaybaton.Web.Rows.{Plan}
use relaybaton.Web.Views.{PlanView, view_plan}
use relaybaton.Web.Database.{Gorm}
use relaybaton.Web.Exchange.{
  Session, Json, json, status_ok, is_admin, as_admin, with_id, with_body, written, found,
}
use relaybaton.Web.Plans.{plan_of, put_plan, get_plan_one}

-- What gorm's `Updates` from a struct makes of a row: zeros and empty texts are not written.
abbrev pub overwritten : Plan → Plan → Plan
overwritten row new = record row {
  name = if new.name == "" then row.name else new.name;
  bandwidth_limit = if new.bandwidth_limit =ℕ 0 then row.bandwidth_limit else new.bandwidth_limit;
  traffic_limit = if new.traffic_limit =ℕ 0 then row.traffic_limit else new.traffic_limit;
}

abbrev pub Overwrites : Gorm → Type 0
Overwrites gorm =
    (db db' : gorm.Db) (id : ℕ) (row new : Plan)
    → gorm.first_plan db id ≡ ok row
    → gorm.update_plan db id new ≡ (none, db')
    → gorm.first_plan db' id ≡ ok (overwritten row new)

-- What is shown of the row afterwards.
shown : Plan → PlanView → PlanView
shown row request = record {
  id = row.id;
  name = if request.name == "" then row.name else request.name;
  bandwidth_limit =
      if request.bandwidth_limit =ℕ 0 then row.bandwidth_limit else request.bandwidth_limit;
  traffic_limit = if request.traffic_limit =ℕ 0 then row.traffic_limit else request.traffic_limit;
}

-- A column has what was asked for: the same as before, or something that is not zero.
column_iff : (old new : ℕ) → ((if new =ℕ 0 then old else new) ≡ new) ↔ ((new ≡ old) ⊎ (0 < new))
column_iff old new = elim (Bool-cases (new =ℕ 0)) [
  | inl z ↦
      let zero_new : new ≡ 0 = (=ℕ_iff new 0).0 z in rw (z) (λ h. inl (sym h), λ w. kept zero_new w)
  | inr n ↦ rw (n) (λ h. inr (positive n), λ w. refl)
]
  where
    kept : new ≡ 0 → (new ≡ old) ⊎ (0 < new) → old ≡ new
    kept z (inl e) = sym e
    kept z (inr p) = omega (arith, z, p)

    positive : (new =ℕ 0) ≡ false → 0 < new
    positive n = ground (arith, n)

name_iff :
    (old new : String)
    → ((if new == "" then old else new) ≡ new) ↔ ((new ≡ old) ⊎ ((new == "") ≡ false))
name_iff old new = elim (Bool-cases (new == "")) [
  | inl z ↦ rw (z) (λ h. inl (sym h), λ w. kept w)
  | inr n ↦ rw (n) (λ h. inr refl, λ w. refl)
]
  where
    kept : (new ≡ old) ⊎ (true ≡ false) → old ≡ new
    kept (inl e) = sym e
    kept (inr no_way) = cc

-- A change that is shown as it was asked for.
abbrev pub IsWhole : Plan → PlanView → Type 0
IsWhole row request =
    (request.id ≡ row.id)
    × ((request.name ≡ row.name) ⊎ ((request.name == "") ≡ false))
    × ((request.bandwidth_limit ≡ row.bandwidth_limit) ⊎ (0 < request.bandwidth_limit))
    × ((request.traffic_limit ≡ row.traffic_limit) ⊎ (0 < request.traffic_limit))

shown_iff : (row : Plan) (request : PlanView) → (shown row request ≡ request) ↔ IsWhole row request
unfolding shown
shown_iff row request = (
  λ h. (
    sym (ap (λ (x : PlanView). x.id) h),
    (name_iff row.name request.name).0 (ap (λ (x : PlanView). x.name) h),
    (column_iff row.bandwidth_limit request.bandwidth_limit).0
        (ap (λ (x : PlanView). x.bandwidth_limit) h),
    (column_iff row.traffic_limit request.traffic_limit).0
        (ap (λ (x : PlanView). x.traffic_limit) h),
  ),
  λ (i, n, b, t).
      same i ((name_iff row.name request.name).1 n)
        ((column_iff row.bandwidth_limit request.bandwidth_limit).1 b)
        ((column_iff row.traffic_limit request.traffic_limit).1 t),
)
  where
    same :
        request.id ≡ row.id
        → (if request.name == "" then row.name else request.name) ≡ request.name
        → (if request.bandwidth_limit =ℕ 0 then row.bandwidth_limit else request.bandwidth_limit)
          ≡ request.bandwidth_limit
        → (if request.traffic_limit =ℕ 0 then row.traffic_limit else request.traffic_limit)
          ≡ request.traffic_limit
        → shown row request ≡ request
    same i n b t = rw (shown, n, b, t) (ap (λ k. record request { id = k }) (sym i))

module _ (gorm : Gorm) where
  open gorm use {Db}

  plan_injective :
      {x y : PlanView}
      → json status_ok (Json.plan x) ∷ [] ≡ json status_ok (Json.plan y) ∷ []
      → x ≡ y
  plan_injective e = cc

  put_made :
      (db db' : Db) (session : Session) (param : Bytes) (id : ℕ) (request : PlanView)
      → is_admin gorm db session ≡ true
      → parse_uint param ≡ some id
      → gorm.update_plan db id (plan_of request) ≡ (none, db')
      → put_plan gorm db session param (some request)
        ≡ (json status_ok (Json.plan request) ∷ [], db')
  unfolding put_plan as_admin with_id with_body written
  put_made db db' session param id request admin p w =
      rw (put_plan, as_admin, admin, with_id, p, with_body, w, written) refl

  get_made :
      (db : Db) (param : Bytes) (id : ℕ) (row : Plan)
      → parse_uint param ≡ some id
      → gorm.first_plan db id ≡ ok row
      → get_plan_one gorm db param ≡ (json status_ok (Json.plan (view_plan row)) ∷ [], db)
  unfolding get_plan_one with_id found
  get_made db param id row p f = rw (get_plan_one, with_id, p, f, found) refl

  -- What the administrator's `PUT /plan/:id` answers is what `GET /plan/:id` shows afterwards just
  -- where the body's id is that of the row, its name is not empty or the one that the plan had, and
  -- each of its limits is positive or the one that the plan had: no other zero and no other empty
  -- name reaches the database, though the answer says so; for an update that succeeds, and provided
  -- that gorm writes of a row the columns that are not zero.
  pub put_plan-get_plan_one :
      (db db' : Db) (session : Session) (param : Bytes) (id : ℕ) (row : Plan) (request : PlanView)
      → Overwrites gorm
      → is_admin gorm db session ≡ true
      → parse_uint param ≡ some id
      → gorm.first_plan db id ≡ ok row
      → gorm.update_plan db id (plan_of request) ≡ (none, db')
      → let (answer, after) = put_plan gorm db session param (some request) in
        ((get_plan_one gorm after param).0 ≡ answer) ↔ IsWhole row request
  unfolding shown view_plan
  put_plan-get_plan_one db db' session param id row request writes admin p f w =
      let stands = writes db db' id row (plan_of request) f w in
      rw
        (
          put_made db db' session param id request admin p w,
          get_made db' param id (overwritten row (plan_of request)) p stands,
        )
        (
          λ h. (shown_iff row request).0 (plan_injective h),
          λ v. ap (λ x. json status_ok (Json.plan x) ∷ []) ((shown_iff row request).1 v),
        )
