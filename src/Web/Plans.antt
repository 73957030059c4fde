-- ===== src/Web/Plans.antt =====
-- The handlers of plans of pkg/core/server_web.go.
pub mod Written
use relaybaton.Common.{ℕ, String, Option, [], ◌∷◌, Bytes, Result, ok, err}
use relaybaton.Web.Rows.{Plan}
use relaybaton.Web.Views.{PlanView, view_plan, view_plans}
use relaybaton.Web.Database.{Gorm, plans}
use relaybaton.Web.Exchange.{
  Session, Json, json, total_count, status_ok, Served, as_admin, with_id, with_body, written, found,
  Query, between, with_key, neither, bad_request,
}

pub record PostPlanRequest : Type 0 where
  pub name : String
  pub bandwidth_limit : ℕ
  pub traffic_limit : ℕ

-- The columns that `PutPlan` hands to `Updates`, of its body, a `webapi.Plan`; the id is not among them.
abbrev pub plan_of : PlanView → Plan
plan_of request = record {
  id = 0;
  name = request.name;
  bandwidth_limit = request.bandwidth_limit;
  traffic_limit = request.traffic_limit;
}

module _ (gorm : Gorm) where
  open gorm use {Db, first_plan, plan_where, find_plans, count, delete, save_plan, update_plan}

  -- The answer to `Save`, which gives the row its id.
  saved_plan : Result String Plan × Db → Served gorm
  saved_plan (ok row, db) = (json status_ok (Json.plan (view_plan row)) ∷ [], db)
  saved_plan (err e, db) = (bad_request, db)

  unfoldable pub post_plan : Db → Session → Option PostPlanRequest → Served gorm
  unfolding saved_plan
  post_plan db session body = as_admin gorm db session (
      with_body gorm db body (λ request. saved_plan (
        save_plan db (record {
          id = 0;
          name = request.name;
          bandwidth_limit = request.bandwidth_limit;
          traffic_limit = request.traffic_limit;
        }))))

  unfoldable pub delete_plan : Db → Session → Bytes → Served gorm
  delete_plan db session param =
      as_admin gorm db session
        (with_id gorm db param (λ id. written gorm (delete db plans id) (Json.row_id id)))

  unfoldable pub put_plan : Db → Session → Bytes → Option PlanView → Served gorm
  put_plan db session param body = as_admin gorm db session (
      with_id gorm db param (λ id.
        with_body gorm db body
          (λ request. written gorm (update_plan db id (plan_of request)) (Json.plan request))))

  unfoldable pub get_plan_one : Db → Bytes → Served gorm
  get_plan_one db param = with_id gorm db param (λ id.
      found gorm db (first_plan db id) (λ row. json status_ok (Json.plan (view_plan row)) ∷ []))

  unfoldable pub get_plan : Db → Query → Served gorm
  get_plan db (between range) =
      found gorm db (find_plans db range)
        (λ rows. total_count (count db plans) ∷ json status_ok (Json.plans (view_plans rows)) ∷ [])
  get_plan db (with_key id) =
      found gorm db (plan_where db id)
        (λ row. total_count 1 ∷ json status_ok (Json.plans (view_plan row ∷ [])) ∷ [])
  get_plan db neither = (bad_request, db)
