-- ===== src/Web/Rows.antt =====
-- The rows of pkg/model, and the messages that pkg/webapi makes of them. A time is a number.
use relaybaton.Common.{ℕ, String, List, [], ◌∷◌}

abbrev pub role_user : ℕ
role_user = 0

abbrev pub role_admin : ℕ
role_admin = 1

abbrev pub role_none : ℕ
role_none = 2

pub record Plan : Type 0 where
  pub id : ℕ
  pub name : String
  pub bandwidth_limit : ℕ
  pub traffic_limit : ℕ

pub record User : Type 0 where
  pub id : ℕ
  pub username : String
  pub role : ℕ
  pub plan : Plan
  pub plan_id : ℕ
  pub password : String
  pub traffic_used : ℕ
  pub plan_start : ℕ
  pub plan_reset : ℕ
  pub plan_end : ℕ

pub record Log : Type 0 where
  pub id : ℕ
  pub created_at : ℕ
  pub level : ℕ
  pub func : String
  pub file : String
  pub msg : String
  pub stack : String
  pub fields : String

pub record Meta : Type 0 where
  pub id : ℕ
  pub title : String
  pub desc : String

pub record Notice : Type 0 where
  pub id : ℕ
  pub title : String
  pub text : String

-- `webapi.User`, without the password.
pub record UserView : Type 0 where
  pub id : ℕ
  pub username : String
  pub role : ℕ
  pub plan_id : ℕ
  pub plan_name : String
  pub plan_bandwidth_limit : ℕ
  pub plan_traffic_limit : ℕ
  pub traffic_used : ℕ
  pub plan_start : ℕ
  pub plan_reset : ℕ
  pub plan_end : ℕ

pub view_user : User → UserView
view_user v = record {
  id = v.id;
  username = v.username;
  role = v.role;
  plan_id = v.plan_id;
  plan_name = v.plan.name;
  plan_bandwidth_limit = v.plan.bandwidth_limit;
  plan_traffic_limit = v.plan.traffic_limit;
  traffic_used = v.traffic_used;
  plan_start = v.plan_start;
  plan_reset = v.plan_reset;
  plan_end = v.plan_end;
}

-- `webapi.GetUsers`; the rows of plans, logs and notices are shown as they are.
pub get_users : List User → List UserView
get_users [] = []
get_users (v ∷ users) = view_user v ∷ get_users users

-- `webapi.User{}`.
abbrev pub no_user : UserView
no_user = record {
  id = 0;
  username = "";
  role = 0;
  plan_id = 0;
  plan_name = "";
  plan_bandwidth_limit = 0;
  plan_traffic_limit = 0;
  traffic_used = 0;
  plan_start = 0;
  plan_reset = 0;
  plan_end = 0;
}
