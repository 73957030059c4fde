-- ===== src/Web/Database.antt =====
-- What the handlers of pkg/core/server_web.go ask of the database, which gorm and its drivers
-- implement: an interface. An error is its text. `Crypto` are the calls of bcrypt and of the standard
-- library's SHA-512 and base64.
use relaybaton.Common.{ℕ, String, Bool, Option, List, Bytes, Result}
use relaybaton.Web.Rows.{Plan, User, Log, Meta, Notice}

pub data Table : Type 0 where
  users plans notices logs : Table

-- `Updates` of a user, from a map: every column is written.
pub record UserChange : Type 0 where
  pub username : String
  pub role : ℕ
  pub plan_id : ℕ
  pub traffic_used : ℕ
  pub plan_start : ℕ
  pub plan_reset : ℕ
  pub plan_end : ℕ

-- `id BETWEEN start and end`, in an order.
pub record Range : Type 0 where
  pub start : String
  pub end : String
  pub sort : String
  pub order : String

-- A write gives the error, if there is one, and the database afterwards.
pub record Gorm : Type 1 where
  pub Db : Type 0
  pub first_user : Db → ℕ → Result String User
  pub user_by_name : Db → String → Result String User
  -- `getUser` of pkg/core/server.go, which loads the plan as well.
  pub user_with_plan : Db → String → Result String User
  pub find_users : Db → Range → Result String (List User)
  pub first_plan : Db → ℕ → Result String Plan
  -- The condition is the text of the query.
  pub plan_where : Db → String → Result String Plan
  pub find_plans : Db → Range → Result String (List Plan)
  pub first_log : Db → ℕ → Result String Log
  pub find_logs : Db → Range → Result String (List Log)
  pub first_notice : Db → ℕ → Result String Notice
  pub notice_where : Db → String → Result String Notice
  pub find_notices : Db → Range → Result String (List Notice)
  pub first_meta : Db → Option Meta
  pub count_meta : Db → ℕ
  pub count : Db → Table → ℕ
  pub create_user : Db → User → Option String × Db
  -- `Save` of a user, whose error the source does not look at.
  pub save_user : Db → User → Db
  pub update_user : Db → ℕ → UserChange → Option String × Db
  pub delete : Db → Table → ℕ → Option String × Db
  -- `Save` of a row with no id gives it one; `Updates` is given a row.
  pub save_plan : Db → Plan → Result String Plan × Db
  pub update_plan : Db → ℕ → Plan → Option String × Db
  pub save_notice : Db → Notice → Result String Notice × Db
  pub update_notice : Db → ℕ → Notice → Option String × Db
  pub save_meta : Db → Meta → Db

pub record Crypto : Type 0 where
  pub sha512 : String → Bytes
  pub encode : Bytes → String
  pub decode : String → Option Bytes
  pub generate_from_password : Bytes → Option Bytes
  pub compare_hash_and_password : Bytes → Bytes → Bool
