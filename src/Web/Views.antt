-- ===== src/Web/Views.antt =====
-- The messages that pkg/webapi makes of the rows of plans, of notices, of the log and of the title of
-- the pages.
use relaybaton.Common.{ℕ, String, List, map}
use relaybaton.Web.Rows.{Plan, Notice, Log}

pub record PlanView : Type 0 where
  pub id : ℕ
  pub name : String
  pub bandwidth_limit : ℕ
  pub traffic_limit : ℕ

unfoldable pub view_plan : Plan → PlanView
view_plan plan = record {
  id = plan.id;
  name = plan.name;
  bandwidth_limit = plan.bandwidth_limit;
  traffic_limit = plan.traffic_limit;
}

unfoldable pub view_plans : List Plan → List PlanView
unfolding view_plan
view_plans plans = map view_plan plans

pub record NoticeView : Type 0 where
  pub id : ℕ
  pub title : String
  pub text : String

unfoldable pub view_notice : Notice → NoticeView
view_notice notice = record { id = notice.id; title = notice.title; text = notice.text }

unfoldable pub view_notices : List Notice → List NoticeView
unfolding view_notice
view_notices notices = map view_notice notices

-- `webapi.GetLogResponse`.
pub record LogView : Type 0 where
  pub id : ℕ
  pub created_at : ℕ
  pub level : ℕ
  pub func : String
  pub file : String
  pub msg : String
  pub stack : String
  pub fields : String

pub view_log : Log → LogView
view_log v = record {
  id = v.id;
  created_at = v.created_at;
  level = v.level;
  func = v.func;
  file = v.file;
  msg = v.msg;
  stack = v.stack;
  fields = v.fields;
}

pub view_logs : List Log → List LogView
unfolding view_log
view_logs logs = map view_log logs

pub record MetaView : Type 0 where
  pub title : String
  pub desc : String
