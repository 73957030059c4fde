-- ===== src/Web/Routes.antt =====
-- The table of routes of pkg/core/server.go, `Run`, and the handler that serves a request. The
-- handlers of pkg/core/server_web.go that are empty are `empty`; `PostSession` and `GetCaptcha`
-- change the session and not the database, and stand in `Accounts`.
pub mod Laws
use relaybaton.Common.{ℕ, String, Bool, true, false, Option, none, some, [], Bytes}
use relaybaton.Web.Rows.{UserView}
use relaybaton.Web.Views.{PlanView, NoticeView, MetaView}
use relaybaton.Web.Database.{Gorm, Crypto, Range}
use relaybaton.Web.Exchange.{Session, Served, Query}
use relaybaton.Web.Accounts.{PostUserRequest, post_user}
use relaybaton.Web.Users.{delete_user, put_user, get_user, get_user_one}
use relaybaton.Web.Plans.{PostPlanRequest, post_plan, delete_plan, put_plan, get_plan_one, get_plan}
use relaybaton.Web.Notices.{
  PostNoticeRequest, post_notice, delete_notice, put_notice, get_notice_one, get_notice,
}
use relaybaton.Web.Pages.{get_log_one, get_log_list, put_meta, get_meta}

-- The parameter ":id" is bytes, and a body that cannot be read is `none`.
pub data Request : Type 0 where
  post_user_at : Option PostUserRequest → Request
  delete_user_at : Bytes → Request
  put_user_at : Bytes → Option UserView → Request
  get_user_at : Option Range → Request
  get_user_one_at : Bytes → Request
  get_log_one_at : Bytes → Request
  get_log_list_at : Range → Request
  post_plan_at : Option PostPlanRequest → Request
  delete_plan_at : Bytes → Request
  put_plan_at : Bytes → Option PlanView → Request
  get_plan_one_at : Bytes → Request
  get_plan_at : Query → Request
  put_meta_at : Option MetaView → Request
  get_meta_at : Request
  post_notice_at : Option PostNoticeRequest → Request
  delete_notice_at : Bytes → Request
  put_notice_at : Bytes → Option NoticeView → Request
  get_notice_one_at : Bytes → Request
  get_notice_at : Query → Request
  empty : Request

module _ (gorm : Gorm) (crypto : Crypto) (verify : String → String → Bool) (now : ℕ) where
  unfoldable pub serve : Request → gorm.Db → Session → Served gorm
  serve (post_user_at body) db session = post_user gorm crypto verify now db session body
  serve (delete_user_at param) db session = delete_user gorm db session param
  serve (put_user_at param body) db session = put_user gorm db param body
  serve (get_user_at range) db session = get_user gorm now db session range
  serve (get_user_one_at param) db session = get_user_one gorm db session param
  serve (get_log_one_at param) db session = get_log_one gorm db session param
  serve (get_log_list_at range) db session = get_log_list gorm db session range
  serve (post_plan_at body) db session = post_plan gorm db session body
  serve (delete_plan_at param) db session = delete_plan gorm db session param
  serve (put_plan_at param body) db session = put_plan gorm db session param body
  serve (get_plan_one_at param) db session = get_plan_one gorm db param
  serve (get_plan_at query) db session = get_plan gorm db query
  serve (put_meta_at body) db session = put_meta gorm db session body
  serve get_meta_at db session = get_meta gorm db
  serve (post_notice_at body) db session = post_notice gorm db session body
  serve (delete_notice_at param) db session = delete_notice gorm db session param
  serve (put_notice_at param body) db session = put_notice gorm db session param body
  serve (get_notice_one_at param) db session = get_notice_one gorm db param
  serve (get_notice_at query) db session = get_notice gorm db query
  serve empty db session = ([], db)

-- The requests that the source serves to administrators only.
unfoldable pub is_guarded : Request → Bool
is_guarded (post_user_at _) = false
is_guarded (delete_user_at _) = true
is_guarded (put_user_at _ _) = false
is_guarded (get_user_at none) = false
is_guarded (get_user_at (some _)) = true
is_guarded (get_user_one_at _) = true
is_guarded (get_log_one_at _) = true
is_guarded (get_log_list_at _) = true
is_guarded (post_plan_at _) = true
is_guarded (delete_plan_at _) = true
is_guarded (put_plan_at _ _) = true
is_guarded (get_plan_one_at _) = false
is_guarded (get_plan_at _) = false
is_guarded (put_meta_at _) = true
is_guarded get_meta_at = false
is_guarded (post_notice_at _) = true
is_guarded (delete_notice_at _) = true
is_guarded (put_notice_at _ _) = true
is_guarded (get_notice_one_at _) = false
is_guarded (get_notice_at _) = false
is_guarded empty = false

-- The requests that write without asking for the role.
unfoldable pub is_open_write : Request → Bool
is_open_write (post_user_at _) = true
is_open_write (put_user_at _ _) = true
is_open_write get_meta_at = true
is_open_write _ = false
