-- ===== src/Web/Notices.antt =====
-- The handlers of notices of pkg/core/server_web.go.
use relaybaton.Common.{String, Option, [], ◌∷◌, Bytes, Result, ok, err}
use relaybaton.Web.Rows.{Notice}
use relaybaton.Web.Views.{NoticeView, view_notice, view_notices}
use relaybaton.Web.Database.{Gorm, notices}
use relaybaton.Web.Exchange.{
  Session, Json, json, total_count, status_ok, Served, as_admin, with_id, with_body, written, found,
  Query, between, with_key, neither, bad_request,
}

pub record PostNoticeRequest : Type 0 where
  pub title : String
  pub text : String

-- The columns that `PutNotice` hands to `Updates`, of its body, a `webapi.Notice`.
abbrev pub notice_of : NoticeView → Notice
notice_of request = record { id = 0; title = request.title; text = request.text }

module _ (gorm : Gorm) where
  open gorm use {
    Db, first_notice, notice_where, find_notices, count, delete, save_notice, update_notice,
  }

  -- The answer to `Save`, which gives the row its id.
  saved_notice : Result String Notice × Db → Served gorm
  saved_notice (ok row, db) = (json status_ok (Json.notice (view_notice row)) ∷ [], db)
  saved_notice (err e, db) = (bad_request, db)

  unfoldable pub post_notice : Db → Session → Option PostNoticeRequest → Served gorm
  unfolding saved_notice
  post_notice db session body = as_admin gorm db session (
      with_body gorm db body (λ request.
        saved_notice
          (save_notice db (record { id = 0; title = request.title; text = request.text }))))

  unfoldable pub delete_notice : Db → Session → Bytes → Served gorm
  delete_notice db session param =
      as_admin gorm db session
        (with_id gorm db param (λ id. written gorm (delete db notices id) (Json.row_id id)))

  unfoldable pub put_notice : Db → Session → Bytes → Option NoticeView → Served gorm
  put_notice db session param body = as_admin gorm db session (
      with_id gorm db param (λ id.
        with_body gorm db body (λ request.
          written gorm (update_notice db id (notice_of request)) (Json.notice request))))

  unfoldable pub get_notice_one : Db → Bytes → Served gorm
  get_notice_one db param = with_id gorm db param (λ id.
      found gorm db (first_notice db id)
        (λ row. json status_ok (Json.notice (view_notice row)) ∷ []))

  unfoldable pub get_notice : Db → Query → Served gorm
  get_notice db (between range) = found gorm db (find_notices db range) (λ rows.
      total_count (count db notices) ∷ json status_ok (Json.notices (view_notices rows)) ∷ [])
  get_notice db (with_key id) =
      found gorm db (notice_where db id)
        (λ row. total_count 1 ∷ json status_ok (Json.notices (view_notice row ∷ [])) ∷ [])
  get_notice db neither = (bad_request, db)
