-- ===== src/Web/Pages.antt =====
-- The handlers of the log and of the title of the pages of pkg/core/server_web.go.
use relaybaton.Common.{
  String, Option, none, some, List, [], ◌∷◌, ◌=ℕ◌, if◌then◌else◌, Bytes, Result, ok, err,
}
use relaybaton.Web.Rows.{Log, Meta}
use relaybaton.Web.Views.{MetaView, view_log, view_logs}
use relaybaton.Web.Database.{Gorm, Range, logs}
use relaybaton.Web.Exchange.{
  Session, Json, Answer, json, abort, total_count, panics, status_ok, status_bad_request, Served,
  as_admin, with_id, with_body, found,
}

abbrev no_meta : Meta
no_meta = record { id = 0; title = ""; desc = "" }

module _ (gorm : Gorm) where
  open gorm use {Db, first_log, find_logs, count, first_meta, count_meta, save_meta}

  -- Where the row is not found, the handler passes on an error that is nil.
  shown_log : Result String Log → List Answer
  shown_log (ok row) = json status_ok (Json.log (view_log row)) ∷ []
  shown_log (err e) = abort status_bad_request ∷ panics ∷ []

  unfoldable pub get_log_one : Db → Session → Bytes → Served gorm
  unfolding shown_log
  get_log_one db session param =
      as_admin gorm db session (with_id gorm db param (λ id. (shown_log (first_log db id), db)))

  -- `c.Param("_order")` is empty: the order is a parameter of the query, not of the path.
  unfoldable pub get_log_list : Db → Session → Range → Served gorm
  get_log_list db session range = as_admin gorm db session (
      found gorm db (find_logs db (record range { order = "" }))
        (λ rows. total_count (count db logs) ∷ json status_ok (Json.logs (view_logs rows)) ∷ []))

  -- `First` leaves the row as it was where there is none.
  meta_row : Db → Meta
  meta_row db = elim (first_meta db) [ none ↦ no_meta | some row ↦ row ]

  unfoldable pub put_meta : Db → Session → Option MetaView → Served gorm
  unfolding meta_row
  put_meta db session body = as_admin gorm db session (
      with_body gorm db body (λ request. (
        json status_ok (Json.meta request) ∷ [],
        save_meta db (record (meta_row db) { title = request.title; desc = request.desc }),
      )))

  shown_meta : Meta → List Answer
  shown_meta row = json status_ok (Json.meta (record { title = row.title; desc = row.desc })) ∷ []

  -- With no row, a default one is saved.
  pub get_meta : Db → Served gorm
  unfolding meta_row shown_meta
  get_meta db =
      let default = record (meta_row db) { title = "default"; desc = "default" } in
      if count_meta db =ℕ 0
      then (shown_meta default, save_meta db default)
      else (shown_meta (meta_row db), db)
