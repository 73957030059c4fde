-- ===== src/Web/Users.antt =====
-- The other handlers of users of pkg/core/server_web.go.
use relaybaton.Common.{
  ℕ, String, Option, none, some, List, [], ◌∷◌, if◌then◌else◌, Bytes, ◌==◌, same_nat, same_string,
  same_bytes, Result, ok, err,
}
use relaybaton.Web.Rows.{User, UserView, view_user, get_users, no_user, role_admin}
use relaybaton.Web.Database.{Gorm, UserChange, Range, users}
use relaybaton.Web.Exchange.{
  Value, text, uint, Session, Json, Answer, json, abort_json, abort, total_count, panics, status_ok,
  status_bad_request, status_forbidden, Served, as_admin, with_id, with_body, written, found,
}

-- The columns that `PutUser` writes, of its body, a `webapi.User`.
abbrev pub change_of : UserView → UserChange
change_of request = record {
  username = request.username;
  role = request.role;
  plan_id = request.plan_id;
  traffic_used = request.traffic_used;
  plan_start = request.plan_start;
  plan_reset = request.plan_reset;
  plan_end = request.plan_end;
}

module _ (gorm : Gorm) where
  open gorm use {Db, first_user, find_users, count, delete, update_user}

  unfoldable pub delete_user : Db → Session → Bytes → Served gorm
  delete_user db session param =
      as_admin gorm db session
        (with_id gorm db param (λ id. written gorm (delete db users id) (Json.row_id id)))

  -- The handler does not ask for the role.
  unfoldable pub put_user : Db → Bytes → Option UserView → Served gorm
  put_user db param body = with_id gorm db param (λ id.
      with_body gorm db body
        (λ request. written gorm (update_user db id (change_of request)) (Json.user request)))

  -- `c.Param("_order")` is empty: the order is a parameter of the query, not of the path.
  unfoldable pub get_user_list : Db → Session → Range → Served gorm
  get_user_list db session range = as_admin gorm db session (
      found gorm db (find_users db (record range { order = "" }))
        (λ rows. total_count (count db users) ∷ json status_ok (Json.users (get_users rows)) ∷ []))

  abbrev forbidden : List Answer
  forbidden = abort_json status_forbidden (Json.user no_user) ∷ []

  abbrev admin_view : ℕ → UserView
  admin_view now = record no_user {
    username = "admin";
    role = role_admin;
    plan_start = now;
    plan_reset = now;
    plan_end = now;
  }

  shown : Result String User → List Answer
  shown (ok u) = json status_ok (Json.user (view_user u)) ∷ []
  shown (err e) = forbidden

  own : Db → ℕ → Option Value → List Answer
  unfolding shown
  own db now none = forbidden
  own db now (some (text s)) =
      if s == "admin" then json status_ok (Json.user (admin_view now)) ∷ [] else forbidden
  own db now (some (uint id)) = shown (first_user db id)

  -- With the query "_start" it is the list, without it the user who is logged in.
  unfoldable pub get_user : ℕ → Db → Session → Option Range → Served gorm
  unfolding own get_user_list
  get_user now db session none = (own db now session.user_id, db)
  get_user now db session (some range) = get_user_list db session range

  -- Where the row is not found, the handler passes on an error that is nil.
  shown_to_admin : Result String User → List Answer
  shown_to_admin (ok u) = json status_ok (Json.user (view_user u)) ∷ []
  shown_to_admin (err e) = abort status_bad_request ∷ panics ∷ []

  unfoldable pub get_user_one : Db → Session → Bytes → Served gorm
  unfolding shown_to_admin
  get_user_one db session param =
      as_admin gorm db session
        (with_id gorm db param (λ id. (shown_to_admin (first_user db id), db)))
