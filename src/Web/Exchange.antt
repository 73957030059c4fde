-- ===== src/Web/Exchange.antt =====
-- What a handler of pkg/core/server_web.go reads and writes: the session, the answers of gin, and
-- `GetRole`, with which most handlers begin.
pub mod Laws
use relaybaton.Common.{
  ℕ, String, Bool, false, Option, none, some, List, [], ◌∷◌, ◌=ℕ◌, if◌then◌else◌, Bytes, ◌==◌,
  same_nat, same_string, same_bytes, Result, ok, err,
}
use relaybaton.Common.Decimal.{parse_uint}
use relaybaton.Web.Rows.{role_admin, role_none, UserView, User}
use relaybaton.Web.Views.{PlanView, NoticeView, LogView, MetaView}
use relaybaton.Web.Database.{Gorm, Range}

-- A value in a session is a text or a `uint`.
pub data Value : Type 0 where
  text : String → Value
  uint : ℕ → Value

pub record Session : Type 0 where
  pub user_id : Option Value
  pub captcha_id : Option String

pub data Json : Type 0 where
  row_id : ℕ → Json
  message : Bool → String → Json
  user : UserView → Json
  users : List UserView → Json
  plan : PlanView → Json
  plans : List PlanView → Json
  log : LogView → Json
  logs : List LogView → Json
  notice : NoticeView → Json
  notices : List NoticeView → Json
  meta : MetaView → Json

-- The query of a list of plans or of notices: "_start" and "_end", or "id".
pub data Query : Type 0 where
  between : Range → Query
  with_key : String → Query
  neither : Query

by_key : Option String → Query
by_key none = neither
by_key (some id) = with_key id

unfoldable query_of : Option String → Option String → String → String → Option String → Query
unfolding by_key
query_of none end sort order id = by_key id
query_of (some start) none sort order id = by_key id
query_of (some start) (some end) sort order id =
    between (record { start = start; end = end; sort = sort; order = order })

-- `c.JSON`, `c.AbortWithStatusJSON`, `c.AbortWithError` and `c.AbortWithStatus`, and the header
-- "X-Total-Count".
pub data Answer : Type 0 where
  json : ℕ → Json → Answer
  abort_json : ℕ → Json → Answer
  abort : ℕ → Answer
  total_count : ℕ → Answer
  -- `c.AbortWithError` with a nil error: gin panics.
  panics : Answer

abbrev pub status_ok : ℕ
status_ok = 200

abbrev pub status_accepted : ℕ
status_accepted = 202

abbrev pub status_bad_request : ℕ
status_bad_request = 400

abbrev pub status_forbidden : ℕ
status_forbidden = 403

abbrev pub status_internal_server_error : ℕ
status_internal_server_error = 500

abbrev pub bad_request : List Answer
bad_request = abort status_bad_request ∷ []

module _ (gorm : Gorm) where
  open gorm use {Db, first_user}

  role_of_user : Result String User → Result String ℕ
  role_of_user (ok u) = ok u.role
  role_of_user (err e) = err e

  role_of_value : Db → Value → Result String ℕ
  unfolding role_of_user
  role_of_value db (text s) = if s == "admin" then ok role_admin else ok role_none
  role_of_value db (uint n) = role_of_user (first_user db n)

  -- The role, or the error; the role that the source returns beside an error is not read.
  unfoldable pub get_role : Db → Session → Result String ℕ
  unfolding role_of_value
  get_role db session = elim session.user_id [ none ↦ ok role_none | some v ↦ role_of_value db v ]

  -- `err == nil && role == model.RoleAdmin`.
  unfoldable pub is_admin : Db → Session → Bool
  is_admin db session = elim (get_role db session) [ err e ↦ false | ok role ↦ role =ℕ role_admin ]

  abbrev pub Served : Type 0
  Served = List Answer × Db

  -- `if err == nil && role == model.RoleAdmin { … } else { … }`: the same in all handlers.
  unfoldable pub as_admin : Db → Session → Served → Served
  as_admin db session served = if is_admin db session then served else (bad_request, db)

  -- `strconv.ParseUint(c.Param("id"), 10, 64)`, and its error.
  unfoldable pub with_id : Db → Bytes → (ℕ → Served) → Served
  with_id db param k = elim (parse_uint param) [ none ↦ (bad_request, db) | some n ↦ k n ]

  -- `c.BindJSON(request)`, and its error.
  unfoldable pub with_body {ℓ} : {A : Type ℓ} → Db → Option A → (A → Served) → Served
  with_body db body k = elim body [ none ↦ (bad_request, db) | some a ↦ k a ]

  -- `if result.Error != nil { … } else { … }` after a write.
  unfoldable pub written : Option String × Db → Json → Served
  written (none, db) j = (json status_ok j ∷ [], db)
  written (some e, db) j = (bad_request, db)

  -- The same after a read.
  unfoldable pub found {ℓ} : {A : Type ℓ} → Db → Result String A → (A → List Answer) → Served
  found db (ok a) k = (k a, db)
  found db (err e) k = (bad_request, db)
