-- ===== src/Web/Accounts.antt =====
-- Registering and logging in: `PostUser`, `PostSession`, `GetCaptcha` of pkg/core/server_web.go. The
-- captchas are those of a package; whether the session could be saved is an argument. Where the body
-- cannot be read, `BindJSON` has answered before the handler does.
pub mod Laws
pub mod Created
use relaybaton.Common.{
  ℕ, String, Bool, true, false, Option, none, some, List, [], ◌∷◌, ◌++◌, ◌=ℕ◌, if◌then◌else◌, Bytes,
  length, ◌==◌, same_nat, same_string, same_bytes, Result, ok, err,
}
use relaybaton.Web.Rows.{User, Plan, role_user}
use relaybaton.Web.Database.{Gorm, Crypto}
use relaybaton.Web.Exchange.{
  Value, text, uint, Session, Json, Answer, json, abort_json, abort, status_ok, status_accepted,
  status_bad_request, status_forbidden, status_internal_server_error, bad_request, Served,
}

pub record PostUserRequest : Type 0 where
  pub username : String
  pub password : String
  pub captcha : String

pub record PostSessionRequest : Type 0 where
  pub username : String
  pub password : String

abbrev refuse : ℕ → String → List Answer
refuse status why = json status (Json.message false why) ∷ []

abbrev internal_error : List Answer
internal_error = abort status_internal_server_error ∷ []

abbrev succeed : ℕ → List Answer
succeed status = json status (Json.message true "") ∷ []

-- The key of 64 bytes that a password must be in base64.
pub data Key : Type 0 where
  undecodable wrong_length : Key
  key : Bytes → Key

abbrev pub measure : Option Bytes → Key
measure none = undecodable
measure (some k) = if length k =ℕ 64 then key k else wrong_length

abbrev empty_plan : Plan
empty_plan = record { id = 0; name = ""; bandwidth_limit = 0; traffic_limit = 0 }

abbrev username_taken : String
username_taken = "UNIQUE constraint failed: users.username"

-- `session.Set("userID", …)`.
abbrev pub log_in : Session → Value → Session
log_in session v = record session { user_id = some v }

module _ (gorm : Gorm) (crypto : Crypto) where
  open gorm use {Db, create_user, user_by_name}

  unfoldable pub new_user : PostUserRequest → Bytes → ℕ → User
  new_user request crypt_key now = record {
    id = 0;
    username = request.username;
    role = role_user;
    plan = empty_plan;
    plan_id = 1;
    password = crypto.encode crypt_key;
    traffic_used = 0;
    plan_start = now;
    plan_reset = now;
    plan_end = now;
  }

  -- The answer to the database's answer.
  created : Option String × Db → Served gorm
  created (none, db) = (succeed status_accepted, db)
  created (some e, db) =
      if e == username_taken
      then (refuse status_forbidden "Username existed" ++ internal_error, db)
      else (internal_error, db)

  hashed : Db → PostUserRequest → ℕ → Option Bytes → Served gorm
  unfolding created new_user
  hashed db request now none = (internal_error, db)
  hashed db request now (some crypt_key) = created (create_user db (new_user request crypt_key now))

  keyed : Db → PostUserRequest → ℕ → Key → Served gorm
  unfolding hashed
  keyed db request now undecodable = (internal_error, db)
  keyed db request now wrong_length = (refuse status_forbidden "Wrong password", db)
  keyed db request now (key k) = hashed db request now (crypto.generate_from_password k)

  checked : Db → PostUserRequest → ℕ → Bool → Served gorm
  unfolding keyed
  checked db request now false = (refuse status_forbidden "Wrong Captcha", db)
  checked db request now true = keyed db request now (measure (crypto.decode request.password))

  -- `captcha.VerifyString` is an argument, and the time.
  unfoldable pub post_user :
      (String → String → Bool) → ℕ → Db → Session → Option PostUserRequest → Served gorm
  unfolding checked
  post_user verify now db session none = (internal_error, db)
  post_user verify now db session (some request) =
      if request.username == "admin"
      then (refuse status_forbidden "Username existed", db)
      else elim session.captcha_id [
        | none ↦ (abort_json status_bad_request (Json.message false "Wrong Session") ∷ [], db)
        | some captcha_id ↦ checked db request now (verify captcha_id request.captcha)
      ]

  -- `session.Save()`.
  save : Bool → Session → List Answer × Session
  save true session = (succeed status_ok, session)
  save false session = (internal_error, session)

  -- A wrong password of the administrator is logged, and answered like a right one.
  admin_login : String → Bool → Session → Bytes → List Answer × Session
  unfolding save
  admin_login admin_password saves session k =
      save saves
        (if crypto.sha512 admin_password == k then log_in session (text "admin") else session)

  compared : Bool → Session → ℕ → Bool → List Answer × Session
  unfolding save
  compared saves session id false = (refuse status_forbidden "Wrong password", session)
  compared saves session id true = save saves (log_in session (uint id))

  decoded : Bool → Session → User → Bytes → Option Bytes → List Answer × Session
  unfolding compared
  decoded saves session user k none = (bad_request, session)
  decoded saves session user k (some correct_key) =
      compared saves session user.id (crypto.compare_hash_and_password correct_key k)

  user_login : Bool → Session → Bytes → Result String User → List Answer × Session
  unfolding decoded
  user_login saves session k (err e) = (bad_request, session)
  user_login saves session k (ok user) = decoded saves session user k (crypto.decode user.password)

  login : String → Bool → Db → Session → PostSessionRequest → Key → List Answer × Session
  unfolding admin_login user_login
  login admin_password saves db session request undecodable = (bad_request, session)
  login admin_password saves db session request wrong_length =
      (refuse status_bad_request "Wrong password", session)
  login admin_password saves db session request (key k) =
      if request.username == "admin"
      then admin_login admin_password saves session k
      else user_login saves session k (user_by_name db request.username)

  -- The administrator's password in the configuration is an argument. The session that is returned
  -- is the one of this request; the next request has it only if it was saved.
  pub post_session :
      String → Bool → Db → Session → Option PostSessionRequest → List Answer × Session
  unfolding login
  post_session admin_password saves db session none = (bad_request, session)
  post_session admin_password saves db session (some request) =
      login admin_password saves db session request (measure (crypto.decode request.password))

-- `captcha.Reload` and `captcha.New` are arguments; the image is not modelled. The second result is
-- whether an image is written.
unfoldable get_captcha : (String → Bool) → String → Bool → Session → Session × Bool
get_captcha reload fresh saves session =
    let renewed = record session { captcha_id = some fresh } in
    elim session.captcha_id [
      | none ↦ (renewed, saves)
      | some id ↦ if reload id then (session, true) else (renewed, saves)
    ]
