-- ===== src/Web/Routes/Laws.antt =====
-- Who may do what: about the table of routes and `GetRole` of pkg/core/server.go and
-- pkg/core/server_web.go.
use relaybaton.Common.{
  ℕ, String, ◌≡◌, refl, inl, inr, Bool, true, false, none, some, arith, Bool-cases, Bytes, ok,
}
use relaybaton.Common.Decimal.{parse_uint}
use relaybaton.Web.Rows.{User, UserView, role_admin}
use relaybaton.Web.Database.{Gorm, Crypto}
use relaybaton.Web.Exchange.{
  between, with_key, neither, with_id, with_body, written, Session, uint, is_admin, bad_request,
}
use relaybaton.Web.Users.{change_of, delete_user, put_user, get_user, get_user_list, get_user_one}
use relaybaton.Web.Plans.{post_plan, delete_plan, put_plan, get_plan_one, get_plan}
use relaybaton.Web.Notices.{post_notice, delete_notice, put_notice, get_notice_one, get_notice}
use relaybaton.Web.Pages.{get_log_one, get_log_list, put_meta}
use relaybaton.Web.Routes.{
  Request, delete_user_at, get_user_at, get_user_one_at, get_log_one_at, get_log_list_at,
  post_plan_at, delete_plan_at, put_plan_at, put_meta_at, post_notice_at, post_user_at, put_user_at,
  get_plan_one_at, get_plan_at, get_meta_at, get_notice_one_at, get_notice_at, empty,
  delete_notice_at, put_notice_at, serve, is_guarded, is_open_write,
}
use relaybaton.Web.Exchange.Laws.{as_admin-refused, is_admin-uint, found-reads, with_id-reads}

module _ (gorm : Gorm) (crypto : Crypto) (verify : String → String → Bool) (now : ℕ) where
  -- A request of someone who is no administrator to a guarded route is answered with a 400 and
  -- leaves the database unchanged; guarded are all routes that write to the database, but for `POST
  -- /user`, `PUT /user/:id` and `GET /meta/undefined`, and the routes that show other users and the
  -- log.
  pub serve-is_guarded :
      (request : Request) (db : gorm.Db) (session : Session)
      → is_admin gorm db session ≡ false
      → is_guarded request ≡ true
      → serve gorm crypto verify now request db session ≡ (bad_request, db)
  unfolding serve is_guarded delete_user get_user get_user_list get_user_one get_log_one
      get_log_list post_plan delete_plan put_plan put_meta post_notice delete_notice put_notice
  serve-is_guarded (delete_user_at param) db session e g = as_admin-refused gorm db session _ e
  serve-is_guarded (get_user_at (some range)) db session e g = as_admin-refused gorm db session _ e
  serve-is_guarded (get_user_one_at param) db session e g = as_admin-refused gorm db session _ e
  serve-is_guarded (get_log_one_at param) db session e g = as_admin-refused gorm db session _ e
  serve-is_guarded (get_log_list_at range) db session e g = as_admin-refused gorm db session _ e
  serve-is_guarded (post_plan_at body) db session e g = as_admin-refused gorm db session _ e
  serve-is_guarded (delete_plan_at param) db session e g = as_admin-refused gorm db session _ e
  serve-is_guarded (put_plan_at param body) db session e g = as_admin-refused gorm db session _ e
  serve-is_guarded (put_meta_at body) db session e g = as_admin-refused gorm db session _ e
  serve-is_guarded (post_notice_at body) db session e g = as_admin-refused gorm db session _ e
  serve-is_guarded (delete_notice_at param) db session e g = as_admin-refused gorm db session _ e
  serve-is_guarded (put_notice_at param body) db session e g = as_admin-refused gorm db session _ e
  serve-is_guarded (post_user_at _) db session e g = ground arith
  serve-is_guarded (put_user_at _ _) db session e g = ground arith
  serve-is_guarded (get_user_at none) db session e g = ground arith
  serve-is_guarded (get_plan_one_at _) db session e g = ground arith
  serve-is_guarded (get_plan_at _) db session e g = ground arith
  serve-is_guarded get_meta_at db session e g = ground arith
  serve-is_guarded (get_notice_one_at _) db session e g = ground arith
  serve-is_guarded (get_notice_at _) db session e g = ground arith
  serve-is_guarded empty db session e g = ground arith

  reads :
      (request : Request) (db : gorm.Db) (session : Session)
      → is_guarded request ≡ false
      → is_open_write request ≡ false
      → (serve gorm crypto verify now request db session).1 ≡ db
  unfolding serve is_guarded is_open_write get_user get_plan_one get_plan get_notice_one get_notice
  reads (get_user_at none) db session g w = refl
  reads (get_plan_one_at param) db session g w =
      with_id-reads gorm db param _ (λ id. found-reads gorm db _ _)
  reads (get_plan_at (between range)) db session g w = found-reads gorm db _ _
  reads (get_plan_at (with_key key)) db session g w = found-reads gorm db _ _
  reads (get_plan_at neither) db session g w = refl
  reads (get_notice_one_at param) db session g w =
      with_id-reads gorm db param _ (λ id. found-reads gorm db _ _)
  reads (get_notice_at (between range)) db session g w = found-reads gorm db _ _
  reads (get_notice_at (with_key key)) db session g w = found-reads gorm db _ _
  reads (get_notice_at neither) db session g w = refl
  reads empty db session g w = refl
  reads (post_user_at body) db session g w = ground arith
  reads (put_user_at param body) db session g w = ground arith
  reads (delete_user_at param) db session g w = ground arith
  reads (get_user_at (some range)) db session g w = ground arith
  reads (get_user_one_at param) db session g w = ground arith
  reads (get_log_one_at param) db session g w = ground arith
  reads (get_log_list_at range) db session g w = ground arith
  reads (post_plan_at body) db session g w = ground arith
  reads (delete_plan_at param) db session g w = ground arith
  reads (put_plan_at param body) db session g w = ground arith
  reads (put_meta_at body) db session g w = ground arith
  reads (post_notice_at body) db session g w = ground arith
  reads (delete_notice_at param) db session g w = ground arith
  reads (put_notice_at param body) db session g w = ground arith
  reads get_meta_at db session g w = ground arith

  -- Whoever is no administrator changes the database by `POST /user`, `PUT /user/:id` and `GET
  -- /meta/undefined` only.
  serve-is_open_write :
      (request : Request) (db : gorm.Db) (session : Session)
      → is_admin gorm db session ≡ false
      → is_open_write request ≡ false
      → (serve gorm crypto verify now request db session).1 ≡ db
  serve-is_open_write request db session e w = elim (Bool-cases (is_guarded request)) [
    | inl g ↦ rw (serve-is_guarded request db session e g)
    | inr u ↦ reads request db session u w
  ]

  -- A session of a user is an administrator's after `PUT /user/:id` of that user with the
  -- administrator's role, whatever the session is that the request comes in, provided that the
  -- update succeeds and the row has the role that was written.
  pub put_user-is_admin :
      (db db' : gorm.Db) (id : ℕ) (session session' : Session) (param : Bytes) (request : UserView)
      (user : User)
      → parse_uint param ≡ some id
      → request.role ≡ role_admin
      → gorm.update_user db id (change_of request) ≡ (none, db')
      → gorm.first_user db' id ≡ ok user
      → user.role ≡ request.role
      → session'.user_id ≡ some (uint id)
      → is_admin gorm
          (serve gorm crypto verify now (put_user_at param (some request)) db session).1
          session'
        ≡ true
  unfolding serve put_user with_id with_body written
  put_user-is_admin db db' id session session' param request user p r w f u i = rw (
    serve,
    put_user,
    with_id,
    p,
    with_body,
    w,
    written,
    is_admin-uint gorm db' session' id user i f,
    u,
    r,
  )
