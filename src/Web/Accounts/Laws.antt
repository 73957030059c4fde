-- ===== src/Web/Accounts/Laws.antt =====
-- What a login gives: about `PostSession` of pkg/core/server_web.go.
use relaybaton.Common.{
  Result-cases, String, ◌≡◌, refl, sym, inl, inr, Bool, true, false, Option, none, some, ◌=ℕ◌,
  Bool-cases, Option-cases, Bytes, length, ◌==◌, same_nat, same_string, bytes_beq_iff, same_bytes,
  ok,
}
use relaybaton.Web.Rows.{User}
use relaybaton.Web.Database.{Gorm, Crypto}
use relaybaton.Web.Exchange.{Value, text, uint, Session}
use relaybaton.Web.Accounts.{
  measure, key, save, compared, decoded, user_login, admin_login, post_session, login,
  PostSessionRequest, log_in,
}

module _ (gorm : Gorm) (crypto : Crypto) (admin_password : String) (db : gorm.Db) where
  -- The key that a request presents is that of the user whom the value names.
  pub data IsAuthentic (request : PostSessionRequest) : Value → Type 0 where
    admin :
        {k : Bytes}
        → request.username ≡ "admin"
        → crypto.decode request.password ≡ some k
        → k ≡ crypto.sha512 admin_password
        → IsAuthentic request (text "admin")
    registered :
        {k correct_key : Bytes} {user : User}
        → crypto.decode request.password ≡ some k
        → gorm.user_by_name db request.username ≡ ok user
        → crypto.decode user.password ≡ some correct_key
        → crypto.compare_hash_and_password correct_key k ≡ true
        → IsAuthentic request (uint user.id)

  pub data IsLogin (body : Option PostSessionRequest) (session : Session) : Session → Type 0 where
    unchanged : IsLogin body session session
    logged_in :
        {request : PostSessionRequest} {v : Value}
        → body ≡ some request
        → IsAuthentic request v
        → IsLogin body session (log_in session v)

  save_session : (saves : Bool) (session : Session) → (save gorm crypto saves session).1 ≡ session
  unfolding save
  save_session true session = refl
  save_session false session = refl

  admin_key :
      (saves : Bool) (session : Session) (request : PostSessionRequest) (k : Bytes)
      → request.username ≡ "admin"
      → crypto.decode request.password ≡ some k
      → IsLogin (some request) session (admin_login gorm crypto admin_password saves session k).1
  unfolding admin_login
  admin_key saves session request k is e = elim (Bool-cases (crypto.sha512 admin_password == k)) [
    | inl right ↦
        rw (right, save_session)
          (logged_in refl
            (admin is e (sym ((bytes_beq_iff (crypto.sha512 admin_password) k).0 right))))
    | inr wrong ↦ rw (wrong, save_session) unchanged
  ]

  user_key :
      (saves : Bool) (session : Session) (request : PostSessionRequest) (k : Bytes) (user : User)
      → crypto.decode request.password ≡ some k
      → gorm.user_by_name db request.username ≡ ok user
      → IsLogin (some request) session (user_login gorm crypto saves session k (ok user)).1
  unfolding user_login decoded compared save
  user_key saves session request k user e found =
      elim (Option-cases (crypto.decode user.password)) [
        | inl undone ↦ rw undone unchanged
        | inr (correct_key, d) ↦
            elim (Bool-cases (crypto.compare_hash_and_password correct_key k)) [
              | inl right ↦
                  rw (d, right, save_session) (logged_in refl (registered e found d right))
              | inr wrong ↦ rw (d, wrong) unchanged
            ]
      ]

  by_key :
      (saves : Bool) (session : Session) (request : PostSessionRequest) (k : Bytes)
      → crypto.decode request.password ≡ some k
      → IsLogin
          (some request)
          session
          (login gorm crypto admin_password saves db session request (key k)).1
  unfolding login admin_login user_login decoded compared save
  by_key saves session request k e = elim (Bool-cases (request.username == "admin")) [
    | inl is ↦
        rw is (
          admin_key saves session request k ((same_string.same_iff request.username "admin").0 is)
            e)
    | inr is ↦ elim (Result-cases (gorm.user_by_name db request.username)) [
      | inr (x, missing) ↦ rw (is, missing) unchanged
      | inl (user, found) ↦ rw (is, found) (user_key saves session request k user e found)
    ]
  ]

  -- A login leaves the session as it is, or puts into it "admin", and then the request presents the
  -- SHA-512 of the administrator's password under that name, or the id of the user of the name it
  -- presents, and then its key is one that bcrypt matches with the user's.
  pub post_session-IsLogin :
      (saves : Bool) (session : Session) (body : Option PostSessionRequest)
      → IsLogin body session (post_session gorm crypto admin_password saves db session body).1
  unfolding post_session
  post_session-IsLogin saves session none = unchanged
  post_session-IsLogin saves session (some request) =
      elim (Option-cases (crypto.decode request.password)) [
        | inl e ↦ rw (e, measure, login) unchanged
        | inr (k, e) ↦ elim (Bool-cases (length k =ℕ 64)) [
          | inl fits ↦ rw (e, measure, fits) (by_key saves session request k e)
          | inr unfit ↦ rw (e, measure, unfit, login) unchanged
        ]
      ]
