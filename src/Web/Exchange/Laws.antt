-- ===== src/Web/Exchange/Laws.antt =====
-- What `GetRole` and the shared branches of the handlers of pkg/core/server_web.go do.
use relaybaton.Common.{
  ℕ, String, ◌≡◌, refl, inl, inr, false, some, List, ◌=ℕ◌, Option-cases, Bytes, Result, ok, err,
}
use relaybaton.Common.Decimal.{parse_uint}
use relaybaton.Web.Rows.{User, role_admin}
use relaybaton.Web.Database.{Gorm}
use relaybaton.Web.Exchange.{
  Session, Served, Answer, uint, is_admin, get_role, role_of_value, role_of_user, as_admin, with_id,
  found, bad_request,
}

module _ (gorm : Gorm) where
  open gorm use {Db}

  pub as_admin-refused :
      (db : Db) (session : Session) (served : Served gorm)
      → is_admin gorm db session ≡ false
      → as_admin gorm db session served ≡ (bad_request, db)
  unfolding as_admin
  as_admin-refused db session served e = rw e

  pub is_admin-uint :
      (db : Db) (session : Session) (id : ℕ) (user : User)
      → session.user_id ≡ some (uint id)
      → gorm.first_user db id ≡ ok user
      → is_admin gorm db session ≡ (user.role =ℕ role_admin)
  unfolding is_admin get_role role_of_value role_of_user
  is_admin-uint db session id user i f = rw (is_admin, get_role, i, role_of_value, f)

  pub found-reads {ℓ} :
      {A : Type ℓ} (db : Db) (row : Result String A) (k : A → List Answer)
      → (found gorm db row k).1 ≡ db
  unfolding found
  found-reads db (ok a) k = refl
  found-reads db (err e) k = refl

  pub with_id-reads :
      (db : Db) (param : Bytes) (k : ℕ → Served gorm)
      → ((id : ℕ) → (k id).1 ≡ db)
      → (with_id gorm db param k).1 ≡ db
  unfolding with_id
  with_id-reads db param k h = elim (Option-cases (parse_uint param)) [
    | inl e ↦ rw (with_id, e)
    | inr (id, e) ↦ rw (with_id, e) (h id)
  ]
