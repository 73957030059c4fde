-- ===== src/Server/Authenticate.antt =====
-- `Server.Authenticate` of pkg/core/server.go.
use relaybaton.Common.{
  ◌<◌, String, ◌≡◌, refl, ap, ◌∙◌, ◌↔◌, inl, inr, Bool, true, false, Option, none, some, arith, leb,
  ◌=ℕ◌, if◌then◌else◌, =ℕ_iff, Bool-cases, Bytes, length, ◌==◌, same_nat, same_string, same_bytes,
  Result, ok, err,
}
use relaybaton.Web.Rows.{User}
use relaybaton.Web.Database.{Gorm, Crypto}
use relaybaton.Web.Accounts.{Key, undecodable, wrong_length, key, measure}

-- The headers that the client sends.
pub record Headers : Type 0 where
  pub addr : Option String
  pub username : Option String
  pub password : Option String

module _ (gorm : Gorm) (crypto : Crypto) where
  open gorm use {Db, user_with_plan}

  match_key : Bytes → Option Bytes → Bool
  match_key k none = false
  match_key k (some correct_key) = crypto.compare_hash_and_password correct_key k

  check_key : User → Key → Bool
  unfolding match_key
  check_key user undecodable = false
  check_key user wrong_length = false
  check_key user (key k) = match_key k (crypto.decode user.password)

  -- The administrator's password is compared as it is.
  check_user : String → String → Result String User → Bool
  unfolding check_key
  check_user username password (err e) = false
  check_user username password (ok user) =
      if username == "admin"
      then password == user.password
      else if leb user.plan.traffic_limit user.traffic_used
      then false
      else check_key user (measure (crypto.decode password))

  check : Db → Option String → Option String → Option String → Bool
  unfolding check_user
  check db none username password = false
  check db (some addr) none password = false
  check db (some addr) (some username) none = false
  check db (some addr) (some username) (some password) =
      check_user username password (user_with_plan db username)

  unfoldable pub authenticate : Db → Headers → Bool
  unfolding check
  authenticate db headers = check db headers.addr headers.username headers.password

  -- Whom the headers may stand for.
  pub data IsAuthorised (db : Db) (headers : Headers) : Type 0 where
    administrator :
        {user : User}
        → headers.username ≡ some "admin"
        → user_with_plan db "admin" ≡ ok user
        → headers.password ≡ some user.password
        → IsAuthorised db headers
    registered :
        {username password : String} {user : User} {k correct_key : Bytes}
        → headers.username ≡ some username
        → (username == "admin") ≡ false
        → user_with_plan db username ≡ ok user
        → user.traffic_used < user.plan.traffic_limit
        → headers.password ≡ some password
        → crypto.decode password ≡ some k
        → length k ≡ 64
        → crypto.decode user.password ≡ some correct_key
        → crypto.compare_hash_and_password correct_key k ≡ true
        → IsAuthorised db headers

  key_sound :
      (db : Db) (headers : Headers) (username password : String) (user : User) (d c : Option Bytes)
      → headers.username ≡ some username
      → headers.password ≡ some password
      → (username == "admin") ≡ false
      → user_with_plan db username ≡ ok user
      → user.traffic_used < user.plan.traffic_limit
      → crypto.decode password ≡ d
      → crypto.decode user.password ≡ c
      → check_key user (measure d) ≡ true
      → IsAuthorised db headers
  unfolding check_key
  key_sound db headers username password user none c u p o f left e e' h = cc
  key_sound db headers username password user (some k) c u p o f left e e' h =
      elim (Bool-cases (length k =ℕ 64)) [
        | inl fits ↦ matched ((=ℕ_iff (length k) 64).0 fits) c e' (rw fits at h)
        | inr unfit ↦ cc (rw unfit at h)
      ]
    where
      matched :
          length k ≡ 64
          → (x : Option Bytes) → crypto.decode user.password ≡ x
          → check_key user (key k) ≡ true
          → IsAuthorised db headers
      matched l none d q = cc (rw d at q)
      matched l (some correct_key) d q = registered u o f left p e l d (rw d at q)

  user_sound :
      (db : Db) (headers : Headers) (username password : String) (r : Result String User)
      → headers.username ≡ some username
      → headers.password ≡ some password
      → user_with_plan db username ≡ r
      → check_user username password r ≡ true
      → IsAuthorised db headers
  unfolding check_user
  user_sound db headers username password (err e) u p f h = cc
  user_sound db headers username password (ok user) u p f h =
      elim (Bool-cases (username == "admin")) [
        | inl is ↦
            let named = (same_string.same_iff username "admin").0 is in
            administrator (u ∙ ap some named) (rw named at f)
              (p ∙ ap some ((same_string.same_iff password user.password).0 (rw is at h)))
        | inr other ↦ elim (Bool-cases (leb user.plan.traffic_limit user.traffic_used)) [
          | inl out ↦ cc (rw (other, out) at h)
          | inr left ↦
              key_sound db headers username password user (crypto.decode password)
                (crypto.decode user.password) u p other f (ground arith) refl refl
                (rw (other, left) at h)
        ]
      ]

  check_sound :
      (db : Db) (headers : Headers) (addr username password : Option String)
      → headers.username ≡ username
      → headers.password ≡ password
      → check db addr username password ≡ true
      → IsAuthorised db headers
  unfolding check
  check_sound db headers none username password u p h = cc
  check_sound db headers (some addr) none password u p h = cc
  check_sound db headers (some addr) (some username) none u p h = cc
  check_sound db headers (some addr) (some username) (some password) u p h =
      user_sound db headers username password (user_with_plan db username) u p refl h

  -- A request that is authenticated names a user that exists: the administrator, with the password
  -- that is stored, or another user with traffic left, and then the password is a key of 64 bytes
  -- that bcrypt matches with the one that is stored.
  pub authenticate-IsAuthorised :
      (db : Db) (headers : Headers) → authenticate db headers ≡ true → IsAuthorised db headers
  unfolding authenticate
  authenticate-IsAuthorised db headers h =
      check_sound db headers headers.addr headers.username headers.password refl refl h

  -- A request that names a destination is authenticated if it names the administrator, whose row
  -- exists, with the password that is stored, or another user who has traffic left, and the
  -- password is a key of 64 bytes that bcrypt matches with the one that is stored.
  pub authenticate_complete :
      (db : Db) (headers : Headers) (addr : String)
      → headers.addr ≡ some addr
      → IsAuthorised db headers
      → authenticate db headers ≡ true
  unfolding authenticate check check_user check_key match_key
  authenticate_complete db headers addr a (administrator {user = user} u f p) =
      rw (a, u, p, check, f) ((same_string.same_iff user.password user.password).1 refl)
  authenticate_complete db headers addr a
        (registered {username = n} {password = w} {user = user} {k = k} {correct_key = c} u o f left
          p d len d' m) =
      rw (a, u, p, check, f, check_user, o, d, len, check_key, d', match_key, m) (ground arith)

  check-addr :
      (db : Db) (addr username password : Option String)
      → check db addr username password ≡ true
      → (text : String) × (addr ≡ some text)
  unfolding check
  check-addr db none u p h = cc
  check-addr db (some text) u p h = (text, refl)

  -- A request is authenticated exactly if it names a destination, and a user who exists: the
  -- administrator, with the password that is stored, or another user with traffic left, and then
  -- the password is a key of 64 bytes that bcrypt matches with the one that is stored.
  pub authenticate_iff :
      (db : Db) (headers : Headers)
      → (authenticate db headers ≡ true)
        ↔ (((addr : String) × (headers.addr ≡ some addr)) × IsAuthorised db headers)
  unfolding authenticate
  authenticate_iff db headers = (
    λ h. (
      check-addr db headers.addr headers.username headers.password h,
      authenticate-IsAuthorised db headers h,
    ),
    λ ((addr, e), v). authenticate_complete db headers addr e v,
  )
