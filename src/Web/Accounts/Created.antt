-- ===== src/Web/Accounts/Created.antt =====
-- What a registration that succeeds has stored: about `PostUser` of pkg/core/server_web.go.
use relaybaton.Common.{
  ℕ, String, ◌≡◌, inl, inr, Bool, true, false, Option, none, some, List, [], ◌∷◌, ◌=ℕ◌, =ℕ_iff,
  Bool-cases, Option-cases, Bytes, length, ◌==◌, same_nat, same_string, same_bytes,
}
use relaybaton.Web.Database.{Gorm, Crypto}
use relaybaton.Web.Exchange.{Session, Json, Answer, json, status_accepted}
use relaybaton.Web.Accounts.{
  PostUserRequest, measure, new_user, created, hashed, keyed, checked, post_user, username_taken,
}

-- The answer to a registration that succeeds.
abbrev pub registered_answer : List Answer
registered_answer = json status_accepted (Json.message true "") ∷ []

module _ (gorm : Gorm) (crypto : Crypto) where
  open gorm use {Db, create_user}

  pub record IsCreated (db : Db) (now : ℕ) (request : PostUserRequest) (after : Db) : Type 0 where
    pub sent_key : Bytes
    pub stored_key : Bytes
    pub name : (request.username == "admin") ≡ false
    pub sent : crypto.decode request.password ≡ some sent_key
    pub long : length sent_key ≡ 64
    pub stored : crypto.generate_from_password sent_key ≡ some stored_key
    pub written : create_user db (new_user gorm crypto request stored_key now) ≡ (none, after)

  created-ok :
      (r : Option String × Db) (after : Db)
      → created gorm crypto r ≡ (registered_answer, after)
      → r ≡ (none, after)
  unfolding created
  created-ok (none, db) after h = cc
  created-ok (some e, db) after h = elim (Bool-cases (e == username_taken)) [
    | inl taken ↦ cc (rw (taken) at h)
    | inr other ↦ cc (rw (other) at h)
  ]

  keyed-IsCreated :
      (now : ℕ) (db after : Db) (request : PostUserRequest)
      → (request.username == "admin") ≡ false
      → keyed gorm crypto db request now (measure (crypto.decode request.password))
        ≡ (registered_answer, after)
      → IsCreated db now request after
  unfolding keyed hashed
  keyed-IsCreated now db after request name h =
      elim (Option-cases (crypto.decode request.password)) [
        | inl missing ↦ cc (rw (missing) at h)
        | inr (k, sent) ↦ elim (Bool-cases (length k =ℕ 64)) [
          | inr short ↦ cc (rw (sent, short) at h)
          | inl long ↦ elim (Option-cases (crypto.generate_from_password k)) [
            | inl failed ↦ cc (rw (sent, long, failed) at h)
            | inr (c, stored) ↦ record {
              sent_key = k;
              stored_key = c;
              name = name;
              sent = sent;
              long = (=ℕ_iff (length k) 64).0 long;
              stored = stored;
              written = created-ok _ after (rw (sent, long, stored) at h);
            }
          ]
        ]
      ]

  -- A registration that is answered as a success has written one new user, under the name that was
  -- asked for, with the hash of the key that was sent.
  pub post_user-IsCreated :
      (verify : String → String → Bool) (now : ℕ) (db after : Db) (session : Session)
      (request : PostUserRequest)
      → post_user gorm crypto verify now db session (some request) ≡ (registered_answer, after)
      → IsCreated db now request after
  unfolding post_user checked
  post_user-IsCreated verify now db after session request h =
      elim (Bool-cases (request.username == "admin")) [
        | inl taken ↦ cc (rw (taken) at h)
        | inr name ↦ elim (Option-cases session.captcha_id) [
          | inl missing ↦ cc (rw (name, missing) at h)
          | inr (id, there) ↦ elim (Bool-cases (verify id request.captcha)) [
            | inr wrong ↦ cc (rw (name, there, wrong) at h)
            | inl right ↦ keyed-IsCreated now db after request name (rw (name, there, right) at h)
          ]
        ]
      ]
