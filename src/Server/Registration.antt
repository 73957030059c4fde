-- ===== src/Server/Registration.antt =====
-- From the registration to the relay: `PostUser` of pkg/core/server_web.go, `buildHeader` of
-- pkg/core/conn.go and `Authenticate` of pkg/core/server.go.
use relaybaton.Common.{ℕ, ◌<◌, String, ◌≡◌, refl, Bool, true, Option, none, some, Bytes, ok}
use relaybaton.Web.Rows.{User, Plan}
use relaybaton.Web.Database.{Gorm, Crypto}
use relaybaton.Web.Exchange.{Session}
use relaybaton.Web.Accounts.{PostUserRequest, new_user, post_user}
use relaybaton.Web.Accounts.Created.{registered_answer, post_user-IsCreated}
use relaybaton.Client.Conn.{TcpAddr, Conn, Codec, Account, Header, build_header}
use relaybaton.Server.Authenticate.{Headers, authenticate, registered, authenticate_complete}

-- What base64 and bcrypt promise of a hash that was made.
pub record IsCrypto (crypto : Crypto) : Type 0 where
  pub decode_encode :
      (k h : Bytes)
      → crypto.generate_from_password k ≡ some h
      → crypto.decode (crypto.encode h) ≡ some h
  pub compare_generated :
      (k h : Bytes)
      → crypto.generate_from_password k ≡ some h
      → crypto.compare_hash_and_password h k ≡ true

-- A user who has been created is found by the name, with an id and the plan of new users, which has
-- traffic.
pub record FindsCreated (gorm : Gorm) : Type 0 where
  pub id : gorm.Db → User → ℕ
  pub plan : gorm.Db → User → Plan
  pub has_traffic : (db : gorm.Db) (u : User) → 0 < (plan db u).traffic_limit
  pub found :
      (db after : gorm.Db) (u : User)
      → gorm.create_user db u ≡ (none, after)
      → gorm.user_with_plan after u.username
        ≡ ok (record u { id = id after u; plan = plan after u })

abbrev pub codec_of : Crypto → Codec
codec_of crypto = record { sha512 = crypto.sha512; encode = crypto.encode }

-- The headers of the client's request that the server looks at.
abbrev pub headers_of : (TcpAddr → String) → Header → Headers
headers_of text h = record {
  addr = addr_of h.addr;
  username = some h.username;
  password = some h.password;
}
  where
    addr_of : Option TcpAddr → Option String
    addr_of none = none
    addr_of (some addr) = some (text addr)

-- What the client's user sends to register.
abbrev pub registration : Crypto → Account → String → PostUserRequest
registration crypto account captcha = record {
  username = account.username;
  password = crypto.encode (crypto.sha512 account.password);
  captcha = captcha;
}

module _ (gorm : Gorm) (crypto : Crypto) where
  open gorm use {Db}

  -- Whoever has registered with the key of a password is let through by the server with that
  -- password: the headers that the client makes of the account, for any destination, are
  -- authenticated; provided that base64 decodes a hash that it has encoded, that bcrypt matches a key
  -- with its hash, and that the database finds a user who has been created, on a plan with traffic.
  pub post_user-authenticate :
      (text : TcpAddr → String) (verify : String → String → Bool) (now : ℕ) (db after : Db)
      (session : Session) (captcha : String) (account : Account) (conn : Conn) (addr : TcpAddr)
      → IsCrypto crypto
      → FindsCreated gorm
      → post_user gorm crypto verify now db session (some (registration crypto account captcha))
        ≡ (registered_answer, after)
      → conn.dst_addr ≡ some addr
      → authenticate gorm crypto after
          (headers_of text (build_header (codec_of crypto) account conn))
        ≡ true
  unfolding build_header new_user
  post_user-authenticate text verify now db after session captcha account conn addr c f h d =
      let made =
        post_user-IsCreated gorm crypto verify now db after session
          (registration crypto account captcha) h in
      let user = new_user gorm crypto (registration crypto account captcha) made.stored_key now in
      authenticate_complete gorm crypto after _ (text addr) (rw (d) refl) (
        registered {username = account.username}
          {password = crypto.encode (crypto.sha512 account.password)}
          {user = record user { id = f.id after user; plan = f.plan after user }}
          {k = made.sent_key} {correct_key = made.stored_key} refl made.name
          (f.found db after user made.written) (f.has_traffic after user) (rw (made.name) refl)
          made.sent made.long (c.decode_encode made.sent_key made.stored_key made.stored)
          (c.compare_generated made.sent_key made.stored_key made.stored))
