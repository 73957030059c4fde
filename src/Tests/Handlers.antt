-- ===== src/Tests/Handlers.antt =====
-- The handlers over a database that has one user.
use relaybaton.Common.{
  String, ◌≡◌, refl, Bool, true, false, none, some, [], ◌∷◌, ◌=ℕ◌, if◌then◌else◌, replicate, ◌==◌,
  same_nat, same_string, bytes_beq, same_bytes, ok, err,
}
use relaybaton.Common.Decimal.{parse_uint}
use relaybaton.Web.Rows.{User, UserView, no_user, role_admin, role_user}
use relaybaton.Web.Database.{Gorm, Crypto, UserChange}
use relaybaton.Web.Exchange.{Session, uint, bad_request, is_admin, get_role}
use relaybaton.Web.Accounts.{PostSessionRequest, post_session}
use relaybaton.Web.Accounts.Laws.{IsLogin, post_session-IsLogin}
use relaybaton.Web.Routes.{serve, delete_user_at, put_user_at, is_guarded}
use relaybaton.Web.Routes.Laws.{serve-is_guarded, put_user-is_admin}
use relaybaton.Web.Users.{change_of}

abbrev changed : User → UserChange → User
changed u change = record u {
  username = change.username;
  role = change.role;
  plan_id = change.plan_id;
  traffic_used = change.traffic_used;
  plan_start = change.plan_start;
  plan_reset = change.plan_reset;
  plan_end = change.plan_end;
}

abbrev pub gorm : Gorm
gorm = record {
  Db = User;
  first_user = λ u id. if u.id =ℕ id then ok u else err "record not found";
  user_by_name = λ u name. if u.username == name then ok u else err "record not found";
  user_with_plan = λ u name. if u.username == name then ok u else err "record not found";
  find_users = λ u range. ok (u ∷ []);
  first_plan = λ u id. err "record not found";
  plan_where = λ u text. err "record not found";
  find_plans = λ u range. ok [];
  first_log = λ u id. err "record not found";
  find_logs = λ u range. ok [];
  first_notice = λ u id. err "record not found";
  notice_where = λ u text. err "record not found";
  find_notices = λ u range. ok [];
  first_meta = λ u. none;
  count_meta = λ u. 0;
  count = λ u table. 1;
  create_user = λ u new. (some "disk full", u);
  save_user = λ u user. user;
  update_user = λ u id change. if u.id =ℕ id then (none, changed u change) else (none, u);
  delete = λ u table id. (some "disk full", u);
  save_plan = λ u plan. (err "disk full", u);
  update_plan = λ u id plan. (none, u);
  save_notice = λ u notice. (err "disk full", u);
  update_notice = λ u id notice. (none, u);
  save_meta = λ u meta. u;
}

abbrev pub crypto : Crypto
crypto = record {
  sha512 = λ text. replicate 64 1;
  encode = λ bytes. "";
  decode = λ text. some (replicate 64 7);
  generate_from_password = λ key. some key;
  compare_hash_and_password = bytes_beq;
}

abbrev verify : String → String → Bool
verify id solution = id == solution

abbrev pub alice : User
alice = record {
  id = 7;
  username = "alice";
  role = role_user;
  plan = record { id = 1; name = "free"; bandwidth_limit = 100; traffic_limit = 1000 };
  plan_id = 1;
  password = "";
  traffic_used = 0;
  plan_start = 0;
  plan_reset = 0;
  plan_end = 0;
}

abbrev nobody : Session
nobody = record { user_id = none; captcha_id = none }

abbrev as_alice : Session
as_alice = record { user_id = some (uint 7); captcha_id = none }

nobody-refused : is_admin gorm alice nobody ≡ false
unfolding is_admin get_role
nobody-refused = refl

serve-is_guarded_example :
    serve gorm crypto verify 0 (delete_user_at (b'7' ∷ [])) alice nobody ≡ (bad_request, alice)
serve-is_guarded_example =
    serve-is_guarded gorm crypto verify 0 (delete_user_at (b'7' ∷ [])) alice nobody nobody-refused
      guarded
  where
    guarded : is_guarded (delete_user_at (b'7' ∷ [])) ≡ true
    guarded = unfold is_guarded in refl

abbrev promotion : UserView
promotion = record no_user { username = "alice"; role = role_admin }

param_read : parse_uint (b'7' ∷ []) ≡ some 7
unfolding parse_uint
param_read = refl

put_user-is_admin_example :
    is_admin gorm
      (serve gorm crypto verify 0 (put_user_at (b'7' ∷ []) (some promotion)) alice nobody).1
      as_alice
    ≡ true
put_user-is_admin_example =
    put_user-is_admin gorm crypto verify 0 alice (changed alice (change_of promotion)) 7 nobody
      as_alice (b'7' ∷ []) promotion (changed alice (change_of promotion)) param_read refl refl refl
      refl refl

abbrev login_request : PostSessionRequest
login_request = record { username = "alice"; password = "Bw==" }

post_session-IsLogin_example :
    IsLogin gorm crypto "secret" alice
      (some login_request)
      nobody
      (post_session gorm crypto "secret" true alice nobody (some login_request)).1
post_session-IsLogin_example =
    post_session-IsLogin gorm crypto "secret" alice true nobody (some login_request)
