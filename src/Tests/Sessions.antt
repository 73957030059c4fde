-- ===== src/Tests/Sessions.antt =====
-- A connection from its first frame on, and a user from the registration to the relay.
use mathlib.Core.Path.{subst}
use relaybaton.Common.{
  ℕ, String, ◌≡◌, refl, ap, ◌↔◌, Bool, true, false, Option, none, some, [], ◌∷◌, arith,
  if◌then◌else◌, Bytes, replicate, All, ◌==◌, same_nat, same_string, bytes_beq, same_bytes, eq_self,
  ok, err, some_injective,
}
use relaybaton.Common.Words.{uint16_to_bytes, uint16_of_bytes}
use relaybaton.Common.Decimal.{atoi, byte_of}
use relaybaton.Common.Dict.{get, put}
use relaybaton.Socks5.Reply.{pack, new_reply}
use relaybaton.Socks5.Reader.{read_byte}
use relaybaton.Socks5.Request.{new_request_from, is_command, read_address}
use relaybaton.Ip.Address.{shorten, to4, contains, same_prefix}
use relaybaton.Ip.Reserved.{is_reserved_ip, is_special, is_in_table}
use relaybaton.Router.Select.{select, get_cache, get_geo_ip, set_cache}
use relaybaton.Client.Address.{get_dst_addr_from_request}
use relaybaton.Client.Conn.{Conn, Account, new_conn, get_conn, put_conn, build_header}
use relaybaton.Client.React.{
  Client, Reaction, no_action, submits_run, react, react_conn, react_method_accepted,
}
use relaybaton.Client.React.Laws.{IsGreeting, react_opened-IsGreeting}
use relaybaton.Client.React.Laws.Frames.{relays}
use relaybaton.Client.React.Laws.Session.{react-relays}
use relaybaton.Client.Events.{on_opened}
use relaybaton.Client.Dialing.{Web, Dial, dial_ws}
use relaybaton.Client.Dialing.Hidden.{IsHidden, dial_ws-IsHidden}
use relaybaton.Config.Load.{returns}
use relaybaton.Client.React.{dialed}
use relaybaton.Web.Rows.{User}
use relaybaton.Web.Database.{Gorm, Crypto}
use relaybaton.Web.Exchange.{Session}
use relaybaton.Web.Accounts.{post_user, new_user}
use relaybaton.Web.Accounts.Created.{registered_answer}
use relaybaton.Server.Authenticate.{authenticate}
use relaybaton.Server.Registration.{
  IsCrypto, FindsCreated, codec_of, headers_of, registration, post_user-authenticate,
}
use relaybaton.Tests.Routes.{geo, after, away}
use relaybaton.Tests.Clients.{codec, idle, network, to_away}
use relaybaton.Tests.Handlers.{gorm, crypto, alice}

abbrev hello : Bytes
hello = 5 ∷ 1 ∷ 0 ∷ []

abbrev greeted_client : Client ℕ
greeted_client = record idle { conns = ("a", record (new_conn "a") { status = 1 }) ∷ [] }

abbrev first_reaction : Reaction ℕ
first_reaction = record {
  out = 5 ∷ 0 ∷ [];
  action = no_action;
  client = greeted_client;
  effects = [];
}

abbrev joined : Conn
joined = record {
  key = "a";
  status = 2;
  dst_addr = some (record { ip = away; port = 53 });
  cmd = 1;
  remote_conn = true;
  tcp_conn = false;
}

abbrev second_reaction : Reaction ℕ
second_reaction = record {
  out = 5 ∷ 0 ∷ 0 ∷ 1 ∷ 127 ∷ 0 ∷ 0 ∷ 1 ∷ 4 ∷ 56 ∷ [];
  action = no_action;
  client = record idle { conns = ("a", joined) ∷ []; router = after };
  effects = submits_run ∷ [];
}

first_frame : react geo codec (on_opened idle "a") network "a" hello ≡ some first_reaction
unfolding react on_opened get_conn get put_conn put new_conn react_conn
first_frame = ap some (react_opened-IsGreeting (on_opened idle "a") (new_conn "a") hello hello_is)
  where
    hello_is : IsGreeting hello
    hello_is = record { methods = 0 ∷ []; rest = []; begins = refl; offers = refl }

second_frame : react geo codec greeted_client network "a" to_away ≡ some second_reaction
unfolding react get_conn get react_conn react_method_accepted new_request_from read_byte is_command
    read_address get_dst_addr_from_request select get_cache get_geo_ip is_reserved_ip is_special to4
    is_in_table contains shorten same_prefix atoi pack put_conn set_cache new_reply put byte_of
    uint16_to_bytes new_conn uint16_of_bytes
second_frame = refl

react-relays_example :
    IsGreeting hello
    × (first_reaction.out ≡ 5 ∷ 0 ∷ [])
    × ((proxied : Bool) × (react geo codec second_reaction.client network "a" (7 ∷ 8 ∷ [])
          ≡ some (record {
            out = [];
            action = no_action;
            client = second_reaction.client;
            effects = relays proxied (7 ∷ 8 ∷ []) ∷ [];
          })))
react-relays_example =
    react-relays geo codec idle "a" network network network hello to_away (7 ∷ 8 ∷ [])
      first_reaction second_reaction refl first_frame refl second_frame refl

-- A database that keeps the user who was created last.
abbrev keeping : Gorm
keeping = record gorm {
  create_user = λ u new. (none, new);
  user_with_plan = λ u name.
      if u.username == name
      then ok (record u { id = 9; plan = alice.plan })
      else err "record not found";
}

abbrev hashing : Crypto
hashing = record crypto {
  generate_from_password = λ key. some (replicate 64 7);
  compare_hash_and_password = λ hash key. bytes_beq hash (replicate 64 7);
}

hashing-IsCrypto : IsCrypto hashing
hashing-IsCrypto = record {
  decode_encode = λ k h e. e;
  compare_generated = λ k h e. rw⁻¹ (some_injective e) refl;
}

keeping-FindsCreated : FindsCreated keeping
keeping-FindsCreated = record {
  id = λ db u. 9;
  plan = λ db u. alice.plan;
  has_traffic = λ db u. omega arith;
  found = λ db after u e.
      subst
        (λ (a : User).
          keeping.user_with_plan a u.username ≡ ok (record u { id = 9; plan = alice.plan }))
        (ap (λ (x : Option String × User). x.1) e) (rw (eq_self u.username) refl);
}

abbrev asks : Session
asks = record { user_id = none; captcha_id = some "1234" }

abbrev account : Account
account = record { username = "carol"; password = "secret" }

abbrev carol : User
carol = new_user keeping hashing (registration hashing account "1234") (replicate 64 7) 5

carol_registered :
    post_user keeping hashing
      (λ id solution. id == solution)
      5
      alice
      asks
      (some (registration hashing account "1234"))
    ≡ (registered_answer, carol)
unfolding post_user
carol_registered = refl

post_user-authenticate_example :
    authenticate keeping hashing carol
      (headers_of (λ addr. "203.0.113.1:53") (build_header (codec_of hashing) account joined))
    ≡ true
post_user-authenticate_example =
    post_user-authenticate keeping hashing (λ addr. "203.0.113.1:53")
      (λ id solution. id == solution) 5 alice carol asks "1234" account joined
      (record { ip = away; port = 53 }) hashing-IsCrypto keeping-FindsCreated carol_registered refl

-- A server whose keys are published, and which answers whoever has them.
abbrev published : Web
published = record {
  Keys = Bytes;
  lookup_txt = λ name. if name == "_esni.example.org" then some ("key" ∷ []) else none;
  decode = λ text. if text == "key" then some (1 ∷ 2 ∷ []) else none;
  parse_esni_keys = λ bytes. some bytes;
  connects = λ dial. some (48 ∷ []);
  sets_level = true;
}

dial_ws-IsHidden_example :
    All
      (IsHidden published account "example.org" joined)
      (dial_ws published (codec_of hashing) account "example.org" joined).1
    × (((dial_ws published (codec_of hashing) account "example.org" joined).0
          ≡ returns (dialed (48 ∷ [])))
        ↔ ((dial : Dial Bytes) × ((dial_ws published
                (codec_of hashing)
                account
                "example.org"
                joined).1
              ≡ dial ∷ [])
            × (published.connects dial ≡ some (48 ∷ []))
            × (published.sets_level ≡ true)))
dial_ws-IsHidden_example =
    dial_ws-IsHidden published (codec_of hashing) account "example.org" joined (48 ∷ [])
