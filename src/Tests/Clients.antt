-- ===== src/Tests/Clients.antt =====
-- A client with two connections to one address.
use relaybaton.Common.Words.{uint16_to_bytes, uint16_of_bytes}
use relaybaton.Socks5.Reply.{pack, new_reply}
use relaybaton.Common.Decimal.{atoi, byte_of}
use relaybaton.Client.Address.{get_dst_addr_from_request}
use relaybaton.Socks5.Reader.{read_byte}
use relaybaton.Socks5.Request.{new_request_from, is_command, read_address}
use relaybaton.Ip.Reserved.{is_reserved_ip, is_special, is_in_table}
use relaybaton.Router.Select.{get_cache, remove_cache, get_geo_ip, select, set_cache}
use relaybaton.Common.Dict.{get, remove, put}
use relaybaton.Common.{
  ℕ, String, ◌≡◌, refl, true, false, none, some, [], ◌∷◌, arith, Bytes, same_nat, same_string,
  same_bytes,
}
use relaybaton.Ip.Address.{shorten, to4, contains, same_prefix}
use relaybaton.Client.Conn.{Conn, Codec, Account, get_conn, delete_conn, put_conn}
use relaybaton.Client.React.{
  Client, dialed, Network, Reaction, no_action, submits_run, react, react_method_accepted,
  react_accepted,
}
use relaybaton.Client.React.Laws.{IsGreeting}
use relaybaton.Client.React.Laws.Frames.{relays, IsConnected, react_accepted-relays}
use relaybaton.Client.React.Laws.Connecting.{IsAccepted, react_method_accepted-connects}
use relaybaton.Client.React.Laws.Answers.{IsAnswer, IsCode, react_method_accepted-IsAnswer}
use relaybaton.Client.Events.{remote_socket, on_closed, forget_route}
use relaybaton.Client.Closing.{SharesRoute, react-SharesRoute}
use relaybaton.Common.Decimal.{atoi, byte_of}
use relaybaton.Socks5.Request.{is_command}
use relaybaton.Client.Address.{get_dst_addr_from_request}
use relaybaton.Router.Select.{select}
use relaybaton.Tests.Routes.{geo, router, after, away}

abbrev pub codec : Codec
codec = record { sha512 = λ s. []; encode = λ b. "" }

abbrev pub account : Account
account = record { username = "alice"; password = "secret" }

-- The conns "a" and "b" are both connected through the proxy.
abbrev pub accepted : String → Conn
accepted key = record {
  key = key;
  status = 2;
  dst_addr = some (record { ip = away; port = 53 });
  cmd = 1;
  remote_conn = true;
  tcp_conn = false;
}

abbrev opened : Conn
opened = record {
  key = "a";
  status = 0;
  dst_addr = none;
  cmd = 0;
  remote_conn = false;
  tcp_conn = false;
}

abbrev pub selecting : Conn
selecting = record opened { status = 1 }

abbrev pub idle : Client ℕ
idle = record { conns = []; shutdown = 0; router = router; account = account; port = 1080 }

abbrev pub connected : Client ℕ
connected = record idle { conns = ("a", accepted "a") ∷ []; router = after }

abbrev both : Client ℕ
both = record connected { conns = ("b", accepted "b") ∷ ("a", accepted "a") ∷ [] }

abbrev pub network : Network
network = record {
  lookup_ip_addr = λ name. none;
  dial_ws = λ header. dialed (48 ∷ []);
  dial = λ addr. true;
  submit = true;
  write_message = λ frame. false;
  write = λ frame. true;
}

abbrev pub to_away : Bytes
to_away = 5 ∷ 1 ∷ 0 ∷ 1 ∷ 8 ∷ 8 ∷ 8 ∷ 8 ∷ 0 ∷ 53 ∷ []

abbrev reaction : Reaction ℕ
reaction = record {
  out = 5 ∷ 0 ∷ 0 ∷ 1 ∷ 127 ∷ 0 ∷ 0 ∷ 1 ∷ 4 ∷ 56 ∷ [];
  action = no_action;
  client = connected;
  effects = submits_run ∷ [];
}

reacted : react_method_accepted geo codec idle network selecting to_away ≡ some reaction
unfolding react_method_accepted new_request_from read_byte is_command read_address
    get_dst_addr_from_request select get_cache get get_geo_ip is_reserved_ip is_special to4
    is_in_table contains shorten same_prefix atoi pack put_conn set_cache new_reply put byte_of
    uint16_to_bytes uint16_of_bytes
reacted = refl

react_method_accepted-connects_example : IsAccepted geo codec connected "a"
react_method_accepted-connects_example =
    react_method_accepted-connects geo codec idle network selecting to_away reaction reacted refl

react_method_accepted-IsAnswer_example :
    IsAnswer 1080 (IsCode geo codec idle network to_away) reaction
react_method_accepted-IsAnswer_example =
    react_method_accepted-IsAnswer geo codec idle network selecting to_away reaction (omega arith)
      reacted

pub a-IsConnected : IsConnected geo codec connected (accepted "a") true
unfolding get_cache get shorten to4
a-IsConnected = record {
  addr = record { ip = away; port = 53 };
  to = refl;
  cached = refl;
  there = refl;
}

react_accepted-relays_example :
    react_accepted geo codec connected network (accepted "a") (1 ∷ 2 ∷ [])
    ≡ some (record {
      out = [];
      action = no_action;
      client = connected;
      effects = relays true (1 ∷ 2 ∷ []) ∷ [];
    })
react_accepted-relays_example =
    react_accepted-relays geo codec connected network (accepted "a") (1 ∷ 2 ∷ []) true a-IsConnected

hello : IsGreeting (5 ∷ 2 ∷ 0 ∷ 2 ∷ [])
hello = record { methods = 0 ∷ 2 ∷ []; rest = []; begins = refl; offers = refl }

-- "b" has closed, and its route is forgotten.
abbrev alone : Client ℕ
alone = record both { conns = ("a", accepted "a") ∷ []; router = router }

b_closes : on_closed both "b" ≡ some (alone, remote_socket ∷ [])
unfolding on_closed get_conn get delete_conn forget_route remove remove_cache shorten to4
b_closes = refl

-- A download has ended: the database in use places the address in China by now.
abbrev updated : Client ℕ
updated = record both { router = record after { geo_ip_db = some 8 } }

updated-SharesRoute : SharesRoute geo codec updated "a" "b" false
unfolding get_conn get get_geo_ip is_reserved_ip is_special to4 is_in_table contains shorten
    same_prefix
updated-SharesRoute = record {
  conn = accepted "a";
  conn' = accepted "b";
  addr = record { ip = away; port = 53 };
  addr' = record { ip = away; port = 53 };
  running = refl;
  found = refl;
  found' = refl;
  differ = refl;
  accepted = refl;
  to = refl;
  to' = refl;
  same = refl;
  decision = refl;
  elsewhere = refl;
}

abbrev updated_alone : Client ℕ
updated_alone = record alone { router = record router { geo_ip_db = some 8 } }

b_closes_late : on_closed updated "b" ≡ some (updated_alone, remote_socket ∷ [])
unfolding on_closed get_conn get delete_conn forget_route remove remove_cache shorten to4
b_closes_late = refl

react-SharesRoute_example : react geo codec updated_alone network "a" (1 ∷ []) ≡ none
react-SharesRoute_example =
    react-SharesRoute geo codec updated updated_alone network "a" "b" (1 ∷ []) false
      (remote_socket ∷ []) updated-SharesRoute b_closes_late
