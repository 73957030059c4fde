-- ===== src/Tests/Histories.antt =====
-- A client with one connection to the server, while another connection opens, chooses its method and
-- closes.
use relaybaton.Common.Words.{uint16_to_bytes, uint16_of_bytes}
use relaybaton.Socks5.Reply.{pack, new_reply}
use relaybaton.Common.Decimal.{atoi, byte_of}
use relaybaton.Client.Address.{get_dst_addr_from_request}
use relaybaton.Socks5.Request.{new_request_from, is_command, read_address}
use relaybaton.Ip.Reserved.{is_reserved_ip, is_special, is_in_table}
use relaybaton.Router.Select.{get_cache, get_geo_ip, select, set_cache}
use relaybaton.Ip.Address.{shorten, to4, contains, same_prefix}
use relaybaton.Client.React.{react_method_accepted}
use relaybaton.Socks5.Reader.{read_byte}
use relaybaton.Socks5.Method.{new_method_request_from}
use relaybaton.Common.Dict.{get, put, remove}
use relaybaton.Client.Events.{on_opened, on_closed, forget_route}
use relaybaton.Client.React.{react, react_conn, react_opened}
use relaybaton.Common.{String, ◌≡◌, refl, some, List, [], ◌∷◌, same_nat, same_string, same_bytes}
use relaybaton.Client.Conn.{get_conn, put_conn, new_conn, delete_conn}
use relaybaton.Client.React.Laws.Stored.{IsSound}
use relaybaton.Client.Starting.{new_client}
use relaybaton.Client.History.{Call, opens, closes, receives, handle, handles}
use relaybaton.Client.History.Kept.{handles-IsSound}
use relaybaton.Tests.Routes.{geo, router}
use relaybaton.Tests.Clients.{codec, account, accepted, connected, network, to_away}

abbrev calls_for_a : List Call
calls_for_a = opens "a" ∷ receives "a" network (5 ∷ 1 ∷ 0 ∷ []) ∷ receives "a" network to_away ∷ []

abbrev others : List Call
others = opens "b" ∷ receives "b" network (5 ∷ 1 ∷ 0 ∷ []) ∷ closes "b" ∷ []

run : handles geo codec (new_client router account 1080) calls_for_a ≡ some connected
unfolding handles handle react on_opened new_client get_conn get put_conn put new_conn react_conn
    react_opened new_method_request_from read_byte remove react_method_accepted new_request_from
    is_command read_address get_dst_addr_from_request select get_cache get_geo_ip is_reserved_ip
    is_special to4 is_in_table contains shorten same_prefix atoi pack set_cache new_reply byte_of
    uint16_to_bytes uint16_of_bytes
run = refl

run_others : handles geo codec connected others ≡ some connected
unfolding handles handle react on_opened get_conn get put_conn put new_conn react_conn on_closed
    react_opened new_method_request_from read_byte delete_conn forget_route
run_others = refl

handles-IsSound_example :
    (◌≡◌ {A = String} "a" "a")
    × IsSound (accepted "a")
    × (get_conn connected.conns "a" ≡ some (accepted "a"))
unfolding get_conn get
handles-IsSound_example =
    handles-IsSound geo codec router account 1080 calls_for_a others connected connected "a"
      (accepted "a") run refl run_others (refl, (refl, (refl, tt)))
