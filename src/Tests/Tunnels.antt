-- ===== src/Tests/Tunnels.antt =====
-- A tunnel that carries a frame and an answer, and one whose two ends are gone.
use relaybaton.Common.{
  ◌≡◌, refl, true, false, some, List, [], ◌∷◌, same_nat, same_string, same_bytes,
}
use relaybaton.Router.Select.{select, get_cache}
use relaybaton.Common.Dict.{get}
use relaybaton.Ip.Address.{shorten, to4}
use relaybaton.Client.React.{Network, react_accepted}
use relaybaton.Client.Copying.{arrives, run}
use relaybaton.Server.Relay.{step}
use relaybaton.Tunnel.{
  Tunnel, new_tunnel, Move, frame, sends, fails_to_send_on, downloads_on, download_ends, receives,
  act, moves,
}
use relaybaton.Tunnel.Order.{Streams, moves-Streams}
use relaybaton.Tunnel.Ending.{EndsWhole, moves-EndsWhole}
use relaybaton.Tunnel.Silence.{IsWaiting, moves-IsWaiting}
use relaybaton.Tests.Routes.{geo}
use relaybaton.Tests.Clients.{codec, network, accepted, connected, a-IsConnected}

abbrev writing : Network
writing = record network { write_message = λ b. true }

abbrev says : Move geo codec
says = frame connected writing (accepted "a") (1 ∷ 2 ∷ [])

abbrev talk : List (Move geo codec)
talk = says ∷ sends ∷ downloads_on (9 ∷ 8 ∷ []) ∷ receives ∷ []

abbrev talked : Tunnel
talked = record {
  asked = 1 ∷ 2 ∷ [];
  up = [];
  down = [];
  relay = record {
    read = 9 ∷ 8 ∷ [];
    written = 9 ∷ 8 ∷ [];
    received = 1 ∷ 2 ∷ [];
    sent = 1 ∷ 2 ∷ [];
    bandwidth = 4;
    downloading = true;
    uploading = true;
  };
  incoming = arrives (9 ∷ 8 ∷ []) ∷ [];
  client_closed = false;
  server_closed = false;
  broken = false;
}

talk-moves : moves geo codec new_tunnel talk ≡ some talked
unfolding moves act new_tunnel react_accepted select get_cache get shorten to4 step run
talk-moves = refl

moves-Streams_example : Streams talked
moves-Streams_example =
    moves-Streams geo codec talk talked (a-IsConnected, (tt, (tt, (tt, tt)))) talk-moves

-- The destination ends its stream.
abbrev ended : Tunnel
ended = record talked { relay = record talked.relay { downloading = false } }

ending-moves : moves geo codec talked (download_ends ∷ []) ≡ some ended
unfolding moves act step
ending-moves = refl

moves-IsWaiting_example : IsWaiting ended
unfolding run
moves-IsWaiting_example =
    moves-IsWaiting geo codec talked ended (download_ends ∷ []) (tt, tt) ending-moves waits
  where
    waits : IsWaiting talked
    waits = record {
      empty = refl;
      uploading = refl;
      whole = refl;
      opened = refl;
      served = refl;
      copying = refl;
    }

abbrev losing : List (Move geo codec)
losing = downloads_on (7 ∷ []) ∷ says ∷ fails_to_send_on 1 ∷ download_ends ∷ []

abbrev over : Tunnel
over = record {
  asked = 1 ∷ 2 ∷ [];
  up = [];
  down = (7 ∷ []) ∷ [];
  relay = record {
    read = 7 ∷ [];
    written = 7 ∷ [];
    received = 1 ∷ 2 ∷ [];
    sent = 1 ∷ [];
    bandwidth = 3;
    downloading = false;
    uploading = false;
  };
  incoming = [];
  client_closed = false;
  server_closed = false;
  broken = false;
}

losing-moves : moves geo codec new_tunnel losing ≡ some over
unfolding moves act new_tunnel react_accepted select get_cache get shorten to4 step
losing-moves = refl

moves-EndsWhole_example : EndsWhole geo codec over
moves-EndsWhole_example =
    moves-EndsWhole geo codec losing over (tt, (a-IsConnected, (tt, (tt, tt))))
      (tt, (tt, (tt, (tt, tt)))) losing-moves refl
