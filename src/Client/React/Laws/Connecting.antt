-- ===== src/Client/React/Laws/Connecting.antt =====
-- What a successful request leaves behind in `React` (pkg/core/client.go).
use relaybaton.Common.{
  ℕ, String, ◌≡◌, refl, ◌∙◌, Bool, true, false, Option, none, some, arith, Bytes, same_nat,
  same_string, same_bytes, eq_self, Result, ok, err,
}
use relaybaton.Common.Dict
use relaybaton.Router.State.{GeoIp, Router}
use relaybaton.Router.Select.{select}
use relaybaton.Router.Select.Laws.{select-fields}
use relaybaton.Socks5.Request.{Request, new_request_from}
use relaybaton.Socks5.Reader.{Error}
use relaybaton.Client.Address.{
  Destination, at, nowhere, lookup_error, unknown_a_typ, get_dst_addr_from_request,
}
use relaybaton.Client.Conn.{Conn, TcpAddr, Codec, get_conn, put_conn, build_header, status_accepted}
use relaybaton.Common.Decimal.{atoi}
use relaybaton.Client.React.{
  Client, Network, Reaction, no_action, Dialed, not_tried, not_dialed, unusable, dialed, route,
  connect, to_destination, reply_code, after_dial_ws, after_dial, react_method_accepted, store,
}
use relaybaton.Client.React.Laws.Frames.{IsConnected}

-- The connection after a success.
abbrev established : Conn → Bool → Conn
established conn true = record conn { remote_conn = true; status = status_accepted }
established conn false = record conn { tcp_conn = true; status = status_accepted }

module _ {Reader : Type 0} where
  after_dial_ws-established :
      (c : Client Reader) (net : Network) (conn : Conn) (d : Dialed)
      → (after_dial_ws c net conn d).action ≡ no_action
      → (after_dial_ws c net conn d).client ≡ store c (established conn true)
  unfolding after_dial_ws
  after_dial_ws-established c net conn not_tried h = cc
  after_dial_ws-established c net conn not_dialed h = cc
  after_dial_ws-established c net conn unusable h = cc
  after_dial_ws-established c net conn (dialed reply) h = by_code (atoi reply) h
    where
      by_code :
          (code : Option (Bool × ℕ))
          → (reply_code c net (record conn { remote_conn = true }) code).action ≡ no_action
          → (reply_code c net (record conn { remote_conn = true }) code).client
            ≡ store c (established conn true)
      by_code none q = cc
      by_code (some code) q = ground arith

  after_dial-established :
      (c : Client Reader) (net : Network) (conn : Conn) (ok_dial : Bool)
      → (after_dial c net conn ok_dial).action ≡ no_action
      → (after_dial c net conn ok_dial).client ≡ store c (established conn false)
  unfolding after_dial
  after_dial-established c net conn false h = cc
  after_dial-established c net conn true h = ground arith

module _ (geo : GeoIp) (codec : Codec) where
  open geo use {Reader}

  -- The connection in the client's map, once a request has succeeded.
  pub record IsAccepted (c : Client Reader) (key : String) : Type 0 where
    pub conn : Conn
    pub proxied : Bool
    pub stored : get_conn c.conns key ≡ some conn
    pub status : conn.status ≡ status_accepted
    pub connected : IsConnected geo codec c conn proxied

  connect-established :
      (net : Network) (conn : Conn) (addr : TcpAddr) (b : Bool) (c : Client Reader)
      (r : Reaction Reader)
      → connect geo codec net conn addr b c ≡ some r
      → r.action ≡ no_action
      → r.client ≡ store c (established conn b)
  unfolding connect
  connect-established net conn addr true c r e h = ground (
    arith,
    after_dial_ws-established c net conn (net.dial_ws (build_header codec c.account conn)),
  )
  connect-established net conn addr false c r e h =
      ground (arith, after_dial-established c net conn (net.dial addr))

  pub put-stored :
      (c : Client Reader) (conn : Conn) → get_conn (store c conn).conns conn.key ≡ some conn
  unfolding get_conn put_conn
  put-stored c conn = Dict.get-put conn.key conn.key conn c.conns ∙ rw (eq_self conn.key)

  -- The request went to an address, and the router has decided about it.
  decided :
      (c : Client Reader) (net : Network) (conn : Conn) (addr : TcpAddr) (b : Bool)
      (router : Router Reader) (r : Reaction Reader)
      → select geo c.router addr.ip ≡ some (b, router)
      → conn.dst_addr ≡ some addr
      → connect geo codec net conn addr b (record c { router = router }) ≡ some r
      → r.action ≡ no_action
      → IsAccepted r.client conn.key
  decided c net conn addr b router r s d e h =
      let same = connect-established net conn addr b (record c { router = router }) r e h in
      rw same (of_decision b s)
    where
      of_decision :
          (x : Bool)
          → select geo c.router addr.ip ≡ some (x, router)
          → IsAccepted (store (record c { router = router }) (established conn x)) conn.key
      of_decision true s' = record {
        conn = established conn true;
        proxied = true;
        stored = put-stored (record c { router = router }) (established conn true);
        status = refl;
        connected = record {
          addr = addr;
          to = d;
          cached = (select-fields geo c.router router addr.ip true s').0;
          there = refl;
        };
      }
      of_decision false s' = record {
        conn = established conn false;
        proxied = false;
        stored = put-stored (record c { router = router }) (established conn false);
        status = refl;
        connected = record {
          addr = addr;
          to = d;
          cached = (select-fields geo c.router router addr.ip false s').0;
          there = refl;
        };
      }

  to_destination-IsAccepted :
      (c : Client Reader) (net : Network) (conn : Conn) (request : Request) (d : Destination)
      (r : Reaction Reader)
      → to_destination geo codec c net conn request d ≡ some r
      → r.action ≡ no_action
      → IsAccepted r.client conn.key
  unfolding to_destination
  to_destination-IsAccepted c net conn request lookup_error r e h = ground arith
  to_destination-IsAccepted c net conn request unknown_a_typ r e h = ground arith
  to_destination-IsAccepted c net conn request nowhere r e h = cc
  to_destination-IsAccepted c net conn request (at addr) r e h =
      by_decision (select geo c.router addr.ip) refl e
    where
      conn' : Conn
      conn' = record conn { dst_addr = some addr; cmd = request.cmd }

      by_decision :
          (x : Option (Bool × Router Reader))
          → select geo c.router addr.ip ≡ x
          → route geo codec c conn' x (connect geo codec net conn' addr) ≡ some r
          → IsAccepted r.client conn.key
      by_decision none p q = cc
      by_decision (some (b, router)) p q = decided c net conn' addr b router r p refl q h

  -- Whatever `React` does with a request without panicking: if its action is not to close the
  -- connection, the connection in the client's map has the accepted status, a destination whose
  -- route is cached, and the socket for that route.
  pub react_method_accepted-connects :
      (c : Client Reader) (net : Network) (conn : Conn) (frame : Bytes) (r : Reaction Reader)
      → react_method_accepted geo codec c net conn frame ≡ some r
      → r.action ≡ no_action
      → IsAccepted r.client conn.key
  unfolding react_method_accepted
  react_method_accepted-connects c net conn frame r e h = by_request (new_request_from frame) refl
    where
      by_request :
          (x : Result Error Request) → new_request_from frame ≡ x → IsAccepted r.client conn.key
      by_request (err x) p = ground arith
      by_request (ok request) p =
          to_destination-IsAccepted c net conn request
            (get_dst_addr_from_request net.lookup_ip_addr request) r
            (rw (p, react_method_accepted) at e) h
