-- ===== src/Client/React.antt =====
-- `Client.React` of pkg/core/client.go, with `DialWs` of pkg/core/conn.go.
pub mod Laws
use relaybaton.Common.{
  ℕ, ◌-◌, String, Bool, true, false, not, Option, none, some, List, [], ◌∷◌, ◌=ℕ◌, if◌then◌else◌,
  Bytes, any, ok, err,
}
use relaybaton.Ip.Address.{Ip}
use relaybaton.Socks5.Codes.{method_no_auth_required, a_type_ipv4, rep_succeeded}
use relaybaton.Socks5.Method.{MethodRequest, new_method_request_from}
use relaybaton.Socks5.Request.{Request, new_request_from}
use relaybaton.Socks5.Reply.{new_method_reply, encode, new_reply, pack}
use relaybaton.Socks5.Reader.{Error}
use relaybaton.Router.State.{GeoIp, Router}
use relaybaton.Router.Select.{select}
use relaybaton.Common.Decimal.{atoi, byte_of}
use relaybaton.Client.Address.{
  Destination, at, nowhere, lookup_error, unknown_a_typ, get_dst_addr_from_request,
}
use relaybaton.Client.Conn.{
  Conn, ConnMap, TcpAddr, Header, Codec, Account, build_header, get_conn, put_conn, status_opened,
  status_method_accepted, status_accepted,
}

pub record Client (Reader : Type 0) : Type 0 where
  pub conns : ConnMap
  -- The values in the channel `shutdown`.
  pub shutdown : ℕ
  pub router : Router Reader
  pub account : Account
  pub port : ℕ

-- How `DialWs` ends: before it dials, with no connection, with a connection that cannot be used, or
-- with the value of the header "reply".
pub data Dialed : Type 0 where
  not_tried not_dialed unusable : Dialed
  dialed : Bytes → Dialed

-- What the outside answers during one call.
pub record Network : Type 0 where
  pub lookup_ip_addr : Bytes → Option (List Ip)
  pub dial_ws : Header → Dialed
  pub dial : TcpAddr → Bool
  pub submit : Bool
  pub write_message : Bytes → Bool
  pub write : Bytes → Bool

pub data Action : Type 0 where
  no_action close shut_down : Action

-- What a call does to the outside: a frame to the server or to the destination, and the goroutines
-- that copy back, `Conn.Run` and `Conn.DirectConnect`.
pub data Effect : Type 0 where
  writes_message writes : Bytes → Effect
  submits_run submits_direct_connect : Effect

pub record Reaction (Reader : Type 0) : Type 0 where
  pub out : Bytes
  pub action : Action
  pub client : Client Reader
  pub effects : List Effect

abbrev pub localhost : Bytes
localhost = 127 ∷ 0 ∷ 0 ∷ 1 ∷ []

-- The loop over `mr.Methods()`.
pub offers_no_auth : MethodRequest → Bool
offers_no_auth mr = any (λ v. v =ℕ method_no_auth_required) mr.methods

-- `React` sets its named result on a failed write, and then returns `gnet.None` all the same.
pub returned : Action → Action
returned _ = no_action

abbrev after_write : Bool → Action
after_write true = no_action
after_write false = close

module _ {Reader : Type 0} where
  abbrev pub store : Client Reader → Conn → Client Reader
  store c conn = record c { conns = put_conn c.conns conn }

  -- `action = gnet.Close; return`, with what `out` holds by then.
  abbrev pub closes : Bytes → Client Reader → Reaction Reader
  closes out c = record { out = out; action = close; client = c; effects = [] }

  unfoldable pub react_opened : Client Reader → Conn → Bytes → Reaction Reader
  unfolding offers_no_auth
  react_opened c conn frame = elim (new_method_request_from frame) [
    | err e ↦ closes [] c
    | ok mr ↦
        if offers_no_auth mr
        then record {
          out = encode (new_method_reply method_no_auth_required);
          action = no_action;
          client = store c (record conn { status = status_method_accepted });
          effects = [];
        }
        else closes [] c
  ]

  -- The reply, the goroutine that copies back, and the new status.
  accept : Client Reader → Network → Conn → ℕ → Effect → Reaction Reader
  accept c net conn rep copying =
      let out = pack (new_reply rep a_type_ipv4 localhost c.port) in
      if not net.submit then closes out (store c conn) else record {
        out = out;
        action = no_action;
        client = store c (record conn { status = status_accepted });
        effects = copying ∷ [];
      }

  reply_code : Client Reader → Network → Conn → Option (Bool × ℕ) → Reaction Reader
  unfolding accept
  reply_code c net conn none = closes [] (store c conn)
  reply_code c net conn (some code) = accept c net conn (byte_of code) submits_run

  -- After `DialWs`, which sets `conn.remoteConn` where it dials.
  pub after_dial_ws : Client Reader → Network → Conn → Dialed → Reaction Reader
  unfolding reply_code
  after_dial_ws c net conn not_tried = closes [] (store c conn)
  after_dial_ws c net conn not_dialed = closes [] (store c (record conn { remote_conn = false }))
  after_dial_ws c net conn unusable = closes [] (store c (record conn { remote_conn = true }))
  after_dial_ws c net conn (dialed reply) =
      reply_code c net (record conn { remote_conn = true }) (atoi reply)

  pub after_dial : Client Reader → Network → Conn → Bool → Reaction Reader
  unfolding accept
  after_dial c net conn false = closes [] (store c (record conn { tcp_conn = false }))
  after_dial c net conn true =
      accept c net (record conn { tcp_conn = true }) rep_succeeded submits_direct_connect

  -- `WriteMessage` and `Write` on a socket that is not there panic.
  pub forward : Client Reader → Network → Conn → Bytes → Bool → Option (Reaction Reader)
  unfolding returned
  forward c net conn frame true =
      if not conn.remote_conn
      then none
      else some (record {
        out = [];
        action = returned (after_write (net.write_message frame));
        client = c;
        effects = writes_message frame ∷ [];
      })
  forward c net conn frame false =
      if not conn.tcp_conn
      then none
      else some (record {
        out = [];
        action = returned (after_write (net.write frame));
        client = c;
        effects = writes frame ∷ [];
      })

module _ (geo : GeoIp) (codec : Codec) where
  open geo use {Reader}

  abbrev route :
      Client Reader
      → Conn
      → Option (Bool × Router Reader)
      → (Bool → Client Reader → Option (Reaction Reader))
      → Option (Reaction Reader)
  route c conn none k = none
  route c conn (some (proxied, router)) k = k proxied (record c { router = router })

  connect : Network → Conn → TcpAddr → Bool → Client Reader → Option (Reaction Reader)
  unfolding after_dial_ws after_dial
  connect net conn addr true c =
      some (after_dial_ws c net conn (net.dial_ws (build_header codec c.account conn)))
  connect net conn addr false c = some (after_dial c net conn (net.dial addr))

  -- `conn.dstAddr` is set also where that is an error; `conn.cmd` only after it.
  to_destination : Client Reader → Network → Conn → Request → Destination → Option (Reaction Reader)
  unfolding connect
  to_destination c net conn request lookup_error =
      some (closes [] (store c (record conn { dst_addr = none })))
  to_destination c net conn request unknown_a_typ =
      some (closes [] (store c (record conn { dst_addr = none })))
  to_destination c net conn request nowhere = none
  to_destination c net conn request (at addr) =
      let conn' = record conn { dst_addr = some addr; cmd = request.cmd } in
      route c conn' (select geo c.router addr.ip) (connect net conn' addr)

  unfoldable pub react_method_accepted :
      Client Reader → Network → Conn → Bytes → Option (Reaction Reader)
  unfolding to_destination
  react_method_accepted c net conn frame = elim (new_request_from frame) [
    | err e ↦ some (closes [] c)
    | ok request ↦
        to_destination c net conn request (get_dst_addr_from_request net.lookup_ip_addr request)
  ]

  unfoldable pub react_accepted : Client Reader → Network → Conn → Bytes → Option (Reaction Reader)
  unfolding forward
  react_accepted c net conn frame = elim conn.dst_addr [
    | none ↦ none
    | some addr ↦
        route c conn (select geo c.router addr.ip) (λ proxied c'. forward c' net conn frame proxied)
  ]

  -- The `switch` on the status.
  unfoldable pub react_conn : Client Reader → Network → Conn → Bytes → Option (Reaction Reader)
  react_conn c net conn frame =
      if conn.status =ℕ status_opened
      then some (react_opened c conn frame)
      else if conn.status =ℕ status_method_accepted
      then react_method_accepted c net conn frame
      else if conn.status =ℕ status_accepted
      then react_accepted c net conn frame
      else some (record { out = []; action = no_action; client = c; effects = [] })

  -- `none` is a panic.
  unfoldable pub react : Client Reader → Network → String → Bytes → Option (Reaction Reader)
  react c net key frame =
      if not (c.shutdown =ℕ 0)
      then some (record {
        out = [];
        action = shut_down;
        client = record c { shutdown = c.shutdown - 1 };
        effects = [];
      })
      else elim (get_conn c.conns key) [ none ↦ none | some conn ↦ react_conn c net conn frame ]
