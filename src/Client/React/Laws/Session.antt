-- ===== src/Client/React/Laws/Session.antt =====
-- A connection of the client from the first frame on (`OnOpened` and `React` of
-- pkg/core/client.go).
use relaybaton.Common.{
  String, ◌≡◌, refl, sym, ap, ◌∙◌, inl, inr, Bool, true, false, not, Option, none, some, [], ◌∷◌,
  arith, ◌=ℕ◌, Bool-cases, Option-cases, Bytes, eq_self, Result-cases, some_injective,
}
use relaybaton.Router.State.{GeoIp, Router}
use relaybaton.Router.Select.{select}
use relaybaton.Socks5.Method.{new_method_request_from}
use relaybaton.Socks5.Request.{Request, new_request_from}
use relaybaton.Client.Address.{
  Destination, at, nowhere, lookup_error, unknown_a_typ, get_dst_addr_from_request,
}
use relaybaton.Client.Conn.{
  Conn, TcpAddr, Codec, get_conn, new_conn, build_header, status_method_accepted, status_accepted,
}
use relaybaton.Common.Decimal.{atoi}
use relaybaton.Client.React.{
  Client, Network, Reaction, no_action, Dialed, not_tried, not_dialed, unusable, dialed, route,
  connect, to_destination, reply_code, after_dial_ws, after_dial, react_opened,
  react_method_accepted, react_accepted, react_conn, react, offers_no_auth,
}
use relaybaton.Client.React.Laws.{IsGreeting, greets, greeted, react_opened-IsGreeting}
use relaybaton.Client.React.Laws.Frames.{relays, react_accepted-relays}
use relaybaton.Client.React.Laws.Connecting.{put-stored, react_method_accepted-connects}
use relaybaton.Client.Events.{on_opened}
use relaybaton.Client.Closing.{get_conn-on_opened}

module _ (geo : GeoIp) (codec : Codec) where
  open geo use {Reader}

  after_dial_ws-shutdown :
      (c : Client Reader) (net : Network) (conn : Conn) (d : Dialed)
      → (after_dial_ws c net conn d).client.shutdown ≡ c.shutdown
  unfolding after_dial_ws reply_code
  after_dial_ws-shutdown c net conn not_tried = refl
  after_dial_ws-shutdown c net conn not_dialed = refl
  after_dial_ws-shutdown c net conn unusable = refl
  after_dial_ws-shutdown c net conn (dialed reply) = ground (arith, Option-cases (atoi reply))

  after_dial-shutdown :
      (c : Client Reader) (net : Network) (conn : Conn) (b : Bool)
      → (after_dial c net conn b).client.shutdown ≡ c.shutdown
  unfolding after_dial
  after_dial-shutdown c net conn false = refl
  after_dial-shutdown c net conn true = ground arith

  route-shutdown :
      (c : Client Reader) (net : Network) (conn : Conn) (addr : TcpAddr)
      (x : Option (Bool × Router Reader)) (r : Reaction Reader)
      → route geo codec c conn x (connect geo codec net conn addr) ≡ some r
      → r.client.shutdown ≡ c.shutdown
  unfolding connect
  route-shutdown c net conn addr none r e = cc
  route-shutdown c net conn addr (some (true, router)) r e =
      ap (λ (x : Client Reader). x.shutdown)
        (ap (λ (x : Reaction Reader). x.client) (some_injective (sym e)))
      ∙ after_dial_ws-shutdown (record c { router = router }) net conn
          (net.dial_ws (build_header codec c.account conn))
  route-shutdown c net conn addr (some (false, router)) r e =
      ap (λ (x : Client Reader). x.shutdown)
        (ap (λ (x : Reaction Reader). x.client) (some_injective (sym e)))
      ∙ after_dial-shutdown (record c { router = router }) net conn (net.dial addr)

  to_destination-shutdown :
      (c : Client Reader) (net : Network) (conn : Conn) (request : Request) (d : Destination)
      (r : Reaction Reader)
      → to_destination geo codec c net conn request d ≡ some r
      → r.client.shutdown ≡ c.shutdown
  unfolding to_destination
  to_destination-shutdown c net conn request lookup_error r e = ground arith
  to_destination-shutdown c net conn request unknown_a_typ r e = ground arith
  to_destination-shutdown c net conn request nowhere r e = cc
  to_destination-shutdown c net conn request (at addr) r e =
      route-shutdown c net (record conn { dst_addr = some addr; cmd = request.cmd }) addr
        (select geo c.router addr.ip) r e

  react_method_accepted-shutdown :
      (c : Client Reader) (net : Network) (conn : Conn) (frame : Bytes) (r : Reaction Reader)
      → react_method_accepted geo codec c net conn frame ≡ some r
      → r.client.shutdown ≡ c.shutdown
  unfolding react_method_accepted
  react_method_accepted-shutdown c net conn frame r e =
      elim (Result-cases (new_request_from frame)) [
        | inr (x, p) ↦ ground arith
        | inl (request, p) ↦
            to_destination-shutdown c net conn request
              (get_dst_addr_from_request net.lookup_ip_addr request) r
              (rw (p, react_method_accepted) at e)
      ]

  react_opened-greeted :
      (c : Client Reader) (conn : Conn) (frame : Bytes)
      → (react_opened c conn frame).action ≡ no_action
      → IsGreeting frame × (react_opened c conn frame ≡ greeted c conn)
  unfolding react_opened
  react_opened-greeted c conn frame h = elim (Result-cases (new_method_request_from frame)) [
    | inr (x, p) ↦ cc (rw (p, react_opened) at h)
    | inl (mr, p) ↦ elim (Bool-cases (offers_no_auth mr)) [
      | inr refused ↦ cc (rw (p, react_opened, refused) at h)
      | inl offered_it ↦
          let is = greets frame mr p offered_it in (is, react_opened-IsGreeting c conn frame is)
    ]
  ]

  react-stored :
      (c : Client Reader) (net : Network) (key : String) (conn : Conn) (frame : Bytes)
      → c.shutdown ≡ 0
      → get_conn c.conns key ≡ some conn
      → react geo codec c net key frame ≡ react_conn geo codec c net conn frame
  unfolding react
  react-stored c net key conn frame s g = rw (not_due, g) refl
    where
      not_due : not (c.shutdown =ℕ 0) ≡ false
      not_due = ground arith

  react_conn-accepted :
      (c : Client Reader) (net : Network) (conn : Conn) (frame : Bytes)
      → conn.status ≡ status_accepted
      → react_conn geo codec c net conn frame ≡ react_accepted geo codec c net conn frame
  unfolding react_conn
  react_conn-accepted c net conn frame e = ground arith

  -- A connection that opens is served after two frames: if no shutdown is under way and neither of
  -- its first two frames panics or closes it, then the first was a greeting and was answered with
  -- the bytes 5 and 0, and the frame that comes next is written unchanged to one of the two
  -- sockets, with no answer and no change of the client, whether the write succeeds or fails.
  pub react-relays :
      (c : Client Reader) (key : String) (greeted_by connects relaying : Network)
      (greeting request frame : Bytes) (r s : Reaction Reader)
      → c.shutdown ≡ 0
      → react geo codec (on_opened c key) greeted_by key greeting ≡ some r
      → r.action ≡ no_action
      → react geo codec r.client connects key request ≡ some s
      → s.action ≡ no_action
      → IsGreeting greeting
        × (r.out ≡ 5 ∷ 0 ∷ [])
        × ((proxied : Bool) × (react geo codec s.client relaying key frame
              ≡ some (record {
                out = [];
                action = no_action;
                client = s.client;
                effects = relays proxied frame ∷ [];
              })))
  unfolding new_conn react_conn on_opened
  react-relays c key greeted_by connects relaying greeting request frame r s due e h f i =
      let opened = get_conn-on_opened c key key ∙ rw (eq_self key) refl in
      let same : react_opened (on_opened c key) (new_conn key) greeting ≡ r = some_injective (
        sym (react-stored (on_opened c key) greeted_by key (new_conn key) greeting due opened)
        ∙ e) in
      let (is, answered) =
        react_opened-greeted (on_opened c key) (new_conn key) greeting
          (ap (λ (x : Reaction Reader). x.action) same ∙ h) in
      let r_is = sym same ∙ answered in
      let client_is = ap (λ (x : Reaction Reader). x.client) r_is in
      let chosen = record (new_conn key) { status = status_method_accepted } in
      let due_r = ap (λ (x : Client Reader). x.shutdown) client_is ∙ due in
      let stored =
        ap (λ (x : Client Reader). get_conn x.conns key) client_is
        ∙ put-stored geo codec (on_opened c key) chosen in
      let connecting = sym (react-stored r.client connects key chosen request due_r stored) ∙ f in
      let accepted =
        react_method_accepted-connects geo codec r.client connects chosen request s connecting i in
      let due_s =
        react_method_accepted-shutdown r.client connects chosen request s connecting ∙ due_r in
      (
        is,
        ap (λ (x : Reaction Reader). x.out) r_is,
        (
          accepted.proxied,
          react-stored s.client relaying key accepted.conn frame due_s accepted.stored
              ∙ react_conn-accepted s.client relaying accepted.conn frame accepted.status
              ∙ react_accepted-relays geo codec s.client relaying accepted.conn frame
                  accepted.proxied accepted.connected,
        ),
      )
