-- ===== src/Client/React/Laws/Answers.antt =====
-- What `React` of pkg/core/client.go writes to the local side in answer to a request.
use mathlib.Core.Path.{subst}
use relaybaton.Common.{
  ℕ, ◌+◌, ◌*◌, ◌^◌, ◌<◌, ◌≡◌, refl, ◌⊎◌, inl, inr, Bool, true, false, none, some, [], ◌∷◌, arith,
  Bool-cases, Option-cases, Bytes, ok, Result-cases, some_injective,
}
use relaybaton.Common.Words.{uint16_to_bytes}
use relaybaton.Common.Decimal.{atoi, byte_of}
use relaybaton.Router.State.{GeoIp, Router}
use relaybaton.Router.Select.{select}
use relaybaton.Socks5.Codes.{rep_succeeded}
use relaybaton.Socks5.Request.{Request, new_request_from}
use relaybaton.Socks5.Reply.{new_reply, pack}
use relaybaton.Client.Address.{
  Destination, at, nowhere, lookup_error, unknown_a_typ, get_dst_addr_from_request,
}
use relaybaton.Client.Conn.{Conn, TcpAddr, Header, Codec, build_header}
use relaybaton.Client.React.{
  Client, Network, Reaction, Effect, close, Dialed, not_tried, not_dialed, unusable, dialed,
  submits_run, submits_direct_connect, closes, react_method_accepted, to_destination, connect,
  after_dial, after_dial_ws, reply_code, accept,
}

-- Nothing is written and the connection is closed; or the ten bytes of a reply are written: the
-- version, the code, a zero, and the IPv4 address 127.0.0.1 with the port, the high byte first. `From`
-- says where the code comes from.
pub data IsAnswer {Reader : Type 0} (port : ℕ) (From : ℕ → Type 0) (r : Reaction Reader)
    : Type 0 where
  silent : r.out ≡ [] → r.action ≡ close → IsAnswer port From r
  replies :
      (rep high low : ℕ)
      → r.out ≡ 5 ∷ rep ∷ 0 ∷ 1 ∷ 127 ∷ 0 ∷ 0 ∷ 1 ∷ high ∷ low ∷ []
      → high < 2 ^ 8
      → low < 2 ^ 8
      → high * 2 ^ 8 + low ≡ port
      → From rep
      → IsAnswer port From r

-- The server's answer to a dial with this header.
abbrev pub FromServer : Network → Header → ℕ → Type 0
FromServer net header rep =
    (reply : Bytes) × (code : Bool × ℕ) × (net.dial_ws header ≡ dialed reply)
    × (atoi reply ≡ some code)
    × (rep ≡ byte_of code)

module _ {Reader : Type 0} where
  accept-IsAnswer :
      (c : Client Reader) (net : Network) (conn : Conn) (rep : ℕ) (copying : Effect)
      (From : ℕ → Type 0)
      → c.port < 2 ^ 16
      → From rep
      → IsAnswer c.port From (accept c net conn rep copying)
  unfolding accept pack new_reply uint16_to_bytes
  accept-IsAnswer c net conn rep copying From fits from = elim (Bool-cases net.submit) [
    | inl h ↦ rw (h) (replies rep _ _ refl (omega arith) (omega arith) (omega (arith, fits)) from)
    | inr h ↦ rw (h) (replies rep _ _ refl (omega arith) (omega arith) (omega (arith, fits)) from)
  ]

  after_dial_ws-IsAnswer :
      (c : Client Reader) (net : Network) (conn : Conn) (header : Header) (d : Dialed)
      → c.port < 2 ^ 16
      → net.dial_ws header ≡ d
      → IsAnswer c.port (FromServer net header) (after_dial_ws c net conn d)
  unfolding after_dial_ws reply_code
  after_dial_ws-IsAnswer c net conn header not_tried fits e = silent refl refl
  after_dial_ws-IsAnswer c net conn header not_dialed fits e = silent refl refl
  after_dial_ws-IsAnswer c net conn header unusable fits e = silent refl refl
  after_dial_ws-IsAnswer c net conn header (dialed reply) fits e =
      elim (Option-cases (atoi reply)) [
        | inl n ↦ rw (n) (silent refl refl)
        | inr (code, n) ↦ rw (n) (
            accept-IsAnswer c net (record conn { remote_conn = true }) (byte_of code) submits_run
              (FromServer net header) fits (reply, code, e, n, refl))
      ]

module _ (geo : GeoIp) (codec : Codec) where
  open geo use {Reader}

  -- Where the code of a reply comes from: the frame is a request to this destination; either the
  -- router has chosen the direct way, the dial of the destination succeeds and the code is that of a
  -- success, or it has chosen the server, and the code is the answer of the server to a dial for this
  -- account and destination.
  pub record IsCode (c : Client Reader) (net : Network) (frame : Bytes) (rep : ℕ) : Type 0 where
    pub request : Request
    pub addr : TcpAddr
    pub proxied : Bool
    pub router : Router Reader
    pub parsed : new_request_from frame ≡ ok request
    pub resolved : get_dst_addr_from_request net.lookup_ip_addr request ≡ at addr
    pub routed : select geo c.router addr.ip ≡ some (proxied, router)
    pub source :
        ((proxied ≡ false) × (net.dial addr ≡ true) × (rep ≡ 0))
        ⊎ ((proxied ≡ true)
            × ((header : Header) × (header.addr ≡ some addr)
                × (header.username ≡ c.account.username)
                × (header.cmd ≡ request.cmd)
                × FromServer net header rep))

  IsAnswer-from :
      {r : Reaction Reader} {port : ℕ} {From To : ℕ → Type 0}
      → ((rep : ℕ) → From rep → To rep)
      → IsAnswer port From r
      → IsAnswer port To r
  IsAnswer-from f (silent o a) = silent o a
  IsAnswer-from f (replies rep high low o h l p from) = replies rep high low o h l p (f rep from)

  connect-IsAnswer :
      (c : Client Reader) (net : Network) (conn : Conn) (frame : Bytes) (request : Request)
      (addr : TcpAddr) (b : Bool) (router : Router Reader) (r : Reaction Reader)
      → c.port < 2 ^ 16
      → new_request_from frame ≡ ok request
      → get_dst_addr_from_request net.lookup_ip_addr request ≡ at addr
      → select geo c.router addr.ip ≡ some (b, router)
      → connect geo codec net
          (record conn { dst_addr = some addr; cmd = request.cmd })
          addr
          b
          (record c { router = router })
        ≡ some r
      → IsAnswer c.port (IsCode c net frame) r
  unfolding connect after_dial build_header
  connect-IsAnswer c net conn frame request addr true router r fits p d s e =
      let conn' = record conn { dst_addr = some addr; cmd = request.cmd } in
      let header = build_header codec c.account conn' in
      subst (IsAnswer c.port (IsCode c net frame)) (some_injective e) (
        IsAnswer-from
          (λ rep from. record {
            request = request;
            addr = addr;
            proxied = true;
            router = router;
            parsed = p;
            resolved = d;
            routed = s;
            source = inr (refl, (header, refl, refl, refl, from));
          })
          (after_dial_ws-IsAnswer (record c { router = router }) net conn' header
            (net.dial_ws header) fits refl))
  connect-IsAnswer c net conn frame request addr false router r fits p d s e =
      elim (Bool-cases (net.dial addr)) [
        | inl h ↦ subst (IsAnswer c.port (IsCode c net frame)) (some_injective (rw (h) at e)) (
            accept-IsAnswer (record c { router = router }) net
              (record conn { dst_addr = some addr; cmd = request.cmd; tcp_conn = true })
              rep_succeeded submits_direct_connect (IsCode c net frame) fits
              (record {
                request = request;
                addr = addr;
                proxied = false;
                router = router;
                parsed = p;
                resolved = d;
                routed = s;
                source = inl (refl, h, refl);
              }))
        | inr h ↦
            subst (IsAnswer c.port (IsCode c net frame)) (some_injective (rw (h) at e))
              (silent refl refl)
      ]

  no_result : (r : Reaction Reader) → ¬ (none ≡ some r)
  no_result r e = cc

  closed_at :
      {P : ℕ → Type 0} (c c' : Client Reader) (r : Reaction Reader)
      → some (closes [] c') ≡ some r
      → IsAnswer c.port P r
  closed_at {P} c c' r e = subst (IsAnswer c.port P) (some_injective e) (silent refl refl)

  to_destination-IsAnswer :
      (c : Client Reader) (net : Network) (conn : Conn) (frame : Bytes) (request : Request)
      (d : Destination) (r : Reaction Reader)
      → c.port < 2 ^ 16
      → new_request_from frame ≡ ok request
      → get_dst_addr_from_request net.lookup_ip_addr request ≡ d
      → to_destination geo codec c net conn request d ≡ some r
      → IsAnswer c.port (IsCode c net frame) r
  unfolding to_destination
  to_destination-IsAnswer c net conn frame request lookup_error r fits p d e = closed_at c _ r e
  to_destination-IsAnswer c net conn frame request unknown_a_typ r fits p d e = closed_at c _ r e
  to_destination-IsAnswer c net conn frame request nowhere r fits p d e = cc
  to_destination-IsAnswer c net conn frame request (at addr) r fits p d e =
      elim (Option-cases (select geo c.router addr.ip)) [
        | inl s ↦ absurd (no_result r (rw (s) at e))
        | inr ((b, router), s) ↦
            connect-IsAnswer c net conn frame request addr b router r fits p d s (rw (s) at e)
      ]

  -- Whatever frame comes from the local side after the choice of the method, and whatever the network
  -- answers: `React` writes nothing and closes the connection, or it writes one reply of ten bytes
  -- with the client's port, whose code is the one of a success where the router has chosen the
  -- direct way and the destination was dialed, and otherwise the code with which the server has
  -- answered a dial for the account, the destination and the command of the request.
  pub react_method_accepted-IsAnswer :
      (c : Client Reader) (net : Network) (conn : Conn) (frame : Bytes) (r : Reaction Reader)
      → c.port < 2 ^ 16
      → react_method_accepted geo codec c net conn frame ≡ some r
      → IsAnswer c.port (IsCode c net frame) r
  unfolding react_method_accepted
  react_method_accepted-IsAnswer c net conn frame r fits e =
      elim (Result-cases (new_request_from frame)) [
        | inr (x, f) ↦ closed_at c c r (rw (react_method_accepted, f) at e)
        | inl (request, f) ↦
            to_destination-IsAnswer c net conn frame request
              (get_dst_addr_from_request net.lookup_ip_addr request) r fits f refl
              (rw (react_method_accepted, f) at e)
      ]
