-- ===== src/Client/React/Laws/Handled.antt =====
-- What `Client.React` of pkg/core/client.go puts into the map, for a frame in each status.
use mathlib.Core.Path.{subst}
use relaybaton.Common.{
  ◌≡◌, refl, inl, inr, Bool, true, false, none, some, [], ◌=ℕ◌, =ℕ_iff, Bool-cases, Option-cases,
  Bytes, Result-cases, some_injective,
}
use relaybaton.Socks5.Request.{Request, new_request_from}
use relaybaton.Router.State.{GeoIp}
use relaybaton.Router.Select.{select}
use relaybaton.Client.Address.{
  Destination, at, nowhere, lookup_error, unknown_a_typ, get_dst_addr_from_request,
}
use relaybaton.Client.Conn.{
  Conn, TcpAddr, Codec, build_header, status_opened, status_method_accepted, status_accepted,
}
use relaybaton.Client.React.{
  Client, Network, Reaction, react_conn, react_method_accepted, react_accepted, to_destination,
  connect,
}
use relaybaton.Client.React.Laws.Stored.{
  Stores, leaves, fails-Stores, after_dial_ws-Stores, after_dial-Stores, react_opened-Stores,
  forward-conns,
}

module _ (geo : GeoIp) (codec : Codec) where
  open geo use {Reader}

  no_result : (r : Reaction Reader) → ¬ (none ≡ some r)
  no_result r e = cc

  connect-Stores :
      (c c' : Client Reader) (net : Network) (conn conn' : Conn) (addr : TcpAddr) (b : Bool)
      (r : Reaction Reader)
      → c'.conns ≡ c.conns
      → conn'.key ≡ conn.key
      → conn'.status ≡ status_method_accepted
      → ((to : TcpAddr) × (conn'.dst_addr ≡ some to))
      → connect geo codec net conn' addr b c' ≡ some r
      → Stores c conn r
  unfolding connect
  connect-Stores c c' net conn conn' addr true r same key pending to e =
      subst (Stores c conn) (some_injective e) (
        after_dial_ws-Stores c c' net conn conn' (net.dial_ws (build_header codec c'.account conn'))
          same key pending to)
  connect-Stores c c' net conn conn' addr false r same key pending to e =
      subst (Stores c conn) (some_injective e)
        (after_dial-Stores c c' net conn conn' (net.dial addr) same key pending to)

  to_destination-Stores :
      (c : Client Reader) (net : Network) (conn : Conn) (request : Request) (d : Destination)
      (r : Reaction Reader)
      → conn.status ≡ status_method_accepted
      → to_destination geo codec c net conn request d ≡ some r
      → Stores c conn r
  unfolding to_destination
  to_destination-Stores c net conn request lookup_error r pending e =
      subst (Stores c conn) (some_injective e)
        (fails-Stores c c [] conn (record conn { dst_addr = none }) refl refl pending)
  to_destination-Stores c net conn request unknown_a_typ r pending e =
      subst (Stores c conn) (some_injective e)
        (fails-Stores c c [] conn (record conn { dst_addr = none }) refl refl pending)
  to_destination-Stores c net conn request nowhere r pending e = cc
  to_destination-Stores c net conn request (at addr) r pending e =
      elim (Option-cases (select geo c.router addr.ip)) [
        | inl s ↦ absurd (no_result r (rw s at e))
        | inr ((b, router), s) ↦
            connect-Stores c (record c { router = router }) net conn conn' addr b r refl refl
              pending (addr, refl) (rw s at e)
      ]
    where
      conn' : Conn
      conn' = record conn { dst_addr = some addr; cmd = request.cmd }

  react_method_accepted-Stores :
      (c : Client Reader) (net : Network) (conn : Conn) (frame : Bytes) (r : Reaction Reader)
      → conn.status ≡ status_method_accepted
      → react_method_accepted geo codec c net conn frame ≡ some r
      → Stores c conn r
  unfolding react_method_accepted
  react_method_accepted-Stores c net conn frame r pending e =
      elim (Result-cases (new_request_from frame)) [
        | inr (x, f) ↦
            subst (Stores c conn) (some_injective (rw (react_method_accepted, f) at e))
              (leaves refl)
        | inl (request, f) ↦
            to_destination-Stores c net conn request
              (get_dst_addr_from_request net.lookup_ip_addr request) r pending
              (rw (react_method_accepted, f) at e)
      ]

  react_accepted-conns :
      (c : Client Reader) (net : Network) (conn : Conn) (frame : Bytes) (r : Reaction Reader)
      → react_accepted geo codec c net conn frame ≡ some r
      → r.client.conns ≡ c.conns
  unfolding react_accepted
  react_accepted-conns c net conn frame r e = elim (Option-cases conn.dst_addr) [
    | inl d ↦ absurd (no_result r (rw d at e))
    | inr (addr, d) ↦ elim (Option-cases (select geo c.router addr.ip)) [
      | inl s ↦ absurd (no_result r (rw (d, s) at e))
      | inr ((b, router), s) ↦
          forward-conns (record c { router = router }) net conn frame b r (rw (d, s) at e)
    ]
  ]

  -- Whatever `React` does for a connection, at most the connection itself is put again under its key.
  pub react_conn-Stores :
      (c : Client Reader) (net : Network) (conn : Conn) (frame : Bytes) (r : Reaction Reader)
      → react_conn geo codec c net conn frame ≡ some r
      → Stores c conn r
  unfolding react_conn
  react_conn-Stores c net conn frame r e = elim (Bool-cases (conn.status =ℕ status_opened)) [
    | inl o ↦ subst (Stores c conn) (some_injective (rw o at e)) (react_opened-Stores c conn frame)
    | inr o ↦ elim (Bool-cases (conn.status =ℕ status_method_accepted)) [
      | inl m ↦
          react_method_accepted-Stores c net conn frame r
            ((=ℕ_iff conn.status status_method_accepted).0 m) (rw (o, m) at e)
      | inr m ↦ elim (Bool-cases (conn.status =ℕ status_accepted)) [
        | inl a ↦ leaves (react_accepted-conns c net conn frame r (rw (o, m, a) at e))
        | inr a ↦ subst (Stores c conn) (some_injective (rw (o, m, a) at e)) (leaves refl)
      ]
    ]
  ]
