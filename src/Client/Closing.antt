-- ===== src/Client/Closing.antt =====
-- What `OnOpened` and `OnClosed` of pkg/core/client.go do to the other connections: they share the
-- map of pkg/core/map.go and the cache of the router.
use relaybaton.Common.{
  String, ◌≡◌, ◌∙◌, inl, inr, Bool, false, none, some, List, arith, if◌then◌else◌, Option-cases,
  Bytes, ◌==◌, same_nat, same_string, same_bytes, eq_self,
}
use relaybaton.Common.Dict
use relaybaton.Ip.Address.{shorten}
use relaybaton.Router.State.{GeoIp}
use relaybaton.Router.Select.{select, get_geo_ip, remove_cache, set_cache}
use relaybaton.Router.Select.Laws.{get_cache-remove_cache, select-missing, get_geo_ip-remove_cache}
use relaybaton.Client.Conn.{
  Conn, TcpAddr, Codec, get_conn, put_conn, delete_conn, new_conn, status_accepted,
}
use relaybaton.Client.React.{Client, Network, react, react_conn, react_accepted}
use relaybaton.Client.React.Laws.Frames.{socket, react_accepted-panics}
use relaybaton.Client.Events.{Closed, on_opened, on_closed, forget_route}

module _ {Reader : Type 0} where
  -- A connection that opens is in the map afterwards, new; every other key is as before.
  pub get_conn-on_opened :
      (c : Client Reader) (key k : String)
      → get_conn (on_opened c key).conns k
        ≡ (if key == k then some (new_conn key) else get_conn c.conns k)
  unfolding on_opened get_conn put_conn new_conn
  get_conn-on_opened c key k = Dict.get-put key k (new_conn key) c.conns

  -- A connection that closes is gone from the map afterwards; every other key is as before.
  get_conn-on_closed :
      (c c' : Client Reader) (key k : String) (closed : List Closed)
      → on_closed c key ≡ some (c', closed)
      → get_conn c'.conns k ≡ (if key == k then none else get_conn c.conns k)
  unfolding on_closed
  get_conn-on_closed c c' key k closed e = elim (Option-cases (get_conn c.conns key)) [
    | inl gone ↦ ground arith
    | inr (conn, found) ↦ ground (arith, removed)
  ]
    where
      removed :
          get_conn (delete_conn c.conns key) k ≡ (if key == k then none else get_conn c.conns k)
      removed = unfold get_conn delete_conn in Dict.get-remove key k c.conns

  on_closed-router :
      (c c' : Client Reader) (key : String) (conn : Conn) (addr : TcpAddr) (closed : List Closed)
      → on_closed c key ≡ some (c', closed)
      → get_conn c.conns key ≡ some conn
      → conn.dst_addr ≡ some addr
      → (c'.router ≡ remove_cache c.router addr.ip) × (c'.shutdown ≡ c.shutdown)
  unfolding on_closed forget_route
  on_closed-router c c' key conn addr closed e found d = ground arith

module _ (geo : GeoIp) (codec : Codec) where
  open geo use {Reader, country}

  -- `React` panics where the key is missing and the client is not shut down, though it means to
  -- answer that by closing.
  react-missing :
      (c : Client Reader) (net : Network) (key : String) (frame : Bytes)
      → c.shutdown ≡ 0
      → get_conn c.conns key ≡ none
      → react geo codec c net key frame ≡ none
  unfolding react
  react-missing c net key frame s e = rw (s, e)

  -- A frame of a connection that has been closed is a panic, as long as the client is not shut
  -- down.
  react-on_closed :
      (c c' : Client Reader) (net : Network) (key : String) (frame : Bytes) (closed : List Closed)
      → c'.shutdown ≡ 0
      → on_closed c key ≡ some (c', closed)
      → react geo codec c' net key frame ≡ none
  react-on_closed c c' net key frame closed s e =
      react-missing c' net key frame s (get_conn-on_closed c c' key key closed e ∙ rw (eq_self key))

  -- A connection that has been accepted, and another one to the same address, which closes.
  pub record SharesRoute (c : Client Reader) (key other : String) (b : Bool) : Type 0 where
    pub conn : Conn
    pub conn' : Conn
    pub addr : TcpAddr
    pub addr' : TcpAddr
    pub running : c.shutdown ≡ 0
    pub found : get_conn c.conns key ≡ some conn
    pub found' : get_conn c.conns other ≡ some conn'
    pub differ : (other == key) ≡ false
    pub accepted : conn.status ≡ status_accepted
    pub to : conn.dst_addr ≡ some addr
    pub to' : conn'.dst_addr ≡ some addr'
    pub same : addr.ip ≡ addr'.ip
    -- What the router would decide by now.
    pub decision : get_geo_ip geo c.router addr.ip ≡ some b
    -- The socket for that decision is not the one that the connection has.
    pub elsewhere : socket conn b ≡ false

  forgotten :
      (c c' : Client Reader) (key other : String) (b : Bool) (closed : List Closed)
      (v : SharesRoute c key other b)
      → on_closed c other ≡ some (c', closed)
      → select geo c'.router v.addr.ip ≡ some (b, set_cache c'.router v.addr.ip b)
  forgotten c c' key other b closed v e =
      let (same_router, _) = on_closed-router c c' other v.conn' v.addr' closed e v.found' v.to' in
      select-missing geo c'.router v.addr.ip b
        (rw (same_router, ← v.same)
          (get_cache-remove_cache c.router v.addr.ip v.addr.ip ∙ rw (eq_self (shorten v.addr.ip))))
        (rw same_router (get_geo_ip-remove_cache geo c.router v.addr'.ip v.addr.ip ∙ v.decision))

  -- An accepted connection and another one have the same destination. If the other one closes, and
  -- the router's decision by now names a socket that the first one does not have (a download has
  -- ended in between), the next frame of the first connection is a panic, as long as the client is
  -- not shut down.
  pub react-SharesRoute :
      (c c' : Client Reader) (net : Network) (key other : String) (frame : Bytes) (b : Bool)
      (closed : List Closed)
      → SharesRoute c key other b
      → on_closed c other ≡ some (c', closed)
      → react geo codec c' net key frame ≡ none
  unfolding react react_conn react_accepted
  react-SharesRoute c c' net key other frame b closed v e =
      let (_, same_shutdown) =
        on_closed-router c c' other v.conn' v.addr' closed e v.found' v.to' in
      let kept : get_conn c'.conns key ≡ some v.conn =
        get_conn-on_closed c c' other key closed e ∙ (rw v.differ v.found) in
      rw (same_shutdown, v.running, react, kept, react_conn, v.accepted)
        (react_accepted-panics geo codec c' net v.conn frame v.addr b
          (set_cache c'.router v.addr.ip b) v.to (forgotten c c' key other b closed v e)
          v.elsewhere)
