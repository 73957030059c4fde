-- ===== src/Client/React/Laws/Frames.antt =====
-- Connecting and relaying in `React` (pkg/core/client.go): which socket a frame goes to.
use relaybaton.Common.{
  ◌≡◌, Bool, true, false, none, some, [], ◌∷◌, Bytes, same_nat, same_string, same_bytes,
}
use relaybaton.Router.State.{GeoIp, Router}
use relaybaton.Router.Select.{select, get_cache}
use relaybaton.Router.Select.Laws.{select-cached}
use relaybaton.Client.Conn.{Conn, TcpAddr, Codec}
use relaybaton.Client.React.{
  Client, Network, Effect, no_action, writes_message, writes, forward, react_accepted,
}

-- The socket that a decision names, and what is done to it.
abbrev pub socket : Conn → Bool → Bool
socket conn true = conn.remote_conn
socket conn false = conn.tcp_conn

abbrev pub relays : Bool → Bytes → Effect
relays true frame = writes_message frame
relays false frame = writes frame

module _ (geo : GeoIp) (codec : Codec) where
  open geo use {Reader}

  -- A connection whose route is cached and whose socket for that route is there.
  pub record IsConnected (c : Client Reader) (conn : Conn) (b : Bool) : Type 0 where
    pub addr : TcpAddr
    pub to : conn.dst_addr ≡ some addr
    pub cached : get_cache c.router addr.ip ≡ some b
    pub there : socket conn b ≡ true

  forward-there :
      (c : Client Reader) (net : Network) (conn : Conn) (frame : Bytes) (b : Bool)
      → socket conn b ≡ true
      → forward c net conn frame b
        ≡ some (record { out = []; action = no_action; client = c; effects = relays b frame ∷ [] })
  unfolding forward
  forward-there c net conn frame true h = rw h
  forward-there c net conn frame false h = rw h

  -- A frame of a connection whose route is cached and whose socket for that route is there is
  -- written unchanged to that socket, and to no other; nothing else happens, and the action is to
  -- go on, whether the write succeeds or fails.
  pub react_accepted-relays :
      (c : Client Reader) (net : Network) (conn : Conn) (frame : Bytes) (b : Bool)
      → IsConnected c conn b
      → react_accepted geo codec c net conn frame
        ≡ some (record { out = []; action = no_action; client = c; effects = relays b frame ∷ [] })
  unfolding react_accepted
  react_accepted-relays c net conn frame b v =
      rw (v.to, react_accepted, select-cached geo c.router v.addr.ip b v.cached)
        (forward-there c net conn frame b v.there)

  -- If the router's decision names a socket that the connection does not have, the frame is a panic.
  pub react_accepted-panics :
      (c : Client Reader) (net : Network) (conn : Conn) (frame : Bytes) (addr : TcpAddr) (b : Bool)
      (r : Router Reader)
      → conn.dst_addr ≡ some addr
      → select geo c.router addr.ip ≡ some (b, r)
      → socket conn b ≡ false
      → react_accepted geo codec c net conn frame ≡ none
  unfolding react_accepted forward
  react_accepted-panics c net conn frame addr true r d s h = rw (d, react_accepted, s) (rw h)
  react_accepted-panics c net conn frame addr false r d s h = rw (d, react_accepted, s) (rw h)
