-- ===== src/Tunnel.antt =====
-- A connection that goes through the server, from one end to the other: `React` and `Conn.Run` of the
-- client (pkg/core/client.go, conn.go), and the function of `requestHandler` that gets the websocket
-- (pkg/core/server.go). The websocket hands over whole messages, in order; when it breaks, those
-- on their way may be lost, and the server may still write for a while.
pub mod Wires
pub mod Order
pub mod Orderly
pub mod Staying
pub mod Ending
pub mod Silence
use relaybaton.Common.{
  ℕ, Bool, true, false, not, ◌&&◌, ◌||◌, Option, none, some, List, [], ◌∷◌, ◌++◌, if◌then◌else◌,
  Bytes,
}
use relaybaton.Router.State.{GeoIp}
use relaybaton.Client.Conn.{Conn, Codec}
use relaybaton.Client.React.{Client, Network, Effect, writes_message, Reaction, react_accepted}
use relaybaton.Client.Copying.{Incoming, fails, arrives, refused, run}
use relaybaton.Server.Relay.{
  Relay, Event, stops_download, stops_upload, fails_to_write, fails_to_send, downloads, uploads,
  new_relay, step,
}

pub record Tunnel : Type 0 where
  -- The bytes of the frames that were given to `React`.
  pub asked : Bytes
  -- The messages on their way to the server, and to the client.
  pub up : List Bytes
  pub down : List Bytes
  pub relay : Relay
  -- The rounds of `Conn.Run`.
  pub incoming : List Incoming
  pub client_closed : Bool
  pub server_closed : Bool
  pub broken : Bool

unfoldable pub new_tunnel : Tunnel
unfolding new_relay
new_tunnel = record {
  asked = [];
  up = [];
  down = [];
  relay = new_relay;
  incoming = [];
  client_closed = false;
  server_closed = false;
  broken = false;
}

abbrev pub when {ℓ} : {A : Type ℓ} → Bool → A → Option A
when true a = some a
when false a = none

abbrev pub is_empty : List Bytes → Bool
is_empty [] = true
is_empty (b ∷ bs) = false

-- `WriteMessage` of the client; a websocket that has failed once takes no more.
pub send_up : Tunnel → Bool → Bytes → Tunnel
send_up t true b = if t.broken then t else record t { up = t.up ++ b ∷ [] }
send_up t false b = record t { broken = true }

-- What the effects of `React` do to the websocket.
carry : Network → Tunnel → List Effect → Tunnel
unfolding send_up
carry net t [] = t
carry net t (writes_message b ∷ effects) = carry net (send_up t (net.write_message b) b) effects
carry net t (e ∷ effects) = carry net t effects

-- A round of the server's loop that reads the websocket; `event` says how its write ends.
pub take_up : Tunnel → List Bytes → (Bytes → Event) → Option Tunnel
take_up t [] event = none
take_up t (b ∷ rest) event =
    when t.relay.uploading (record t { up = rest; relay = step t.relay (event b) })

-- A round of `Conn.Run`, which closes everything where it ends.
pub take_round : Tunnel → Incoming → Tunnel
take_round t e =
    let incoming' = t.incoming ++ e ∷ [] in
    record t { incoming = incoming'; client_closed = t.client_closed || (run incoming').1 }

pub take_down : Tunnel → List Bytes → (Bytes → Incoming) → Option Tunnel
unfolding take_round
take_down t [] round = none
take_down t (b ∷ rest) round =
    when (not t.client_closed) (take_round (record t { down = rest }) (round b))

module _ (geo : GeoIp) (codec : Codec) where
  open geo use {Reader}

  -- What happens next, and where.
  pub data Move : Type 0 where
    -- The local side sends a frame, or closes.
    frame : Client Reader → Network → Conn → Bytes → Move
    app_closes : Move
    -- The loop of the server that reads the websocket.
    sends upload_ends : Move
    fails_to_send_on : ℕ → Move
    -- The loop of the server that reads from the destination.
    downloads_on download_fails : Bytes → Move
    download_ends : Move
    -- `conn.Close` after `wg.Wait`.
    hangs_up : Move
    -- `Conn.Run`.
    receives is_refused run_ends : Move
    breaks : Move

  -- A frame of a connection that is accepted; `none` is a panic.
  give : Tunnel → Network → Bytes → Option (Reaction Reader) → Option Tunnel
  unfolding carry
  give t net b none = none
  give t net b (some r) = some (carry net (record t { asked = t.asked ++ b }) r.effects)

  -- `none` is a move that cannot be made now, or a panic.
  unfoldable pub act : Tunnel → Move → Option Tunnel
  unfolding give take_up take_down take_round
  act t (frame c net conn b) =
      if t.client_closed then none else give t net b (react_accepted geo codec c net conn b)
  act t app_closes = some (record t { client_closed = true })
  act t sends = take_up t t.up uploads
  act t (fails_to_send_on n) = take_up t t.up (fails_to_send n)
  act t upload_ends =
      when (t.client_closed || t.broken) (record t { relay = step t.relay stops_upload })
  act t (downloads_on b) =
      when t.relay.downloading
        (record t { down = t.down ++ b ∷ []; relay = step t.relay (downloads b) })
  act t (download_fails b) =
      when (t.client_closed || t.broken) (record t { relay = step t.relay (fails_to_write b) })
  act t download_ends = some (record t { relay = step t.relay stops_download })
  act t hangs_up =
      when (not t.relay.downloading && not t.relay.uploading) (record t { server_closed = true })
  act t receives = take_down t t.down arrives
  act t is_refused = take_down t t.down refused
  act t run_ends =
      when (t.client_closed || (t.broken || (t.server_closed && is_empty t.down)))
        (take_round t fails)
  act t breaks = some (record t { broken = true })

  abbrev and_then : Option Tunnel → (Tunnel → Option Tunnel) → Option Tunnel
  and_then none k = none
  and_then (some t) k = k t

  unfoldable pub moves : Tunnel → List Move → Option Tunnel
  moves t [] = some t
  moves t (m ∷ ms) = and_then (act t m) (λ u. moves u ms)
