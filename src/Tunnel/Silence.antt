-- ===== src/Tunnel/Silence.antt =====
-- A tunnel whose destination has ended while its local side is silent (pkg/core/server.go, conn.go).
use mathlib.Core.Path.{subst}
use relaybaton.Common.{
  ◌≡◌, ap, ◌∙◌, inl, inr, true, false, not, ◌&&◌, some, List, [], ◌∷◌, ◌++◌, arith, Option-cases,
  Bytes, All, some_injective,
}
use relaybaton.Router.State.{GeoIp}
use relaybaton.Client.Conn.{Codec}
use relaybaton.Client.Copying.{arrives, run}
use relaybaton.Client.Copying.Laws.{run-arrives}
use relaybaton.Server.Relay.{Event, stops_download, downloads, step}
use relaybaton.Server.Relay.Steps.{downloads_uploading, stops_uploading}
use relaybaton.Tunnel.Wires.{when-some}
use relaybaton.Tunnel.{
  Tunnel, take_up, take_round, take_down, Move, frame, app_closes, sends, fails_to_send_on,
  upload_ends, downloads_on, download_fails, download_ends, hangs_up, receives, is_refused,
  run_ends, breaks, act, moves,
}

-- A tunnel with the server's upload at work and nothing on its way to it, where nobody has closed.
pub record IsWaiting (t : Tunnel) : Type 0 where
  pub empty : t.up ≡ []
  pub uploading : t.relay.uploading ≡ true
  pub whole : t.broken ≡ false
  pub opened : t.client_closed ≡ false
  pub served : t.server_closed ≡ false
  pub copying : (run t.incoming).1 ≡ false

server_step-IsWaiting :
    (t : Tunnel) (down : List Bytes) (e : Event)
    → (step t.relay e).uploading ≡ t.relay.uploading
    → IsWaiting t
    → IsWaiting (record t { down = down; relay = step t.relay e })
server_step-IsWaiting t down e same v = record {
  empty = v.empty;
  uploading = same ∙ v.uploading;
  whole = v.whole;
  opened = v.opened;
  served = v.served;
  copying = v.copying;
}

module _ (geo : GeoIp) (codec : Codec) where
  -- Neither the local side nor the network does anything.
  abbrev pub Quiet : Move geo codec → Type 0
  Quiet (frame c net conn b) = ⊥
  Quiet app_closes = ⊥
  Quiet is_refused = ⊥
  Quiet breaks = ⊥
  Quiet _ = Unit

  receives-IsWaiting :
      (t u : Tunnel) (bs : List Bytes) → take_down t bs arrives ≡ some u → IsWaiting t → IsWaiting u
  unfolding take_down take_round
  receives-IsWaiting t u [] h v = cc
  receives-IsWaiting t u (b ∷ rest) h v =
      let goes_on : (run (t.incoming ++ arrives b ∷ [])).1 ≡ false =
        ap (λ x. x.1) (run-arrives t.incoming b v.copying) in
      subst IsWaiting (some_injective (rw (v.opened) at h)) (record {
        empty = v.empty;
        uploading = v.uploading;
        whole = v.whole;
        opened = goes_on;
        served = v.served;
        copying = goes_on;
      })

  act-IsWaiting :
      (t u : Tunnel) (m : Move geo codec)
      → Quiet m
      → act geo codec t m ≡ some u
      → IsWaiting t
      → IsWaiting u
  unfolding act take_up
  act-IsWaiting t u (frame c net conn b) q h v = absurd q
  act-IsWaiting t u app_closes q h v = absurd q
  act-IsWaiting t u is_refused q h v = absurd q
  act-IsWaiting t u breaks q h v = absurd q
  act-IsWaiting t u sends q h v = cc (rw (v.empty) at h)
  act-IsWaiting t u (fails_to_send_on n) q h v = cc (rw (v.empty) at h)
  act-IsWaiting t u upload_ends q h v = cc (rw (v.opened, v.whole) at h)
  act-IsWaiting t u (downloads_on b) q h v =
      subst IsWaiting (when-some t.relay.downloading _ u h).1
        (server_step-IsWaiting t (t.down ++ b ∷ []) (downloads b) (downloads_uploading t.relay b) v)
  act-IsWaiting t u (download_fails b) q h v = cc (rw (v.opened, v.whole) at h)
  act-IsWaiting t u download_ends q h v =
      subst IsWaiting (some_injective h)
        (server_step-IsWaiting t t.down stops_download (stops_uploading t.relay) v)
  act-IsWaiting t u hangs_up q h v = cc (rw (v.uploading, never) at h)
    where
      never : (not t.relay.downloading && false) ≡ false
      never = ground arith
  act-IsWaiting t u receives q h v = receives-IsWaiting t u t.down h v
  act-IsWaiting t u run_ends q h v = cc (rw (v.opened, v.whole, v.served) at h)

  -- The end of the destination is not passed on: from a tunnel whose connections are open and that
  -- has nothing on its way to the server, as long as the local side neither sends nor closes nor
  -- refuses bytes and the network does not break, no move closes the websocket or the local
  -- connection, whatever the destination does, and also after it has ended its stream.
  pub moves-IsWaiting :
      (t u : Tunnel) (ms : List (Move geo codec))
      → All Quiet ms
      → moves geo codec t ms ≡ some u
      → IsWaiting t
      → IsWaiting u
  unfolding moves
  moves-IsWaiting t u [] q h v = subst IsWaiting (some_injective h) v
  moves-IsWaiting t u (m ∷ ms) (q, qs) h v = elim (Option-cases (act geo codec t m)) [
    | inl stops ↦ cc (rw (stops) at h)
    | inr (w, next) ↦ moves-IsWaiting w u ms qs (rw (next) at h) (act-IsWaiting t w m q next v)
  ]
