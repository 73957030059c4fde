-- ===== src/Tunnel/Staying.antt =====
-- The moves of a tunnel whose local side neither closes nor refuses bytes (pkg/core/client.go, conn.go
-- and server.go).
use mathlib.Core.Path.{subst}
use relaybaton.Common.{
  ◌≡◌, refl, ◌⊎◌, inl, inr, Bool, true, false, not, ◌&&◌, ◌||◌, Option, none, some, List, [], ◌∷◌,
  arith, if◌then◌else◌, Option-cases, All, some_injective,
}
use relaybaton.Router.State.{GeoIp}
use relaybaton.Client.Conn.{Codec}
use relaybaton.Client.React.Laws.Frames.{react_accepted-relays}
use relaybaton.Server.Relay.{stops_download, stops_upload, fails_to_write, fails_to_send, uploads}
use relaybaton.Tunnel.Wires.{IsStream, when-some}
use relaybaton.Tunnel.Order.{Proxied, act-IsStream, not_none}
use relaybaton.Tunnel.{
  Tunnel, is_empty, carry, Move, frame, app_closes, sends, fails_to_send_on, upload_ends,
  downloads_on, download_fails, download_ends, hangs_up, receives, is_refused, run_ends, breaks,
  give, act, moves,
}
use relaybaton.Tunnel.Orderly.{
  IsOrderly, relay_step, take_up-IsOrderly, send_up-IsOrderly, downloads-IsOrderly,
  receives-IsOrderly, run_ends-IsOrderly,
}

module _ (geo : GeoIp) (codec : Codec) where
  -- The local side neither closes nor refuses bytes.
  abbrev pub LocalStays : Move geo codec → Type 0
  LocalStays app_closes = ⊥
  LocalStays is_refused = ⊥
  LocalStays _ = Unit

  is_open :
      {A : Type 0} (closed : Bool) (o : Option A) (a : A)
      → (if closed then none else o) ≡ some a
      → closed ≡ false
  is_open true o a h = cc
  is_open false o a h = refl

  act-IsOrderly :
      (t u : Tunnel) (m : Move geo codec)
      → Proxied geo codec m
      → LocalStays m
      → act geo codec t m ≡ some u
      → IsStream t
      → IsOrderly t
      → IsOrderly u
  unfolding act give carry
  act-IsOrderly t u (frame c net conn b) p l h stream v =
      let given = not_none t.client_closed _ u h in
      subst IsOrderly
        (some_injective (rw (react_accepted-relays geo codec c net conn b true p) at given))
        (send_up-IsOrderly t (net.write_message b) b (is_open t.client_closed _ u h) v)
  act-IsOrderly t u app_closes p l h stream v = absurd l
  act-IsOrderly t u is_refused p l h stream v = absurd l
  act-IsOrderly t u sends p l h stream v = take_up-IsOrderly t u t.up uploads h v
  act-IsOrderly t u (fails_to_send_on n) p l h stream v =
      take_up-IsOrderly t u t.up (fails_to_send n) h v
  act-IsOrderly t u upload_ends p l h stream v =
      subst IsOrderly (when-some (t.client_closed || t.broken) _ u h).1
        (relay_step t t.up stops_upload v)
  act-IsOrderly t u (downloads_on b) p l h stream v =
      let (running, same) = when-some t.relay.downloading _ u h in
      subst IsOrderly same (downloads-IsOrderly t b running v)
  act-IsOrderly t u (download_fails b) p l h stream v =
      subst IsOrderly (when-some (t.client_closed || t.broken) _ u h).1
        (relay_step t t.up (fails_to_write b) v)
  act-IsOrderly t u download_ends p l h stream v =
      subst IsOrderly (some_injective h) (relay_step t t.up stops_download v)
  act-IsOrderly t u hangs_up p l h stream v =
      let (can, same) = when-some (not t.relay.downloading && not t.relay.uploading) _ u h in
      let ended : (t.relay.downloading ≡ false) × (t.relay.uploading ≡ false) =
        ground (arith, can) in
      subst IsOrderly same
        (record { ended = inr ended; finished = hung_up v.finished; taken = v.taken })
    where
      hung_up :
          (t.client_closed ≡ false)
            ⊎ ((t.broken ≡ true) ⊎ ((t.server_closed ≡ true) × (t.down ≡ [])))
          → (t.client_closed ≡ false) ⊎ ((t.broken ≡ true) ⊎ ((true ≡ true) × (t.down ≡ [])))
      hung_up (inl o) = inl o
      hung_up (inr (inl torn)) = inr (inl torn)
      hung_up (inr (inr (closed, empty))) = inr (inr (refl, empty))
  act-IsOrderly t u receives p l h stream v = receives-IsOrderly t u t.down refl h stream v
  act-IsOrderly t u run_ends p l h stream v =
      let (can, same) =
        when-some (t.client_closed || (t.broken || (t.server_closed && is_empty t.down))) _ u h in
      subst IsOrderly same (run_ends-IsOrderly t can v)
  act-IsOrderly t u breaks p l h stream v =
      subst IsOrderly (some_injective h)
        (record { ended = v.ended; finished = inr (inl refl); taken = v.taken })

  pub moves-IsOrderly :
      (t u : Tunnel) (ms : List (Move geo codec))
      → All (Proxied geo codec) ms
      → All LocalStays ms
      → moves geo codec t ms ≡ some u
      → IsStream t
      → IsOrderly t
      → IsOrderly u
  unfolding moves
  moves-IsOrderly t u [] p l h stream v = subst IsOrderly (some_injective h) v
  moves-IsOrderly t u (m ∷ ms) (p, ps) (l, ls) h stream v =
      elim (Option-cases (act geo codec t m)) [
        | inl stops ↦ cc (rw (stops) at h)
        | inr (w, next) ↦
            moves-IsOrderly w u ms ps ls (rw (next) at h)
              (act-IsStream geo codec t w m p next stream) (act-IsOrderly t w m p l next stream v)
      ]
