-- ===== src/Tunnel/Order.antt =====
-- The two streams of a tunnel (pkg/core/client.go, conn.go and server.go).
use mathlib.Core.List.{append_assoc, append-nil}
use mathlib.Core.Path.{subst}
use relaybaton.Common.{
  ◌≡◌, refl, sym, ap, ◌∙◌, ◌⊎◌, inl, inr, Bool, true, false, not, ◌&&◌, ◌||◌, Option, none, some,
  List, [], ◌∷◌, ◌++◌, if◌then◌else◌, Option-cases, Bytes, All, concat, some_injective,
}
use relaybaton.Router.State.{GeoIp}
use relaybaton.Client.Conn.{Codec}
use relaybaton.Client.React.Laws.Frames.{IsConnected, react_accepted-relays}
use relaybaton.Client.Copying.{fails, arrives, refused, run}
use relaybaton.Client.Copying.Laws.{payload, run-IsCopy}
use relaybaton.Server.Relay.{
  stops_download, stops_upload, fails_to_write, fails_to_send, uploads, relay,
}
use relaybaton.Server.Relay.Laws.{relay-new_relay}
use relaybaton.Server.Relay.Steps.{
  Keeps-stops_upload, Keeps-stops_download, Keeps-fails_to_write, Takes-uploads,
  Takes-fails_to_send,
}
use relaybaton.Tunnel.Wires.{
  IsStream, when-some, kept_by, send_up-IsStream, server_step, sent_down, take_up-IsStream,
  take_round-IsStream, take_down-IsStream, not_lost,
}
use relaybaton.Tunnel.{
  Tunnel, new_tunnel, is_empty, carry, Move, frame, app_closes, sends, fails_to_send_on,
  upload_ends, downloads_on, download_fails, download_ends, hangs_up, receives, is_refused,
  run_ends, breaks, give, act, moves,
}

-- What each end has of what the other end gave, and when it has all.
pub record Streams (t : Tunnel) : Type 0 where
  pub not_sent : Bytes
  pub sent : t.asked ≡ t.relay.sent ++ not_sent
  pub all_sent : t.up ≡ [] → t.broken ≡ false → t.relay.uploading ≡ true → t.relay.sent ≡ t.asked
  pub not_delivered : Bytes
  pub delivered : t.relay.read ≡ (run t.incoming).0 ++ not_delivered
  pub all_delivered :
      t.down ≡ []
      → t.relay.downloading ≡ true
      → t.client_closed ≡ false
      → (run t.incoming).0 ≡ t.relay.read

unless : {A : Type 0} (b : Bool) → b ≡ true → (b ≡ false) ⊎ A → A
unless b h (inl e) = cc
unless b h (inr a) = a

all_sent_of :
    (t : Tunnel)
    → IsStream t
    → t.up ≡ []
    → t.broken ≡ false
    → t.relay.uploading ≡ true
    → t.relay.sent ≡ t.asked
all_sent_of t v empty whole running =
    let lost_none = not_lost t.broken whole v.kept in
    let nothing : concat t.up ++ v.lost ≡ [] = rw (empty, lost_none) refl in
    let unsent_none = unless t.relay.uploading running v.faithful.whole_up in
    sym (
      v.asked
      ∙ ap (λ x. t.relay.received ++ x) nothing
      ∙ append-nil t.relay.received
      ∙ v.faithful.up
      ∙ ap (λ x. t.relay.sent ++ x) unsent_none
      ∙ append-nil t.relay.sent)

delivered_of :
    (t : Tunnel) (v : IsStream t) (rest : Bytes)
    → payload t.incoming ≡ (run t.incoming).0 ++ rest
    → t.relay.read ≡ (run t.incoming).0 ++ (rest ++ (concat t.down ++ v.faithful.unwritten))
delivered_of t v rest copied =
    v.faithful.down
    ∙ ap (λ x. x ++ v.faithful.unwritten) (v.written ∙ ap (λ x. x ++ concat t.down) copied)
    ∙ append_assoc ((run t.incoming).0 ++ rest) (concat t.down) v.faithful.unwritten
    ∙ append_assoc (run t.incoming).0 rest (concat t.down ++ v.faithful.unwritten)

all_delivered_of :
    (t : Tunnel)
    → IsStream t
    → t.down ≡ []
    → t.relay.downloading ≡ true
    → t.client_closed ≡ false
    → (run t.incoming).0 ≡ t.relay.read
all_delivered_of t v empty running opened =
    let (rest, copied, whole) = run-IsCopy t.incoming in
    let rest_none = not_lost (run t.incoming).1 (not_lost t.client_closed opened v.stopped) whole in
    let unwritten_none = unless t.relay.downloading running v.faithful.whole_down in
    let nothing : rest ++ (concat t.down ++ v.faithful.unwritten) ≡ [] =
      rw (rest_none, empty, unwritten_none) refl in
    sym (
      delivered_of t v rest copied
      ∙ ap (λ x. (run t.incoming).0 ++ x) nothing
      ∙ append-nil (run t.incoming).0)

IsStream-Streams : (t : Tunnel) → IsStream t → Streams t
IsStream-Streams t v =
    let (rest, copied, _) = run-IsCopy t.incoming in
    record {
      not_sent = v.faithful.unsent ++ (concat t.up ++ v.lost);
      sent =
          rw (v.asked, v.faithful.up)
            (append_assoc t.relay.sent v.faithful.unsent (concat t.up ++ v.lost));
      all_sent = all_sent_of t v;
      not_delivered = rest ++ (concat t.down ++ v.faithful.unwritten);
      delivered = delivered_of t v rest copied;
      all_delivered = all_delivered_of t v;
    }

pub new_tunnel-IsStream : IsStream new_tunnel
unfolding new_tunnel run relay
new_tunnel-IsStream = record {
  lost = [];
  asked = refl;
  kept = inr refl;
  faithful = relay-new_relay [];
  written = refl;
  stopped = inr refl;
}

pub not_none :
    {A : Type 0} (closed : Bool) (o : Option A) (a : A)
    → (if closed then none else o) ≡ some a
    → o ≡ some a
not_none true o a h = cc
not_none false o a h = h

module _ (geo : GeoIp) (codec : Codec) where
  open geo use {Reader}

  -- A frame is one of a connection that is routed through the server.
  abbrev pub Proxied : Move geo codec → Type 0
  Proxied (frame c net conn b) = IsConnected geo codec c conn true
  Proxied _ = Unit

  pub act-IsStream :
      (t u : Tunnel) (m : Move geo codec)
      → Proxied m
      → act geo codec t m ≡ some u
      → IsStream t
      → IsStream u
  unfolding act give carry
  act-IsStream t u (frame c net conn b) p h v =
      let given = not_none t.client_closed _ u h in
      subst IsStream
        (some_injective (rw (react_accepted-relays geo codec c net conn b true p) at given))
        (send_up-IsStream t (net.write_message b) b v)
  act-IsStream t u app_closes p h v = subst IsStream (some_injective h) (
      kept_by t t.relay true t.server_closed t.broken (record { received = refl; written = refl })
        v.faithful (λ e. refl) (λ e. e) v)
  act-IsStream t u sends p h v = take_up-IsStream t u t.up uploads (Takes-uploads t.relay) refl h v
  act-IsStream t u (fails_to_send_on n) p h v =
      take_up-IsStream t u t.up (fails_to_send n) (Takes-fails_to_send t.relay n) refl h v
  act-IsStream t u upload_ends p h v =
      subst IsStream (when-some (t.client_closed || t.broken) _ u h).1
        (server_step t stops_upload (Keeps-stops_upload t.relay) v)
  act-IsStream t u (downloads_on b) p h v =
      let (running, same) = when-some t.relay.downloading _ u h in
      subst IsStream same (sent_down t b running v)
  act-IsStream t u (download_fails b) p h v =
      subst IsStream (when-some (t.client_closed || t.broken) _ u h).1
        (server_step t (fails_to_write b) (Keeps-fails_to_write t.relay b) v)
  act-IsStream t u download_ends p h v =
      subst IsStream (some_injective h)
        (server_step t stops_download (Keeps-stops_download t.relay) v)
  act-IsStream t u hangs_up p h v =
      subst IsStream (when-some (not t.relay.downloading && not t.relay.uploading) _ u h).1 (
        kept_by t t.relay t.client_closed true t.broken (record { received = refl; written = refl })
          v.faithful (λ e. e) (λ e. e) v)
  act-IsStream t u receives p h v =
      take_down-IsStream t u t.down arrives (λ b. append-nil b) refl h v
  act-IsStream t u is_refused p h v =
      take_down-IsStream t u t.down refused (λ b. append-nil b) refl h v
  act-IsStream t u run_ends p h v =
      subst IsStream
        (when-some (t.client_closed || (t.broken || (t.server_closed && is_empty t.down))) _ u h).1
        (take_round-IsStream t fails t.down v.written v)
  act-IsStream t u breaks p h v = subst IsStream (some_injective h) (
      kept_by t t.relay t.client_closed t.server_closed true
        (record { received = refl; written = refl }) v.faithful (λ e. e) (λ e. refl) v)

  pub moves-IsStream :
      (t u : Tunnel) (ms : List (Move geo codec))
      → All Proxied ms
      → moves geo codec t ms ≡ some u
      → IsStream t
      → IsStream u
  unfolding moves
  moves-IsStream t u [] p h v = subst IsStream (some_injective h) v
  moves-IsStream t u (m ∷ ms) (p, ps) h v = elim (Option-cases (act geo codec t m)) [
    | inl stops ↦ cc (rw (stops) at h)
    | inr (w, next) ↦ moves-IsStream w u ms ps (rw (next) at h) (act-IsStream t w m p next v)
  ]

  -- Whatever the two ends, the loops and the network do, in whatever order: what has been written to
  -- the destination are the bytes of the frames, in order and from the first one on, and all of them if
  -- nothing is on its way, the websocket has not broken, and the loop of the server has not ended;
  -- and what has been written to the local side are the bytes that were read from the destination,
  -- likewise, and all of them if nothing is on its way and neither the loop of the server nor the
  -- client has ended. The frames are those of connections that are routed through the server.
  pub moves-Streams :
      (ms : List (Move geo codec)) (t : Tunnel)
      → All Proxied ms
      → moves geo codec new_tunnel ms ≡ some t
      → Streams t
  moves-Streams ms t p h =
      IsStream-Streams t (moves-IsStream new_tunnel t ms p h new_tunnel-IsStream)
