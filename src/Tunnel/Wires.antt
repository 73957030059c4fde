-- ===== src/Tunnel/Wires.antt =====
-- What is on its way in a tunnel (pkg/core/client.go, conn.go and server.go): each move passes bytes
-- on and loses none, but where the websocket breaks.
use mathlib.Core.List.{append_assoc, append-nil}
use mathlib.Core.Path.{subst}
use relaybaton.Common.{
  ◌≡◌, refl, sym, ap, ◌∙◌, ◌⊎◌, inl, inr, Bool, true, false, not, ◌||◌, some, List, [], ◌∷◌, ◌++◌,
  Bool-cases, Bytes, concat, concat-append, some_injective,
}
use relaybaton.Client.Copying.{Incoming, fails, arrives, refused, run}
use relaybaton.Client.Copying.Laws.{payload}
use relaybaton.Server.Relay.{Relay, Event, downloads, round, runs, step}
use relaybaton.Server.Relay.Steps.{Keeps, Takes, downloads_written}
use relaybaton.Server.Relay.Laws.{IsFaithful, step-IsFaithful}
use relaybaton.Tunnel.{Tunnel, when, send_up, take_up, take_round, take_down}

pub record IsStream (t : Tunnel) : Type 0 where
  pub lost : Bytes
  pub asked : t.asked ≡ t.relay.received ++ (concat t.up ++ lost)
  pub kept : (t.broken ≡ true) ⊎ (lost ≡ [])
  pub faithful : IsFaithful t.relay
  pub written : t.relay.written ≡ payload t.incoming ++ concat t.down
  pub stopped : (t.client_closed ≡ true) ⊎ ((run t.incoming).1 ≡ false)

pub payload-append :
    (es : List Incoming) (e : Incoming) → payload (es ++ e ∷ []) ≡ payload es ++ payload (e ∷ [])
payload-append [] e = refl
payload-append (fails ∷ es) e = payload-append es e
payload-append (arrives b ∷ es) e =
    rw (payload-append es e) (sym (append_assoc b (payload es) (payload (e ∷ []))))
payload-append (refused b ∷ es) e =
    rw (payload-append es e) (sym (append_assoc b (payload es) (payload (e ∷ []))))

pub when-some {ℓ} : {A : Type ℓ} (b : Bool) (a u : A) → when b a ≡ some u → (b ≡ true) × (a ≡ u)
when-some true a u h = (refl, some_injective h)
when-some false a u h = cc

-- Moves that leave both wires as they are.
pub kept_by :
    (t : Tunnel) (s : Relay) (client_closed server_closed broken : Bool)
    → Keeps t.relay s
    → IsFaithful s
    → (t.client_closed ≡ true → client_closed ≡ true)
    → (t.broken ≡ true → broken ≡ true)
    → IsStream t
    → IsStream (record t {
      relay = s;
      client_closed = client_closed;
      server_closed = server_closed;
      broken = broken;
    })
kept_by t s client_closed server_closed broken k f closed torn v = record {
  lost = v.lost;
  asked = rw (k.received) v.asked;
  kept = still torn v.kept;
  faithful = f;
  written = rw (k.written) v.written;
  stopped = still closed v.stopped;
}
  where
    still : {A B C : Type 0} → (A → B) → A ⊎ C → B ⊎ C
    still f (inl a) = inl (f a)
    still f (inr c) = inr c

taken :
    (t : Tunnel) (s : Relay) (b : Bytes) (rest : List Bytes)
    → t.up ≡ b ∷ rest
    → Takes t.relay s b
    → IsFaithful s
    → IsStream t
    → IsStream (record t { up = rest; relay = s })
taken t s b rest e k f v = record {
  lost = v.lost;
  asked =
      rw (v.asked, e, k.received, append_assoc t.relay.received b (concat rest ++ v.lost))
        (ap (λ x. t.relay.received ++ x) (append_assoc b (concat rest) v.lost));
  kept = v.kept;
  faithful = f;
  written = rw (k.written) v.written;
  stopped = v.stopped;
}

lose_more : (xs ys zs ws b : Bytes) → xs ≡ ys ++ (zs ++ ws) → xs ++ b ≡ ys ++ (zs ++ (ws ++ b))
lose_more xs ys zs ws b e =
    rw (e, append_assoc ys (zs ++ ws) b) (ap (λ x. ys ++ x) (append_assoc zs ws b))

pub not_lost : {A : Type 0} (b : Bool) → b ≡ false → (b ≡ true) ⊎ A → A
not_lost b h (inl e) = cc
not_lost b h (inr a) = a

-- A frame that is given to the websocket is on its way, or lost on a websocket that breaks.
pub send_up-IsStream :
    (t : Tunnel) (taken : Bool) (b : Bytes)
    → IsStream t
    → IsStream (send_up (record t { asked = t.asked ++ b }) taken b)
unfolding send_up
send_up-IsStream t false b v = record {
  lost = v.lost ++ b;
  asked = lose_more t.asked t.relay.received (concat t.up) v.lost b v.asked;
  kept = inl refl;
  faithful = v.faithful;
  written = v.written;
  stopped = v.stopped;
}
send_up-IsStream t true b v = elim (Bool-cases t.broken) [
  | inl torn ↦ rw (torn) (record {
    lost = v.lost ++ b;
    asked = lose_more t.asked t.relay.received (concat t.up) v.lost b v.asked;
    kept = inl refl;
    faithful = v.faithful;
    written = v.written;
    stopped = v.stopped;
  })
  | inr whole ↦ rw (whole) (record {
    lost = [];
    asked =
        rw
          (
            v.asked,
            not_lost t.broken whole v.kept,
            append-nil (concat t.up),
            concat-append t.up b,
            append-nil (concat t.up ++ b),
          )
          (append_assoc t.relay.received (concat t.up) b);
    kept = inr refl;
    faithful = v.faithful;
    written = v.written;
    stopped = v.stopped;
  })
]

pub server_step :
    (t : Tunnel) (e : Event)
    → Keeps t.relay (step t.relay e)
    → IsStream t
    → IsStream (record t { relay = step t.relay e })
server_step t e k v =
    kept_by t (step t.relay e) t.client_closed t.server_closed t.broken k
      (step-IsFaithful t.relay e v.faithful) (λ c. c) (λ c. c) v

pub sent_down :
    (t : Tunnel) (b : Bytes)
    → t.relay.downloading ≡ true
    → IsStream t
    → IsStream (record t { down = t.down ++ b ∷ []; relay = step t.relay (downloads b) })
sent_down t b h v =
    let (same, more) = downloads_written t.relay b h in
    record {
      lost = v.lost;
      asked = rw (same) v.asked;
      kept = v.kept;
      faithful = step-IsFaithful t.relay (downloads b) v.faithful;
      written =
          rw (more, v.written, concat-append t.down b)
            (append_assoc (payload t.incoming) (concat t.down) b);
      stopped = v.stopped;
    }

pub take_up-IsStream :
    (t u : Tunnel) (bs : List Bytes) (event : Bytes → Event)
    → ((b : Bytes) → t.relay.uploading ≡ true → Takes t.relay (step t.relay (event b)) b)
    → t.up ≡ bs
    → take_up t bs event ≡ some u
    → IsStream t
    → IsStream u
unfolding take_up
take_up-IsStream t u [] event takes e h v = cc
take_up-IsStream t u (b ∷ rest) event takes e h v =
    let (runs, same) = when-some t.relay.uploading _ u h in
    subst IsStream same (
      taken t (step t.relay (event b)) b rest e (takes b runs)
        (step-IsFaithful t.relay (event b) v.faithful) v)

closed_at_end : (closed : Bool) (b : Bool) → ((closed || b) ≡ true) ⊎ (b ≡ false)
closed_at_end true b = inl refl
closed_at_end false true = inl refl
closed_at_end false false = inr refl

pub take_round-IsStream :
    (t : Tunnel) (e : Incoming) (rest : List Bytes)
    → t.relay.written ≡ payload t.incoming ++ (payload (e ∷ []) ++ concat rest)
    → IsStream t
    → IsStream (take_round (record t { down = rest }) e)
unfolding take_round
take_round-IsStream t e rest w v = record {
  lost = v.lost;
  asked = v.asked;
  kept = v.kept;
  faithful = v.faithful;
  written =
      rw
        (
          payload-append t.incoming e,
          append_assoc (payload t.incoming) (payload (e ∷ [])) (concat rest),
        )
        w;
  stopped = closed_at_end t.client_closed (run (t.incoming ++ e ∷ [])).1;
}

pub take_down-IsStream :
    (t u : Tunnel) (bs : List Bytes) (round : Bytes → Incoming)
    → ((b : Bytes) → payload (round b ∷ []) ≡ b)
    → t.down ≡ bs
    → take_down t bs round ≡ some u
    → IsStream t
    → IsStream u
unfolding take_down
take_down-IsStream t u [] round whole e h v = cc
take_down-IsStream t u (b ∷ rest) round whole e h v =
    let (opened, same) = when-some (not t.client_closed) _ u h in
    subst IsStream same (
      take_round-IsStream t (round b) rest
        (rw (whole b) (v.written ∙ ap (λ x. payload t.incoming ++ concat x) e)) v)
