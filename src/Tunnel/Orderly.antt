-- ===== src/Tunnel/Orderly.antt =====
-- A tunnel whose local side neither closes nor refuses bytes (pkg/core/client.go, conn.go and
-- server.go): when and with what the client's side ends.
use mathlib.Core.List.{append-nil}
use mathlib.Core.Path.{subst}
use relaybaton.Common.{
  ◌≡◌, refl, sym, ap, ◌∙◌, ◌⊎◌, inl, inr, Bool, true, false, not, ◌&&◌, ◌||◌, some, List, [], ◌∷◌,
  ◌++◌, arith, Bool-cases, Bytes, &&-split,
}
use relaybaton.Client.Copying.{fails, arrives, run}
use relaybaton.Client.Copying.Laws.{payload, run-arrives, run-fails_written}
use relaybaton.Server.Relay.{Event, downloads, step}
use relaybaton.Server.Relay.Steps.{step-ended}
use relaybaton.Tunnel.Wires.{IsStream, when-some, not_lost, payload-append}
use relaybaton.Tunnel.{Tunnel, new_tunnel, is_empty, send_up, take_up, take_round, take_down}

-- The server hangs up only after its loops; the client's side is open, or the websocket has broken, or
-- the server has hung up and nothing is on its way any more; and the local side has taken all that
-- has arrived.
pub record IsOrderly (t : Tunnel) : Type 0 where
  pub ended :
      (t.server_closed ≡ false) ⊎ ((t.relay.downloading ≡ false) × (t.relay.uploading ≡ false))
  pub finished :
      (t.client_closed ≡ false) ⊎ ((t.broken ≡ true) ⊎ ((t.server_closed ≡ true) × (t.down ≡ [])))
  pub taken : (run t.incoming).0 ≡ payload t.incoming

pub relay_step :
    (t : Tunnel) (up : List Bytes) (e : Event)
    → IsOrderly t
    → IsOrderly (record t { up = up; relay = step t.relay e })
relay_step t up e v = record { ended = still v.ended; finished = v.finished; taken = v.taken }
  where
    still :
        (t.server_closed ≡ false) ⊎ ((t.relay.downloading ≡ false) × (t.relay.uploading ≡ false))
        → (t.server_closed ≡ false)
          ⊎ (((step t.relay e).downloading ≡ false) × ((step t.relay e).uploading ≡ false))
    still (inl h) = inl h
    still (inr h) = inr (step-ended t.relay e h)

pub take_up-IsOrderly :
    (t u : Tunnel) (bs : List Bytes) (event : Bytes → Event)
    → take_up t bs event ≡ some u
    → IsOrderly t
    → IsOrderly u
unfolding take_up
take_up-IsOrderly t u [] event h v = cc
take_up-IsOrderly t u (b ∷ rest) event h v =
    subst IsOrderly (when-some t.relay.uploading _ u h).1 (relay_step t rest (event b) v)

-- A frame is given to a client whose side is open.
pub send_up-IsOrderly :
    (t : Tunnel) (ok_write : Bool) (b : Bytes)
    → t.client_closed ≡ false
    → IsOrderly t
    → IsOrderly (send_up (record t { asked = t.asked ++ b }) ok_write b)
unfolding send_up
send_up-IsOrderly t false b o v = record { ended = v.ended; finished = inl o; taken = v.taken }
send_up-IsOrderly t true b o v = elim (Bool-cases t.broken) [
  | inl torn ↦ rw (torn) (record { ended = v.ended; finished = inl o; taken = v.taken })
  | inr whole ↦ rw (whole) (record { ended = v.ended; finished = inl o; taken = v.taken })
]

-- Only a loop that runs reads from the destination, so the server has not hung up.
pub downloads-IsOrderly :
    (t : Tunnel) (b : Bytes)
    → t.relay.downloading ≡ true
    → IsOrderly t
    → IsOrderly (record t { down = t.down ++ b ∷ []; relay = step t.relay (downloads b) })
downloads-IsOrderly t b running v = record {
  ended = inl (on_line v.ended);
  finished = still v.finished;
  taken = v.taken;
}
  where
    on_line :
        (t.server_closed ≡ false) ⊎ ((t.relay.downloading ≡ false) × (t.relay.uploading ≡ false))
        → t.server_closed ≡ false
    on_line (inl h) = h
    on_line (inr (d, u)) = cc

    still :
        (t.client_closed ≡ false) ⊎ ((t.broken ≡ true) ⊎ ((t.server_closed ≡ true) × (t.down ≡ [])))
        → (t.client_closed ≡ false)
          ⊎ ((t.broken ≡ true) ⊎ ((t.server_closed ≡ true) × (t.down ++ b ∷ [] ≡ [])))
    still (inl o) = inl o
    still (inr (inl torn)) = inr (inl torn)
    still (inr (inr (closed, empty))) = cc (on_line v.ended)

pub receives-IsOrderly :
    (t u : Tunnel) (bs : List Bytes)
    → t.down ≡ bs
    → take_down t bs arrives ≡ some u
    → IsStream t
    → IsOrderly t
    → IsOrderly u
unfolding take_down take_round
receives-IsOrderly t u [] e h stream v = cc
receives-IsOrderly t u (b ∷ rest) e h stream v =
    let (can, made) = when-some (not t.client_closed) _ u h in
    let opened : t.client_closed ≡ false = ground (arith, can) in
    let goes_on = run-arrives t.incoming b (not_lost t.client_closed opened stream.stopped) in
    subst IsOrderly made (record {
      ended = v.ended;
      finished = inl (rw (opened) (ap (λ x. x.1) goes_on));
      taken =
          ap (λ x. x.0) goes_on
          ∙ ap (λ x. x ++ b) v.taken
          ∙ sym (
              payload-append t.incoming (arrives b)
              ∙ ap (λ x. payload t.incoming ++ x) (append-nil b));
    })

pub run_ends-IsOrderly :
    (t : Tunnel)
    → (t.client_closed || (t.broken || (t.server_closed && is_empty t.down))) ≡ true
    → IsOrderly t
    → IsOrderly (take_round t fails)
unfolding take_round
run_ends-IsOrderly t can v = record {
  ended = v.ended;
  finished = inr (ends v.finished);
  taken =
      run-fails_written t.incoming
      ∙ v.taken
      ∙ sym (payload-append t.incoming fails ∙ append-nil (payload t.incoming));
}
  where
    nothing : (bs : List Bytes) → is_empty bs ≡ true → bs ≡ []
    nothing [] h = refl
    nothing (b ∷ bs) h = cc

    ends :
        (t.client_closed ≡ false) ⊎ ((t.broken ≡ true) ⊎ ((t.server_closed ≡ true) × (t.down ≡ [])))
        → (t.broken ≡ true) ⊎ ((t.server_closed ≡ true) × (t.down ≡ []))
    ends (inr h) = h
    ends (inl o) = elim (Bool-cases t.broken) [
      | inl torn ↦ inl torn
      | inr whole ↦
          let (closed, empty) = &&-split t.server_closed (is_empty t.down) (rw (o, whole) at can) in
          inr (closed, nothing t.down empty)
    ]

pub new_tunnel-IsOrderly : IsOrderly new_tunnel
unfolding new_tunnel run
new_tunnel-IsOrderly = record { ended = inl refl; finished = inl refl; taken = refl }
