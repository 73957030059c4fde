-- ===== src/Tunnel/Ending.antt =====
-- How a tunnel ends whose two loops have ended (pkg/core/server.go and conn.go).
use mathlib.Core.List.{append_assoc, append-nil}
use relaybaton.Common.{
  ◌≡◌, refl, sym, ap, ◌∙◌, ◌⊎◌, inl, inr, Bool, true, false, ◌||◌, some, List, [], ◌∷◌, ◌++◌, arith,
  Bool-cases, Bytes, All, concat,
}
use relaybaton.Router.State.{GeoIp}
use relaybaton.Client.Conn.{Codec}
use relaybaton.Client.Copying.{arrives, fails, run}
use relaybaton.Tunnel.Orderly.{IsOrderly, new_tunnel-IsOrderly}
use relaybaton.Tunnel.Staying.{LocalStays, moves-IsOrderly}
use relaybaton.Client.Copying.Laws.{payload, run-IsCopy, run-arrives, run-fails}
use relaybaton.Tunnel.Wires.{IsStream, not_lost}
use relaybaton.Tunnel.Order.{Proxied, moves-IsStream, new_tunnel-IsStream}
use relaybaton.Tunnel.{
  new_tunnel, Tunnel, take_round, take_down, Move, hangs_up, receives, run_ends, act, moves,
}

or_true : (a b : Bool) → (a || (b || true)) ≡ true
or_true a b = ground arith

module _ (geo : GeoIp) (codec : Codec) where
  -- The rounds of `Conn.Run` for the messages on their way, and the read that fails after them.
  pub draining : List Bytes → List (Move geo codec)
  draining [] = run_ends ∷ []
  draining (b ∷ bs) = receives ∷ draining bs

  run_ends-act :
      (t : Tunnel)
      → t.down ≡ []
      → t.server_closed ≡ true
      → act geo codec t run_ends ≡ some (take_round t fails)
  unfolding act
  run_ends-act t d s = rw (d, s, or_true t.client_closed t.broken) refl

  receives-act :
      (t : Tunnel) (b : Bytes) (rest : List Bytes)
      → t.down ≡ b ∷ rest
      → t.client_closed ≡ false
      → act geo codec t receives ≡ some (take_round (record t { down = rest }) (arrives b))
  unfolding act take_down
  receives-act t b rest d o = rw (d, o) refl

  drained :
      (bs : List Bytes) (t : Tunnel)
      → t.down ≡ bs
      → t.server_closed ≡ true
      → t.client_closed ≡ false
      → (run t.incoming).1 ≡ false
      → (u : Tunnel) × (moves geo codec t (draining bs) ≡ some u)
        × (u.client_closed ≡ true)
        × ((run u.incoming).0 ≡ (run t.incoming).0 ++ concat bs)
  unfolding moves draining take_round
  drained [] t d s o c =
      let ends = run-fails t.incoming c in
      (
        take_round t fails,
        rw (run_ends-act t d s) refl,
        rw (o) (ap (λ x. x.1) ends),
        ap (λ x. x.0) ends ∙ sym (append-nil (run t.incoming).0),
      )
  drained (b ∷ bs) t d s o c =
      let goes_on = run-arrives t.incoming b c in
      let stays : (t.client_closed || (run (t.incoming ++ arrives b ∷ [])).1) ≡ false =
        rw (o) (ap (λ x. x.1) goes_on) in
      let (u, made, closed, all) =
        drained bs (take_round (record t { down = bs }) (arrives b)) refl s stays
          (ap (λ x. x.1) goes_on) in
      (
        u,
        rw (receives-act t b bs d o) made,
        closed,
        all ∙ ap (λ x. x.0 ++ concat bs) goes_on ∙ append_assoc (run t.incoming).0 b (concat bs),
      )

  hangs_up-act :
      (t : Tunnel)
      → t.relay.downloading ≡ false
      → t.relay.uploading ≡ false
      → act geo codec t hangs_up ≡ some (record t { server_closed = true })
  unfolding act
  hangs_up-act t d up = rw (d, up) refl

  all_passed :
      (t : Tunnel)
      → IsStream t
      → (run t.incoming).1 ≡ false
      → (run t.incoming).0 ++ concat t.down ≡ t.relay.written
  all_passed t v c =
      let (rest, copied, whole) = run-IsCopy t.incoming in
      let all = copied ∙ ap (λ x. (run t.incoming).0 ++ x) (not_lost (run t.incoming).1 c whole) in
      sym (v.written ∙ ap (λ x. x ++ concat t.down) (all ∙ append-nil (run t.incoming).0))

  closes :
      (ms : List (Move geo codec)) (t : Tunnel)
      → All (Proxied geo codec) ms
      → moves geo codec new_tunnel ms ≡ some t
      → (t.relay.downloading ≡ false) × (t.relay.uploading ≡ false)
      → t.client_closed ≡ false
      → (u : Tunnel) × (moves geo codec t (hangs_up ∷ draining t.down) ≡ some u)
        × (u.client_closed ≡ true)
        × ((run u.incoming).0 ≡ t.relay.written)
  unfolding moves
  closes ms t p h (d, up) o =
      let v = moves-IsStream geo codec new_tunnel t ms p h new_tunnel-IsStream in
      let c = not_lost t.client_closed o v.stopped in
      let (u, made, closed, all) =
        drained t.down (record t { server_closed = true }) refl refl o c in
      (u, rw (hangs_up-act t d up) made, closed, all ∙ all_passed t v c)

  -- What holds of a tunnel in which the local side has done nothing to end it: it has ended, after the
  -- two loops of the server, and the local side has all that the server has written; or it is open
  -- and a loop of the server runs; or it is open, the loops have ended, and it ends by the server's
  -- closing of the websocket and the client's rounds for the messages on their way, with which the
  -- local side has all.
  abbrev pub EndsWhole : Tunnel → Type 0
  EndsWhole t =
      ((t.client_closed ≡ true)
        × (t.relay.downloading ≡ false)
        × (t.relay.uploading ≡ false)
        × ((run t.incoming).0 ≡ t.relay.written))
      ⊎ (((t.client_closed ≡ false) × ((t.relay.downloading ≡ true) ⊎ (t.relay.uploading ≡ true)))
          ⊎ ((t.client_closed ≡ false)
              × ((t.relay.downloading ≡ false) × (t.relay.uploading ≡ false))
              × ((u : Tunnel) × (moves geo codec t (hangs_up ∷ draining t.down) ≡ some u)
                  × (u.client_closed ≡ true)
                  × ((run u.incoming).0 ≡ t.relay.written))))

  -- A client's side that has closed on a whole websocket has all that the server has written.
  closed_whole :
      (t : Tunnel)
      → IsStream t
      → IsOrderly t
      → t.broken ≡ false
      → t.client_closed ≡ true
      → EndsWhole t
  closed_whole t stream v whole closed = by_finished v.finished v.ended
    where
      by_finished :
          (t.client_closed ≡ false)
            ⊎ ((t.broken ≡ true) ⊎ ((t.server_closed ≡ true) × (t.down ≡ [])))
          → (t.server_closed ≡ false)
            ⊎ ((t.relay.downloading ≡ false) × (t.relay.uploading ≡ false))
          → EndsWhole t
      by_finished (inl o) e = cc
      by_finished (inr (inl torn)) e = cc
      by_finished (inr (inr (hung_up, empty))) (inl on_line) = cc
      by_finished (inr (inr (hung_up, empty))) (inr (d, up)) = inl (
        closed,
        d,
        up,
        v.taken
            ∙ sym (append-nil (payload t.incoming))
            ∙ ap (λ bs. payload t.incoming ++ concat bs) (sym empty)
            ∙ sym stream.written,
      )

  -- Whatever the loops, the destination and the client do, in whatever order: as long as the websocket
  -- has not broken and the local side has neither closed nor refused bytes, a tunnel that has ended
  -- has done so after the two loops of the server, and the local side has all that the server has
  -- written; one that is open is so while a loop of the server runs; and one that is open without
  -- them can always be ended, by as many rounds of the client as messages are on their way and one,
  -- with which the local side has all. The frames are those of connections that are routed through
  -- the server.
  pub moves-EndsWhole :
      (ms : List (Move geo codec)) (t : Tunnel)
      → All (Proxied geo codec) ms
      → All (LocalStays geo codec) ms
      → moves geo codec new_tunnel ms ≡ some t
      → t.broken ≡ false
      → EndsWhole t
  moves-EndsWhole ms t p l h whole = elim (Bool-cases t.client_closed) [
    | inl closed ↦
        closed_whole t (moves-IsStream geo codec new_tunnel t ms p h new_tunnel-IsStream)
          (moves-IsOrderly geo codec new_tunnel t ms p l h new_tunnel-IsStream new_tunnel-IsOrderly)
          whole closed
    | inr o ↦ elim (Bool-cases t.relay.downloading) [
      | inl d ↦ inr (inl (o, inl d))
      | inr d ↦ elim (Bool-cases t.relay.uploading) [
        | inl up ↦ inr (inl (o, inr up))
        | inr up ↦ inr (inr (o, (d, up), closes ms t p h (d, up) o))
      ]
    ]
  ]
