-- ===== src/Client/History/Kept.antt =====
-- What the calls of a client keep: every connection stands under its own key with the sockets that
-- fit its status, and a call for one connection leaves the others as they are (pkg/core/client.go).
use mathlib.Core.Path.{subst}
use relaybaton.Common.{
  ℕ, String, ◌≡◌, sym, ap, ◌∙◌, inl, inr, false, not, none, some, List, [], ◌∷◌, arith, ◌=ℕ◌,
  Bool-cases, Option-cases, Bytes, All, ◌==◌, same_nat, same_string, same_bytes, some_injective,
}
use relaybaton.Common.Dict.{get}
use relaybaton.Router.State.{GeoIp, Router}
use relaybaton.Client.Conn.{Conn, Codec, Account, get_conn, new_conn, delete_conn}
use relaybaton.Client.React.{Client, Network, Reaction, react}
use relaybaton.Client.React.Laws.Stored.{Stores, leaves, puts, IsSound}
use relaybaton.Client.React.Laws.Handled.{react_conn-Stores}
use relaybaton.Client.Events.{on_opened, on_closed}
use relaybaton.Client.Starting.{new_client, on_stop}
use relaybaton.Client.History.Entries.{
  IsWell, new_conn-IsSound, new_conn-key, Changes, same, put, deleted, Changes-IsWell,
  Changes-other,
}
use relaybaton.Client.History.{
  Call, opens, closes, receives, stops, Other, after_closed, handle, handles,
}

module _ (geo : GeoIp) (codec : Codec) where
  open geo use {Reader}

  Stores-Changes :
      {c : Client Reader} {conn : Conn} {r : Reaction Reader}
      → Stores c conn r
      → Changes conn.key c.conns r.client.conns
  Stores-Changes {c} {conn} (leaves e) = subst (Changes conn.key c.conns) (sym e) same
  Stores-Changes {c} {conn} (puts conn' e k sound) =
      subst (Changes conn.key c.conns) (sym e) (put conn' k sound)

  react-Changes :
      (c : Client Reader) (net : Network) (key : String) (frame : Bytes) (r : Reaction Reader)
      → IsWell c.conns
      → react geo codec c net key frame ≡ some r
      → Changes key c.conns r.client.conns
  unfolding react IsWell
  react-Changes c net key frame r well e = elim (Bool-cases (not (c.shutdown =ℕ 0))) [
    | inl h ↦
        subst (Changes key c.conns)
          (ap (λ (x : Reaction Reader). x.client.conns) (some_injective (rw (react, h) at e))) same
    | inr h ↦ elim (Option-cases (get_conn c.conns key)) [
      | inl n ↦ absurd (no_result (rw (react, h, n) at e))
      | inr (conn, found) ↦
          subst (λ k. Changes k c.conns r.client.conns) (well key conn found).0
            (Stores-Changes
              (react_conn-Stores geo codec c net conn frame r (rw (react, h, found) at e)))
    ]
  ]
    where
      no_result : ¬ (none ≡ some r)
      no_result e = cc

  on_closed-conns :
      (c c' : Client Reader) (key : String)
      → after_closed geo codec (on_closed c key) ≡ some c'
      → c'.conns ≡ delete_conn c.conns key
  unfolding on_closed
  on_closed-conns c c' key e = ground arith

  on_stop-conns : (c c' : Client Reader) → on_stop c ≡ some c' → c'.conns ≡ c.conns
  unfolding on_stop
  on_stop-conns c c' e = ground arith

  -- A call changes nothing of the map, or the entry of its connection.
  data IsStep (c c' : Client Reader) (call : Call) : Type 0 where
    step :
        (key : String)
        → Changes key c.conns c'.conns
        → ((k : String) → Other k call → (key == k) ≡ false)
        → IsStep c c' call
    keeps : c'.conns ≡ c.conns → IsStep c c' call

  handle-IsStep :
      (c c' : Client Reader) (call : Call)
      → IsWell c.conns
      → handle geo codec c call ≡ some c'
      → IsStep c c' call
  unfolding handle on_opened
  handle-IsStep c c' (opens key) well e =
      step key
        (subst (Changes key c.conns) (ap (λ (x : Client Reader). x.conns) (some_injective e))
          (put (new_conn key) (new_conn-key key) (new_conn-IsSound key)))
        (λ k o. o)
  handle-IsStep c c' (closes key) well e =
      step key (subst (Changes key c.conns) (sym (on_closed-conns c c' key e)) deleted) (λ k o. o)
  handle-IsStep c c' (receives key net frame) well e =
      elim (Option-cases (react geo codec c net key frame)) [
        | inl n ↦ absurd (no_client (rw n at e))
        | inr (r, s) ↦
            step key
              (subst (λ (x : Client Reader). Changes key c.conns x.conns)
                (some_injective (rw s at e)) (react-Changes c net key frame r well s))
              (λ k o. o)
      ]
    where
      no_client : ¬ (none ≡ some c')
      no_client e = cc
  handle-IsStep c c' stops well e = keeps (on_stop-conns c c' e)

  handle-IsWell :
      (c c' : Client Reader) (call : Call)
      → IsWell c.conns
      → handle geo codec c call ≡ some c'
      → IsWell c'.conns
  handle-IsWell c c' call well e = elim (handle-IsStep c c' call well e) [
    | step key changes o ↦ Changes-IsWell changes well
    | keeps h ↦ subst IsWell (sym h) well
  ]

  handle-Other :
      (c c' : Client Reader) (call : Call) (k : String)
      → IsWell c.conns
      → Other k call
      → handle geo codec c call ≡ some c'
      → get_conn c'.conns k ≡ get_conn c.conns k
  handle-Other c c' call k well o e = elim (handle-IsStep c c' call well e) [
    | step key changes differs ↦ Changes-other k changes (differs k o)
    | keeps h ↦ ap (λ m. get_conn m k) h
  ]

  no_calls : {c : Client Reader} → ¬ (none ≡ some c)
  no_calls e = cc

  -- What holds after the first of some calls holds after them all.
  handles-step :
      (c c' : Client Reader) (call : Call) (calls : List Call)
      → handles geo codec c (call ∷ calls) ≡ some c'
      → (d : Client Reader) × (handle geo codec c call ≡ some d)
        × (handles geo codec d calls ≡ some c')
  unfolding handles
  handles-step c c' call calls e = elim (Option-cases (handle geo codec c call)) [
    | inl n ↦ absurd (no_calls (rw (handles, n) at e))
    | inr (d, s) ↦ (d, s, rw (handles, s) at e)
  ]

  handles-IsWell :
      (c c' : Client Reader) (calls : List Call)
      → IsWell c.conns
      → handles geo codec c calls ≡ some c'
      → IsWell c'.conns
  unfolding handles
  handles-IsWell c c' [] well e =
      subst (λ (x : Client Reader). IsWell x.conns) (some_injective e) well
  handles-IsWell c c' (call ∷ calls) well e =
      let (d, first, rest) = handles-step c c' call calls e in
      handles-IsWell d c' calls (handle-IsWell c d call well first) rest

  handles-Other :
      (c c' : Client Reader) (calls : List Call) (key : String)
      → IsWell c.conns
      → All (Other key) calls
      → handles geo codec c calls ≡ some c'
      → get_conn c'.conns key ≡ get_conn c.conns key
  unfolding handles
  handles-Other c c' [] key well os e =
      ap (λ (x : Client Reader). get_conn x.conns key) (sym (some_injective e))
  handles-Other c c' (call ∷ calls) key well (o, os) e =
      let (d, first, rest) = handles-step c c' call calls e in
      handles-Other d c' calls key (handle-IsWell c d call well first) os rest
      ∙ handle-Other c d call key well o first

  new_client-IsWell :
      (router : Router Reader) (account : Account) (port : ℕ)
      → IsWell (new_client router account port).conns
  unfolding IsWell new_client get_conn get
  new_client-IsWell router account port key conn e = cc

  -- Whatever calls a new client has handled, a connection that is in its map then stands under its own
  -- key, with one of the three statuses: a connection that is only opened has no destination and no
  -- socket, and an accepted one has a destination and one of the two sockets. And whatever calls for
  -- other connections it handles next, the connection is in the map as it was.
  pub handles-IsSound :
      (router : Router Reader) (account : Account) (port : ℕ) (before after : List Call)
      (c c' : Client Reader) (key : String) (conn : Conn)
      → handles geo codec (new_client router account port) before ≡ some c
      → get_conn c.conns key ≡ some conn
      → handles geo codec c after ≡ some c'
      → All (Other key) after
      → (conn.key ≡ key) × IsSound conn × (get_conn c'.conns key ≡ some conn)
  unfolding IsWell
  handles-IsSound router account port before after c c' key conn run found run' others =
      let well =
        handles-IsWell (new_client router account port) c before
          (new_client-IsWell router account port) run in
      let (own, sound) = well key conn found in
      (own, sound, handles-Other c c' after key well others run' ∙ found)
