-- ===== src/Client/Starting.antt =====
-- The start and the end of a client: `NewClient`, `OnInitComplete`, `OnShutdown` and the function
-- `HandleMethodRequest`, which nothing calls, of pkg/core/client.go.
use mathlib.Core.Path.{subst}
use relaybaton.Common.{
  ℕ, ◌+◌, ◌-◌, String, ◌≡◌, refl, inl, inr, Bool, true, not, Option, none, some, List, [], ◌∷◌,
  arith, ltb, ◌=ℕ◌, if◌then◌else◌, Bool-cases, Bytes, any, ok, err, some_injective,
}
use relaybaton.Router.State.{GeoIp, Router}
use relaybaton.Socks5.Codes.{method_no_auth_required}
use relaybaton.Socks5.Method.{new_method_request_from}
use relaybaton.Socks5.Reply.{new_method_reply, encode}
use relaybaton.Client.Conn.{Account, Codec}
use relaybaton.Client.React.{Client, Network, Action, no_action, close, shut_down, react}

module _ {Reader : Type 0} where
  unfoldable pub new_client : Router Reader → Account → ℕ → Client Reader
  new_client router account port = record {
    conns = [];
    shutdown = 0;
    router = router;
    account = account;
    port = port;
  }

  -- `OnStop`; `none` is a send that waits, since the channel holds ten values.
  unfoldable pub on_stop : Client Reader → Option (Client Reader)
  on_stop c = if ltb c.shutdown 10 then some (record c { shutdown = c.shutdown + 1 }) else none

-- The goroutines that `OnInitComplete` starts.
pub data Started : Type 0 where
  serves_http redirects updates_router : Started

on_init_complete : Bool → List Started
on_init_complete proxy_all =
    serves_http ∷ redirects ∷ (if not proxy_all then updates_router ∷ [] else [])

offers : Bytes → Bool
offers methods = any (λ v. v =ℕ method_no_auth_required) methods

handle_method_request : Bytes → Bytes × Action
unfolding offers
handle_method_request frame = elim (new_method_request_from frame) [
  | err e ↦ ([], close)
  | ok mr ↦ (
    encode (
        if offers mr.methods
        then new_method_reply method_no_auth_required
        else new_method_reply method_no_auth_required),
    no_action,
  )
]

module _ (geo : GeoIp) (codec : Codec) where
  open geo use {Reader}

  -- After `OnStop`, the next frame of any connection ends the client, and is not answered.
  react-on_stop :
      (c d : Client Reader) (net : Network) (key : String) (frame : Bytes)
      → on_stop c ≡ some d
      → react geo codec d net key frame
        ≡ some (record { out = []; action = shut_down; client = c; effects = [] })
  unfolding on_stop react
  react-on_stop c d net key frame h = elim (Bool-cases (ltb c.shutdown 10)) [
    | inr full ↦ cc (rw (full) at h)
    | inl room ↦
        subst
          (λ (x : Client Reader).
            react geo codec x net key frame
            ≡ some (record { out = []; action = shut_down; client = c; effects = [] }))
          (some_injective (rw (room) at h)) (rw (stopping, back) refl)
  ]
    where
      stopping : not (c.shutdown + 1 =ℕ 0) ≡ true
      stopping = ground arith

      back : c.shutdown + 1 - 1 ≡ c.shutdown
      back = omega arith
