-- ===== src/Client/History.antt =====
-- The calls that gnet and fx make of one client, for any number of local connections:
-- pkg/core/client.go.
pub mod Entries
pub mod Kept
use relaybaton.Common.{
  String, ◌≡◌, false, Option, none, some, List, [], ◌∷◌, Bytes, ◌==◌, same_nat, same_string,
  same_bytes,
}
use relaybaton.Router.State.{GeoIp}
use relaybaton.Client.Conn.{Codec}
use relaybaton.Client.React.{Client, Network, Reaction, react}
use relaybaton.Client.Events.{Closed, on_opened, on_closed}
use relaybaton.Client.Starting.{on_stop}

-- `OnOpened`, `OnClosed`, `React` with what the outside answers during the call, and `OnStop`.
pub data Call : Type 0 where
  opens closes : String → Call
  receives : String → Network → Bytes → Call
  stops : Call

-- A call that is not about this connection.
abbrev pub Other : String → Call → Type 0
Other key (opens k) = (k == key) ≡ false
Other key (closes k) = (k == key) ≡ false
Other key (receives k net frame) = (k == key) ≡ false
Other key stops = Unit

module _ (geo : GeoIp) (codec : Codec) where
  open geo use {Reader}

  abbrev after_react : Option (Reaction Reader) → Option (Client Reader)
  after_react none = none
  after_react (some r) = some r.client

  abbrev after_closed : Option (Client Reader × List Closed) → Option (Client Reader)
  after_closed none = none
  after_closed (some (c, closed)) = some c

  -- `none` is a panic, or an `OnStop` that waits for ever.
  unfoldable pub handle : Client Reader → Call → Option (Client Reader)
  handle c (opens key) = some (on_opened c key)
  handle c (closes key) = after_closed (on_closed c key)
  handle c (receives key net frame) = after_react (react geo codec c net key frame)
  handle c stops = on_stop c

  unfoldable pub handles : Client Reader → List Call → Option (Client Reader)
  handles c [] = some c
  handles c (call ∷ calls) = elim (handle c call) [ none ↦ none | some c' ↦ handles c' calls ]
