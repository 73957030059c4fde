-- ===== src/Client/Dialing.antt =====
-- `GetESNI` and `DialWs` of pkg/core/conn.go. The resolver, the parser of ESNI keys and the websocket
-- are parameters.
pub mod Hidden
use Prim.Native.String.{◌++◌}
use relaybaton.Common.{
  String, ◌≡◌, refl, Bool, true, Option, none, some, List, [], ◌∷◌, arith, if◌then◌else◌, Bytes,
  All, ◌↔◌, inl, inr, ap, ◌∙◌, Option-cases,
}
use relaybaton.Config.Load.{Call, panics, returns}
use relaybaton.Client.Conn.{Codec, Account, Conn, Header, build_header}
use relaybaton.Client.React.{Dialed, not_tried, not_dialed, unusable, dialed}

-- A dial of a websocket: the address of the connection below it, and the name and the keys of the TLS
-- configuration; without keys, which is nil in the source, the name goes out in clear.
pub record Dial (Keys : Type 0) : Type 0 where
  pub address : String
  pub server_name : String
  pub keys : Option Keys
  pub header : Header

pub record Web : Type 1 where
  pub Keys : Type 0
  -- `LookupTXT`.
  pub lookup_txt : String → Option (List String)
  pub decode : String → Option Bytes
  pub parse_esni_keys : Bytes → Option Keys
  -- The value of the header "reply", and whether the level of the compression can be set.
  pub connects : Dial Keys → Option Bytes
  pub sets_level : Bool

module _ (web : Web) where
  open web use {Keys, lookup_txt, decode, parse_esni_keys}

  keys_of : Option Bytes → Option Keys
  keys_of none = none
  keys_of (some b) = parse_esni_keys b

  -- The first record is taken, whether there is one or not.
  first_record : Option (List String) → Call (Option Keys)
  unfolding keys_of
  first_record none = returns none
  first_record (some []) = panics
  first_record (some (raw_record ∷ rest)) = returns (keys_of (decode raw_record))

  unfoldable pub get_esni : String → Call (Option Keys)
  unfolding first_record
  get_esni domain = first_record (lookup_txt ("_esni." ++ domain))

  answer : Option Bytes → Dialed
  answer none = not_dialed
  answer (some reply) = if web.sets_level then dialed reply else unusable

  -- How `DialWs` ends, and the dials that it makes.
  dial_with : String → Header → Call (Option Keys) → Call Dialed × List (Dial Keys)
  unfolding answer
  dial_with server header panics = (panics, [])
  dial_with server header (returns none) = (returns not_tried, [])
  dial_with server header (returns (some keys)) =
      let dial : Dial Keys = record {
        address = server ++ ":443";
        server_name = server;
        keys = some keys;
        header = header;
      } in
      (returns (answer (web.connects dial)), dial ∷ [])

  unfoldable pub dial_ws : Codec → Account → String → Conn → Call Dialed × List (Dial Keys)
  unfolding dial_with
  dial_ws codec account server conn =
      dial_with server (build_header codec account conn) (get_esni server)
