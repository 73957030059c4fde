-- ===== src/Resolvers.antt =====
-- pkg/dns and `InitDNS` of pkg/config/config.go: how the names are resolved. The dials, the HTTP
-- client and the encodings are parameters.
pub mod Chosen
use relaybaton.Common.{ℕ, String, Bool, Option, none, some, if◌then◌else◌, Bytes}
use relaybaton.Config.Init.{Host, DnsType, default, dot, doh, DnsGo}

-- A factory for DNS over TLS: the name that the certificate must have, and where the server is.
pub record DotFactory (Addr : Type 0) : Type 0 where
  pub server_name : String
  pub addr : Option Addr

-- A factory for DNS over HTTPS: the port of the resolver on this machine, the host of the URL, which
-- is the name that the certificate must have, and where the server is.
pub record DohFactory (Addr : Type 0) : Type 0 where
  pub port : ℕ
  pub url_host : String
  pub addr : Option Addr

pub data Resolver (Addr : Type 0) : Type 0 where
  system : Resolver Addr
  over_tls : DotFactory Addr → Resolver Addr
  over_https : DohFactory Addr → Resolver Addr

-- What a connection is dialed to: an address, or a port of this machine.
pub data Target (Addr : Type 0) : Type 0 where
  server : Option Addr → Target Addr
  local_port : ℕ → Target Addr

-- A connection as it is, or the client's side of TLS for a name.
pub data Dialed (C : Type 0) : Type 0 where
  plain : C → Dialed C
  tls : String → C → Dialed C

module _ {Addr C : Type 0} (dial : Target Addr → Option C) where
  dot_dial : DotFactory Addr → Option C → Option (Dialed C)
  dot_dial f none = none
  dot_dial f (some c) = some (tls f.server_name c)

  doh_dial : Option C → Option (Dialed C)
  doh_dial none = none
  doh_dial (some c) = some (plain c)

  -- `GetDialFunction` and `getDialFunction`: both forget what they are asked to dial.
  dial_function : Resolver Addr → Option (Option (Dialed C))
  unfolding dot_dial doh_dial
  dial_function system = none
  dial_function (over_tls f) = some (dot_dial f (dial (server f.addr)))
  dial_function (over_https f) = some (doh_dial (dial (local_port f.port)))

-- What `handleRequest` calls: `Pack`, the GET of the URL with the message in base64, the body, and
-- `Unpack`.
pub record Doh (Msg : Type 0) : Type 0 where
  pub pack_msg : Msg → Option Bytes
  pub get : Bytes → Option Bytes
  pub unpack_msg : Bytes → Option Msg
  pub write_msg : Msg → Bool

-- What the asker has afterwards: nothing, an answer, or a closed connection.
pub data Answered (Msg : Type 0) : Type 0 where
  no_answer closed : Answered Msg
  answered : Msg → Answered Msg

module _ {Msg : Type 0} (net : Doh Msg) where
  written : Option Msg → Answered Msg
  written none = no_answer
  written (some m) = if net.write_msg m then answered m else closed

  bind_option : {A B : Type 0} → Option A → (A → Option B) → Option B
  bind_option none f = none
  bind_option (some a) f = f a

  handle_request : Msg → Answered Msg
  unfolding written bind_option
  handle_request r = written (bind_option (bind_option (net.pack_msg r) net.get) net.unpack_msg)

module _ (host : Host) where
  open host use {Addr}

  -- `NewDoHResolverFactory`: whether `url.ParseRequestURI` reads the URL of the server is an argument.
  new_doh : (String → Bool) → String → Option Addr → Option (DohFactory Addr)
  new_doh parses name addr =
      if parses name then some (record { port = 1083; url_host = name; addr = addr }) else none

  or_system : Option (DohFactory Addr) → Resolver Addr
  or_system none = system
  or_system (some f) = over_https f

  -- The default resolver after `InitDNS`; where the factory fails, the system's is left.
  pub init_resolver : (String → Bool) → DnsGo host → Resolver Addr
  unfolding new_doh or_system
  init_resolver parses conf = of_type conf.type
    where
      of_type : DnsType → Resolver Addr
      of_type default = system
      of_type dot = over_tls (record { server_name = conf.server; addr = conf.addr })
      of_type doh = or_system (new_doh parses conf.server conf.addr)
