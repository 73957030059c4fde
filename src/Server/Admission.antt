-- ===== src/Server/Admission.antt =====
-- `Server.requestHandler` of pkg/core/server.go up to the relay.
pub mod Laws
use relaybaton.Common.{String, Bool, not, Option, none, some, ◌=ℕ◌, if◌then◌else◌, length}
use relaybaton.Ip.Address.{Ip, to4, to16}
use relaybaton.Ip.Reserved.{is_reserved_ip}
use relaybaton.Client.Conn.{TcpAddr}
use relaybaton.Web.Database.{Gorm, Crypto}
use relaybaton.Server.Authenticate.{Headers, authenticate}

-- What the request comes to: it is piped to the web interface, it is dropped with a line in the log,
-- or bytes are relayed.
pub data Admission : Type 0 where
  serves_web : Admission
  unresolved reserved unreachable : Admission
  relays : Admission

-- What the network answers.
pub record Network : Type 0 where
  pub resolve_tcp_addr : Option String → Option TcpAddr
  pub dial : Option String → Bool
  pub upgrade : Bool

-- `if ip.To4() == nil { ip = ip.To4() } else { ip = ip.To16() }`.
pub convert : Ip → Ip
convert ip = if length (to4 ip) =ℕ 0 then to4 ip else to16 ip

-- `net.Dial`, and then the upgrade, which hands the connection to the relay loops.
pub dial_and_upgrade : Network → Option String → Admission
dial_and_upgrade net addr =
    if not (net.dial addr) then unreachable else if net.upgrade then relays else serves_web

admit : Network → Option String → Option TcpAddr → Admission
unfolding convert dial_and_upgrade
admit net addr none = unresolved
admit net addr (some tcp_addr) =
    if is_reserved_ip (convert tcp_addr.ip) then reserved else dial_and_upgrade net addr

module _ (gorm : Gorm) (crypto : Crypto) where
  pub request_handler : gorm.Db → Headers → Network → Admission
  unfolding admit
  request_handler db headers net =
      if not (authenticate gorm crypto db headers)
      then serves_web
      else admit net headers.addr (net.resolve_tcp_addr headers.addr)
