-- ===== src/Client/Conn.antt =====
-- A connection of the client: `Conn` of pkg/core/conn.go and the map of pkg/core/map.go. A socket
-- is modelled by whether it is there; the key of a connection is the URI of its remote address.
use relaybaton.Common.{
  ℕ, String, Bool, false, Option, none, if◌then◌else◌, Bytes, ◌==◌, same_nat, same_string,
  same_bytes,
}
use relaybaton.Common.Dict
use relaybaton.Common.Dict.{Dict}
use relaybaton.Ip.Address.{Ip}

abbrev pub status_opened : ℕ
status_opened = 0x0

abbrev pub status_method_accepted : ℕ
status_method_accepted = 0x1

abbrev pub status_accepted : ℕ
status_accepted = 0x2

-- `net.TCPAddr`, but for the zone.
pub record TcpAddr : Type 0 where
  pub ip : Ip
  pub port : ℕ

pub record Conn : Type 0 where
  pub key : String
  pub status : ℕ
  pub dst_addr : Option TcpAddr
  pub cmd : ℕ
  pub remote_conn : Bool
  pub tcp_conn : Bool

unfoldable pub new_conn : String → Conn
new_conn uri = record {
  key = uri;
  status = status_opened;
  dst_addr = none;
  cmd = 0;
  remote_conn = false;
  tcp_conn = false;
}

abbrev pub ConnMap : Type 0
ConnMap = Dict String Conn

unfoldable pub put_conn : ConnMap → Conn → ConnMap
put_conn m conn = Dict.put conn.key conn m

-- `Map.Get` asserts the type of what it found before it looks whether it found anything, so a
-- missing key is a panic: `none`. Its second result is `true` wherever it returns.
unfoldable pub get_conn : ConnMap → String → Option Conn
get_conn m key = Dict.get key m

unfoldable pub delete_conn : ConnMap → String → ConnMap
delete_conn m key = Dict.remove key m

-- The header of the upgrade request, `buildHeader`; the destination is kept as an address.
pub record Header : Type 0 where
  pub username : String
  pub password : String
  pub network : String
  pub addr : Option TcpAddr
  pub cmd : ℕ

-- SHA-512 and base64, of the standard library.
pub record Codec : Type 0 where
  pub sha512 : String → Bytes
  pub encode : Bytes → String

pub record Account : Type 0 where
  pub username : String
  pub password : String

unfoldable pub build_header : Codec → Account → Conn → Header
build_header codec account conn = record {
  username = account.username;
  password =
      if account.username == "admin"
      then account.password
      else codec.encode (codec.sha512 account.password);
  network = "tcp";
  addr = conn.dst_addr;
  cmd = conn.cmd;
}
