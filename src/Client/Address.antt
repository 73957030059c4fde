-- ===== src/Client/Address.antt =====
-- `GetDstAddrFromRequest` of pkg/core/conn.go.
use relaybaton.Common.{ℕ, Option, none, some, List, [], ◌∷◌, ◌=ℕ◌, if◌then◌else◌, Bytes, drop}
use relaybaton.Ip.Address.{to4, to16, Ip}
use relaybaton.Socks5.Codes.{a_type_ipv4, a_type_domain_name, a_type_ipv6}
use relaybaton.Socks5.Request.{Request}
use relaybaton.Client.Conn.{TcpAddr}

-- What the function returns: an address, an error, or neither, which is a nil address.
pub data Destination : Type 0 where
  at : TcpAddr → Destination
  nowhere : Destination
  lookup_error unknown_a_typ : Destination

-- The first address of the resolver, if it has one.
first_of_lookup : Option (List Ip) → ℕ → Destination
first_of_lookup none port = lookup_error
first_of_lookup (some []) port = nowhere
first_of_lookup (some (ip ∷ ips)) port = at (record { ip = ip; port = port })

-- The resolver is an argument: `none` is its error.
unfoldable pub get_dst_addr_from_request : (Bytes → Option (List Ip)) → Request → Destination
unfolding first_of_lookup
get_dst_addr_from_request lookup_ip_addr request =
    if request.a_typ =ℕ a_type_ipv4
    then at (record { ip = to4 request.dst_addr; port = request.dst_port })
    else if request.a_typ =ℕ a_type_ipv6
    then at (record { ip = to16 request.dst_addr; port = request.dst_port })
    else if request.a_typ =ℕ a_type_domain_name
    then first_of_lookup (lookup_ip_addr (drop 1 request.dst_addr)) request.dst_port
    else unknown_a_typ
