-- ===== src/Socks5/Request.antt =====
-- The SOCKS5 request, `NewRequestFrom` of pkg/socks5/request.go. Warnings are not modelled.
-- On an error the source also returns the half filled struct, which no caller reads.
pub mod RoundTrip
use relaybaton.Common.{ℕ, Bool, not, ◌||◌, ◌∷◌, ◌=ℕ◌, if◌then◌else◌, Bytes, Result}
use relaybaton.Common.Words.{uint16_of_bytes}
use relaybaton.Socks5.Codes.{
  a_type_ipv4, a_type_domain_name, a_type_ipv6, cmd_connect, cmd_bind, cmd_udp_associate,
}
use relaybaton.Socks5.Reader.{
  Error, version_not_read, version_error, command_not_read, command_error, reserved_not_read,
  address_type_not_read, unknown_address_type, ipv4_not_read, ipv6_not_read,
  domain_name_length_not_read, domain_name_length_zero, domain_name_not_read, port_not_read, Read,
  ◌>>=◌, ◌>>◌, return, fail, require, read_exactly, read_byte, run_reader,
}

pub record Request : Type 0 where
  pub ver : ℕ
  pub cmd : ℕ
  pub rsv : ℕ
  pub a_typ : ℕ
  pub dst_addr : Bytes
  pub dst_port : ℕ

-- The address of a domain name keeps its length byte in front.
pub read_domain_name : Read Bytes
read_domain_name = do
  len ← read_byte domain_name_length_not_read
  require (not (len =ℕ 0)) domain_name_length_zero
  name ← read_exactly len domain_name_not_read
  return (len ∷ name)

-- The `switch` on the address type.
unfoldable pub read_address : ℕ → Read Bytes
unfolding read_domain_name
read_address a_typ s =
    if a_typ =ℕ a_type_ipv4
    then read_exactly 4 ipv4_not_read s
    else if a_typ =ℕ a_type_ipv6
    then read_exactly 16 ipv6_not_read s
    else if a_typ =ℕ a_type_domain_name
    then read_domain_name s
    else fail unknown_address_type s

unfoldable pub is_command : ℕ → Bool
is_command cmd = cmd =ℕ cmd_connect || (cmd =ℕ cmd_bind || cmd =ℕ cmd_udp_associate)

abbrev pub port_of : Bytes → ℕ
port_of (hi ∷ lo ∷ _) = uint16_of_bytes hi lo
port_of _ = 0

unfoldable read_request : Read Request
read_request = do
  ver ← read_byte version_not_read
  require (ver =ℕ 5) version_error
  cmd ← read_byte command_not_read
  require (is_command cmd) command_error
  rsv ← read_byte reserved_not_read
  a_typ ← read_byte address_type_not_read
  dst_addr ← read_address a_typ
  dst_port ← read_exactly 2 port_not_read
  return (record {
    ver = ver;
    cmd = cmd;
    rsv = rsv;
    a_typ = a_typ;
    dst_addr = dst_addr;
    dst_port = port_of dst_port;
  })

unfoldable pub new_request_from : Bytes → Result Error Request
unfolding read_request
new_request_from b = run_reader read_request b
