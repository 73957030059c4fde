-- ===== src/Socks5/Codes.antt =====
-- The constants of pkg/socks5/socks5.go. `Method`, `Cmd`, `ATyp` and `Rep` are aliases of `byte`.
use relaybaton.Common.{ℕ}

abbrev pub method_no_auth_required : ℕ
method_no_auth_required = 0x00

abbrev pub a_type_ipv4 : ℕ
a_type_ipv4 = 0x01

abbrev pub a_type_domain_name : ℕ
a_type_domain_name = 0x03

abbrev pub a_type_ipv6 : ℕ
a_type_ipv6 = 0x04

abbrev pub cmd_connect : ℕ
cmd_connect = 0x01

abbrev pub cmd_bind : ℕ
cmd_bind = 0x02

abbrev pub cmd_udp_associate : ℕ
cmd_udp_associate = 0x03

abbrev pub rep_succeeded : ℕ
rep_succeeded = 0x00
