-- ===== src/Sockets/Redirect/Decoding.antt =====
-- The address that the kernel gives of a redirected connection (pkg/core/redir_linux.go).
use relaybaton.Common.{
  ℕ, ◌+◌, ◌*◌, ◌/◌, ◌%◌, ◌≡◌, refl, true, some, ◌++◌, arith, length, replicate, take-append, ok,
}
use relaybaton.Common.Words.{uint16_to_bytes}
use relaybaton.Ip.Address.{Ip}
use relaybaton.Sockets.Redirect.{Sockaddr, af_inet, Kernel, address_of, real_server_address}

-- A `sockaddr_in` as the kernel lays it out: the port with its high byte first, the address, zeros.
abbrev sockaddr_in : Ip → ℕ → Sockaddr
sockaddr_in ip port = record {
  family = af_inet;
  data_bytes = uint16_to_bytes port ++ (ip ++ replicate 8 0);
}

-- If the connection's calls succeed and the kernel gives a `sockaddr_in`, then `realServerAddress`
-- returns the address and the port that it holds.
real_server_address-sockaddr_in :
    (k : Kernel) (ip : Ip) (port : ℕ)
    → k.is_tcp_conn ≡ true
    → k.gives_file ≡ true
    → k.closes ≡ true
    → k.gives_conn ≡ true
    → k.original_dst ≡ some (sockaddr_in ip port)
    → length ip ≡ 4
    → real_server_address k ≡ ok (record { host = ip; port = port })
unfolding real_server_address address_of uint16_to_bytes
real_server_address-sockaddr_in k ip port t f c g o l =
    let whole : port / 256 * 256 + port % 256 ≡ port = omega arith in
    rw (t, f, c, g, o, rw (l) at (take-append ip (replicate 8 0)), whole) refl
