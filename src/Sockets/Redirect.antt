-- ===== src/Sockets/Redirect.antt =====
-- The transparent proxy of pkg/core/redir_linux.go. What the kernel and the other end of a socket
-- answer is an argument; the text of an address is kept in its parts.
pub mod Decoding
use relaybaton.Common.{
  ℕ, ◌+◌, ◌*◌, ◌^◌, Bool, not, Option, none, some, List, [], ◌∷◌, ◌=ℕ◌, if◌then◌else◌, Bytes, take,
  Result, ok, err, ◌>>◌, guard,
}
use relaybaton.Ip.Address.{Ip}

pub record Sockaddr : Type 0 where
  pub family : ℕ
  pub data_bytes : Bytes

abbrev pub af_inet : ℕ
af_inet = 2

pub data RedirError : Type 0 where
  not_tcp file_error close_error conn_error option_error family_error : RedirError

-- What the calls of `realServerAddress` give.
pub record Kernel : Type 0 where
  pub is_tcp_conn : Bool
  pub gives_file : Bool
  pub closes : Bool
  pub gives_conn : Bool
  -- `getsockopt` for SO_ORIGINAL_DST.
  pub original_dst : Option Sockaddr

pub record HostPort : Type 0 where
  pub host : Ip
  pub port : ℕ

-- `int(data[0])<<8 + int(data[1])` and `data[2:6]`, of an array of 14 bytes.
pub address_of : Bytes → HostPort
address_of (high ∷ low ∷ rest) = record { host = take 4 rest; port = high * 2 ^ 8 + low }
address_of _ = record { host = []; port = 0 }

pub real_server_address : Kernel → Result RedirError HostPort
unfolding address_of
real_server_address k = do
  guard k.is_tcp_conn not_tcp
  guard k.gives_file file_error
  guard k.closes close_error
  guard k.gives_conn conn_error
  decode k.original_dst
  where
    decode : Option Sockaddr → Result RedirError HostPort
    decode none = err option_error
    decode (some addr) =
        if addr.family =ℕ af_inet then ok (address_of addr.data_bytes) else err family_error

-- What `Run` does for one connection that it accepted: what it dials through the SOCKS5 server on this
-- machine, and the two copies that it submits to the pool.
pub data RedirEffect : Type 0 where
  dials : HostPort → RedirEffect
  submits_up submits_down : RedirEffect

-- Whether the SOCKS5 dialer is made, whether it connects, and whether the pool takes the copies.
pub record Round : Type 0 where
  pub kernel : Kernel
  pub gives_dialer : Bool
  pub connects : Bool
  pub takes_up : Bool
  pub takes_down : Bool

redirect : Round → List RedirEffect
unfolding real_server_address
redirect r = redirect_to (real_server_address r.kernel)
  where
    redirect_to : Result RedirError HostPort → List RedirEffect
    redirect_to (err e) = []
    redirect_to (ok addr) =
        if not r.gives_dialer
        then []
        else if not r.connects
        then dials addr ∷ []
        else if not r.takes_up
        then dials addr ∷ []
        else if not r.takes_down
        then dials addr ∷ submits_up ∷ []
        else dials addr ∷ submits_up ∷ submits_down ∷ []
