-- ===== src/Socks5/Reply/RoundTrip.antt =====
-- A SOCKS client that reads as RFC 1928 says gets back what `Reply.Pack` wrote
-- (pkg/socks5/reply.go).
use mathlib.Core.List.{append_assoc}
use relaybaton.Common.{ℕ, ◌≡◌, ◌++◌, arith, ◌=ℕ◌, Bytes, ok}
use relaybaton.Common.Words.{uint16_to_bytes, uint16_of_bytes-div-mod}
use relaybaton.Socks5.Reader.{
  Read, ◌>>=◌, ◌>>◌, return, read_byte, read_exactly, require, version_not_read, version_error,
  command_not_read, reserved_not_read, address_type_not_read, port_not_read,
}
use relaybaton.Socks5.Request.{read_address, port_of}
use relaybaton.Socks5.Request.RoundTrip.{IsAddress, read_address-append}
use relaybaton.Socks5.Reply.{Reply, new_reply, pack}

-- The client's side, which the program does not have.
read_reply : Read Reply
read_reply = do
  ver ← read_byte version_not_read
  require (ver =ℕ 5) version_error
  rep ← read_byte command_not_read
  rsv ← read_byte reserved_not_read
  a_typ ← read_byte address_type_not_read
  bnd_addr ← read_address a_typ
  bnd_port ← read_exactly 2 port_not_read
  return (record {
    ver = ver;
    rep = rep;
    rsv = rsv;
    a_typ = a_typ;
    bnd_addr = bnd_addr;
    bnd_port = port_of bnd_port;
  })

-- A packed reply whose address is one of its type is read back field by field, and what follows it
-- in the stream is left.
read_reply-pack :
    (rep a_typ : ℕ) (addr : Bytes) (port : ℕ) (rest : Bytes)
    → IsAddress a_typ addr
    → read_reply (pack (new_reply rep a_typ addr port) ++ rest)
      ≡ ok (new_reply rep a_typ addr port, rest)
unfolding read_reply pack new_reply read_byte uint16_to_bytes
read_reply-pack rep a_typ addr port rest v = rw (append_assoc addr) (
    ground (
      arith,
      read_address-append a_typ addr (uint16_to_bytes port ++ rest) v,
      uint16_of_bytes-div-mod port,
    ))
