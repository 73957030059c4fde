-- ===== src/Tests/Frames.antt =====
-- SOCKS5 messages at concrete frames.
use relaybaton.Common.{◌≡◌, ◌↔◌, [], ◌∷◌, ◌++◌, arith, Bytes, ok}
use relaybaton.Socks5.Request.{Request, new_request_from}
use relaybaton.Socks5.Request.RoundTrip.{IsRequest, encode, new_request_from_iff}

-- CONNECT to the domain name "ab", port 80.
abbrev by_name : Request
by_name = record {
  ver = 5;
  cmd = 1;
  rsv = 0;
  a_typ = 3;
  dst_addr = 2 ∷ 97 ∷ 98 ∷ [];
  dst_port = 80;
}

abbrev frame : Bytes
frame = 5 ∷ 1 ∷ 0 ∷ 3 ∷ 2 ∷ 97 ∷ 98 ∷ 0 ∷ 80 ∷ 1 ∷ []

new_request_from_iff_example :
    (new_request_from frame ≡ ok by_name)
    ↔ ((rest : Bytes) × (frame ≡ encode by_name ++ rest) × IsRequest by_name)
new_request_from_iff_example = new_request_from_iff frame by_name (omega arith)
