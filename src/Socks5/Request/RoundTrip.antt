-- ===== src/Socks5/Request/RoundTrip.antt =====
-- What `NewRequestFrom` accepts, and what it reads (pkg/socks5/request.go).
use relaybaton.Common.{
  ℕ, ◌<◌, ◌≡◌, refl, ◌↔◌, ◌⊎◌, inl, inr, true, [], ◌∷◌, ◌++◌, arith, Bytes, length, take, IsBytes,
  All-append_right, take-append-drop, Result, ok, err,
}
use mathlib.Core.List.{append_assoc}
use relaybaton.Common.Words.{
  uint16_of_bytes, uint16_to_bytes-uint16_of_bytes, uint16_of_bytes-div-mod, uint16_to_bytes,
}
use relaybaton.Socks5.Reader.{
  Error, Error, require-true, command_error, read_exactly_fits, read_byte, read_exactly_sound,
  read_byte_cons, domain_name_length_not_read, domain_name_not_read, ipv4_not_read, ipv6_not_read,
}
use relaybaton.Socks5.Codes.{a_type_ipv4, a_type_domain_name, a_type_ipv6}
use relaybaton.Socks5.Request.{
  Request, read_domain_name, read_address, is_command, new_request_from,
}

-- An address of each type, as it stands on the wire.
abbrev pub IsAddress : ℕ → Bytes → Type 0
IsAddress a_typ addr =
    ((a_typ ≡ a_type_ipv4) × (length addr ≡ 4))
    ⊎ ((a_typ ≡ a_type_ipv6) × (length addr ≡ 16))
    ⊎ ((a_typ ≡ a_type_domain_name)
        × ((name : Bytes) × (addr ≡ length name ∷ name) × (0 < length name)))

pub record IsRequest (r : Request) : Type 0 where
  pub version : r.ver ≡ 5
  pub command : is_command r.cmd ≡ true
  pub address : IsAddress r.a_typ r.dst_addr

-- The message on the wire.
abbrev pub encode : Request → Bytes
encode r = r.ver ∷ r.cmd ∷ r.rsv ∷ r.a_typ ∷ (r.dst_addr ++ uint16_to_bytes r.dst_port)

pub read_address-append :
    (a_typ : ℕ) (addr rest : Bytes)
    → IsAddress a_typ addr
    → 0 < length rest
    → read_address a_typ (addr ++ rest) ≡ ok (addr, rest)
unfolding read_address
read_address-append a_typ addr rest (inl (t, l)) h =
    rw t (read_exactly_fits 4 ipv4_not_read addr rest l h)
read_address-append a_typ addr rest (inr (inl (t, l))) h =
    rw t (read_exactly_fits 16 ipv6_not_read addr rest l h)
read_address-append a_typ addr rest (inr (inr (t, (name, e, l)))) h =
    rw (t, e)
      (ground (
        arith,
        read_byte_cons domain_name_length_not_read (length name) (name ++ rest),
        read_exactly_fits (length name) domain_name_not_read name rest refl h,
      ))

read_request-append :
    (cmd rsv a_typ : ℕ) (addr : Bytes) (port : ℕ) (rest : Bytes)
    → is_command cmd ≡ true
    → IsAddress a_typ addr
    → new_request_from (5 ∷ cmd ∷ rsv ∷ a_typ ∷ (addr ++ (uint16_to_bytes port ++ rest)))
      ≡ ok (record {
        ver = 5;
        cmd = cmd;
        rsv = rsv;
        a_typ = a_typ;
        dst_addr = addr;
        dst_port = port;
      })
unfolding new_request_from uint16_to_bytes read_byte
read_request-append cmd rsv a_typ addr port rest c v = ground (
  arith,
  require-true (is_command cmd) command_error
      (rsv ∷ a_typ ∷ (addr ++ (uint16_to_bytes port ++ rest))) c,
  read_address-append a_typ addr (uint16_to_bytes port ++ rest) v,
  uint16_of_bytes-div-mod port,
)

-- The encoding of a well-formed request is read back by `NewRequestFrom`, whatever follows it in
-- the frame.
pub new_request_from-encode :
    (r : Request) (rest : Bytes) → IsRequest r → new_request_from (encode r ++ rest) ≡ ok r
new_request_from-encode r rest v = rw (append_assoc r.dst_addr) (
    ground (
      arith,
      read_request-append r.cmd r.rsv r.a_typ r.dst_addr r.dst_port rest v.command v.address,
    ))

read_domain_name_sound :
    (s addr rest : Bytes)
    → read_domain_name s ≡ ok (addr, rest)
    → (name : Bytes) × (addr ≡ length name ∷ name) × (0 < length name) × (s ≡ addr ++ rest)
unfolding read_domain_name read_byte
read_domain_name_sound [] addr rest h = cc
read_domain_name_sound (n ∷ bs) addr rest h = (
  take n bs,
  ground (arith, take-append-drop n bs),
  ground arith,
  ground (arith, take-append-drop n bs),
)

read_address_sound :
    (a_typ : ℕ) (s addr rest : Bytes)
    → read_address a_typ s ≡ ok (addr, rest)
    → IsAddress a_typ addr × (s ≡ addr ++ rest)
unfolding read_address
read_address_sound a_typ s addr rest h = ground (
  arith,
  read_exactly_sound 4 ipv4_not_read s addr rest,
  read_exactly_sound 16 ipv6_not_read s addr rest,
  read_domain_name_sound s addr rest,
)

-- The fields of the request, where the address has been read.
read_request_fields :
    (v c rs t hi lo : ℕ) (bs addr rest : Bytes) (r : Request)
    → read_address t bs ≡ ok (addr, hi ∷ lo ∷ rest)
    → new_request_from (v ∷ c ∷ rs ∷ t ∷ bs) ≡ ok r
    → (v ≡ 5)
      × (is_command c ≡ true)
      × (r ≡ record {
        ver = v;
        cmd = c;
        rsv = rs;
        a_typ = t;
        dst_addr = addr;
        dst_port = uint16_of_bytes hi lo;
      })
unfolding new_request_from read_byte
read_request_fields v c rs t hi lo bs addr rest r p h = ground arith

encode_fields :
    (v c rs t hi lo : ℕ) (bs addr rest : Bytes)
    → bs ≡ addr ++ hi ∷ lo ∷ rest
    → lo < 256
    → v ∷ c ∷ rs ∷ t ∷ bs
      ≡ encode (record {
        ver = v;
        cmd = c;
        rsv = rs;
        a_typ = t;
        dst_addr = addr;
        dst_port = uint16_of_bytes hi lo;
      })
        ++ rest
encode_fields v c rs t hi lo bs addr rest e l =
    rw (e, uint16_to_bytes-uint16_of_bytes hi lo l, append_assoc addr)

split_sound :
    (v c rs t : ℕ) (bs : Bytes) (r : Request) (x : Result Error (Bytes × Bytes))
    → IsBytes bs
    → read_address t bs ≡ x
    → new_request_from (v ∷ c ∷ rs ∷ t ∷ bs) ≡ ok r
    → (rest : Bytes) × (v ∷ c ∷ rs ∷ t ∷ bs ≡ encode r ++ rest) × IsRequest r
unfolding new_request_from read_byte
split_sound v c rs t bs r (err e) b p h = ground arith
split_sound v c rs t bs r (ok (addr, [])) b p h = ground arith
split_sound v c rs t bs r (ok (addr, hi ∷ [])) b p h = ground arith
split_sound v c rs t bs r (ok (addr, hi ∷ lo ∷ rest)) b p h =
    let (e5, ec, er) = read_request_fields v c rs t hi lo bs addr rest r p h in
    let (a, e) = read_address_sound t bs addr (hi ∷ lo ∷ rest) p in
    let low = (All-append_right (λ n. n < 256) addr (hi ∷ lo ∷ rest) (rw e at b)).1.0 in
    rw er (
      rest,
      encode_fields v c rs t hi lo bs addr rest e low,
      record { version = e5; command = ec; address = a },
    )

-- Whatever bytes `NewRequestFrom` accepts are the encoding of the request that it returns, with the
-- rest of the frame behind it, and that request is well-formed.
pub new_request_from_sound :
    (b : Bytes) (r : Request)
    → IsBytes b
    → new_request_from b ≡ ok r
    → (rest : Bytes) × (b ≡ encode r ++ rest) × IsRequest r
unfolding new_request_from read_byte
new_request_from_sound [] r v h = cc
new_request_from_sound (a ∷ []) r v h = ground arith
new_request_from_sound (a ∷ b ∷ []) r v h = ground arith
new_request_from_sound (a ∷ b ∷ c ∷ []) r v h = ground arith
new_request_from_sound (a ∷ b ∷ c ∷ d ∷ bs) r v h =
    split_sound a b c d bs r (read_address d bs) v.1.1.1.1 refl h

-- `NewRequestFrom` accepts exactly the encodings of well-formed requests, whatever follows them in the
-- frame, and gives back the request that is encoded.
pub new_request_from_iff :
    (b : Bytes) (r : Request)
    → IsBytes b
    → (new_request_from b ≡ ok r) ↔ ((rest : Bytes) × (b ≡ encode r ++ rest) × IsRequest r)
new_request_from_iff b r v = (
  new_request_from_sound b r v,
  λ accepted. rw (accepted.1) (new_request_from-encode r accepted.0 accepted.2),
)
