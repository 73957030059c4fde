-- ===== src/Socks5/Reader.antt =====
-- How the parsers of pkg/socks5 read: a `bytes.Reader` over the frame, here the bytes that are
-- left, and after each `Read` the tests of `err` and of the number of bytes that it returned.
use relaybaton.Common.{
  ℕ, ◌<◌, ◌≡◌, refl, Bool, true, false, [], ◌∷◌, ◌++◌, arith, ◌=ℕ◌, Bytes, length, take, drop,
  length-append, take-append-drop, take-append, drop-append, Result, ok, err,
}

pub data Error : Type 0 where
  eof : Error
  version_not_read version_error : Error
  number_of_methods_not_read number_of_methods_mismatch : Error
  command_not_read command_error : Error
  reserved_not_read : Error
  address_type_not_read unknown_address_type : Error
  ipv4_not_read ipv6_not_read : Error
  domain_name_length_not_read domain_name_length_zero domain_name_not_read : Error
  port_not_read : Error

abbrev pub Read : Type 0 → Type 0
Read A = Bytes → Result Error (A × Bytes)

infixl 5 ◌>>=◌ ◌>>◌
abbrev pub ◌>>=◌ : {A B : Type 0} → Read A → (A → Read B) → Read B
◌>>=◌ m f s = elim (m s) [ err e ↦ err e | ok (a, rest) ↦ f a rest ]

abbrev pub ◌>>◌ : {B : Type 0} → Read (Unit {0}) → Read B → Read B
m >> k = m >>= λ _. k

abbrev pub return : {A : Type 0} → A → Read A
return a s = ok (a, s)

abbrev pub fail : {A : Type 0} → Error → Read A
fail e s = err e

abbrev pub require : Bool → Error → Read (Unit {0})
require true e s = ok (tt, s)
require false e s = err e

-- `Reader.Read` into a buffer of `n` bytes. At the end of the input it is `io.EOF`, whatever `n` is.
pub read : ℕ → Read Bytes
read n [] = err eof
read n (b ∷ bs) = ok (take n (b ∷ bs), drop n (b ∷ bs))

-- A `Read` that must fill its buffer.
pub read_exactly : ℕ → Error → Read Bytes
unfolding read
read_exactly n e = do buffer ← read n; require (length buffer =ℕ n) e; return buffer

abbrev head_byte : Bytes → ℕ
head_byte [] = 0
head_byte (b ∷ bs) = b

unfoldable pub read_byte : Error → Read ℕ
unfolding read_exactly
read_byte e = do buffer ← read_exactly 1 e; return (head_byte buffer)

-- `NewMethodRequestFrom` and `NewRequestFrom` drop the reader when they return.
abbrev pub run_reader : {A : Type 0} → Read A → Bytes → Result Error A
run_reader m b = elim (m b) [ err e ↦ err e | ok (a, rest) ↦ ok a ]

pub read_byte_cons : (e : Error) (b : ℕ) (rest : Bytes) → read_byte e (b ∷ rest) ≡ ok (b, rest)
unfolding read_byte
read_byte_cons e b rest = refl

-- Exactly a string that is there is read; an empty one is read only if something follows it.
pub read_exactly-append :
    (e : Error) (xs rest : Bytes)
    → 0 < length (xs ++ rest)
    → read_exactly (length xs) e (xs ++ rest) ≡ ok (xs, rest)
unfolding read_exactly
read_exactly-append e [] [] h = absurd (omega arith)
read_exactly-append e [] (r ∷ rest) h = refl
read_exactly-append e (x ∷ xs) rest h = ground (arith, take-append xs rest, drop-append xs rest)

pub read_exactly_fits :
    (n : ℕ) (e : Error) (xs rest : Bytes)
    → length xs ≡ n
    → 0 < length rest
    → read_exactly n e (xs ++ rest) ≡ ok (xs, rest)
read_exactly_fits n e xs rest l h =
    rw (← l) (read_exactly-append e xs rest (omega (arith, length-append xs rest)))

pub read_exactly_sound :
    (n : ℕ) (e : Error) (s xs rest : Bytes)
    → read_exactly n e s ≡ ok (xs, rest)
    → (s ≡ xs ++ rest) × (length xs ≡ n) × (0 < length s)
unfolding read_exactly
read_exactly_sound n e [] xs rest h = cc
read_exactly_sound n e (b ∷ bs) xs rest h = ground (arith, take-append-drop n (b ∷ bs))

pub require-true : (b : Bool) (e : Error) (s : Bytes) → b ≡ true → require b e s ≡ ok (tt, s)
require-true b e s h = rw h
