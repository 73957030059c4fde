-- ===== src/Common/Decimal.antt =====
-- Numbers in text: `strconv.Atoi` and `strconv.ParseUint` of the standard library, as `React` of
-- pkg/core/client.go calls them on the reply code that the server sent and the handlers of
-- pkg/core/server_web.go on an id; and the conversion of an `int` to a `byte`.
use Prim.Native.Nat.{ℕ, ◌+◌, ◌-◌, ◌*◌, ◌^◌}
use mathlib.Core.Bool.{Bool, true, false, ◌&&◌}
use mathlib.Core.Option.{Option, none, some}
use mathlib.Core.List.{[], ◌∷◌}
use relaybaton.Common.Tests.{ltb, leb, ◌=ℕ◌, if◌then◌else◌}
use relaybaton.Common.Lists.{Bytes}
use relaybaton.Common.Words.{u8}

abbrev is_digit : ℕ → Bool
is_digit c = leb b'0' c && leb c b'9'

-- Digits, at least one; `none` is a syntax error.
digits : ℕ → Bytes → Option ℕ
digits acc [] = some acc
digits acc (c ∷ cs) =
    let rest = digits (acc * 10 + (c - b'0')) cs in if is_digit c then rest else none

unsigned : Bytes → Option ℕ
unfolding digits
unsigned [] = none
unsigned (c ∷ cs) = digits 0 (c ∷ cs)

-- A sign and a magnitude: `true` is negative.
signed : Bool → ℕ → Option ℕ → Option (Bool × ℕ)
signed neg limit none = none
signed neg limit (some n) = if ltb limit n then none else some (neg, n)

unfoldable pub atoi : Bytes → Option (Bool × ℕ)
unfolding unsigned signed
atoi [] = none
atoi (c ∷ cs) =
    if c =ℕ b'-'
    then signed true (2 ^ 63) (unsigned cs)
    else if c =ℕ b'+'
    then signed false (2 ^ 63 - 1) (unsigned cs)
    else signed false (2 ^ 63 - 1) (unsigned (c ∷ cs))

-- `byte(repCode)`.
unfoldable pub byte_of : Bool × ℕ → ℕ
byte_of (false, n) = u8 n
byte_of (true, n) = u8 (2 ^ 8 - u8 n)

-- `strconv.ParseUint(s, 10, 64)`.
unfoldable pub parse_uint : Bytes → Option ℕ
unfolding unsigned
parse_uint s = elim (unsigned s) [
  | none ↦ none
  | some n ↦ if ltb (2 ^ 64 - 1) n then none else some n
]
