-- ===== src/Common/Integers.antt =====
-- Go's `int`, which can be negative, and its conversions to words of 16 and 32 bits.
use Prim.Native.Nat.{ℕ, ◌-◌, ◌%◌, ◌^◌}
use mathlib.Core.Bool.{Bool, true, false}
use relaybaton.Common.Tests.{leb, ltb, ◌=ℕ◌, if◌then◌else◌}

-- `negsuc n` is -(n + 1).
pub data ℤ : Type 0 where
  pos : ℕ → ℤ
  negsuc : ℕ → ℤ

infix 50 ◌=ℤ◌
abbrev pub ◌=ℤ◌ : ℤ → ℤ → Bool
pos a =ℤ pos b = a =ℕ b
pos a =ℤ negsuc b = false
negsuc a =ℤ pos b = false
negsuc a =ℤ negsuc b = a =ℕ b

-- `0 <= z`.
abbrev pub is_natural : ℤ → Bool
is_natural (pos n) = true
is_natural (negsuc n) = false

-- `z <= k`.
abbrev pub is_at_most : ℕ → ℤ → Bool
is_at_most k (pos n) = leb n k
is_at_most k (negsuc n) = true

-- `uint16(z)`.
unfoldable pub u16_of_int : ℤ → ℕ
u16_of_int (pos n) = n % 2 ^ 16
u16_of_int (negsuc n) = 2 ^ 16 - 1 - n % 2 ^ 16

-- `C.int(n)`: the value of the low 32 bits, in two's complement.
abbrev pub i32_of_int : ℤ → ℤ
i32_of_int (pos n) =
    let low = n % 2 ^ 32 in if ltb low (2 ^ 31) then pos low else negsuc (2 ^ 32 - 1 - low)
i32_of_int (negsuc n) =
    let low = n % 2 ^ 32 in if ltb low (2 ^ 31) then negsuc low else pos (2 ^ 32 - 1 - low)
