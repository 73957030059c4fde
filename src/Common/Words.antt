-- ===== src/Common/Words.antt =====
-- Go's machine words: `uint` and `uint64` are 64 bits wide, `uint16` 16 bits, and wrap around.
use Prim.Native.Nat.{ℕ, ◌+◌, ◌*◌, ◌/◌, ◌%◌, ◌^◌, ◌<◌}
use mathlib.Core.Path.{◌≡◌}
use mathlib.Core.List.{List, [], ◌∷◌}
use native.Mathlib.Omega.{arith}

abbrev pub u8 : ℕ → ℕ
u8 n = n % 2 ^ 8

abbrev pub u64 : ℕ → ℕ
u64 n = n % 2 ^ 64

-- `binary.BigEndian.Uint16` and `PutUint16`.
unfoldable pub uint16_of_bytes : ℕ → ℕ → ℕ
uint16_of_bytes hi lo = hi * 256 + lo

-- `util.Uint16ToBytes`.
unfoldable pub uint16_to_bytes : ℕ → List ℕ
uint16_to_bytes n = (n / 256) ∷ (n % 256) ∷ []

pub uint16_of_bytes-div-mod : (n : ℕ) → uint16_of_bytes (n / 256) (n % 256) ≡ n
unfolding uint16_of_bytes
uint16_of_bytes-div-mod n = omega arith

pub uint16_to_bytes-uint16_of_bytes :
    (hi lo : ℕ) → lo < 256 → uint16_to_bytes (uint16_of_bytes hi lo) ≡ hi ∷ lo ∷ []
unfolding uint16_of_bytes uint16_to_bytes
uint16_to_bytes-uint16_of_bytes hi lo l = ground arith
