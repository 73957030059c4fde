-- ===== src/Ip/Address.antt =====
-- The part of the standard library's `net.IP` and `net.IPNet` that `isReservedIP` of
-- pkg/core/router.go calls. A `net.IP` is a slice of bytes; `nil` is the empty one.
use Prim.Native.Nat.{min}
use relaybaton.Common.{
  ℕ, ◌-◌, ◌/◌, ◌^◌, Bool, true, false, ◌&&◌, [], ◌∷◌, ◌++◌, ◌=ℕ◌, if◌then◌else◌, Bytes, length,
  drop, replicate, bytes_beq,
}

abbrev pub Ip : Type 0
Ip = Bytes

abbrev is_v4_mapped : Ip → Bool
is_v4_mapped (a ∷ b ∷ c ∷ d ∷ e ∷ f ∷ g ∷ h ∷ i ∷ j ∷ k ∷ l ∷ rest) =
    bytes_beq (a ∷ b ∷ c ∷ d ∷ e ∷ f ∷ g ∷ h ∷ i ∷ j ∷ k ∷ l ∷ [])
      (replicate 10 0 ++ 255 ∷ 255 ∷ [])
    && (length rest =ℕ 4)
is_v4_mapped _ = false

-- `IP.To4`; the empty address stands for `nil`.
unfoldable pub to4 : Ip → Ip
to4 ip = if length ip =ℕ 4 then ip else if is_v4_mapped ip then drop 12 ip else []

-- `IP.To16`.
unfoldable pub to16 : Ip → Ip
to16 ip =
    if length ip =ℕ 4
    then replicate 10 0 ++ (255 ∷ 255 ∷ ip)
    else if length ip =ℕ 16
    then ip
    else []

-- `if x := ip.To4(); x != nil { ip = x }`, as `Contains`, `Equal` and `String` begin.
unfoldable pub shorten : Ip → Ip
shorten ip = if length (to4 ip) =ℕ 4 then to4 ip else ip

-- The high `k` bits of a byte.
abbrev pub high_bits : ℕ → ℕ → ℕ
high_bits k b = b / 2 ^ (8 - k)

-- `IPNet.Contains` for a network that `ParseCIDR` made: the bytes, under the mask of `ones` bits.
unfoldable pub same_prefix : ℕ → Bytes → Bytes → Bool
same_prefix k [] ys = true
same_prefix k (x ∷ xs) [] = true
same_prefix k (x ∷ xs) (y ∷ ys) =
    (high_bits (min 8 k) x =ℕ high_bits (min 8 k) y) && same_prefix (k - 8) xs ys

pub record IpNet : Type 0 where
  pub ip : Bytes
  pub ones : ℕ

unfoldable pub contains : IpNet → Ip → Bool
contains n ip = let x = shorten ip in (length x =ℕ length n.ip) && same_prefix n.ones n.ip x
