-- ===== src/Ip/Reserved.antt =====
-- `isReservedIP` and the table `reservedIP` that `init` fills, of pkg/core/router.go; and the tests
-- of the standard library's `net.IP` that it makes first.
pub mod Version4
pub mod Version6
use relaybaton.Common.{
  ℕ, ◌/◌, ◌%◌, Bool, false, ◌&&◌, ◌||◌, List, [], ◌∷◌, ◌++◌, ◌=ℕ◌, if◌then◌else◌, Bytes, length,
  take, replicate, any, bytes_beq,
}
use relaybaton.Ip.Address.{Ip, IpNet, to4, contains, high_bits}

abbrev v4 : ℕ → ℕ → ℕ → ℕ → ℕ → IpNet
v4 a b c d ones = record { ip = a ∷ b ∷ c ∷ d ∷ []; ones = ones }

-- A network whose address begins with the given 16-bit groups, and goes on with zeros.
abbrev groups : List ℕ → Bytes
groups [] = []
groups (g ∷ gs) = (g / 256) ∷ (g % 256) ∷ groups gs

abbrev v6 : List ℕ → ℕ → IpNet
v6 gs ones = record { ip = take 16 (groups gs ++ replicate 16 0); ones = ones }

pub reserved_ip4 : List IpNet
reserved_ip4 =
    v4 0 0 0 0 8
    ∷ v4 10 0 0 0 8
    ∷ v4 100 64 0 0 10
    ∷ v4 127 0 0 0 8
    ∷ v4 169 254 0 0 16
    ∷ v4 172 16 0 0 12
    ∷ v4 192 0 0 0 24
    ∷ v4 192 0 2 0 24
    ∷ v4 192 88 99 0 24
    ∷ v4 192 168 0 0 16
    ∷ v4 198 18 0 0 15
    ∷ v4 198 51 100 0 24
    ∷ v4 203 0 113 0 24
    ∷ v4 224 0 0 0 4
    ∷ v4 240 0 0 0 4
    ∷ v4 255 255 255 255 32
    ∷ []

pub reserved_ip6 : List IpNet
reserved_ip6 =
    v6 [] 0
    ∷ v6 [] 128
    ∷ v6 (0 ∷ 0 ∷ 0 ∷ 0 ∷ 0 ∷ 0 ∷ 0 ∷ 1 ∷ []) 128
    ∷ v6 (0 ∷ 0 ∷ 0 ∷ 0 ∷ 0xffff ∷ []) 96
    ∷ v6 (0x64 ∷ 0xff9b ∷ []) 96
    ∷ v6 (0x100 ∷ []) 64
    ∷ v6 (0x2001 ∷ []) 32
    ∷ v6 (0x2001 ∷ 0x20 ∷ []) 28
    ∷ v6 (0x2001 ∷ 0xdb8 ∷ []) 32
    ∷ v6 (0x2002 ∷ []) 16
    ∷ v6 (0xfc00 ∷ []) 7
    ∷ v6 (0xfe80 ∷ []) 10
    ∷ v6 (0xff00 ∷ []) 8
    ∷ []

pub reserved_ip : List IpNet
unfolding reserved_ip4 reserved_ip6
reserved_ip = reserved_ip4 ++ reserved_ip6

-- The tests by the class of an IPv4 address, once `To4` is not `nil`.
abbrev pub is_special_v4 : Bytes → Bool
is_special_v4 (a ∷ b ∷ c ∷ d ∷ []) =
    -- IsLinkLocalMulticast
    ((a =ℕ 224) && ((b =ℕ 0) && (c =ℕ 0)))
    -- IsLinkLocalUnicast
    || (((a =ℕ 169) && (b =ℕ 254))
        -- IsLoopback
        || ((a =ℕ 127)
            -- IsMulticast
            || ((high_bits 4 a =ℕ 14)
                -- IsUnspecified
                || ((a =ℕ 0) && ((b =ℕ 0) && ((c =ℕ 0) && (d =ℕ 0)))))))
is_special_v4 _ = false

abbrev low4 : ℕ → ℕ
low4 b = b % 16

-- The same tests of a 16-byte address whose `To4` is `nil`.
abbrev is_special_v6 : Bytes → Bool
is_special_v6 (a ∷ b ∷ rest) =
    -- IsInterfaceLocalMulticast, IsLinkLocalMulticast, IsLinkLocalUnicast
    ((a =ℕ 255) && (low4 b =ℕ 1))
    || (((a =ℕ 255) && (low4 b =ℕ 2))
        || (((a =ℕ 254) && (high_bits 2 b =ℕ 2))
            -- IsLoopback, IsMulticast, IsUnspecified
            || (bytes_beq (a ∷ b ∷ rest) (replicate 15 0 ++ 1 ∷ [])
                || ((a =ℕ 255) || bytes_beq (a ∷ b ∷ rest) (replicate 16 0)))))
is_special_v6 _ = false

unfoldable pub is_special : Ip → Bool
is_special ip =
    if length (to4 ip) =ℕ 4 then is_special_v4 (to4 ip) else (length ip =ℕ 16) && is_special_v6 ip

-- The loop over the table.
unfoldable pub is_in_table : Ip → Bool
unfolding reserved_ip
is_in_table ip = any (λ block. contains block ip) reserved_ip

unfoldable pub is_reserved_ip : Ip → Bool
is_reserved_ip ip = is_special ip || is_in_table ip
