-- ===== src/Ip/Reserved/Version6.antt =====
-- IPv6 addresses and the table of pkg/core/router.go, which holds `::/0`.
use relaybaton.Common.{
  ◌≡◌, refl, Bool, true, false, ◌||◌, List, [], ◌∷◌, ◌++◌, arith, Bytes, length, drop, replicate,
  any, IsBytes,
}
use relaybaton.Ip.Address.{Ip, to4, contains, same_prefix, shorten}
use relaybaton.Ip.Reserved.{
  is_special, is_in_table, is_reserved_ip, reserved_ip, reserved_ip4, reserved_ip6, v6,
}

-- An address of 16 bytes that does not stand for an IPv4 address.
pub record IsVersion6 (ip : Ip) : Type 0 where
  pub bytes : IsBytes ip
  pub long : length ip ≡ 16
  pub not_mapped : to4 ip ≡ []

-- Under an empty mask all addresses are alike.
same_prefix_zero : (xs ys : Bytes) → IsBytes xs → IsBytes ys → same_prefix 0 xs ys ≡ true
unfolding same_prefix
same_prefix_zero [] ys v b = refl
same_prefix_zero (x ∷ xs) [] v b = refl
same_prefix_zero (x ∷ xs) (y ∷ ys) v b = ground (arith, same_prefix_zero xs ys)

contains_everything : (ip : Ip) → IsVersion6 ip → contains (v6 [] 0) ip ≡ true
unfolding contains shorten
contains_everything ip v =
    rw (v.not_mapped, v.long) (same_prefix_zero (replicate 16 0) ip (omega arith) v.bytes)

any-append_cons {ℓ} :
    {A : Type ℓ} (p : A → Bool) (xs : List A) (y : A) (ys : List A)
    → p y ≡ true
    → any p (xs ++ y ∷ ys) ≡ true
any-append_cons p [] y ys h = rw h
any-append_cons p (x ∷ xs) y ys h = ground (arith, any-append_cons p xs y ys h)

is_in_table-IsVersion6 : (ip : Ip) → IsVersion6 ip → is_in_table ip ≡ true
unfolding reserved_ip is_in_table
is_in_table-IsVersion6 ip v =
    any-append_cons (λ block. contains block ip) reserved_ip4 (v6 [] 0) (drop 1 reserved_ip6)
      (contains_everything ip v)

or_true : (b : Bool) → (b || true) ≡ true
or_true true = refl
or_true false = refl

-- `isReservedIP` holds of every address of 16 bytes that does not stand for an IPv4 address.
pub is_reserved_ip-IsVersion6 : (ip : Ip) → IsVersion6 ip → is_reserved_ip ip ≡ true
unfolding is_reserved_ip
is_reserved_ip-IsVersion6 ip v = rw (is_in_table-IsVersion6 ip v) (or_true (is_special ip))
