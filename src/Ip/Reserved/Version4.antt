-- ===== src/Ip/Reserved/Version4.antt =====
-- Which IPv4 addresses `isReservedIP` takes for reserved (pkg/core/router.go).
use relaybaton.Common.{
  ℕ, ◌≤◌, ◌<◌, ◌≡◌, refl, sym, ◌∙◌, ◌⊎◌, inl, inr, Bool, true, false, ◌&&◌, ◌||◌, List, [], ◌∷◌,
  ◌++◌, arith, leb, ◌=ℕ◌, any, IsBytes,
}
use relaybaton.Ip.Address.{shorten, same_prefix, to4, IpNet, Ip, contains}
use relaybaton.Ip.Reserved.{
  reserved_ip, is_special, is_special_v4, is_in_table, is_reserved_ip, reserved_ip6, reserved_ip4,
  v4,
}

-- The reserved ranges, octet by octet.
abbrev pub in_reserved_range : ℕ → ℕ → ℕ → ℕ → Bool
in_reserved_range a b c d =
    (a =ℕ 0)
    || ((a =ℕ 10)
        || (((a =ℕ 100) && (leb 64 b && leb b 127))
            || ((a =ℕ 127)
                || (((a =ℕ 169) && (b =ℕ 254))
                    || (((a =ℕ 172) && (leb 16 b && leb b 31))
                        || (((a =ℕ 192) && ((b =ℕ 0) && ((c =ℕ 0) || (c =ℕ 2))))
                            || (((a =ℕ 192) && ((b =ℕ 88) && (c =ℕ 99)))
                                || (((a =ℕ 192) && (b =ℕ 168))
                                    || (((a =ℕ 198) && (leb 18 b && leb b 19))
                                        || (((a =ℕ 198) && ((b =ℕ 51) && (c =ℕ 100)))
                                            || (((a =ℕ 203) && ((b =ℕ 0) && (c =ℕ 113)))
                                                || leb 224 a)))))))))))

any-append {ℓ} :
    {A : Type ℓ} (p : A → Bool) (xs ys : List A) → any p (xs ++ ys) ≡ (any p xs || any p ys)
any-append p [] ys = refl
any-append p (x ∷ xs) ys = ground (arith, any-append p xs ys)

or_false : (b : Bool) → (b || false) ≡ b
or_false true = refl
or_false false = refl

join :
    (x y p q r : Bool) → ((x && (y && p)) || ((x && (y && q)) || r)) ≡ ((x && (y && (p || q))) || r)
join true true p q r = ground arith
join true false p q r = refl
join false y p q r = refl

absorb : (x y : Bool) → (x ≡ true → y ≡ true) → (x || y) ≡ y
absorb true y h = sym (h refl)
absorb false y h = refl

module _ (a b c d : ℕ) (v : IsBytes (a ∷ b ∷ c ∷ d ∷ [])) where
  abbrev ip : Ip
  ip = a ∷ b ∷ c ∷ d ∷ []

  contains_slash8 : (n : ℕ) → n < 256 → contains (v4 n 0 0 0 8) ip ≡ (a =ℕ n)
  unfolding contains same_prefix shorten to4
  contains_slash8 n h = ground arith

  contains_slash16 :
      (n m : ℕ) → n < 256 → m < 256 → contains (v4 n m 0 0 16) ip ≡ ((a =ℕ n) && (b =ℕ m))
  unfolding contains same_prefix shorten to4
  contains_slash16 n m h k = ground arith

  contains_slash24 :
      (n m k : ℕ)
      → n < 256
      → m < 256
      → k < 256
      → contains (v4 n m k 0 24) ip ≡ ((a =ℕ n) && ((b =ℕ m) && (c =ℕ k)))
  unfolding contains same_prefix shorten to4
  contains_slash24 n m k h i j = ground arith

  contains_others :
      (contains (v4 100 64 0 0 10) ip ≡ ((a =ℕ 100) && (leb 64 b && leb b 127)))
      × (contains (v4 172 16 0 0 12) ip ≡ ((a =ℕ 172) && (leb 16 b && leb b 31)))
      × (contains (v4 198 18 0 0 15) ip ≡ ((a =ℕ 198) && (leb 18 b && leb b 19)))
      × (contains (v4 224 0 0 0 4) ip ≡ (leb 224 a && leb a 239))
      × (contains (v4 240 0 0 0 4) ip ≡ leb 240 a)
      × (contains (v4 255 255 255 255 32) ip
          ≡ ((a =ℕ 255) && ((b =ℕ 255) && ((c =ℕ 255) && (d =ℕ 255)))))
  unfolding contains same_prefix shorten to4
  contains_others =
      (ground arith, ground arith, ground arith, ground arith, ground arith, ground arith)

  abbrev among : List IpNet → Bool
  among = any (λ block. contains block ip)

  among6 : among reserved_ip6 ≡ false
  unfolding contains same_prefix shorten to4 reserved_ip6
  among6 = refl

  -- The table, block by block.
  among4 : among reserved_ip4 ≡ (
      (a =ℕ 0)
      || ((a =ℕ 10)
          || (((a =ℕ 100) && (leb 64 b && leb b 127))
              || ((a =ℕ 127)
                  || (((a =ℕ 169) && (b =ℕ 254))
                      || (((a =ℕ 172) && (leb 16 b && leb b 31))
                          || (((a =ℕ 192) && ((b =ℕ 0) && (c =ℕ 0)))
                              || (((a =ℕ 192) && ((b =ℕ 0) && (c =ℕ 2)))
                                  || (((a =ℕ 192) && ((b =ℕ 88) && (c =ℕ 99)))
                                      || (((a =ℕ 192) && (b =ℕ 168))
                                          || (((a =ℕ 198) && (leb 18 b && leb b 19))
                                              || (((a =ℕ 198) && ((b =ℕ 51) && (c =ℕ 100)))
                                                  || (((a =ℕ 203) && ((b =ℕ 0) && (c =ℕ 113)))
                                                      || ((leb 224 a && leb a 239)
                                                          || (leb 240 a
                                                            || (((a =ℕ 255)
                                                            && ((b =ℕ 255)
                                                            && ((c =ℕ 255) && (d =ℕ 255))))
                                                            || false))))))))))))))))
  unfolding reserved_ip4
  among4 =
      let (e100, e172, e198, e224, e240, e255) = contains_others in
      rw (
        contains_slash8 0 (omega arith),
        contains_slash8 10 (omega arith),
        e100,
        contains_slash8 127 (omega arith),
        contains_slash16 169 254 (omega arith) (omega arith),
        e172,
        contains_slash24 192 0 0 (omega arith) (omega arith) (omega arith),
        contains_slash24 192 0 2 (omega arith) (omega arith) (omega arith),
        contains_slash24 192 88 99 (omega arith) (omega arith) (omega arith),
        contains_slash16 192 168 (omega arith) (omega arith),
        e198,
        contains_slash24 198 51 100 (omega arith) (omega arith) (omega arith),
        contains_slash24 203 0 113 (omega arith) (omega arith) (omega arith),
        e224,
        e240,
        e255,
      )

  special : is_special ip ≡ is_special_v4 ip
  unfolding is_special to4
  special = refl

  is_in_table-among : is_in_table ip ≡ among reserved_ip4
  unfolding is_in_table reserved_ip
  is_in_table-among =
      any-append (λ block. contains block ip) reserved_ip4 reserved_ip6
      ∙ (rw among6 (or_false (among reserved_ip4)))

  last_ranges :
      ((leb 224 a && leb a 239)
        || (leb 240 a || (((a =ℕ 255) && ((b =ℕ 255) && ((c =ℕ 255) && (d =ℕ 255)))) || false)))
      ≡ leb 224 a
  last_ranges = ground arith

  among4_ranges : among reserved_ip4 ≡ in_reserved_range a b c d
  among4_ranges = among4 ∙ rw (last_ranges, join (a =ℕ 192) (b =ℕ 0) (c =ℕ 0) (c =ℕ 2))

  high_range : 224 ≤ a → in_reserved_range a b c d ≡ true
  high_range h = ground arith

  special_cases :
      is_special_v4 ip ≡ true → (a ≡ 0) ⊎ ((a ≡ 127) ⊎ (((a ≡ 169) × (b ≡ 254)) ⊎ (224 ≤ a)))
  special_cases h = ground arith

  special_in_range : is_special_v4 ip ≡ true → in_reserved_range a b c d ≡ true
  special_in_range h = elim (special_cases h) [
    | inl e ↦ rw e
    | inr (inl e) ↦ rw e
    | inr (inr (inl (e, e'))) ↦ rw (e, e')
    | inr (inr (inr l)) ↦ high_range l
  ]

  ranges : (is_special_v4 ip || among reserved_ip4) ≡ in_reserved_range a b c d
  ranges = rw among4_ranges (absorb (is_special_v4 ip) (in_reserved_range a b c d) special_in_range)

  -- `isReservedIP` holds of an IPv4 address exactly if it lies in one of the reserved ranges, given
  -- octet by octet.
  pub is_reserved_ip-in_reserved_range : is_reserved_ip ip ≡ in_reserved_range a b c d
  unfolding is_reserved_ip
  is_reserved_ip-in_reserved_range = rw (special, is_in_table-among) ranges
