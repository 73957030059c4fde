-- ===== src/Router/Select/Reserved.antt =====
-- A reserved address is never sent through the proxy (pkg/core/router.go): what the cache holds
-- agrees with `isReservedIP`.
use mathlib.Core.Path.{ap₂}
use relaybaton.Common.{
  ◌≡◌, refl, sym, ap, ◌∙◌, inl, inr, Bool, true, false, ◌||◌, some, List, [], ◌∷◌, arith, ◌=ℕ◌,
  Bool-cases, length, any, ◌==◌, same_nat, same_string, bytes_beq_iff, same_bytes,
}
use relaybaton.Ip.Address.{Ip, IpNet, to4, shorten, contains}
use relaybaton.Ip.Reserved.{is_reserved_ip, is_special, is_in_table, reserved_ip}
use relaybaton.Router.State.{GeoIp, Router}
use relaybaton.Router.Select.{get_geo_ip, get_cache, set_cache, remove_cache, select}
use relaybaton.Router.Select.Laws.{select-cases, get_cache-set_cache, get_cache-remove_cache}

to4-to4 : (ip : Ip) → (length (to4 ip) =ℕ 4) ≡ true → to4 (to4 ip) ≡ to4 ip
to4-to4 ip e = short (to4 ip) e
  where
    short : (x : Ip) → (length x =ℕ 4) ≡ true → to4 x ≡ x
    short x h = unfold to4 in rw h

to4-shorten : (ip : Ip) → to4 (shorten ip) ≡ to4 ip
unfolding shorten
to4-shorten ip = elim (Bool-cases (length (to4 ip) =ℕ 4)) [
  | inl e ↦ rw e (to4-to4 ip e)
  | inr e ↦ rw e
]

shorten-shorten : (ip : Ip) → shorten (shorten ip) ≡ shorten ip
unfolding shorten
shorten-shorten ip = elim (Bool-cases (length (to4 ip) =ℕ 4)) [
  | inl e ↦ rw (e, to4-to4 ip e, e)
  | inr e ↦ rw (e, e)
]

contains-shorten : (n : IpNet) (ip : Ip) → contains n (shorten ip) ≡ contains n ip
unfolding contains
contains-shorten n ip = rw (shorten-shorten ip)

is_special-shorten : (ip : Ip) → is_special (shorten ip) ≡ is_special ip
unfolding is_special shorten
is_special-shorten ip = elim (Bool-cases (length (to4 ip) =ℕ 4)) [
  | inl e ↦ rw (e, to4-to4 ip e, e)
  | inr e ↦ rw (e, e)
]

any-ext {ℓ} :
    {A : Type ℓ} (p q : A → Bool) (xs : List A) → ((x : A) → p x ≡ q x) → any p xs ≡ any q xs
any-ext p q [] h = refl
any-ext p q (x ∷ xs) h = rw (h x, any-ext p q xs h)

-- `isReservedIP` says the same of an address and of its 4-byte form, where it has one.
pub is_reserved_ip-shorten : (ip : Ip) → is_reserved_ip (shorten ip) ≡ is_reserved_ip ip
unfolding is_reserved_ip
is_reserved_ip-shorten ip = ap₂ ◌||◌ (is_special-shorten ip) in_table
  where
    in_table : is_in_table (shorten ip) ≡ is_in_table ip
    in_table =
        unfold is_in_table in
        any-ext (λ n. contains n (shorten ip)) (λ n. contains n ip) reserved_ip
          (λ n. contains-shorten n ip)

same_reserved :
    (ip ip' : Ip) → (shorten ip == shorten ip') ≡ true → is_reserved_ip ip' ≡ is_reserved_ip ip
same_reserved ip ip' e =
    sym (is_reserved_ip-shorten ip')
    ∙ (ap is_reserved_ip (sym ((bytes_beq_iff _ _).0 e)) ∙ is_reserved_ip-shorten ip)

-- The cache sends no reserved address through the proxy.
abbrev pub IsCoherent : {Reader : Type 0} → Router Reader → Type 0
IsCoherent r = (ip : Ip) → get_cache r ip ≡ some true → is_reserved_ip ip ≡ false

module _ (geo : GeoIp) where
  open geo use {Reader, country}

  not_reserved :
      (r : Router Reader) (ip : Ip) → get_geo_ip geo r ip ≡ some true → is_reserved_ip ip ≡ false
  unfolding get_geo_ip
  not_reserved r ip e = ground arith

  set_cache-IsCoherent :
      (r : Router Reader) (ip : Ip) (b : Bool)
      → IsCoherent r
      → get_geo_ip geo r ip ≡ some b
      → IsCoherent (set_cache r ip b)
  set_cache-IsCoherent r ip b v e ip' h =
      ground (arith, get_cache-set_cache r ip ip' b, v ip', same_reserved ip ip', not_reserved r ip)

  pub select-IsCoherent :
      (r r' : Router Reader) (ip : Ip) (b : Bool)
      → IsCoherent r
      → select geo r ip ≡ some (b, r')
      → IsCoherent r'
  select-IsCoherent r r' ip b v e = elim (select-cases geo r r' ip b e) [
    | inl (hit, same) ↦ rw same v
    | inr (made, stored) ↦ rw stored (set_cache-IsCoherent r ip b v made)
  ]

  -- From a router whose cache is coherent, a reserved address is connected to directly.
  pub select-reserved :
      (r r' : Router Reader) (ip : Ip) (b : Bool)
      → IsCoherent r
      → is_reserved_ip ip ≡ true
      → select geo r ip ≡ some (b, r')
      → b ≡ false
  select-reserved r r' ip b v s e =
      ground (arith, select-cases geo r r' ip b e, v ip, not_reserved r ip)

pub remove_cache-IsCoherent :
    {Reader : Type 0} (r : Router Reader) (ip : Ip) → IsCoherent r → IsCoherent (remove_cache r ip)
remove_cache-IsCoherent r ip v ip' h = ground (arith, get_cache-remove_cache r ip ip', v ip')
