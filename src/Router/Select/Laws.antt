-- ===== src/Router/Select/Laws.antt =====
-- How `Select` and its cache agree (pkg/core/router.go).
use relaybaton.Common.{
  ◌≡◌, refl, ap, ◌∙◌, ◌⊎◌, inl, inr, Bool, true, false, none, some, arith, if◌then◌else◌,
  Bool-cases, Option-cases, ◌==◌, same_nat, same_string, same_bytes, eq_self,
}
use relaybaton.Common.Dict
use relaybaton.Ip.Address.{Ip, shorten}
use relaybaton.Ip.Reserved.{is_reserved_ip}
use relaybaton.Router.State.{GeoIp, Router, IsReady}
use relaybaton.Router.Select.{
  abroad, get_geo_ip, get_cache, set_cache, remove_cache, decide_by, select,
}

module _ {Reader : Type 0} where
  -- The cache after a write and after a removal, at any address.
  pub get_cache-set_cache :
      (r : Router Reader) (ip ip' : Ip) (b : Bool)
      → get_cache (set_cache r ip b) ip'
        ≡ (if shorten ip == shorten ip' then some b else get_cache r ip')
  unfolding get_cache set_cache
  get_cache-set_cache r ip ip' b = Dict.get-put (shorten ip) (shorten ip') b r.hash_map

  pub get_cache-remove_cache :
      (r : Router Reader) (ip ip' : Ip)
      → get_cache (remove_cache r ip) ip'
        ≡ (if shorten ip == shorten ip' then none else get_cache r ip')
  unfolding get_cache remove_cache
  get_cache-remove_cache r ip ip' = Dict.get-remove (shorten ip) (shorten ip') r.hash_map

module _ (geo : GeoIp) where
  open geo use {Reader, country}

  -- What is cached is the answer, and nothing changes.
  pub select-cached :
      (r : Router Reader) (ip : Ip) (b : Bool)
      → get_cache r ip ≡ some b
      → select geo r ip ≡ some (b, r)
  unfolding select
  select-cached r ip b e = rw e

  -- What is not cached is decided anew, and cached.
  pub select-missing :
      (r : Router Reader) (ip : Ip) (b : Bool)
      → get_cache r ip ≡ none
      → get_geo_ip geo r ip ≡ some b
      → select geo r ip ≡ some (b, set_cache r ip b)
  unfolding select
  select-missing r ip b miss e = rw (miss, decide_by, e)

  -- The decision does not depend on the cache.
  pub get_geo_ip-remove_cache :
      (r : Router Reader) (ip ip' : Ip)
      → get_geo_ip geo (remove_cache r ip) ip' ≡ get_geo_ip geo r ip'
  unfolding get_geo_ip remove_cache
  get_geo_ip-remove_cache r ip ip' = refl

  -- A decision comes from the cache, or is made and put there.
  pub select-cases :
      (r r' : Router Reader) (ip : Ip) (b : Bool)
      → select geo r ip ≡ some (b, r')
      → ((get_cache r ip ≡ some b) × (r' ≡ r))
        ⊎ ((get_geo_ip geo r ip ≡ some b) × (r' ≡ set_cache r ip b))
  unfolding select
  select-cases r r' ip b e = ground arith

  -- After a decision, it is in the cache, and nothing else has changed.
  pub select-fields :
      (r r' : Router Reader) (ip : Ip) (b : Bool)
      → select geo r ip ≡ some (b, r')
      → (get_cache r' ip ≡ some b) × (r'.on ≡ r.on) × (r'.geo_ip_db ≡ r.geo_ip_db)
  unfolding select
  select-fields r r' ip b e = elim (Option-cases (get_cache r ip)) [
    | inr (a, hit) ↦ by_cache a hit
    | inl miss ↦ ground (arith, miss, cached b, kept b)
  ]
    where
      by_cache :
          (a : Bool)
          → get_cache r ip ≡ some a
          → (get_cache r' ip ≡ some b) × (r'.on ≡ r.on) × (r'.geo_ip_db ≡ r.geo_ip_db)
      by_cache a hit = ground arith

      cached : (a : Bool) → get_cache (set_cache r ip a) ip ≡ some a
      cached a = get_cache-set_cache r ip ip a ∙ rw (eq_self (shorten ip))

      kept :
          (a : Bool) → ((set_cache r ip a).on ≡ r.on) × ((set_cache r ip a).geo_ip_db ≡ r.geo_ip_db)
      kept a = unfold set_cache in (refl, refl)

  -- The decision of `Select` is remembered: as long as the cache is kept, the answer stays the
  -- same, also when the router has been switched on or off or has got another database in between.
  select-select :
      (r r' later : Router Reader) (ip : Ip) (b : Bool)
      → select geo r ip ≡ some (b, r')
      → later.hash_map ≡ r'.hash_map
      → select geo later ip ≡ some (b, later)
  select-select r r' later ip b e same =
      select-cached later ip b (same_cache ∙ (select-fields r r' ip b e).0)
    where
      same_cache : get_cache later ip ≡ get_cache r' ip
      same_cache = unfold get_cache in ap (Dict.get (shorten ip)) same

  get_geo_ip-IsReady :
      (r : Router Reader) (ip : Ip) → IsReady r → (b : Bool) × (get_geo_ip geo r ip ≡ some b)
  unfolding get_geo_ip
  get_geo_ip-IsReady r ip v = elim (Bool-cases (is_reserved_ip ip)) [
    | inl e ↦ (false, rw e)
    | inr e ↦ elim (Bool-cases r.on) [
      | inr off ↦ (true, rw (e, off))
      | inl on ↦ elim (Option-cases r.geo_ip_db) [
        | inl missing ↦ cc (v.opened on, missing)
        | inr (db, found) ↦ (abroad geo (country db ip), rw (e, on, found))
      ]
    ]
  ]

  -- A router that is ready does not panic, and stays ready.
  pub select-IsReady :
      (r : Router Reader) (ip : Ip)
      → IsReady r
      → (b : Bool) × (r' : Router Reader) × (select geo r ip ≡ some (b, r')) × IsReady r'
  unfolding select
  select-IsReady r ip v = elim (Option-cases (get_cache r ip)) [
    | inr (b, hit) ↦ (b, r, rw hit, v)
    | inl miss ↦
        let (b, e) = get_geo_ip-IsReady r ip v in
        (
          b,
          set_cache r ip b,
          rw (miss, decide_by, e),
          unfold set_cache in record { opened = v.opened },
        )
  ]
