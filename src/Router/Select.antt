-- ===== src/Router/Select.antt =====
-- `Router.Select` of pkg/core/router.go, with its cache.
pub mod Laws
pub mod Reserved
use relaybaton.Common.{
  String, Bool, true, false, not, Option, none, some, if◌then◌else◌, ◌==◌, same_nat, same_string,
  same_bytes,
}
use relaybaton.Common.Dict
use relaybaton.Ip.Address.{Ip, shorten}
use relaybaton.Ip.Reserved.{is_reserved_ip}
use relaybaton.Router.State.{GeoIp, Router}

module _ {Reader : Type 0} where
  unfoldable pub get_cache : Router Reader → Ip → Option Bool
  get_cache r ip = Dict.get (shorten ip) r.hash_map

  unfoldable pub set_cache : Router Reader → Ip → Bool → Router Reader
  set_cache r ip result = record r { hash_map = Dict.put (shorten ip) result r.hash_map }

  unfoldable pub remove_cache : Router Reader → Ip → Router Reader
  remove_cache r ip = record r { hash_map = Dict.remove (shorten ip) r.hash_map }

module _ (geo : GeoIp) where
  open geo use {Reader, country}

  -- The answer of the database; an error counts as abroad.
  abbrev pub abroad : Option String → Bool
  abroad none = true
  abroad (some iso_code) = not (iso_code == "CN")

  -- `router.GeoIPDB.Country` on a nil database panics: `none`.
  unfoldable ask : Option Reader → Ip → Option Bool
  ask none ip = none
  ask (some db) ip = some (abroad (country db ip))

  unfoldable pub get_geo_ip : Router Reader → Ip → Option Bool
  unfolding ask
  get_geo_ip r ip =
      if is_reserved_ip ip then some false else if not r.on then some true else ask r.geo_ip_db ip

  remember : Router Reader → Ip → Option Bool → Option (Bool × Router Reader)
  remember r ip none = none
  remember r ip (some result) = some (result, set_cache r ip result)

  decide_by : Router Reader → Ip → Option Bool → Option (Bool × Router Reader)
  unfolding remember
  decide_by r ip (some result) = some (result, r)
  decide_by r ip none = remember r ip (get_geo_ip r ip)

  -- The decision and the router with its cache; `none` is the panic.
  unfoldable pub select : Router Reader → Ip → Option (Bool × Router Reader)
  unfolding decide_by
  select r ip = decide_by r ip (get_cache r ip)
