-- ===== src/Router/State.antt =====
-- The `Router` of pkg/core/router.go, and `NewRouter`. The paths of the files are not modelled, but
-- what is found there: `Files`. The mutexes guard the fields: each function is one critical section.
use relaybaton.Common.{
  String, ◌≡◌, Bool, true, false, not, ◌&&◌, Option, none, some, [], arith, if◌then◌else◌, is_some,
  Bytes, same_nat, same_string, same_bytes, Result, ok, err,
}
use relaybaton.Common.Dict.{Dict}
use relaybaton.Ip.Address.{Ip}

-- The country database, `geoip2.Reader`: `country` is the ISO code, or `none` for an error.
pub record GeoIp : Type 1 where
  pub Reader : Type 0
  pub country : Reader → Ip → Option String

-- The cache is keyed by `ip.String()`, which shows the bytes of the address, shortened.
pub record Router (Reader : Type 0) : Type 0 where
  pub on : Bool
  pub geo_ip_db : Option Reader
  pub hash_map : Dict Bytes Bool

pub data Stat : Type 0 where
  found not_exist failed : Stat

pub data Error : Type 0 where
  no_executable stat_error open_error : Error
  get_error wrong_status_code create_error copy_error walk_error : Error

pub record Files (Reader : Type 0) : Type 0 where
  pub executable : Bool
  pub stat_mmdb : Stat
  -- `geoip2.Open`: `none` for an error, with which it returns no reader.
  pub open_mmdb : Option Reader

module _ {Reader : Type 0} where
  unfoldable pub switch_on : Router Reader → Router Reader
  switch_on r = record r { on = true }

  unfoldable pub switch_off : Router Reader → Router Reader
  switch_off r = record r { on = false }

  abbrev fresh : Bool → Router Reader
  fresh on = record { on = on; geo_ip_db = none; hash_map = [] }

  open_database : Option Reader → Result Error (Router Reader)
  open_database none = err open_error
  open_database (some db) = ok (record { on = true; geo_ip_db = some db; hash_map = [] })

  -- What `os.Stat` says of the database.
  from_stat : Stat → Option Reader → Result Error (Router Reader)
  unfolding switch_off open_database
  from_stat found opened = open_database opened
  from_stat not_exist opened = ok (switch_off (fresh true))
  from_stat failed opened = err stat_error

  -- `conf.Client.ProxyAll` and `IsMobile` are arguments.
  unfoldable pub new_router : Bool → Bool → Files Reader → Result Error (Router Reader)
  unfolding from_stat
  new_router proxy_all is_mobile files =
      if proxy_all
      then ok (fresh false)
      else if not is_mobile && not files.executable
      then err no_executable
      else from_stat files.stat_mmdb files.open_mmdb

  -- A router that is on has a database to ask.
  pub record IsReady (r : Router Reader) : Type 0 where
    pub opened : r.on ≡ true → is_some r.geo_ip_db ≡ true

  -- What `NewRouter` returns is ready.
  pub new_router-IsReady :
      (proxy_all is_mobile : Bool) (files : Files Reader) (r : Router Reader)
      → new_router proxy_all is_mobile files ≡ ok r
      → IsReady r
  unfolding new_router
  new_router-IsReady p m files r h = ground arith
