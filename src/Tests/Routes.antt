-- ===== src/Tests/Routes.antt =====
-- A router that has a database of one address, and the addresses it is asked about.
use relaybaton.Common.{
  ℕ, String, ◌≡◌, refl, Bool, true, false, ◌&&◌, Option, none, some, [], ◌∷◌, arith, ◌=ℕ◌,
  if◌then◌else◌, same_nat, same_string, same_bytes, ok,
}
use relaybaton.Ip.Address.{Ip, to4}
use relaybaton.Ip.Reserved.{is_reserved_ip}
use relaybaton.Ip.Reserved.Version4.{in_reserved_range, is_reserved_ip-in_reserved_range}
use relaybaton.Ip.Reserved.Version6.{IsVersion6, is_reserved_ip-IsVersion6}
use relaybaton.Router.State.{GeoIp, Router, Files, found, new_router, switch_off}
use relaybaton.Router.Select.{select}
use relaybaton.Router.Update.{reopen}
use relaybaton.Router.History.{Reach, here, next, starts_download, ends_download, Reach-select}

-- A reader is the first byte of the addresses that it places in China.
abbrev pub geo : GeoIp
geo = record { Reader = ℕ; country = placed }
  where
    placed : ℕ → Ip → Option String
    placed n [] = none
    placed n (b ∷ bs) = if b =ℕ n then some "CN" else some "DE"

abbrev pub router : Router ℕ
router = record { on = true; geo_ip_db = some 1; hash_map = [] }

abbrev pub away : Ip
away = 8 ∷ 8 ∷ 8 ∷ 8 ∷ []

abbrev files : Files ℕ
files = record { executable = true; stat_mmdb = found; open_mmdb = some 1 }

made : new_router false false files ≡ ok router
unfolding new_router
made = refl

abbrev downloaded : Router ℕ
downloaded = record router { geo_ip_db = some 8 }

history : Reach geo router downloaded
unfolding switch_off reopen
history = next (next here starts_download) (ends_download (some 8) refl)

Reach-select_example :
    (b : Bool) × (s' : Router ℕ) × (select geo downloaded away ≡ some (b, s'))
    × ((is_reserved_ip away && b) ≡ false)
Reach-select_example = Reach-select geo false false files router downloaded away made history

is_reserved_ip-in_reserved_range_example :
    is_reserved_ip (172 ∷ 31 ∷ 0 ∷ 1 ∷ []) ≡ in_reserved_range 172 31 0 1
is_reserved_ip-in_reserved_range_example = is_reserved_ip-in_reserved_range 172 31 0 1 (omega arith)

abbrev public6 : Ip
public6 = 0x26 ∷ 0x06 ∷ 0x47 ∷ 0 ∷ 0x47 ∷ 0 ∷ 0 ∷ 0 ∷ 0 ∷ 0 ∷ 0 ∷ 0 ∷ 0 ∷ 0 ∷ 0x11 ∷ 0x11 ∷ []

public6-IsVersion6 : IsVersion6 public6
unfolding to4
public6-IsVersion6 = record { bytes = omega arith; long = refl; not_mapped = refl }

is_reserved_ip-IsVersion6_example : is_reserved_ip public6 ≡ true
is_reserved_ip-IsVersion6_example = is_reserved_ip-IsVersion6 public6 public6-IsVersion6

abbrev pub after : Router ℕ
after = record router { hash_map = (away, true) ∷ [] }
