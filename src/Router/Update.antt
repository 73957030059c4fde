-- ===== src/Router/Update.antt =====
-- `Router.Update` and `Router.Download` of pkg/core/router.go. What the web, the file system and the
-- archive give is an argument, `Fetch`; the paths, the URLs and the SOCKS dialer are not modelled, nor
-- that `Walk` closes the old database: a router that is off does not ask it.
pub mod Laws
use relaybaton.Common.{
  ℕ, Bool, true, false, not, ◌&&◌, Option, none, some, List, [], ◌∷◌, ◌=ℕ◌, if◌then◌else◌, Bytes,
}
use relaybaton.Router.State.{
  Router, Error, get_error, wrong_status_code, create_error, copy_error, walk_error, open_error,
  switch_on, switch_off,
}

-- An entry of the archive that `Walk` visits: whether its extension is ".mmdb", and whether the
-- file for it can be created and written.
pub record Entry : Type 0 where
  pub is_mmdb : Bool
  pub create_mmdb : Bool
  pub copy_mmdb : Bool

pub record Fetch (Reader : Type 0) : Type 0 where
  -- `client.Get`: the status code, or `none` for an error.
  pub get : Option ℕ
  pub create_archive : Bool
  pub copy_archive : Bool
  pub open_archive : Bool
  pub entries : List Entry
  -- `geoip2.Open` afterwards: `none` for an error, with which it returns no reader.
  pub open_mmdb : Option Reader

-- The function that `Walk` calls on an entry.
visit : Entry → Option Error
visit e =
    if not e.is_mmdb
    then none
    else if not e.create_mmdb
    then some create_error
    else if not e.copy_mmdb
    then some copy_error
    else none

-- `gz.Walk` stops at the first error.
walk : List Entry → Option Error
unfolding visit
walk [] = none
walk (e ∷ es) = let rest = walk es in elim (visit e) [ none ↦ rest | some x ↦ some x ]

abbrev pub status_ok : ℕ
status_ok = 200

-- The archive as far as it has to be good: fetched, stored, and unpacked.
pub unpack : {Reader : Type 0} → Fetch Reader → Option Error
unfolding walk
unpack f = elim f.get [
  | none ↦ some get_error
  | some code ↦
      if not (code =ℕ status_ok)
      then some wrong_status_code
      else if not f.create_archive
      then some create_error
      else if not f.copy_archive
      then some copy_error
      else if not f.open_archive
      then some walk_error
      else walk f.entries
]

module _ {Reader : Type 0} where
  -- `router.GeoIPDB, err = geoip2.Open(router.mmdbPath)`, and `SwitchOn` if that is no error.
  unfoldable pub reopen : Router Reader → Option Reader → Router Reader × Option Error
  unfolding switch_on
  reopen r none = (record r { geo_ip_db = none }, some open_error)
  reopen r (some db) = (switch_on (record r { geo_ip_db = some db }), none)

  finish : Router Reader → Option Error → Option Reader → Router Reader × Option Error
  unfolding reopen
  finish r (some e) opened = (r, some e)
  finish r none opened = reopen r opened

  pub download : Router Reader → Fetch Reader → Router Reader × Option Error
  unfolding finish switch_off
  download r f = finish (switch_off r) (unpack f) f.open_mmdb

-- The archive that is on the disk: its SHA-256 in hexadecimal, or why it could not be had.
pub data Archive : Type 0 where
  missing unreadable copy_failed : Archive
  sum : Bytes → Archive

unfoldable has_prefix : Bytes → Bytes → Bool
has_prefix body [] = true
has_prefix [] (x ∷ xs) = false
has_prefix (y ∷ ys) (x ∷ xs) = (y =ℕ x) && has_prefix ys xs

module _ {Reader : Type 0} where
  compare_sums :
      Router Reader → Bytes → Option (ℕ × Bytes) → Fetch Reader → Router Reader × Option Error
  compare_sums r digest none f = (r, some get_error)
  compare_sums r digest (some (code, body)) f =
      if not (code =ℕ status_ok)
      then (r, some wrong_status_code)
      else if has_prefix body digest
      then (r, none)
      else download r f

  -- The third argument is what the web gives for the published checksum.
  pub update :
      Router Reader → Archive → Option (ℕ × Bytes) → Fetch Reader → Router Reader × Option Error
  unfolding compare_sums
  update r missing published f = download r f
  update r unreadable published f = (r, some open_error)
  update r copy_failed published f = (r, some copy_error)
  update r (sum digest) published f = compare_sums r digest published f
