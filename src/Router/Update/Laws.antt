-- ===== src/Router/Update/Laws.antt =====
-- What `Download` and `Update` leave behind (pkg/core/router.go).
use relaybaton.Common.{
  ℕ, ◌≡◌, refl, ◌⊎◌, inl, inr, true, false, Option, none, some, arith, Option-cases, Bytes,
}
use relaybaton.Router.State.{open_error, Router, Error, IsReady}
use relaybaton.Router.Update.{Fetch, Archive, unpack, download, update}

module _ {Reader : Type 0} where
  -- A download ends in one of two ways, and in both the cache is kept: the archive was unpacked and
  -- the database opened, and the router is switched on with the new database, or there is an error
  -- and the router is off.
  download_cases :
      (r : Router Reader) (f : Fetch Reader)
      → ((db : Reader) × (unpack f ≡ none)
          × (f.open_mmdb ≡ some db)
          × (download r f ≡ (record r { on = true; geo_ip_db = some db }, none)))
        ⊎ ((e : Error) × ((download r f).1 ≡ some e)
            × ((download r f).0.on ≡ false)
            × ((download r f).0.hash_map ≡ r.hash_map))
  unfolding download
  download_cases r f = elim (Option-cases (unpack f)) [
    | inr (e, broken) ↦ inr (e, rw broken, rw broken, rw broken)
    | inl good ↦ elim (Option-cases f.open_mmdb) [
      | inr (db, opened) ↦ inl (db, good, opened, rw (good, opened))
      | inl closed ↦ inr (open_error, rw (good, closed), rw (good, closed), rw (good, closed))
    ]
  ]

  download-IsReady :
      (r : Router Reader) (f : Fetch Reader)
      → IsReady (download r f).0 × ((download r f).0.hash_map ≡ r.hash_map)
  download-IsReady r f = elim (download_cases r f) [
    | inl (db, _, _, e) ↦ rw e (record { opened = λ _. refl }, refl)
    | inr (_, _, off, same) ↦ (record { opened = λ on. cc (off, on) }, same)
  ]

  -- `Update` leaves a router that has a database where it is on in such a state, and never touches
  -- the cache.
  update-IsReady :
      (r : Router Reader) (a : Archive) (published : Option (ℕ × Bytes)) (f : Fetch Reader)
      → IsReady r
      → IsReady (update r a published f).0 × ((update r a published f).0.hash_map ≡ r.hash_map)
  unfolding update
  update-IsReady r a published f v = ground (arith, download-IsReady r f)
