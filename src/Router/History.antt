-- ===== src/Router/History.antt =====
-- All that happens to the router of a client (pkg/core/router.go): `Select` and `RemoveCache` by the
-- connections, and `Update` by the goroutine that `OnInitComplete` starts. `Download` holds no mutex
-- from beginning to end, so it is two steps here: it switches the router off, and, if all went well
-- in between, opens the new database and switches the router on. It is the only caller of `SwitchOn`,
-- and runs once at a time, so the router is still off at its second step.
use relaybaton.Common.{
  ◌≡◌, refl, sym, ap, ◌∙◌, Bool, false, ◌&&◌, Option, none, some, arith, same_nat, same_string,
  same_bytes, ok,
}
use relaybaton.Common.Dict
use relaybaton.Ip.Address.{Ip}
use relaybaton.Ip.Reserved.{is_reserved_ip}
use relaybaton.Router.State.{
  GeoIp, Router, Files, IsReady, new_router, new_router-IsReady, switch_off,
}
use relaybaton.Router.Select.{select, get_cache, remove_cache}
use relaybaton.Router.Select.Laws.{select-IsReady}
use relaybaton.Router.Select.Reserved.{
  IsCoherent, select-IsCoherent, select-reserved, remove_cache-IsCoherent,
}
use relaybaton.Router.Update.{reopen}

module _ (geo : GeoIp) where
  open geo use {Reader}

  pub data Step (r : Router Reader) : Router Reader → Type 0 where
    selects : (ip : Ip) (b : Bool) {r' : Router Reader} → select geo r ip ≡ some (b, r') → Step r r'
    removes : (ip : Ip) → Step r (remove_cache r ip)
    starts_download : Step r (switch_off r)
    ends_download : (opened : Option Reader) → r.on ≡ false → Step r (reopen r opened).0

  pub data Reach (r : Router Reader) : Router Reader → Type 0 where
    here : Reach r r
    next : {s t : Router Reader} → Reach r s → Step s t → Reach r t

  pub record Inv (r : Router Reader) : Type 0 where
    pub ready : IsReady r
    pub coherent : IsCoherent r

  same_cache : (r s : Router Reader) → s.hash_map ≡ r.hash_map → IsCoherent r → IsCoherent s
  unfolding get_cache
  same_cache r s e v ip h = v ip (rw e at h)

  new_router-cache :
      (p m : Bool) (files : Files Reader) (r : Router Reader) (ip : Ip)
      → new_router p m files ≡ ok r
      → get_cache r ip ≡ none
  unfolding new_router get_cache Dict.get
  new_router-cache p m files r ip e = ground arith

  reopen-IsReady :
      (r : Router Reader) (opened : Option Reader) → r.on ≡ false → IsReady (reopen r opened).0
  unfolding reopen
  reopen-IsReady r none off = record { opened = λ h. cc }
  reopen-IsReady r (some db) off = record { opened = λ h. refl }

  reopen-cache :
      (r : Router Reader) (opened : Option Reader) → (reopen r opened).0.hash_map ≡ r.hash_map
  unfolding reopen
  reopen-cache r none = refl
  reopen-cache r (some db) = refl

  new_router-Inv :
      (p m : Bool) (files : Files Reader) (r : Router Reader) → new_router p m files ≡ ok r → Inv r
  new_router-Inv p m files r e = record {
    ready = new_router-IsReady p m files r e;
    coherent = λ ip h. cc (h, new_router-cache p m files r ip e);
  }

  Step-Inv : {r s : Router Reader} → Step r s → Inv r → Inv s
  Step-Inv {r} (selects ip b {r' = r'} e) v =
      let (b', r'', e', ready) = select-IsReady geo r ip v.ready in
      record {
        ready = same_ready r'' r' (ap after (sym e' ∙ e)) ready;
        coherent = select-IsCoherent geo r r' ip b v.coherent e;
      }
    where
      after : Option (Bool × Router Reader) → Router Reader
      after none = r
      after (some (_, s)) = s

      same_ready : (s t : Router Reader) → s ≡ t → IsReady s → IsReady t
      same_ready s t p w = rw p at w
  Step-Inv {r} (removes ip) v = record {
    ready = unfold remove_cache in record { opened = v.ready.opened };
    coherent = remove_cache-IsCoherent r ip v.coherent;
  }
  Step-Inv {r} starts_download v = record {
    ready = unfold switch_off in record { opened = λ h. cc };
    coherent = same_cache r (switch_off r) (unfold switch_off in refl) v.coherent;
  }
  Step-Inv {r} (ends_download opened off) v = record {
    ready = reopen-IsReady r opened off;
    coherent = same_cache r (reopen r opened).0 (reopen-cache r opened) v.coherent;
  }

  Reach-Inv : {r s : Router Reader} → Inv r → Reach r s → Inv s
  Reach-Inv v here = v
  Reach-Inv v (next h st) = Step-Inv st (Reach-Inv v h)

  -- Whatever selections, removals and downloads have happened to the router that `NewRouter`
  -- returned, `Select` does not panic, and it sends no reserved address through the proxy.
  pub Reach-select :
      (proxy_all is_mobile : Bool) (files : Files Reader) (r s : Router Reader) (ip : Ip)
      → new_router proxy_all is_mobile files ≡ ok r
      → Reach r s
      → (b : Bool) × (s' : Router Reader) × (select geo s ip ≡ some (b, s'))
        × ((is_reserved_ip ip && b) ≡ false)
  Reach-select p m files r s ip made h =
      let v = Reach-Inv (new_router-Inv p m files r made) h in
      let (b, s', e, _) = select-IsReady geo s ip v.ready in
      (b, s', e, ground (arith, select-reserved geo s s' ip b v.coherent))
