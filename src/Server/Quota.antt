-- ===== src/Server/Quota.antt =====
-- A user's traffic: the account at the end of a relay and the check at the start of the next one
-- (pkg/core/server.go).
use mathlib.Core.Path.{subst}
use relaybaton.Common.{
  ℕ, ◌+◌, ◌^◌, ◌≤◌, ◌<◌, String, ◌≡◌, sym, ap, ◌∙◌, ◌⊎◌, inl, inr, true, false, some, List, arith,
  Bool-cases, length, ◌==◌, same_nat, same_string, same_bytes, ok, some_injective, ok_injective,
}
use relaybaton.Common.Words.{u64}
use relaybaton.Web.Rows.{User}
use relaybaton.Web.Database.{Gorm, Crypto}
use relaybaton.Server.Authenticate.{
  Headers, authenticate, IsAuthorised, administrator, registered, authenticate-IsAuthorised,
}
use relaybaton.Server.Relay.{Event, new_relay, relay, finish}
use relaybaton.Server.Relay.Laws.{finish-relay}

-- A user who is saved is found by the name afterwards, as saved.
abbrev pub FindsSaved : Gorm → Type 0
FindsSaved gorm =
    (db : gorm.Db) (u : User) → gorm.user_with_plan (gorm.save_user db u) u.username ≡ ok u

module _ (gorm : Gorm) (crypto : Crypto) where
  open gorm use {Db, user_with_plan}

  spent-refused :
      (db : Db) (headers : Headers) (username : String) (user : User)
      → headers.username ≡ some username
      → (username == "admin") ≡ false
      → user_with_plan db username ≡ ok user
      → user.plan.traffic_limit ≤ user.traffic_used
      → ¬ IsAuthorised gorm crypto db headers
  spent-refused db headers username user names other found spent (administrator n f p) =
      cc ((same_string.same_iff username "admin").1 (some_injective (sym names ∙ n)))
  spent-refused db headers username user names other found spent
        (registered {username = n} {user = u} m o f left p d l c k) =
      let same : u ≡ user =
        ok_injective (sym f ∙ ap (user_with_plan db) (some_injective (sym m ∙ names)) ∙ found) in
      let left_too = subst (λ (x : User). x.traffic_used < x.plan.traffic_limit) same left in
      omega (arith, left_too, spent)

  -- Traffic that is used up ends a user's access: if a relay of a user other than the administrator
  -- has read and received so many bytes that, with those charged before, the limit of the plan is
  -- reached, and the sum fits into a word, then after it no request under that name is authenticated;
  -- provided that a user who is saved is found by the name.
  pub finish-authenticate :
      (db : Db) (headers : Headers) (username : String) (user : User) (es : List Event)
      → FindsSaved gorm
      → user_with_plan db username ≡ ok user
      → user.username ≡ username
      → (username == "admin") ≡ false
      → headers.username ≡ some username
      → user.plan.traffic_limit
        ≤ user.traffic_used
          + (length (relay new_relay es).read + length (relay new_relay es).received)
      → user.traffic_used
          + (length (relay new_relay es).read + length (relay new_relay es).received)
        < 2 ^ 64
      → authenticate gorm crypto (finish gorm db username (relay new_relay es)) headers ≡ false
  finish-authenticate db headers username user es keeps found named other names spent fits =
      rw (finish-relay gorm db username user es found)
        (refused (Bool-cases (authenticate gorm crypto (gorm.save_user db saved) headers)))
    where
      total : ℕ
      total =
          user.traffic_used
          + (length (relay new_relay es).read + length (relay new_relay es).received)

      saved : User
      saved = record user { traffic_used = u64 total }

      refused :
          (authenticate gorm crypto (gorm.save_user db saved) headers ≡ true)
            ⊎ (authenticate gorm crypto (gorm.save_user db saved) headers ≡ false)
          → authenticate gorm crypto (gorm.save_user db saved) headers ≡ false
      refused (inr refuses) = refuses
      refused (inl h) = absurd (
          spent-refused (gorm.save_user db saved) headers username saved names other
            (subst (λ (n : String). user_with_plan (gorm.save_user db saved) n ≡ ok saved) named
              (keeps db saved))
            (omega (arith, spent, fits))
            (authenticate-IsAuthorised gorm crypto (gorm.save_user db saved) headers h))
