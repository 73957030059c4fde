-- ===== src/Server/Charging.antt =====
-- The deferred function at the end of a relay, where several relays of one user end at the same time:
-- pkg/core/server.go. It loads the user and saves the row again, and nothing keeps others from
-- writing in between.
use relaybaton.Common.{
  ℕ, ◌+◌, ◌^◌, ◌<◌, String, ◌≡◌, refl, sym, ap, ◌∙◌, false, Option, none, some, List, [], ◌∷◌, ◌++◌,
  map, arith, length, All, sum, ◌==◌, same_nat, same_string, same_bytes, eq_self, Result, ok,
}
use relaybaton.Common.Dict.{Dict, get, put, get-put}
use mathlib.Core.Path.{subst}
use relaybaton.Common.Words.{u64}
use relaybaton.Web.Rows.{User, Plan}
use relaybaton.Web.Database.{Gorm}
use relaybaton.Server.Relay.{Event, Relay, new_relay, relay, charge, finish}
use relaybaton.Server.Relay.Laws.{relay-new_relay, word_sum}
use relaybaton.Server.Quota.{FindsSaved}

-- `Save` writes every column of a user whose row is there, and leaves the row of the plan as it is;
-- the user is then found with the plan that the row names.
abbrev pub SavesColumns : Gorm → Type 0
SavesColumns gorm =
    (db : gorm.Db) (now user : User) (plan : Plan)
    → gorm.user_with_plan db user.username ≡ ok now
    → now.id ≡ user.id
    → user.plan.id ≡ user.plan_id
    → gorm.first_plan db user.plan_id ≡ ok plan
    → gorm.user_with_plan (gorm.save_user db user) user.username ≡ ok (record user { plan = plan })

-- The rounds of each of the relays are given.
module _ (gorm : Gorm) (username : String) (rounds : ℕ → List Event) where
  open gorm use {Db, user_with_plan}

  abbrev ended : ℕ → Relay
  ended k = relay new_relay (rounds k)

  -- The bytes that a relay has read and received.
  abbrev pub bytes : ℕ → ℕ
  bytes k = length (ended k).read + length (ended k).received

  -- The database, and what each relay has loaded.
  pub record Accounts : Type 0 where
    pub db : Db
    pub loaded : Dict ℕ (Result String User)

  -- A relay loads the user, or saves what it has loaded, charged with its bytes; or something else
  -- writes to the database.
  pub data Turn : Type 0 where
    loads saves : ℕ → Turn
    writes : (Db → Db) → Turn

  unfoldable pub save_loaded : Accounts → ℕ → Option (Result String User) → Accounts
  save_loaded a k none = a
  save_loaded a k (some user) = record a { db = charge gorm a.db (ended k).bandwidth user }

  unfoldable pub turn : Accounts → Turn → Accounts
  unfolding save_loaded
  turn a (loads k) = record a { loaded = put k (user_with_plan a.db username) a.loaded }
  turn a (saves k) = save_loaded a k (get k a.loaded)
  turn a (writes f) = record a { db = f a.db }

  unfoldable pub turns : Accounts → List Turn → Accounts
  unfolding turn
  turns a [] = a
  turns a (t ∷ ts) = turns (turn a t) ts

  unfoldable pub start : Db → Accounts
  start db = record { db = db; loaded = [] }

  -- The relays end one after the other.
  pub serial : List ℕ → List Turn
  serial [] = []
  serial (k ∷ ks) = loads k ∷ saves k ∷ serial ks

  -- A turn of others: not the loading of this relay.
  abbrev pub Other : ℕ → Turn → Type 0
  Other j (loads k) = (k == j) ≡ false
  Other j (saves k) = Unit
  Other j (writes f) = Unit

  get-turn :
      (j : ℕ) (a : Accounts) (t : Turn) → Other j t → get j (turn a t).loaded ≡ get j a.loaded
  unfolding turn
  get-turn j a (loads k) o = rw (get-put k j (user_with_plan a.db username) a.loaded, o) refl
  get-turn j a (saves k) o = ap (get j) (loaded_kept (get k a.loaded))
    where
      loaded_kept : (o : Option (Result String User)) → (save_loaded a k o).loaded ≡ a.loaded
      loaded_kept none = refl
      loaded_kept (some user) = refl
  get-turn j a (writes f) o = refl

  get-turns :
      (j : ℕ) (a : Accounts) (ts : List Turn)
      → All (Other j) ts
      → get j (turns a ts).loaded ≡ get j a.loaded
  unfolding turns
  get-turns j a [] os = refl
  get-turns j a (t ∷ ts) (o, os) = get-turns j (turn a t) ts os ∙ get-turn j a t o

  turns-append :
      (a : Accounts) (ts : List Turn) (t : Turn) → turns a (ts ++ t ∷ []) ≡ turn (turns a ts) t
  unfolding turns
  turns-append a [] t = refl
  turns-append a (x ∷ ts) t = turns-append (turn a x) ts t

  -- Where nothing comes in between, this is what `finish` does.
  loads-saves :
      (db : Db) (k : ℕ)
      → (turns (start db) (loads k ∷ saves k ∷ [])).db ≡ finish gorm db username (ended k)
  unfolding turns turn start finish
  loads-saves db k = rw (get-put k k (user_with_plan db username) [], eq_self k, save_loaded) refl

  -- What a relay saves at its end is the row that it has loaded, charged with its own bytes alone:
  -- whatever other relays have charged to the user in between, and whatever else has been written to
  -- the user's row, is undone, but for the plan, which is then the one that the row names, as it
  -- stands in the database by then; as long as the user's row is still there under its name, and
  -- provided that gorm saves the columns of a row and leaves the plans as they are.
  pub saves-overwrites :
      (db : Db) (user now : User) (plan : Plan) (j : ℕ) (ts : List Turn)
      → SavesColumns gorm
      → user_with_plan db username ≡ ok user
      → user.username ≡ username
      → user.plan.id ≡ user.plan_id
      → All (Other j) ts
      → user_with_plan (turns (start db) (loads j ∷ ts)).db username ≡ ok now
      → now.id ≡ user.id
      → gorm.first_plan (turns (start db) (loads j ∷ ts)).db user.plan_id ≡ ok plan
      → user_with_plan (turns (start db) (loads j ∷ ts ++ saves j ∷ [])).db username
        ≡ ok (record user { traffic_used = u64 (user.traffic_used + bytes j); plan = plan })
  unfolding turns turn start save_loaded charge
  saves-overwrites db user now plan j ts saved_as found named belongs os still same stands =
      let first = turn (start db) (loads j) in
      let then_loaded : get j (turns first ts).loaded ≡ some (ok user) =
        get-turns j first ts os
        ∙ get-put j j (user_with_plan db username) []
        ∙ rw (eq_self j, found) refl in
      let charged = record user { traffic_used = u64 (user.traffic_used + (ended j).bandwidth) } in
      let there = ap (λ n. user_with_plan (turns first ts).db n) named ∙ still in
      rw (turns-append first ts (saves j), turn, then_loaded)
        (ap (user_with_plan (gorm.save_user (turns first ts).db charged)) (sym named)
          ∙ saved_as (turns first ts).db now charged plan there same belongs stands
          ∙ ap (λ n. ok (record user { traffic_used = n; plan = plan }))
              (word_sum user.traffic_used _ (relay-new_relay (rounds j)).counted))

  module _ (keeps : FindsSaved gorm) where
    found-saved :
        (db : Db) (user : User) (k : ℕ)
        → user.username ≡ username
        → user_with_plan (charge gorm db (ended k).bandwidth (ok user)) username
          ≡ ok (record user { traffic_used = u64 (user.traffic_used + bytes k) })
    unfolding charge
    found-saved db user k named =
        let saved = record user { traffic_used = u64 (user.traffic_used + (ended k).bandwidth) } in
        subst (λ (n : String). user_with_plan (gorm.save_user db saved) n ≡ ok saved) named
          (keeps db saved)
        ∙ ap (λ n. ok (record user { traffic_used = n }))
            (word_sum user.traffic_used _ (relay-new_relay (rounds k)).counted)

    word_of : (n : ℕ) → n < 2 ^ 64 → n ≡ u64 (n + 0)
    word_of n h = omega arith

    word_sums : (n b c : ℕ) → u64 (u64 (n + b) + c) ≡ u64 (n + (b + c))
    word_sums n b c = omega arith

    load_save :
        (a : Accounts) (k : ℕ) (user : User)
        → user_with_plan a.db username ≡ ok user
        → turn (turn a (loads k)) (saves k) ≡ record {
          db = charge gorm a.db (ended k).bandwidth (ok user);
          loaded = put k (ok user) a.loaded;
        }
    unfolding turn
    load_save a k user found =
        let made : Result String User → Accounts = λ u. record {
          db = charge gorm a.db (ended k).bandwidth (ok user);
          loaded = put k u a.loaded;
        } in
        rw (found, get-put k k (ok user) a.loaded, eq_self k, save_loaded) (ap made found)

    serial-found :
        (ks : List ℕ) (a : Accounts) (user : User)
        → user_with_plan a.db username ≡ ok user
        → user.username ≡ username
        → user.traffic_used < 2 ^ 64
        → user_with_plan (turns a (serial ks)).db username
          ≡ ok (record user { traffic_used = u64 (user.traffic_used + sum (map bytes ks)) })
    unfolding turns serial
    serial-found [] a user found named small =
        found ∙ ap (λ n. ok (record user { traffic_used = n })) (word_of user.traffic_used small)
    serial-found (k ∷ ks) a user found named small =
        let charged = record user { traffic_used = u64 (user.traffic_used + bytes k) } in
        let after : Accounts = record {
          db = charge gorm a.db (ended k).bandwidth (ok user);
          loaded = put k (ok user) a.loaded;
        } in
        ap (λ (x : Accounts). user_with_plan (turns x (serial ks)).db username)
          (load_save a k user found)
        ∙ serial-found ks after charged (found-saved a.db user k named) named (omega arith)
        ∙ ap (λ n. ok (record user { traffic_used = n }))
            (word_sums user.traffic_used (bytes k) (sum (map bytes ks)))

    -- Relays that end one after the other are all charged: the user has then used what was used
    -- before, and the bytes of each of the relays, in a word; provided that a user who is saved is
    -- found by the name.
    pub serial-charges :
        (ks : List ℕ) (db : Db) (user : User)
        → user_with_plan db username ≡ ok user
        → user.username ≡ username
        → user.traffic_used < 2 ^ 64
        → user_with_plan (turns (start db) (serial ks)).db username
          ≡ ok (record user { traffic_used = u64 (user.traffic_used + sum (map bytes ks)) })
    unfolding start
    serial-charges ks db user = serial-found ks (start db) user
