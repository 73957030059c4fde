-- ===== src/Server/Overlap.antt =====
-- `Server.GetBucket` of pkg/core/server.go, called for one user by several relays at the same time.
-- The look-up and the `Put` are two critical sections, and nothing looks again in the second.
use relaybaton.Common.{
  get_elem?-append, get_elem?-lt, get_elem?-length, get_elem?, ℕ, ◌/◌, ◌<◌, String, ◌≡◌, refl, ap,
  ◌∙◌, false, Option, none, some, List, [], ◌∷◌, ◌++◌, arith, length, All, ◌==◌, same_nat,
  same_string, same_bytes, eq_self, Result, ok, err,
}
use relaybaton.Common.Dict
use relaybaton.Common.Dict.{Dict}
use relaybaton.RateLimiter.{new_rate_limiter, RateLimiter}
use relaybaton.Server.Buckets.{get_bucket, make_bucket, make_if_found, Buckets, place_or_make}
use relaybaton.Web.Rows.{User}
use relaybaton.Web.Database.{Gorm}

-- The calls are numbered: what each has looked up in the map, and what it has given.
pub record Calls : Type 0 where
  pub buckets : Buckets
  pub looked : Dict ℕ (Option ℕ)
  pub given : Dict ℕ (Result String ℕ)

pub data CallStep : Type 0 where
  looks gives : ℕ → CallStep

-- What `getUser` gives to each of the calls, which are all for one user.
module _ (username : String) (users : ℕ → Result String User) where
  give : Calls → ℕ → Option (Option ℕ) → Calls
  unfolding place_or_make
  give c k none = c
  give c k (some place) =
      let (r, m) = place_or_make c.buckets username place (users k) in
      record c { buckets = m; given = Dict.put k r c.given }

  call : Calls → CallStep → Calls
  unfolding give
  call c (looks k) = record c { looked = Dict.put k (Dict.get username c.buckets.places) c.looked }
  call c (gives k) = give c k (Dict.get k c.looked)

  pub calls : Calls → List CallStep → Calls
  unfolding call
  calls c [] = c
  calls c (s ∷ ss) = calls (call c s) ss

  calls-append : (c : Calls) (ss ss' : List CallStep) → calls c (ss ++ ss') ≡ calls (calls c ss) ss'
  unfolding calls
  calls-append c [] ss' = refl
  calls-append c (s ∷ ss) ss' = calls-append (call c s) ss ss'

  -- No limiter is lost.
  record Extends (m m' : Buckets) : Type 0 where
    kept :
        (place : ℕ) (rl : RateLimiter)
        → get_elem? m.limiters place ≡ some rl
        → get_elem? m'.limiters place ≡ some rl

  Extends-refl : (m : Buckets) → Extends m m
  Extends-refl m = record { kept = λ place rl e. e }

  place_or_make-Extends :
      (m : Buckets) (place : Option ℕ) (user : Result String User)
      → Extends m (place_or_make m username place user).1
  unfolding place_or_make make_if_found make_bucket
  place_or_make-Extends m (some place) user = Extends-refl m
  place_or_make-Extends m none (err e) = Extends-refl m
  place_or_make-Extends m none (ok user) =
      let rl = new_rate_limiter (user.plan.bandwidth_limit / 2) in
      record { kept = λ place l. get_elem?-append m.limiters (rl ∷ []) place }

  -- What a step of another call keeps.
  record Keeps (k : ℕ) (c c' : Calls) : Type 0 where
    extends : Extends c.buckets c'.buckets
    looked : Dict.get k c'.looked ≡ Dict.get k c.looked
    given : Dict.get k c'.given ≡ Dict.get k c.given

  Keeps-refl : (k : ℕ) (c : Calls) → Keeps k c c
  Keeps-refl k c = record { extends = Extends-refl c.buckets; looked = refl; given = refl }

  Keeps-trans : {k : ℕ} {c c' c'' : Calls} → Keeps k c c' → Keeps k c' c'' → Keeps k c c''
  Keeps-trans v w = record {
    extends = record { kept = λ place rl e. w.extends.kept place rl (v.extends.kept place rl e) };
    looked = w.looked ∙ v.looked;
    given = w.given ∙ v.given;
  }

  abbrev pub Other : ℕ → CallStep → Type 0
  Other k (looks j) = (j == k) ≡ false
  Other k (gives j) = (j == k) ≡ false

  give-Keeps :
      (k j : ℕ) (c : Calls) (place : Option (Option ℕ))
      → (j == k) ≡ false
      → Keeps k c (give c j place)
  unfolding give
  give-Keeps k j c none o = Keeps-refl k c
  give-Keeps k j c (some place) o = record {
    extends = place_or_make-Extends c.buckets place (users j);
    looked = refl;
    given =
        Dict.get-put j k (place_or_make c.buckets username place (users j)).0 c.given ∙ rw (o) refl;
  }

  call-Keeps : (k : ℕ) (c : Calls) (s : CallStep) → Other k s → Keeps k c (call c s)
  unfolding call
  call-Keeps k c (looks j) o = record {
    extends = Extends-refl c.buckets;
    looked = Dict.get-put j k (Dict.get username c.buckets.places) c.looked ∙ rw (o) refl;
    given = refl;
  }
  call-Keeps k c (gives j) o = give-Keeps k j c (Dict.get j c.looked) o

  calls-Keeps : (k : ℕ) (c : Calls) (ss : List CallStep) → All (Other k) ss → Keeps k c (calls c ss)
  unfolding calls
  calls-Keeps k c [] os = Keeps-refl k c
  calls-Keeps k c (s ∷ ss) (o, os) =
      Keeps-trans (call-Keeps k c s o) (calls-Keeps k (call c s) ss os)

  -- A call has given this limiter.
  abbrev pub Has : Calls → ℕ → ℕ → RateLimiter → Type 0
  Has c k place rl =
      (Dict.get k c.given ≡ some (ok place)) × (get_elem? c.buckets.limiters place ≡ some rl)

  Keeps-Has :
      {c c' : Calls} {k : ℕ} (place : ℕ) (rl : RateLimiter)
      → Keeps k c c'
      → Has c k place rl
      → Has c' k place rl
  Keeps-Has place rl v (g, l) = (v.given ∙ g, v.extends.kept place rl l)

  -- A call that has found no limiter makes one, whatever others have put in the map by now.
  gives-Has :
      (c : Calls) (k : ℕ) (user : User)
      → users k ≡ ok user
      → Dict.get k c.looked ≡ some none
      → Has
          (call c (gives k))
          k
          (length c.buckets.limiters)
          (new_rate_limiter (user.plan.bandwidth_limit / 2))
  unfolding call give place_or_make make_if_found make_bucket
  gives-Has c k user u e =
      let rl = new_rate_limiter (user.plan.bandwidth_limit / 2) in
      rw (e, u)
        (
          Dict.get-put k k (ok (length c.buckets.limiters)) c.given ∙ rw (eq_self k) refl,
          get_elem?-length c.buckets.limiters rl,
        )

  pub start_calls : Buckets → Calls
  start_calls m = record { buckets = m; looked = []; given = [] }

  -- A call that nothing interrupts is `GetBucket`.
  looks-gives :
      (gorm : Gorm) (db : gorm.Db) (m : Buckets) (k : ℕ)
      → users k ≡ gorm.user_with_plan db username
      → (calls (start_calls m) (looks k ∷ gives k ∷ [])).buckets ≡ (get_bucket gorm db m username).1
  unfolding calls call give get_bucket start_calls
  looks-gives gorm db m k e =
      rw (Dict.get-put k k (Dict.get username m.places) [], eq_self k, e) refl

  -- After the first of two calls that have both found no limiter has given one.
  first_given :
      (c : Calls) (j k : ℕ) (a b : User) (ss : List CallStep)
      → users j ≡ ok a
      → users k ≡ ok b
      → Dict.get j c.looked ≡ some none
      → Dict.get k c.looked ≡ some none
      → (j == k) ≡ false
      → (k == j) ≡ false
      → All (Other j) ss
      → All (Other k) ss
      → let c' = calls (call c (gives j)) ss in
        let q = length c'.buckets.limiters in
        (p : ℕ) × Has (call c' (gives k)) j p (new_rate_limiter (a.plan.bandwidth_limit / 2))
        × Has (call c' (gives k)) k q (new_rate_limiter (b.plan.bandwidth_limit / 2))
        × (p < q)
  first_given c j k a b ss ua ub lj lk jk kj oj rest =
      let rl = new_rate_limiter (a.plan.bandwidth_limit / 2) in
      let p = length c.buckets.limiters in
      let c1 = call c (gives j) in
      let c2 = calls c1 ss in
      let has = Keeps-Has p rl (calls-Keeps j c1 ss oj) (gives-Has c j a ua lj) in
      let found_none = Keeps-trans (call-Keeps k c (gives j) jk) (calls-Keeps k c1 ss rest) in
      (
        p,
        Keeps-Has p rl (call-Keeps j c2 (gives k) kj) has,
        gives-Has c2 k b ub (found_none.looked ∙ lk),
        get_elem?-lt c2.buckets.limiters p has.1,
      )

  -- Two calls for one user, of which the second looks up the user's limiter before the first has put
  -- one into the map, give two limiters, each with the half of the plan's bandwidth limit as its
  -- bandwidth, whatever other calls do in between.
  pub calls-overlap :
      (m : Buckets) (j k : ℕ) (a b : User) (ss : List CallStep)
      → Dict.get username m.places ≡ none
      → users j ≡ ok a
      → users k ≡ ok b
      → (j == k) ≡ false
      → All (Other j) ss
      → All (Other k) ss
      → let c = calls (start_calls m) (looks j ∷ looks k ∷ gives j ∷ ss ++ gives k ∷ []) in
        (p : ℕ) × (q : ℕ) × Has c j p (new_rate_limiter (a.plan.bandwidth_limit / 2))
        × Has c k q (new_rate_limiter (b.plan.bandwidth_limit / 2))
        × (p < q)
  unfolding calls call start_calls
  calls-overlap m j k a b ss free ua ub jk oj others =
      let c = call (call (start_calls m) (looks j)) (looks k) in
      let kj : (k == j) ≡ false = ground arith in
      let here = Dict.get username m.places in
      let lj : Dict.get j c.looked ≡ some none =
        rw (Dict.get-put k j here (Dict.put j here []), kj, Dict.get-put j j here [], eq_self j)
          (ap some free) in
      let lk : Dict.get k c.looked ≡ some none =
        rw (Dict.get-put k k here (Dict.put j here []), eq_self k) (ap some free) in
      let (p, has_j, has_k, less) = first_given c j k a b ss ua ub lj lk jk kj oj others in
      rw (calls-append (call c (gives j)) ss (gives k ∷ [])) (p, _, has_j, has_k, less)
