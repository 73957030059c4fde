-- ===== src/Server/Relay/Laws.antt =====
-- What the relay of pkg/core/server.go passes on, and what it charges.
use mathlib.Core.List.{append_assoc, append-nil}
use relaybaton.Common.{
  ℕ, ◌+◌, String, ◌≡◌, refl, sym, ap, ◌∙◌, ◌⊎◌, inl, inr, Bool, true, false, List, [], ◌∷◌, ◌++◌,
  arith, Bool-cases, Bytes, length, take, drop, length-append, take-append-drop, ok,
}
use relaybaton.Common.Words.{u64}
use relaybaton.Web.Rows.{User}
use relaybaton.Web.Database.{Gorm}
use relaybaton.Server.Relay.{
  Relay, Event, stops_download, stops_upload, fails_to_write, fails_to_send, downloads, uploads,
  new_relay, round, runs, step, relay, finish,
}

-- What is written is what was read, but for the end where the loop has stopped.
pub record IsFaithful (r : Relay) : Type 0 where
  pub unwritten : Bytes
  pub unsent : Bytes
  pub down : r.read ≡ r.written ++ unwritten
  pub up : r.received ≡ r.sent ++ unsent
  pub whole_down : (r.downloading ≡ false) ⊎ (unwritten ≡ [])
  pub whole_up : (r.uploading ≡ false) ⊎ (unsent ≡ [])
  pub counted : r.bandwidth ≡ u64 (length r.read + length r.received)

pub word_sum : {w : ℕ} (a n : ℕ) → w ≡ u64 n → u64 (a + w) ≡ u64 (a + n)
word_sum a n e = omega arith

lengthen :
    {w : ℕ} (m : ℕ) (xs b : Bytes)
    → w ≡ u64 (length xs + m)
    → u64 (w + length b) ≡ u64 (length (xs ++ b) + m)
lengthen m xs b e = omega (arith, length-append xs b)

lengthen_right :
    {w : ℕ} (m : ℕ) (xs b : Bytes)
    → w ≡ u64 (m + length xs)
    → u64 (w + length b) ≡ u64 (m + length (xs ++ b))
lengthen_right m xs b e = omega (arith, length-append xs b)

lose : (xs ys zs b : Bytes) → xs ≡ ys ++ zs → xs ++ b ≡ ys ++ (zs ++ b)
lose xs ys zs b e = rw e (append_assoc ys zs b)

pass : (xs ys zs b : Bytes) → xs ≡ ys ++ zs → zs ≡ [] → xs ++ b ≡ (ys ++ b) ++ []
pass xs ys zs b e whole = rw (e, whole, append-nil ys, append-nil (ys ++ b))

pass_some :
    (n : ℕ) (xs ys zs b : Bytes) → xs ≡ ys ++ zs → zs ≡ [] → xs ++ b ≡ (ys ++ take n b) ++ drop n b
pass_some n xs ys zs b e whole =
    rw (e, whole, append-nil ys)
      (ap (λ x. ys ++ x) (sym (take-append-drop n b)) ∙ sym (append_assoc ys (take n b) (drop n b)))

ended : (b : Bool) {A : Type 0} → b ≡ true → (b ≡ false) ⊎ A → A
ended b h (inl e) = cc
ended b h (inr a) = a

round-IsFaithful : (r : Relay) (e : Event) → runs r e ≡ true → IsFaithful r → IsFaithful (round r e)
unfolding round runs
round-IsFaithful r stops_download h v = record {
  unwritten = v.unwritten;
  unsent = v.unsent;
  down = v.down;
  up = v.up;
  whole_down = inl refl;
  whole_up = v.whole_up;
  counted = v.counted;
}
round-IsFaithful r stops_upload h v = record {
  unwritten = v.unwritten;
  unsent = v.unsent;
  down = v.down;
  up = v.up;
  whole_down = v.whole_down;
  whole_up = inl refl;
  counted = v.counted;
}
round-IsFaithful r (fails_to_write b) h v = record {
  unwritten = v.unwritten ++ b;
  unsent = v.unsent;
  down = lose r.read r.written v.unwritten b v.down;
  up = v.up;
  whole_down = inl refl;
  whole_up = v.whole_up;
  counted = lengthen (length r.received) r.read b v.counted;
}
round-IsFaithful r (fails_to_send n b) h v = record {
  unwritten = v.unwritten;
  unsent = drop n b;
  down = v.down;
  up = pass_some n r.received r.sent v.unsent b v.up (ended r.uploading h v.whole_up);
  whole_down = v.whole_down;
  whole_up = inl refl;
  counted = lengthen_right (length r.read) r.received b v.counted;
}
round-IsFaithful r (downloads b) h v = record {
  unwritten = [];
  unsent = v.unsent;
  down = pass r.read r.written v.unwritten b v.down (ended r.downloading h v.whole_down);
  up = v.up;
  whole_down = inr refl;
  whole_up = v.whole_up;
  counted = lengthen (length r.received) r.read b v.counted;
}
round-IsFaithful r (uploads b) h v = record {
  unwritten = v.unwritten;
  unsent = [];
  down = v.down;
  up = pass r.received r.sent v.unsent b v.up (ended r.uploading h v.whole_up);
  whole_down = v.whole_down;
  whole_up = inr refl;
  counted = lengthen_right (length r.read) r.received b v.counted;
}

pub step-IsFaithful : (r : Relay) (e : Event) → IsFaithful r → IsFaithful (step r e)
unfolding step
step-IsFaithful r e v = elim (Bool-cases (runs r e)) [
  | inl h ↦ rw h (round-IsFaithful r e h v)
  | inr h ↦ rw h v
]

relay-IsFaithful : (es : List Event) (r : Relay) → IsFaithful r → IsFaithful (relay r es)
unfolding relay
relay-IsFaithful [] r v = v
relay-IsFaithful (e ∷ es) r v = relay-IsFaithful es (step r e) (step-IsFaithful r e v)

-- However the rounds of the two relay loops are interleaved and wherever they end: what is written
-- to the client is what was read from the destination and let through by `Wait`, and what is sent
-- there is what came from the client, but for a last piece where the loop has ended; and the count
-- is the number of bytes read and received, in a word.
pub relay-new_relay : (es : List Event) → IsFaithful (relay new_relay es)
unfolding new_relay
relay-new_relay es = relay-IsFaithful es new_relay (record {
  unwritten = [];
  unsent = [];
  down = refl;
  up = refl;
  whole_down = inr refl;
  whole_up = inr refl;
  counted = refl;
})

-- At the end of a relay a user who is still in the database is charged for the bytes read and
-- received, in a word, also for those that could not be written any more.
pub finish-relay :
    (gorm : Gorm) (db : gorm.Db) (username : String) (user : User) (es : List Event)
    → gorm.user_with_plan db username ≡ ok user
    → let r = relay new_relay es in
      finish gorm db username r
      ≡ gorm.save_user db (record user {
        traffic_used = u64 (user.traffic_used + (length r.read + length r.received));
      })
unfolding finish
finish-relay gorm db username user es e = rw e (
    ap (λ n. gorm.save_user db (record user { traffic_used = n }))
      (word_sum user.traffic_used _ (relay-new_relay es).counted))
