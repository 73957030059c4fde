-- ===== src/Sockets/Segment/Stream.antt =====
-- A segmented connection carries the bytes that it is given (pkg/core/tcp_segment_conn.go).
use mathlib.Core.List.{append_assoc, append-nil}
use relaybaton.Common.{
  ◌≤◌, ◌≡◌, refl, sym, ap, ◌∙◌, inl, inr, true, false, ◌&&◌, List, [], ◌∷◌, ◌++◌, arith, ltb,
  Bool-cases, Bytes, length, take, drop, take-append-drop, concat, concat-append, &&-split,
}
use relaybaton.Config.Load.{returns}
use relaybaton.Sockets.Segment.{
  Tcp, IsWriter, SegmentConn, Wrote, tcp_write, finish, write_parts, write, write_all,
}

take-length : (b : Bytes) → take (length b) b ≡ b
take-length [] = refl
take-length (x ∷ b) = ap (λ c. x ∷ c) (take-length b)

module _ (tcp : Tcp) (writer : IsWriter tcp) where
  open tcp use {takes, succeeds, is_tls}

  tcp_write-concat :
      (conn : SegmentConn) (b : Bytes)
      → (tcp_write tcp conn b).succeeded ≡ true
      → concat (tcp_write tcp conn b).conn.segments ≡ concat conn.segments ++ b
  unfolding tcp_write
  tcp_write-concat conn b h =
      rw (writer.takes_all conn.segments b h, take-length b) (concat-append conn.segments b)

  write_parts-concat :
      (conn : SegmentConn) (b : Bytes)
      → (write_parts tcp conn b).succeeded ≡ true
      → concat (write_parts tcp conn b).conn.segments ≡ concat conn.segments ++ b
  unfolding write_parts finish
  write_parts-concat conn b h = elim (Bool-cases (tcp_write tcp conn (take 2 b)).succeeded) [
    | inr failed ↦ cc (rw (failed) at h)
    | inl first ↦
        elim (Bool-cases
          (tcp_write tcp (tcp_write tcp conn (take 2 b)).conn (drop 2 b)).succeeded) [
            | inr failed ↦ cc (rw (first, failed) at h)
            | inl second ↦
                rw
                  (
                    first,
                    second,
                    tcp_write-concat (tcp_write tcp conn (take 2 b)).conn (drop 2 b) second,
                    tcp_write-concat conn (take 2 b) first,
                    append_assoc (concat conn.segments) (take 2 b) (drop 2 b),
                    take-append-drop 2 b,
                  )
                  refl
          ]
  ]

  write-concat :
      (conn : SegmentConn) (b : Bytes)
      → (is_tls b ≡ true → 2 ≤ length b)
      → (w : Wrote) × (write tcp conn b ≡ returns w)
        × (w.succeeded ≡ true → concat w.conn.segments ≡ concat conn.segments ++ b)
  unfolding write
  write-concat conn b long = elim (Bool-cases (conn.segment_on && is_tls b)) [
    | inr whole ↦ (tcp_write tcp conn b, rw (whole) refl, tcp_write-concat conn b)
    | inl split ↦
        let at_least = long (&&-split conn.segment_on (is_tls b) split).1 in
        let enough : ltb (length b) 2 ≡ false = ground arith in
        (write_parts tcp conn b, rw (split, enough) refl, write_parts-concat conn b)
  ]

  -- A segmented connection is a stream of bytes: if the TCP connection keeps the contract of
  -- `io.Writer` and what gopacket takes for a TLS record has at least two bytes, then a caller that
  -- writes some pieces does not panic, and if it meets no error, then the segments that were sent make
  -- the pieces one after the other.
  pub write_all-concat :
      (conn : SegmentConn) (bs : List Bytes)
      → ((b : Bytes) → is_tls b ≡ true → 2 ≤ length b)
      → (w : Wrote) × (write_all tcp conn bs ≡ returns w)
        × (w.succeeded ≡ true → concat w.conn.segments ≡ concat conn.segments ++ concat bs)
  unfolding write_all
  write_all-concat conn [] long = (_, refl, λ h. sym (append-nil (concat conn.segments)))
  write_all-concat conn (b ∷ bs) long =
      let (w, e, c) = write-concat conn b (long b) in
      elim (Bool-cases w.succeeded) [
        | inr failed ↦ (w, rw (e, failed) refl, λ h. cc)
        | inl done ↦
            let (v, e', c') = write_all-concat w.conn bs long in
            (
              v,
              rw (e, done, e') refl,
              λ h. c' h ∙ rw (c done) (append_assoc (concat conn.segments) b (concat bs)),
            )
      ]
