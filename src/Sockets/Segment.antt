-- ===== src/Sockets/Segment.antt =====
-- `TCPSegmentConn` of pkg/core/tcp_segment_conn.go. How much the TCP connection takes of a write, after
-- the segments that it has taken, and whether gopacket finds a TLS record are parameters.
pub mod Stream
use relaybaton.Common.{
  ℕ, ◌≤◌, ◌≡◌, Bool, true, false, ◌&&◌, List, [], ◌∷◌, ◌++◌, ltb, if◌then◌else◌, Bytes, length,
  take, drop, concat,
}
use relaybaton.Config.Load.{Call, panics, returns}

-- The number of bytes that were taken, and whether there is no error.
pub record Tcp : Type 0 where
  pub takes : List Bytes → Bytes → ℕ
  pub succeeds : List Bytes → Bytes → Bool
  pub is_tls : Bytes → Bool

-- What `io.Writer` promises.
pub record IsWriter (tcp : Tcp) : Type 0 where
  pub takes_at_most : (sent : List Bytes) (b : Bytes) → tcp.takes sent b ≤ length b
  pub takes_all :
      (sent : List Bytes) (b : Bytes) → tcp.succeeds sent b ≡ true → tcp.takes sent b ≡ length b

pub record SegmentConn : Type 0 where
  pub segment_on : Bool
  pub segments : List Bytes

-- What `Write` returns, and the connection afterwards.
pub record Wrote : Type 0 where
  pub conn : SegmentConn
  pub count : ℕ
  pub succeeded : Bool

module _ (tcp : Tcp) where
  open tcp use {takes, succeeds, is_tls}

  tcp_write : SegmentConn → Bytes → Wrote
  tcp_write conn b = record {
    conn = record conn { segments = conn.segments ++ take (takes conn.segments b) b ∷ [] };
    count = takes conn.segments b;
    succeeded = succeeds conn.segments b;
  }

  -- After the second part.
  finish : Bytes → Wrote → Wrote
  finish b w =
      if w.succeeded
      then record {
        conn = record w.conn { segment_on = false };
        count = length b;
        succeeded = true;
      }
      else w

  write_parts : SegmentConn → Bytes → Wrote
  unfolding tcp_write finish
  write_parts conn b =
      let first = tcp_write conn (take 2 b) in
      if first.succeeded then finish b (tcp_write first.conn (drop 2 b)) else first

  -- Slicing past the end panics.
  pub write : SegmentConn → Bytes → Call Wrote
  unfolding tcp_write write_parts
  write conn b =
      if conn.segment_on && is_tls b
      then if ltb (length b) 2 then panics else returns (write_parts conn b)
      else returns (tcp_write conn b)

  -- A caller that writes one piece after the other until there is an error.
  pub write_all : SegmentConn → List Bytes → Call Wrote
  unfolding write
  write_all conn [] = returns (record { conn = conn; count = 0; succeeded = true })
  write_all conn (b ∷ bs) = next (write conn b) (λ c. write_all c bs)
    where
      next : Call Wrote → (SegmentConn → Call Wrote) → Call Wrote
      next panics rest = panics
      next (returns w) rest = if w.succeeded then rest w.conn else returns w
