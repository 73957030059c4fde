-- ===== src/Client/React/Laws/Stored.antt =====
-- What the parts of `Client.React` of pkg/core/client.go put into the map of the connections.
use relaybaton.Common.{
  ℕ, ◌≤◌, ◌≡◌, refl, ap, inl, inr, Bool, true, false, ◌||◌, none, some, [], arith, Bool-cases,
  Option-cases, Bytes, Result-cases,
}
use relaybaton.Socks5.Codes.{rep_succeeded}
use relaybaton.Socks5.Method.{new_method_request_from}
use relaybaton.Common.Decimal.{atoi, byte_of}
use relaybaton.Client.Conn.{
  Conn, TcpAddr, put_conn, status_opened, status_method_accepted, status_accepted,
}
use relaybaton.Client.React.{
  Client, Network, Reaction, Effect, Dialed, not_tried, not_dialed, unusable, dialed, react_opened,
  after_dial, after_dial_ws, reply_code, accept, forward, closes, store, submits_run,
  submits_direct_connect, offers_no_auth,
}

pub record IsSound (conn : Conn) : Type 0 where
  pub known : conn.status ≤ 2
  pub fresh :
      conn.status ≡ status_opened
      → (conn.dst_addr ≡ none) × (conn.remote_conn ≡ false) × (conn.tcp_conn ≡ false)
  pub ready :
      conn.status ≡ status_accepted
      → ((addr : TcpAddr) × (conn.dst_addr ≡ some addr))
        × ((conn.remote_conn || conn.tcp_conn) ≡ true)

-- A connection whose method has been accepted.
pending-IsSound : (conn : Conn) → conn.status ≡ status_method_accepted → IsSound conn
pending-IsSound conn e = record {
  known = omega (arith, e);
  fresh = λ h. absurd (omega (arith, e, h));
  ready = λ h. absurd (omega (arith, e, h));
}

-- What a reaction to a frame does to the map: nothing, or it puts the connection again.
pub data Stores {Reader : Type 0} (c : Client Reader) (conn : Conn) (r : Reaction Reader)
    : Type 0 where
  leaves : r.client.conns ≡ c.conns → Stores c conn r
  puts :
      (conn' : Conn)
      → r.client.conns ≡ put_conn c.conns conn'
      → conn'.key ≡ conn.key
      → IsSound conn'
      → Stores c conn r

module _ {Reader : Type 0} where
  -- `conn` is the connection that stands in the map, `conn'` what the call has made of it.
  accept-Stores :
      (c c' : Client Reader) (net : Network) (conn conn' : Conn) (rep : ℕ) (copying : Effect)
      → c'.conns ≡ c.conns
      → conn'.key ≡ conn.key
      → conn'.status ≡ status_method_accepted
      → ((addr : TcpAddr) × (conn'.dst_addr ≡ some addr))
      → (conn'.remote_conn || conn'.tcp_conn) ≡ true
      → Stores c conn (accept c' net conn' rep copying)
  unfolding accept
  accept-Stores c c' net conn conn' rep copying same key pending to socket =
      elim (Bool-cases net.submit) [
        | inl h ↦
            let made = record conn' { status = status_accepted } in
            rw h (
              puts made (ap (λ m. put_conn m made) same) key (record {
                known = omega arith;
                fresh = λ e. absurd (omega (arith, e));
                ready = λ e. (to, socket);
              }))
        | inr h ↦
            rw h (puts conn' (ap (λ m. put_conn m conn') same) key (pending-IsSound conn' pending))
      ]

  -- A call that has failed puts the connection again, with the status as before.
  pub fails-Stores :
      (c c' : Client Reader) (out : Bytes) (conn conn' : Conn)
      → c'.conns ≡ c.conns
      → conn'.key ≡ conn.key
      → conn'.status ≡ status_method_accepted
      → Stores c conn (closes out (store c' conn'))
  fails-Stores c c' out conn conn' same key pending =
      puts conn' (ap (λ m. put_conn m conn') same) key (pending-IsSound conn' pending)

  pub after_dial_ws-Stores :
      (c c' : Client Reader) (net : Network) (conn conn' : Conn) (d : Dialed)
      → c'.conns ≡ c.conns
      → conn'.key ≡ conn.key
      → conn'.status ≡ status_method_accepted
      → ((addr : TcpAddr) × (conn'.dst_addr ≡ some addr))
      → Stores c conn (after_dial_ws c' net conn' d)
  unfolding after_dial_ws reply_code
  after_dial_ws-Stores c c' net conn conn' not_tried same key pending to =
      fails-Stores c c' [] conn conn' same key pending
  after_dial_ws-Stores c c' net conn conn' not_dialed same key pending to =
      fails-Stores c c' [] conn (record conn' { remote_conn = false }) same key pending
  after_dial_ws-Stores c c' net conn conn' unusable same key pending to =
      fails-Stores c c' [] conn (record conn' { remote_conn = true }) same key pending
  after_dial_ws-Stores c c' net conn conn' (dialed reply) same key pending to =
      let made = record conn' { remote_conn = true } in
      elim (Option-cases (atoi reply)) [
        | inl e ↦ rw e (fails-Stores c c' [] conn made same key pending)
        | inr (code, e) ↦
            rw e
              (accept-Stores c c' net conn made (byte_of code) submits_run same key pending to refl)
      ]

  pub after_dial-Stores :
      (c c' : Client Reader) (net : Network) (conn conn' : Conn) (b : Bool)
      → c'.conns ≡ c.conns
      → conn'.key ≡ conn.key
      → conn'.status ≡ status_method_accepted
      → ((addr : TcpAddr) × (conn'.dst_addr ≡ some addr))
      → Stores c conn (after_dial c' net conn' b)
  unfolding after_dial
  after_dial-Stores c c' net conn conn' false same key pending to =
      fails-Stores c c' [] conn (record conn' { tcp_conn = false }) same key pending
  after_dial-Stores c c' net conn conn' true same key pending to =
      let made = record conn' { tcp_conn = true } in
      accept-Stores c c' net conn made rep_succeeded submits_direct_connect same key pending to
        (or_true conn'.remote_conn)
    where
      or_true : (b : Bool) → (b || true) ≡ true
      or_true true = refl
      or_true false = refl

  pub react_opened-Stores :
      (c : Client Reader) (conn : Conn) (frame : Bytes) → Stores c conn (react_opened c conn frame)
  unfolding react_opened
  react_opened-Stores c conn frame = elim (Result-cases (new_method_request_from frame)) [
    | inr (e, f) ↦ rw (react_opened, f) (leaves refl)
    | inl (mr, f) ↦ elim (Bool-cases (offers_no_auth mr)) [
      | inl h ↦
          let conn' = record conn { status = status_method_accepted } in
          rw (react_opened, f, h) (puts conn' refl refl (pending-IsSound conn' refl))
      | inr h ↦ rw (react_opened, f, h) (leaves refl)
    ]
  ]

  pub forward-conns :
      (c : Client Reader) (net : Network) (conn : Conn) (frame : Bytes) (b : Bool)
      (r : Reaction Reader)
      → forward c net conn frame b ≡ some r
      → r.client.conns ≡ c.conns
  unfolding forward
  forward-conns c net conn frame true r e = ground arith
  forward-conns c net conn frame false r e = ground arith
