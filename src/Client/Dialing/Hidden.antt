-- ===== src/Client/Dialing/Hidden.antt =====
-- With which keys `DialWs` of pkg/core/conn.go dials.
use Prim.Native.String.{◌++◌}
use relaybaton.Common.{
  String, ◌≡◌, refl, ap, ◌∙◌, ◌↔◌, inl, inr, true, Option, none, some, List, [], ◌∷◌, arith,
  Option-cases, Bytes, All,
}
use relaybaton.Config.Load.{Call, panics, returns}
use relaybaton.Client.Conn.{Codec, Account, Conn, Header, build_header}
use relaybaton.Client.React.{Dialed, not_tried, dialed}
use relaybaton.Client.Dialing.{
  Dial, Web, answer, first_record, keys_of, get_esni, dial_with, dial_ws,
}

module _ (web : Web) where
  open web use {Keys, lookup_txt, decode, parse_esni_keys}

  -- A dial that hides the server's name: with the keys that the first TXT record of its name for ESNI
  -- holds, to its port 443, with a header for the account and the connection.
  pub record IsHidden (account : Account) (server : String) (conn : Conn) (dial : Dial Keys)
      : Type 0 where
    pub raw : String
    pub rest : List String
    pub bytes : Bytes
    pub published : Keys
    pub looked_up : lookup_txt ("_esni." ++ server) ≡ some (raw ∷ rest)
    pub decoded : decode raw ≡ some bytes
    pub parsed : parse_esni_keys bytes ≡ some published
    pub hidden : dial.keys ≡ some published
    pub address : dial.address ≡ server ++ ":443"
    pub server_name : dial.server_name ≡ server
    pub username : dial.header.username ≡ account.username
    pub destination : dial.header.addr ≡ conn.dst_addr
    pub command : dial.header.cmd ≡ conn.cmd

  answer_iff :
      (o : Option Bytes) (reply : Bytes)
      → (answer web o ≡ dialed reply) ↔ ((o ≡ some reply) × (web.sets_level ≡ true))
  unfolding answer
  answer_iff none reply = (λ h. cc, λ (h, l). cc)
  answer_iff (some r) reply = (λ h. ground arith, λ (h, l). ground arith)

  returned_injective : {a b : Dialed} → returns a ≡ returns b → a ≡ b
  returned_injective e = cc

  module _ (codec : Codec) (account : Account) (server : String) (conn : Conn) (reply : Bytes) where
    abbrev header : Header
    header = build_header codec account conn

    abbrev Promises : Call Dialed × List (Dial Keys) → Type 0
    Promises made =
        All (IsHidden account server conn) made.1
        × ((made.0 ≡ returns (dialed reply)) ↔ (
            (dial : Dial Keys) × (made.1 ≡ dial ∷ [])
            × (web.connects dial ≡ some reply)
            × (web.sets_level ≡ true)))

    -- Where nothing is dialed and there is no reply.
    quiet : (c : Call Dialed) → ¬ (c ≡ returns (dialed reply)) → Promises (c, [])
    quiet c silent =
        (tt, (λ h. absurd (silent h), λ (dial, e, said, level). absurd (not_made dial e)))
      where
        not_made : (dial : Dial Keys) → ¬ ([] ≡ dial ∷ [])
        not_made dial e = cc

    abbrev the_dial : Keys → Dial Keys
    the_dial keys = record {
      address = server ++ ":443";
      server_name = server;
      keys = some keys;
      header = header;
    }

    one :
        (keys : Keys)
        → IsHidden account server conn (the_dial keys)
        → Promises (returns (answer web (web.connects (the_dial keys))), the_dial keys ∷ [])
    one keys hidden = (
      (hidden, tt),
      (
        λ h.
            (let (said, level) =
                (answer_iff (web.connects (the_dial keys)) reply).0 (returned_injective h) in
              (the_dial keys, refl, said, level)),
        λ (dial, e, said, level). ap returns (
            (answer_iff (web.connects (the_dial keys)) reply).1
              (ap web.connects (same_dial e) ∙ said, level)),
      ),
    )
      where
        same_dial : {d d' : Dial Keys} → d ∷ [] ≡ d' ∷ [] → d ≡ d'
        same_dial e = cc

    no_reply : ¬ (returns not_tried ≡ returns (dialed reply))
    no_reply h = cc

    no_panic : ¬ (panics ≡ returns (dialed reply))
    no_panic h = cc

    by_records :
        (records : Option (List String))
        → lookup_txt ("_esni." ++ server) ≡ records
        → Promises (dial_with web server header (first_record web records))
    unfolding dial_with first_record build_header
    by_records none e = quiet (returns not_tried) no_reply
    by_records (some []) e = quiet panics no_panic
    by_records (some (raw ∷ rest)) e = elim (Option-cases (decode raw)) [
      | inl d ↦ rw (d) (quiet (returns not_tried) no_reply)
      | inr (bytes, d) ↦ elim (Option-cases (parse_esni_keys bytes)) [
        | inl p ↦ rw (d, keys_of, p) (quiet (returns not_tried) no_reply)
        | inr (keys, p) ↦
            rw (d, keys_of, p)
              (one keys (record {
                raw = raw;
                rest = rest;
                bytes = bytes;
                published = keys;
                looked_up = e;
                decoded = d;
                parsed = p;
                hidden = refl;
                address = refl;
                server_name = refl;
                username = refl;
                destination = refl;
                command = refl;
              }))
      ]
    ]

    -- `DialWs` never dials the server with its name in clear, and nobody else: each dial that it makes,
    -- whether it succeeds or not, is to port 443 of the server, with the ESNI keys that the first TXT
    -- record published for the server's name decodes and parses to, and with the account's name and the
    -- connection's destination and command in its header. It ends with a reply just where it has made
    -- one dial, that dial was answered by the reply, and the level of the compression could be set.
    pub dial_ws-IsHidden :
        All (IsHidden account server conn) (dial_ws web codec account server conn).1
        × (((dial_ws web codec account server conn).0 ≡ returns (dialed reply)) ↔ (
            (dial : Dial Keys) × ((dial_ws web codec account server conn).1 ≡ dial ∷ [])
            × (web.connects dial ≡ some reply)
            × (web.sets_level ≡ true)))
    unfolding dial_ws get_esni
    dial_ws-IsHidden = by_records (lookup_txt ("_esni." ++ server)) refl
