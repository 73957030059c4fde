-- ===== src/Server/Admission/Laws.antt =====
-- To which destinations the server connects (pkg/core/server.go).
use relaybaton.Common.{
  ℕ, ◌≡◌, refl, sym, ap, ◌∙◌, true, false, some, [], ◌∷◌, if◌then◌else◌, IsBytes,
}
use relaybaton.Ip.Address.{Ip, to4, to16, shorten, contains}
use relaybaton.Ip.Reserved.{is_reserved_ip, is_special, is_in_table}
use relaybaton.Ip.Reserved.Version4.{in_reserved_range, is_reserved_ip-in_reserved_range}
use relaybaton.Ip.Reserved.Version6.{IsVersion6}
use relaybaton.Router.Select.Reserved.{is_reserved_ip-shorten}
use relaybaton.Client.Conn.{TcpAddr}
use relaybaton.Web.Database.{Gorm, Crypto}
use relaybaton.Server.Authenticate.{Headers, authenticate}
use relaybaton.Server.Admission.{
  Network, reserved, dial_and_upgrade, request_handler, convert, admit,
}

-- The two forms of an IPv4 address: four bytes, as a resolver gives it, and the sixteen bytes that
-- `ResolveTCPAddr` makes of a literal.
pub data IsVersion4 (a b c d : ℕ) : Ip → Type 0 where
  short : IsVersion4 a b c d (a ∷ b ∷ c ∷ d ∷ [])
  mapped :
      IsVersion4 a b c d (0 ∷ 0 ∷ 0 ∷ 0 ∷ 0 ∷ 0 ∷ 0 ∷ 0 ∷ 0 ∷ 0 ∷ 255 ∷ 255 ∷ a ∷ b ∷ c ∷ d ∷ [])

convert-IsVersion4 :
    (a b c d : ℕ) {ip : Ip}
    → IsVersion4 a b c d ip
    → is_reserved_ip (convert ip) ≡ is_reserved_ip (a ∷ b ∷ c ∷ d ∷ [])
convert-IsVersion4 a b c d v = sym (is_reserved_ip-shorten _) ∙ ap is_reserved_ip (back v)
  where
    back : {ip : Ip} → IsVersion4 a b c d ip → shorten (convert ip) ≡ a ∷ b ∷ c ∷ d ∷ []
    back short = unfold convert shorten to16 to4 in refl
    back mapped = unfold convert shorten to16 to4 in refl

convert-IsVersion6 : (ip : Ip) → IsVersion6 ip → is_reserved_ip (convert ip) ≡ false
unfolding convert is_special to4 is_in_table contains shorten
convert-IsVersion6 ip v = rw (v.not_mapped) nothing
  where
    nothing : is_reserved_ip [] ≡ false
    nothing = unfold is_reserved_ip in refl

module _ (gorm : Gorm) (crypto : Crypto) where
  -- An authenticated request that resolves to an IPv4 address, in either of its two forms, is refused
  -- if the address lies in a reserved range, and only then; otherwise it is dialed.
  pub request_handler-in_reserved_range :
      (db : gorm.Db) (headers : Headers) (net : Network) (a b c d : ℕ) (tcp_addr : TcpAddr)
      → IsVersion4 a b c d tcp_addr.ip
      → IsBytes (a ∷ b ∷ c ∷ d ∷ [])
      → authenticate gorm crypto db headers ≡ true
      → net.resolve_tcp_addr headers.addr ≡ some tcp_addr
      → request_handler gorm crypto db headers net
        ≡ (if in_reserved_range a b c d then reserved else dial_and_upgrade net headers.addr)
  unfolding request_handler
  request_handler-in_reserved_range db headers net a b c d tcp_addr form v e r =
      rw (e, r, admit, convert-IsVersion4 a b c d form, is_reserved_ip-in_reserved_range a b c d v)

  -- An authenticated request that resolves to an IPv6 address is dialed whatever the address is,
  -- also a reserved one.
  pub request_handler-IsVersion6 :
      (db : gorm.Db) (headers : Headers) (net : Network) (tcp_addr : TcpAddr)
      → IsVersion6 tcp_addr.ip
      → authenticate gorm crypto db headers ≡ true
      → net.resolve_tcp_addr headers.addr ≡ some tcp_addr
      → request_handler gorm crypto db headers net ≡ dial_and_upgrade net headers.addr
  unfolding request_handler
  request_handler-IsVersion6 db headers net tcp_addr v e r =
      rw (e, r, admit, convert-IsVersion6 tcp_addr.ip v)
