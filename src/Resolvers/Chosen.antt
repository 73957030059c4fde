-- ===== src/Resolvers/Chosen.antt =====
-- From the section of the file to the resolver (pkg/config/dns.go with `InitDNS` of
-- pkg/config/config.go).
use mathlib.Core.Path.{subst}
use relaybaton.Common.{
  String, ◌≡◌, inl, inr, Bool, true, false, some, Bool-cases, Option-cases, ◌==◌, same_nat,
  same_string, same_bytes, ok, ok_injective,
}
use relaybaton.Config.Toml.{DnsToml}
use relaybaton.Config.Init.{doh, Host, DnsGo, init_dns}
use relaybaton.Resolvers.{Resolver, system, over_tls, over_https, init_resolver, new_doh, or_system}

module _ (host : Host) where
  open host use {Addr, resolve_tcp_addr, resolve_ip_addr}

  -- The resolver that a section asks for.
  pub data IsChosen (parses : String → Bool) (t : DnsToml) : Resolver Addr → Type 0 where
    by_tls :
        {addr : Addr}
        → (t.type == "dot") ≡ true
        → resolve_tcp_addr t.addr ≡ some addr
        → IsChosen parses t (over_tls (record { server_name = t.server; addr = some addr }))
    by_https :
        {addr : Addr}
        → (t.type == "doh") ≡ true
        → resolve_ip_addr t.addr ≡ some addr
        → parses t.server ≡ true
        → IsChosen parses t
            (over_https (record { port = 1083; url_host = t.server; addr = some addr }))
    by_nobody : (t.type == "doh") ≡ true → parses t.server ≡ false → IsChosen parses t system
    by_system : (t.type == "dot") ≡ false → (t.type == "doh") ≡ false → IsChosen parses t system

  dot-IsChosen :
      (parses : String → Bool) (t : DnsToml) (conf : DnsGo host)
      → (t.type == "dot") ≡ true
      → init_dns host t ≡ ok conf
      → IsChosen parses t (init_resolver host parses conf)
  unfolding init_dns init_resolver
  dot-IsChosen parses t conf asks h = elim (Option-cases (resolve_tcp_addr t.addr)) [
    | inl missing ↦ cc (rw (asks, missing) at h)
    | inr (addr, found) ↦
        subst (λ (c : DnsGo host). IsChosen parses t (init_resolver host parses c))
          (ok_injective (rw (asks, found) at h)) (by_tls asks found)
  ]

  doh-IsChosen :
      (parses : String → Bool) (t : DnsToml) (conf : DnsGo host) (addr : Addr)
      → (t.type == "doh") ≡ true
      → resolve_ip_addr t.addr ≡ some addr
      → record { type = doh; server = t.server; addr = some addr } ≡ conf
      → IsChosen parses t (init_resolver host parses conf)
  unfolding init_resolver new_doh or_system
  doh-IsChosen parses t conf addr asks found e =
      subst (λ (c : DnsGo host). IsChosen parses t (init_resolver host parses c)) e
        (elim (Bool-cases (parses t.server)) [
          | inl reads ↦ rw (reads) (by_https asks found reads)
          | inr fails ↦ rw (fails) (by_nobody asks fails)
        ])

  -- A section that `Init` takes gives the resolver that it names: DNS over TLS with the name and the
  -- address of the section, DNS over HTTPS with both if the URL of the server can be read, and in
  -- every other case the system's resolver, also where the section asks for DNS over HTTPS.
  init_resolver-IsChosen :
      (parses : String → Bool) (t : DnsToml) (conf : DnsGo host)
      → init_dns host t ≡ ok conf
      → IsChosen parses t (init_resolver host parses conf)
  unfolding init_dns init_resolver
  init_resolver-IsChosen parses t conf h = elim (Bool-cases (t.type == "dot")) [
    | inl asks ↦ dot-IsChosen parses t conf asks h
    | inr other ↦ elim (Bool-cases (t.type == "doh")) [
      | inr neither ↦
          subst (λ (c : DnsGo host). IsChosen parses t (init_resolver host parses c))
            (ok_injective (rw (other, neither) at h)) (by_system other neither)
      | inl asks ↦ elim (Bool-cases (host.is_ip t.addr)) [
        | inr wrong ↦ cc (rw (other, asks, wrong) at h)
        | inl right ↦ elim (Option-cases (resolve_ip_addr t.addr)) [
          | inl missing ↦ cc (rw (other, asks, right, missing) at h)
          | inr (addr, found) ↦
              doh-IsChosen parses t conf addr asks found
                (ok_injective (rw (other, asks, right, found) at h))
        ]
      ]
    ]
  ]
