-- ===== src/Config/Validate.antt =====
-- The checks that the struct tags of pkg/config ask of the package `validator`, tag by tag. What it
-- takes for a host name or an address is a parameter.
use relaybaton.Common.{
  String, Bool, false, not, ◌&&◌, ◌||◌, Option, none, some, List, [], ◌∷◌, any, ◌==◌, same_nat,
  same_string, same_bytes,
}
use relaybaton.Common.Integers.{ℤ, pos, ◌=ℤ◌, is_natural, is_at_most}
use relaybaton.Config.Toml.{LogToml, DnsToml, ClientToml, ServerToml, DbToml, ConfigToml}

pub record Formats : Type 0 where
  -- `hostname`, and `hostname|hostname_rfc1123|fqdn`.
  pub hostname : String → Bool
  pub hostname_or_fqdn : String → Bool
  -- `ip|ip_addr|tcp_addr|udp_addr`.
  pub address : String → Bool

-- `required`.
abbrev pub filled : String → Bool
filled s = not (s == "")

-- `oneof`.
abbrev one_of : List String → String → Bool
one_of texts s = any (λ t. s == t) texts

-- `numeric,gte=0,lte=65535,required`.
abbrev pub port_number : ℤ → Bool
port_number p = is_natural p && (is_at_most 65535 p && not (p =ℤ pos 0))

-- The same with `nefield`.
abbrev pub port_other_than : ℤ → ℤ → Bool
port_other_than q p = port_number p && not (p =ℤ q)

unfoldable pub valid_log : LogToml → Bool
valid_log t =
    filled t.file
    && (filled t.level
        && one_of ("panic" ∷ "fatal" ∷ "error" ∷ "warn" ∷ "info" ∷ "debug" ∷ "trace" ∷ []) t.level)

-- `validate.Struct` of a nil pointer is an error.
abbrev pub there {ℓ} : {A : Type ℓ} → (A → Bool) → Option A → Bool
there valid none = false
there valid (some t) = valid t

module _ (formats : Formats) where
  -- `omitempty` lets the empty text pass.
  unfoldable pub valid_dns : DnsToml → Bool
  valid_dns t =
      (one_of ("default" ∷ "dot" ∷ "doh" ∷ []) t.type && filled t.type)
      && ((not (filled t.server) || formats.hostname_or_fqdn t.server)
          && (not (filled t.addr) || formats.address t.addr))

  unfoldable pub valid_client : ClientToml → Bool
  valid_client t =
      port_other_than t.http_port t.port
      && (port_other_than t.redir_port t.http_port
          && (port_other_than t.port t.redir_port
              && ((formats.hostname t.server && filled t.server)
                  && (filled t.username && filled t.password))))

  -- `Log` and `DNS` are required; the other sections have the tag `-`.
  unfoldable pub valid_config : ConfigToml → Bool
  valid_config t = there valid_log t.log && there valid_dns t.dns

unfoldable pub valid_server : ServerToml → Bool
valid_server t = port_number t.port && filled t.admin_password

unfoldable pub valid_db : DbToml → Bool
valid_db t =
    filled t.type
    && (filled t.username
        && (filled t.password && (filled t.host && (not (t.port =ℤ pos 0) && filled t.database))))
