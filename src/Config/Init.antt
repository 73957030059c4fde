-- ===== src/Config/Init.antt =====
-- The functions `Init` of pkg/config that make of each section of the file what the program uses. What
-- the file system, the resolver of addresses and logrus answer is a parameter.
use relaybaton.Common.{
  ℕ, String, Bool, Option, none, some, if◌then◌else◌, ◌==◌, same_nat, same_string, same_bytes,
  Result, ok, err, ◌>>=◌, ◌>>◌, guard,
}
use relaybaton.Common.Integers.{u16_of_int}
use relaybaton.Config.Toml.{LogToml, DnsToml, ClientToml, ServerToml, ConfigToml}
use relaybaton.Config.Validate.{Formats, valid_config}

pub data Stat : Type 0 where
  missing failed directory file : Stat

pub record Host : Type 1 where
  pub formats : Formats
  pub File : Type 0
  pub Level : Type 0
  pub Addr : Type 0
  pub stat : String → Stat
  pub open_file : String → Option File
  pub parse_level : String → Option Level
  pub resolve_tcp_addr : String → Option Addr
  pub is_ip : String → Bool
  pub resolve_ip_addr : String → Option Addr

pub data Error : Type 0 where
  invalid : Error
  stat_error is_directory open_error level_error : Error
  tcp_addr_error wrong_ip_address ip_addr_error : Error
  unknown_db_type db_error no_db migrate_error : Error
  read_error write_error : Error

-- A value, or the error for the lack of one.
abbrev pub or_error {ℓ} : {A : Type ℓ} → Error → Option A → Result Error A
or_error e none = err e
or_error e (some a) = ok a

pub data DnsType : Type 0 where
  default dot doh : DnsType

pub record ClientGo : Type 0 where
  pub port : ℕ
  pub http_port : ℕ
  pub redir_port : ℕ
  pub server : String
  pub username : String
  pub password : String
  pub proxy_all : Bool

pub record ServerGo : Type 0 where
  pub port : ℕ
  pub admin_password : String

unfoldable pub init_client : ClientToml → ClientGo
init_client t = record {
  port = u16_of_int t.port;
  http_port = u16_of_int t.http_port;
  redir_port = u16_of_int t.redir_port;
  server = t.server;
  username = t.username;
  password = t.password;
  proxy_all = t.proxy_all;
}

unfoldable pub init_server : ServerToml → ServerGo
init_server t = record { port = u16_of_int t.port; admin_password = t.admin_password }

-- A file that is missing is made by `os.OpenFile`.
abbrev check_stat : Stat → Result Error (Unit {0})
check_stat missing = ok tt
check_stat failed = err stat_error
check_stat directory = err is_directory
check_stat file = ok tt

module _ (host : Host) where
  open host use {formats, File, Level, Addr, stat, open_file, parse_level, is_ip}

  pub record LogGo : Type 0 where
    pub file : File
    pub level : Level

  pub record DnsGo : Type 0 where
    pub type : DnsType
    pub server : String
    pub addr : Option Addr

  -- `toml` is kept for `SaveClient`.
  pub record ConfigGo : Type 0 where
    pub toml : ConfigToml
    pub log : LogGo
    pub dns : DnsGo
    pub client : Option ClientGo
    pub server : Option ServerGo

  init_log : LogToml → Result Error LogGo
  init_log t = do
    check_stat (stat t.file)
    opened ← or_error open_error (open_file t.file)
    parsed ← or_error level_error (parse_level t.level)
    ok (record { file = opened; level = parsed })

  dns_with : DnsType → String → Addr → DnsGo
  dns_with type server addr = record { type = type; server = server; addr = some addr }

  unfoldable pub init_dns : DnsToml → Result Error DnsGo
  unfolding dns_with
  init_dns t =
      if t.type == "dot"
      then (do
        addr ← or_error tcp_addr_error (host.resolve_tcp_addr t.addr)
        ok (dns_with dot t.server addr))
      else if t.type == "doh"
      then (do
        guard (is_ip t.addr) wrong_ip_address
        addr ← or_error ip_addr_error (host.resolve_ip_addr t.addr)
        ok (dns_with doh t.server addr))
      else ok (record { type = default; server = t.server; addr = none })

  -- Once they have been validated, the sections are there.
  unfoldable pub init_config : ConfigToml → Result Error ConfigGo
  unfolding init_log init_dns
  init_config t = do
    guard (valid_config formats t) invalid
    log_toml ← or_error invalid t.log
    dns_toml ← or_error invalid t.dns
    log ← init_log log_toml
    dns ← init_dns dns_toml
    ok (record { toml = t; log = log; dns = dns; client = none; server = none })
