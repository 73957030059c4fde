-- ===== src/Config/Toml.antt =====
-- What the configuration file says: the structs of pkg/config whose names end in TOML. A section that
-- is not there is a nil pointer.
use relaybaton.Common.{String, Bool, Option}
use relaybaton.Common.Integers.{ℤ}

pub record LogToml : Type 0 where
  pub file : String
  pub level : String

pub record DnsToml : Type 0 where
  pub type : String
  pub server : String
  pub addr : String

pub record ClientToml : Type 0 where
  pub port : ℤ
  pub http_port : ℤ
  pub redir_port : ℤ
  pub server : String
  pub username : String
  pub password : String
  pub proxy_all : Bool

pub record ServerToml : Type 0 where
  pub port : ℤ
  pub admin_password : String

pub record DbToml : Type 0 where
  pub type : String
  pub username : String
  pub password : String
  pub host : String
  pub port : ℤ
  pub database : String

pub record ConfigToml : Type 0 where
  pub log : Option LogToml
  pub dns : Option DnsToml
  pub client : Option ClientToml
  pub server : Option ServerToml
  pub db : Option DbToml
