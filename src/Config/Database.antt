-- ===== src/Config/Database.antt =====
-- `DBToml.Init` of pkg/config/db.go. gorm and its drivers are a parameter; the text of a connection
-- string is kept in the pieces that `fmt.Sprintf` puts together.
pub mod Opened
use relaybaton.Common.{
  String, Option, none, some, List, [], ◌∷◌, if◌then◌else◌, ◌==◌, same_nat, same_string, same_bytes,
  Result, ok, ◌>>=◌,
}
use relaybaton.Common.Integers.{ℤ}
use relaybaton.Config.Toml.{DbToml}
use relaybaton.Config.Init.{Error, unknown_db_type, no_db, migrate_error, or_error}

pub data DbType : Type 0 where
  mysql postgresql sqlite3 sqlserver : DbType

pub data Piece : Type 0 where
  text : String → Piece
  number : ℤ → Piece

-- The tables of pkg/model.
pub data Model : Type 0 where
  user log meta notice plan : Model

pub record Drivers : Type 1 where
  pub Db : Type 0
  -- `gorm.Open`: an error, or a pointer, which can be nil.
  pub open_db : DbType → List Piece → Result Error (Option Db)
  pub auto_migrate : Db → Model → Option Db

unfoldable pub connection_string : DbToml → DbType → List Piece
connection_string t mysql =
    text t.username
    ∷ text ":"
    ∷ text t.password
    ∷ text "@("
    ∷ text t.host
    ∷ text ")/"
    ∷ text t.database
    ∷ text "?charset=utf8&parseTime=True&loc=Local"
    ∷ []
connection_string t postgresql =
    text "host="
    ∷ text t.host
    ∷ text " port="
    ∷ number t.port
    ∷ text " user="
    ∷ text t.username
    ∷ text " dbname="
    ∷ text t.database
    ∷ text " password="
    ∷ text t.password
    ∷ []
connection_string t sqlite3 = text t.database ∷ []
connection_string t sqlserver =
    text "sqlserver://"
    ∷ text t.username
    ∷ text ":"
    ∷ text t.password
    ∷ text "@"
    ∷ text t.host
    ∷ text ":"
    ∷ number t.port
    ∷ text "?database="
    ∷ text t.database
    ∷ []

unfoldable pub db_type_of : String → Option DbType
db_type_of s =
    if s == "mysql"
    then some mysql
    else if s == "postgresql"
    then some postgresql
    else if s == "sqlite3"
    then some sqlite3
    else if s == "sqlserver"
    then some sqlserver
    else none

module _ (drivers : Drivers) where
  open drivers use {Db, open_db, auto_migrate}

  pub record DbGo : Type 0 where
    pub type : DbType
    pub db : Db

  unfoldable pub migrate : Db → List Model → Result Error Db
  migrate db [] = ok db
  migrate db (model ∷ models) = do
    migrated ← or_error migrate_error (auto_migrate db model)
    migrate migrated models

  unfoldable pub init_db : DbToml → Result Error DbGo
  unfolding migrate
  init_db t = do
    type ← or_error unknown_db_type (db_type_of t.type)
    opened ← open_db type (connection_string t type)
    db ← or_error no_db opened
    migrated ← migrate db (user ∷ log ∷ meta ∷ notice ∷ plan ∷ [])
    ok (record { type = type; db = migrated })
