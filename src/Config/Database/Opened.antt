-- ===== src/Config/Database/Opened.antt =====
-- What a database that was opened has been given: pkg/config/db.go.
use mathlib.Core.Path.{subst}
use relaybaton.Common.{
  bind_ok, String, ◌≡◌, ap, ◌∙◌, inl, inr, true, Option, none, some, List, [], ◌∷◌, Bool-cases,
  ◌==◌, same_nat, same_string, same_bytes, ok, some_injective, ok_injective,
}
use relaybaton.Config.Toml.{DbToml}
use relaybaton.Config.Init.{Error, unknown_db_type, no_db, migrate_error, or_error}
use relaybaton.Config.Database.{
  user, log, meta, notice, plan, Model, DbType, mysql, postgresql, sqlite3, sqlserver, Piece, text,
  number, Drivers, DbGo, db_type_of, connection_string, migrate, init_db,
}

-- The names of a database that a section can have, each with its driver and the connection string that
-- the driver is given: for MySQL without the port, for SQLite the file alone.
pub data Connects (t : DbToml) : DbType → List Piece → Type 0 where
  by_mysql :
      t.type ≡ "mysql"
      → Connects t mysql (
          text t.username
          ∷ text ":"
          ∷ text t.password
          ∷ text "@("
          ∷ text t.host
          ∷ text ")/"
          ∷ text t.database
          ∷ text "?charset=utf8&parseTime=True&loc=Local"
          ∷ [])
  by_postgresql :
      t.type ≡ "postgresql"
      → Connects t postgresql (
          text "host="
          ∷ text t.host
          ∷ text " port="
          ∷ number t.port
          ∷ text " user="
          ∷ text t.username
          ∷ text " dbname="
          ∷ text t.database
          ∷ text " password="
          ∷ text t.password
          ∷ [])
  by_sqlite3 : t.type ≡ "sqlite3" → Connects t sqlite3 (text t.database ∷ [])
  by_sqlserver :
      t.type ≡ "sqlserver"
      → Connects t sqlserver (
          text "sqlserver://"
          ∷ text t.username
          ∷ text ":"
          ∷ text t.password
          ∷ text "@"
          ∷ text t.host
          ∷ text ":"
          ∷ number t.port
          ∷ text "?database="
          ∷ text t.database
          ∷ [])

-- The database was opened by the driver and the connection string of the name, and after it each of
-- the five tables was migrated, in this order.
pub record IsOpened (drivers : Drivers) (t : DbToml) (g : DbGo drivers) : Type 0 where
  pub pieces : List Piece
  pub connects : Connects t g.type pieces
  pub opened : drivers.Db
  pub with_user : drivers.Db
  pub with_log : drivers.Db
  pub with_meta : drivers.Db
  pub with_notice : drivers.Db
  pub opens : drivers.open_db g.type pieces ≡ ok (some opened)
  pub users : drivers.auto_migrate opened user ≡ some with_user
  pub logs : drivers.auto_migrate with_user log ≡ some with_log
  pub metas : drivers.auto_migrate with_log meta ≡ some with_meta
  pub notices : drivers.auto_migrate with_meta notice ≡ some with_notice
  pub plans : drivers.auto_migrate with_notice plan ≡ some g.db

pub or_error_ok {ℓ} :
    {A : Type ℓ} (e : Error) (o : Option A) (a : A) → or_error e o ≡ ok a → o ≡ some a
or_error_ok e none a h = cc
or_error_ok e (some b) a h = ap some (ok_injective h)

named-Connects :
    (t : DbToml) (type : DbType)
    → db_type_of t.type ≡ some type
    → Connects t type (connection_string t type)
unfolding db_type_of connection_string
named-Connects t type e = elim (Bool-cases (t.type == "mysql")) [
  | inl m ↦ subst Named (some_injective (rw m at e)) (by_mysql (is_name "mysql" m))
  | inr m ↦ elim (Bool-cases (t.type == "postgresql")) [
    | inl p ↦ subst Named (some_injective (rw (m, p) at e)) (by_postgresql (is_name "postgresql" p))
    | inr p ↦ elim (Bool-cases (t.type == "sqlite3")) [
      | inl l ↦ subst Named (some_injective (rw (m, p, l) at e)) (by_sqlite3 (is_name "sqlite3" l))
      | inr l ↦ elim (Bool-cases (t.type == "sqlserver")) [
        | inl s ↦
            subst Named (some_injective (rw (m, p, l, s) at e))
              (by_sqlserver (is_name "sqlserver" s))
        | inr s ↦ absurd (no_type (rw (m, p, l, s) at e))
      ]
    ]
  ]
]
  where
    Named : DbType → Type 0
    Named d = Connects t d (connection_string t d)

    is_name : (name : String) → (t.type == name) ≡ true → t.type ≡ name
    is_name name h = (same_string.same_iff t.type name).0 h

    no_type : ¬ (none ≡ some type)
    no_type h = cc

migrated :
    (drivers : Drivers) (db last : drivers.Db) (model : Model) (models : List Model)
    → migrate drivers db (model ∷ models) ≡ ok last
    → (next : drivers.Db) × (drivers.auto_migrate db model ≡ some next)
      × (migrate drivers next models ≡ ok last)
unfolding migrate
migrated drivers db last model models h =
    let (next, e, rest) =
      bind_ok (or_error migrate_error (drivers.auto_migrate db model)) _ last h in
    (next, or_error_ok migrate_error (drivers.auto_migrate db model) next e, rest)

migrate-IsOpened :
    (drivers : Drivers) (t : DbToml) (type : DbType) (db last : drivers.Db)
    → db_type_of t.type ≡ some type
    → drivers.open_db type (connection_string t type) ≡ ok (some db)
    → migrate drivers db (user ∷ log ∷ meta ∷ notice ∷ plan ∷ []) ≡ ok last
    → IsOpened drivers t (record { type = type; db = last })
migrate-IsOpened drivers t type db last e o m =
    let (d1, users, m1) = migrated drivers db last user (log ∷ meta ∷ notice ∷ plan ∷ []) m in
    let (d2, logs, m2) = migrated drivers d1 last log (meta ∷ notice ∷ plan ∷ []) m1 in
    let (d3, metas, m3) = migrated drivers d2 last meta (notice ∷ plan ∷ []) m2 in
    let (d4, notices, m4) = migrated drivers d3 last notice (plan ∷ []) m3 in
    let (d5, plans, m5) = migrated drivers d4 last plan [] m4 in
    record {
      pieces = connection_string t type;
      connects = named-Connects t type e;
      opened = db;
      with_user = d1;
      with_log = d2;
      with_meta = d3;
      with_notice = d4;
      opens = o;
      users = users;
      logs = logs;
      metas = metas;
      notices = notices;
      plans = plans ∙ ap some (no_more d5 m5);
    }
  where
    no_more : (d : drivers.Db) → migrate drivers d [] ≡ ok last → d ≡ last
    no_more d h = unfold migrate in ok_injective h

pub init_db-IsOpened :
    (drivers : Drivers) (t : DbToml) (g : DbGo drivers)
    → init_db drivers t ≡ ok g
    → IsOpened drivers t g
unfolding init_db
init_db-IsOpened drivers t g h =
    let (type, e, h1) = bind_ok (or_error unknown_db_type (db_type_of t.type)) _ g h in
    let (handle, o, h2) = bind_ok (drivers.open_db type (connection_string t type)) _ g h1 in
    let (db, d, h3) = bind_ok (or_error no_db handle) _ g h2 in
    let (last, m, h4) =
      bind_ok (migrate drivers db (user ∷ log ∷ meta ∷ notice ∷ plan ∷ [])) _ g h3 in
    subst (λ (x : DbGo drivers). IsOpened drivers t x) (ok_injective h4)
      (migrate-IsOpened drivers t type db last
        (or_error_ok unknown_db_type (db_type_of t.type) type e)
        (o ∙ ap ok (or_error_ok no_db handle db d)) m)
