-- ===== src/Config/Logger.antt =====
-- `InitLog` of pkg/config/config.go: what logrus writes to afterwards.
use relaybaton.Common.{Option, none, some}
use relaybaton.Config.Init.{Host, LogGo}
use relaybaton.Config.Database.{Drivers, DbGo, log}

module _ (host : Host) (drivers : Drivers) where
  -- The formatter is always `XMLFormatter`; `hook` is the database of a `SQLiteHook`.
  record Logger : Type 0 where
    pub output : host.File
    pub level : host.Level
    pub hook : Option drivers.Db

  -- The error of `AutoMigrate` is not looked at: the database is as it was.
  migrated : drivers.Db → Option drivers.Db → drivers.Db
  migrated db none = db
  migrated db (some after) = after

  hook_of : Option (DbGo drivers) → Option drivers.Db
  unfolding migrated
  hook_of none = none
  hook_of (some g) = some (migrated g.db (drivers.auto_migrate g.db log))

  init_log : LogGo host → Option (DbGo drivers) → Logger
  unfolding hook_of
  init_log conf db = record { output = conf.file; level = conf.level; hook = hook_of db }
