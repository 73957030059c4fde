-- ===== src/Logging.antt =====
-- pkg/log and `NewRecord` of pkg/model/log.go: what becomes of an entry of logrus. The texts of values
-- and of numbers, and the encoders of XML and JSON, are those of the standard library.
pub mod RoundTrip
pub mod Gorm
use relaybaton.Common.{
  ℕ, String, Option, none, some, List, [], ◌∷◌, ◌++◌, map, if◌then◌else◌, ◌==◌, same_nat,
  same_string, same_bytes,
}
use relaybaton.Web.Rows.{Log}

pub record Caller : Type 0 where
  pub function : String
  pub file : String
  pub line : ℕ

-- The data in the order in which the loop over the map meets it; a value is the text that
-- `Error` or `fmt.Sprintf("%v", …)` makes of it.
pub record Entry : Type 0 where
  pub level : ℕ
  pub time : ℕ
  pub caller : Option Caller
  pub message : String
  pub data_fields : List (String × String)

-- What the standard library makes of a level, of a time and of the place of a call.
pub record Texts : Type 0 where
  pub level_text : ℕ → String
  pub time_text : ℕ → String
  pub place_text : String → ℕ → String

-- A `node` without attributes and children, and the `node` that holds them. An empty attribute is
-- left out.
pub record Leaf : Type 0 where
  pub name : String
  pub text : String

pub record Node : Type 0 where
  pub name : String
  pub time : String
  pub func : String
  pub file : String
  pub children : List Leaf

abbrev leaf_of : String × String → Leaf
leaf_of (k, v) = record { name = k; text = v }

module _ (texts : Texts) where
  open texts use {level_text, time_text, place_text}

  func_of : Option Caller → String
  func_of none = ""
  func_of (some c) = c.function

  file_of : Option Caller → String
  file_of none = ""
  file_of (some c) = place_text c.file c.line

  message_leaf : String → List Leaf
  message_leaf m = if m == "" then [] else leaf_of ("msg", m) ∷ []

  -- `XMLFormatter.Format`, but for the text that encoding/xml makes of the node.
  pub format : Entry → Node
  unfolding func_of file_of message_leaf
  format e = record {
    name = level_text e.level;
    time = time_text e.time;
    func = func_of e.caller;
    file = file_of e.caller;
    children = message_leaf e.message ++ map leaf_of e.data_fields;
  }

  -- `NewRecord`; the database gives the id. Where the data cannot be encoded it is left empty.
  new_record : (List (String × String) → Option String) → String → Entry → Log
  unfolding func_of file_of
  new_record marshal stack e = record {
    id = 0;
    created_at = e.time;
    level = e.level;
    func = func_of e.caller;
    file = file_of e.caller;
    msg = e.message;
    stack = stack;
    fields = text_or_empty (marshal e.data_fields);
  }
    where
      text_or_empty : Option String → String
      text_or_empty none = ""
      text_or_empty (some t) = t

-- `SQLiteHook.Fire`: the database after it; the error of `Create` is not looked at, and none is
-- returned.
fire : {Db : Type 0} → (Db → Log → Option String × Db) → Db → Log → Db
fire create db record_of_entry = (create db record_of_entry).1

pub data GormLevel : Type 0 where
  gorm_silent gorm_error gorm_warn gorm_info gorm_other : GormLevel

pub data LogrusLevel : Type 0 where
  panic_level fatal_level error_level warn_level info_level debug_level trace_level : LogrusLevel

-- `SQLiteHook.Levels`: logrus.AllLevels.
abbrev hook_levels : List LogrusLevel
hook_levels =
    panic_level ∷ fatal_level ∷ error_level ∷ warn_level ∷ info_level ∷ debug_level ∷ trace_level
    ∷ []

-- `DBLogger.LogMode`.
log_mode : GormLevel → LogrusLevel
log_mode gorm_silent = panic_level
log_mode gorm_info = info_level
log_mode gorm_warn = warn_level
log_mode gorm_error = error_level
log_mode gorm_other = debug_level
