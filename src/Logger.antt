-- ===== src/Logger.antt =====
-- include/net/logger.hpp: the logger's configuration and what it makes of it. `opens` says for a file
-- name, a size and a number of files whether spdlog's rotating sink can be made, and `opens_basic`
-- whether its basic sink can; otherwise their constructors throw.
pub mod Building
pub mod Rotating
use mlnsdk.Base.{
  ℕ, Bool, true, false, Option, none, some, List, [], ◌∷◌, ◌++◌, ◌*◌, ◌&&◌, not, ltb, if◌then◌else◌,
  negative_int32,
}
use mlnsdk.Base.Outcome.{Outcome, ok, thrown, fault, ◌>>=◌}
use mlnsdk.Text.{codes}

-- `spdlog::level::level_enum`
pub data Level : Type 0 where
  trace debug info warn error critical off : Level

-- `LOG_PATTERN_DEFAULT`
abbrev pub log_pattern_default : List ℕ
log_pattern_default = codes "[%D %T][%t][%l][%s %! %#] : %v"

pub record GlobalConfig : Type 0 where
  pub logger_name : List ℕ
  pub flush_every_sec : ℕ

pub record Config : Type 0 where
  pub lv : Level
  pub pattern : List ℕ
  pub in_use : Bool

pub record ConfigFile : Type 0 where
  pub file_name_base : List ℕ
  pub max_file_size : ℕ
  pub max_files : ℕ
  pub lv : Level
  pub pattern : List ℕ
  pub in_use : Bool

pub record Initializer : Type 0 where
  pub global : GlobalConfig
  pub console : Config
  pub file : ConfigFile

-- The members that the constructors leave unset.
pub record Unset : Type 0 where
  pub flush_every_sec : ℕ
  pub max_file_size : ℕ
  pub max_files : ℕ

-- `Create`
unfoldable pub create_initializer : Unset → Initializer
create_initializer u = record {
  global = record { logger_name = []; flush_every_sec = u.flush_every_sec };
  console = record { lv = trace; pattern = []; in_use = false };
  file = record {
    file_name_base = [];
    max_file_size = u.max_file_size;
    max_files = u.max_files;
    lv = trace;
    pattern = [];
    in_use = false;
  };
}

abbrev pub pattern_or_default : Option (List ℕ) → List ℕ
pattern_or_default none = log_pattern_default
pattern_or_default (some pattern) = pattern

-- The setters of `GlobalConfig`, `Config` and `ConfigFile`; `global`, `console` and `file` only choose.
unfoldable pub set_logger_name : List ℕ → GlobalConfig → GlobalConfig
set_logger_name name g = record g { logger_name = name }

unfoldable pub set_flush_every_sec : ℕ → GlobalConfig → GlobalConfig
set_flush_every_sec sec g = record g { flush_every_sec = sec }

unfoldable pub set_console_lv : Level → Config → Config
set_console_lv lv c = record c { in_use = true; lv = lv }

unfoldable pub set_console_pattern : Option (List ℕ) → Config → Config
set_console_pattern pattern c = record c { pattern = pattern_or_default pattern }

unfoldable pub set_file_name_base : List ℕ → ConfigFile → ConfigFile
set_file_name_base name f = record f { file_name_base = name }

unfoldable pub set_max_file_size : ℕ → ConfigFile → ConfigFile
set_max_file_size n f = record f { max_file_size = n }

unfoldable pub set_max_files : ℕ → ConfigFile → ConfigFile
set_max_files n f = record f { max_files = n }

unfoldable pub set_file_lv : Level → ConfigFile → ConfigFile
set_file_lv lv f = record f { in_use = true; lv = lv }

unfoldable pub set_file_pattern : Option (List ℕ) → ConfigFile → ConfigFile
set_file_pattern pattern f = record f { pattern = pattern_or_default pattern }

-- A call in a chain.
pub data Call : Type 0 where
  name_call base_call : List ℕ → Call
  flush_call size_call files_call : ℕ → Call
  console_lv_call file_lv_call : Level → Call
  console_pattern_call file_pattern_call : Option (List ℕ) → Call

unfoldable pub apply : Call → Initializer → Initializer
unfolding set_logger_name set_flush_every_sec set_console_lv set_console_pattern set_file_name_base
    set_max_file_size set_max_files set_file_lv set_file_pattern
apply (name_call name) i = record i { global = set_logger_name name i.global }
apply (flush_call sec) i = record i { global = set_flush_every_sec sec i.global }
apply (console_lv_call lv) i = record i { console = set_console_lv lv i.console }
apply (console_pattern_call p) i = record i { console = set_console_pattern p i.console }
apply (base_call name) i = record i { file = set_file_name_base name i.file }
apply (size_call n) i = record i { file = set_max_file_size n i.file }
apply (files_call n) i = record i { file = set_max_files n i.file }
apply (file_lv_call lv) i = record i { file = set_file_lv lv i.file }
apply (file_pattern_call p) i = record i { file = set_file_pattern p i.file }

unfoldable pub apply_all : List Call → Initializer → Initializer
unfolding apply
apply_all [] i = i
apply_all (c ∷ cs) i = apply_all cs (apply c i)

pub data Sink : Type 0 where
  stdout_sink : Level → List ℕ → Sink
  rotating_file_sink : List ℕ → ℕ → ℕ → Level → List ℕ → Sink
  basic_file_sink : List ℕ → Level → List ℕ → Sink

-- The logger that is made: the period of its flushes, if it flushes at all.
pub record Made : Type 0 where
  pub name : List ℕ
  pub sinks : List Sink
  pub level : Level
  pub flush_every : Option ℕ

abbrev pub flush_period : ℕ → Option ℕ
flush_period sec = if ltb 0 sec then some sec else none

module _ (opens : List ℕ → ℕ → ℕ → Bool) (opens_basic : List ℕ → Bool) where
  abbrev pub console_sinks : Config → List Sink
  console_sinks c = if c.in_use then stdout_sink c.lv c.pattern ∷ [] else []

  abbrev pub file_sinks : ConfigFile → List Sink
  file_sinks f =
      if f.in_use
      then rotating_file_sink f.file_name_base f.max_file_size f.max_files f.lv f.pattern ∷ []
      else []

  -- `done`
  unfoldable pub done : Initializer → Outcome Made
  done i =
      if i.file.in_use && not (opens i.file.file_name_base i.file.max_file_size i.file.max_files)
      then thrown
      else ok (record {
        name = i.global.logger_name;
        sinks = console_sinks i.console ++ file_sinks i.file;
        level = trace;
        flush_every = flush_period i.global.flush_every_sec;
      })

  -- `createDefault`
  unfoldable pub create_default : Unset → Outcome Made
  unfolding create_initializer apply_all done
  create_default u = done (
      apply_all
        (name_call (codes "mln-server-log")
          ∷ flush_call 0
          ∷ console_lv_call trace
          ∷ console_pattern_call none
          ∷ file_lv_call trace
          ∷ file_pattern_call none
          ∷ base_call (codes "mln-server")
          ∷ size_call (1048576 * 100)
          ∷ files_call 30
          ∷ [])
        (create_initializer u))

  -- The period that `InitRotate` and `Init` take is an int.
  abbrev pub flush_period_int : ℕ → Option ℕ
  flush_period_int sec = if negative_int32 sec then none else flush_period sec

  unfoldable pub init_rotate : List ℕ → List ℕ → ℕ → ℕ → ℕ → Outcome Made
  init_rotate name base max_file_size max_files flush =
      if opens base max_file_size max_files
      then ok (record {
        name = name;
        sinks =
            rotating_file_sink base max_file_size max_files trace log_pattern_default
            ∷ stdout_sink trace log_pattern_default
            ∷ [];
        level = trace;
        flush_every = flush_period_int flush;
      })
      else thrown

  unfoldable pub init_basic : List ℕ → List ℕ → ℕ → Outcome Made
  init_basic name base flush =
      if opens_basic base
      then ok (record {
        name = name;
        sinks =
            basic_file_sink base trace log_pattern_default
            ∷ stdout_sink trace log_pattern_default
            ∷ [];
        level = trace;
        flush_every = flush_period_int flush;
      })
      else thrown

-- `_logger` after one of these: an exception leaves the logger as it was.
unfoldable pub logger_after : Outcome Made → Option Made → Option Made
logger_after (ok made) old = some made
logger_after _ old = old

-- `Flush` goes through `_logger`, which is null before that.
unfoldable pub flush : Option Made → Outcome Made
flush none = fault
flush (some made) = ok made
