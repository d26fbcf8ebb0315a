-- ===== src/Logging.antt =====
-- controller/src/logging.c: the events log. The file system's part, whether the file can be opened,
-- is a parameter; what is written is the list of lines, newest first.
pub mod Filter
use segling.Prelude.{
  ℕ, zero, suc, ◌-◌, Bool, true, false, ◌&&◌, List, [], ◌∷◌, take, leb, if◌then◌else◌,
}

-- `logging_result_t`
pub data LoggingResult : Type 0 where
  ok error_unknown error_io : LoggingResult

-- `log_level_t`: an integer, of which 0 to 3 are named.
abbrev pub log_level_debug : ℕ
log_level_debug = 0

abbrev pub log_level_info : ℕ
log_level_info = 1

abbrev pub log_level_warn : ℕ
log_level_warn = 2

abbrev pub log_level_error : ℕ
log_level_error = 3

-- LOGGING_FORMAT_MAX
abbrev pub logging_format_max : ℕ
logging_format_max = 1024

-- What `level_name` gives.
pub data LevelName : Type 0 where
  debug info warn error unknown : LevelName

-- One line of the log, "[epoch][slot][LEVEL] - message".
pub record Line : Type 0 where
  pub epoch : ℕ
  pub slot_id : ℕ
  pub level : LevelName
  pub message : List ℕ

-- `g_events_log` and `controller_config.log_level`, with what the file holds. `is_open` says that
-- the pointer is not NULL.
pub record Log : Type 0 where
  pub is_open : Bool
  pub log_level : ℕ
  pub lines : List Line

unfoldable pub level_name : ℕ → LevelName
level_name zero = debug
level_name (suc zero) = info
level_name (suc (suc zero)) = warn
level_name (suc (suc (suc zero))) = error
level_name _ = unknown

-- The Boolean says whether `fopen` gives a file.
unfoldable pub logging_init : Bool → Log → Log × LoggingResult
logging_init opens log =
    if log.is_open
    then (log, LoggingResult.ok)
    else if opens
    then (record log { is_open = true }, LoggingResult.ok)
    else (log, LoggingResult.error_io)

unfoldable pub logging_deinit : Log → Log
logging_deinit log = if log.is_open then record log { is_open = false } else log

unfoldable pub log_message : ℕ → ℕ → ℕ → List ℕ → Log → Log
unfolding level_name
log_message epoch slot_id level message log =
    if log.is_open && leb log.log_level level
    then record log {
      lines =
          record { epoch = epoch; slot_id = slot_id; level = level_name level; message = message }
          ∷ log.lines;
    }
    else log

-- The list is the formatted text whole; `vsnprintf` keeps what fits the buffer before its NUL.
unfoldable pub log_messagef : ℕ → ℕ → ℕ → List ℕ → Log → Log
unfolding log_message
log_messagef epoch slot_id level formatted log =
    let message = take (logging_format_max - 1) formatted in
    log_message epoch slot_id level message log
