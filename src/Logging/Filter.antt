-- ===== src/Logging/Filter.antt =====
-- controller/src/logging.c: which messages reach the log.
use segling.Prelude.{ℕ, ◌≤◌, ◌<◌, ◌≡◌, ◌⊎◌, Bool, true, false, List, ◌∷◌, take, arith}
use segling.Logging.{
  LoggingResult, Log, level_name, logging_init, logging_deinit, log_messagef, log_message,
}

-- A message is written exactly where the log is open and the level reaches the configured one;
-- the text of the line is cut to 1023 bytes. Nothing else of the log changes.
pub log_messagef_lem :
    (epoch slot_id level : ℕ) (formatted : List ℕ) (log : Log)
    → ((log.is_open ≡ true)
        × (log.log_level ≤ level)
        × (log_messagef epoch slot_id level formatted log ≡ record log {
          lines =
              record {
                epoch = epoch;
                slot_id = slot_id;
                level = level_name level;
                message = take 1023 formatted;
              }
              ∷ log.lines;
        }))
      ⊎ (((log.is_open ≡ false) ⊎ (level < log.log_level))
          × (log_messagef epoch slot_id level formatted log ≡ log))
unfolding log_messagef level_name
log_messagef_lem epoch slot_id level formatted log = ground arith

-- Where the file opens, initialising makes the log open and a second call, whatever the file does
-- then, succeeds and changes nothing; and after a close no message is written.
pub logging_lifecycle :
    (opens : Bool) (epoch slot_id level : ℕ) (message : List ℕ) (log : Log)
    → let opened = (logging_init true log).0 in
      let closed = logging_deinit opened in
      (opened.is_open ≡ true)
      × (logging_init opens opened ≡ (opened, LoggingResult.ok))
      × (closed.is_open ≡ false)
      × (log_message epoch slot_id level message closed ≡ closed)
unfolding logging_init logging_deinit log_message
logging_lifecycle opens epoch slot_id level message log = ground arith
