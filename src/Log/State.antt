-- ===== src/Log/State.antt =====
-- src/utils/haier_log.cpp: the log handler, and what it is given.
use haier_protocol.Prelude.{ℕ, List, [], ◌∷◌, Option, none, some}
use haier_protocol.Log.{Writes, buffer_size, log_haier_buffers}
use haier_protocol.Log.Placed.{written}

pub data HaierLogLevel : Type 0 where
  level_none level_error level_warning level_info level_debug level_verbose : HaierLogLevel

-- `msg_buffer`, and `global_log_handler` as one of the client's functions, or null.
pub record Log : Type 0 where
  pub msg_buffer : List ℕ
  pub global_log_handler : Option ℕ

abbrev pub set_log_handler : ℕ → Log → Log
set_log_handler handler log = record log { global_log_handler = some handler }

abbrev pub reset_log_handler : Log → Log
reset_log_handler log = record log { global_log_handler = none }

-- A call of a log handler: which, the level, and the buffer that it is given.
abbrev pub Logged : Type 0
Logged = ℕ × HaierLogLevel × List ℕ

-- What both functions do with the writes and the result that they make: nothing without a handler.
abbrev pub emit : HaierLogLevel → Writes × ℕ → Option ℕ → List ℕ → List ℕ × ℕ × List Logged
emit level_none r handler buffer = (buffer, 0, [])
emit level r none buffer = (buffer, 0, [])
emit level (writes, res) (some handler) buffer =
    let buffer = written writes buffer in (buffer, res, (handler, level, buffer) ∷ [])

module _ (vsnprintf : List ℕ → ℕ → Writes × ℕ) where
  -- `log_haier`. The argument formats a text into a buffer of a size, as `vsnprintf` does with the
  -- arguments that follow.
  abbrev pub log_haier : HaierLogLevel → List ℕ → Log → List ℕ × ℕ × List Logged
  log_haier level format log =
      emit level (vsnprintf format buffer_size) log.global_log_handler log.msg_buffer

-- The whole `log_haier_buffers`.
abbrev pub log_buffers :
    HaierLogLevel → Option (List ℕ) → List ℕ → List ℕ → Log → List ℕ × ℕ × List Logged
log_buffers level header buffer1 buffer2 log =
    emit level (log_haier_buffers header buffer1 buffer2) log.global_log_handler log.msg_buffer
