-- ===== src/Console/Tests.antt =====
-- The theorems on console_log.cpp at concrete messages.
use haier_protocol.Prelude.{ℕ, ◌≡◌, refl, [], replicate, length-replicate, arith}
use haier_protocol.Log.{codes, buffer_size}
use haier_protocol.Log.Placed.{InBounds}
use haier_protocol.Log.State.{level_warning, level_error}
use haier_protocol.Console.{
  Console, LocalTime, prefix, line_writes, print_line, console_logger, get_warnings_count,
}
use haier_protocol.Console.Line.{Shows, console_logger-Logs, line_writes-overruns}

abbrev noon : LocalTime
noon = record { tm_hour = 12; tm_min = 5; tm_sec = 0 }

abbrev fresh : Console
fresh = record { msg_buffer = replicate buffer_size 0; warnings_counter = 0; errors_counter = 2 }

prefix_lem : prefix noon level_warning (codes "Protocol") ≡ codes "[12:05:00][W][Protocol]: "
unfolding prefix
prefix_lem = refl

one_warning :
    get_warnings_count (console_logger noon level_warning (codes "Protocol") (codes "Late") fresh).0
    ≡ 1
unfolding console_logger print_line
one_warning = refl

console_logger-Logs_example :
    Shows noon level_warning
      (codes "Protocol")
      (codes "Late")
      (console_logger noon level_warning (codes "Protocol") (codes "Late") fresh)
console_logger-Logs_example =
    console_logger-Logs noon level_warning (codes "Protocol") (codes "Late") fresh
      (length-replicate {A = ℕ} buffer_size 0) (omega arith)

line_writes-overruns_example :
    ¬ InBounds buffer_size (line_writes noon level_error (replicate 4079 65) [])
line_writes-overruns_example =
    line_writes-overruns noon level_error (replicate 4079 65) []
      (omega (arith, length-replicate {A = ℕ} 4079 65))
      (omega (arith, length-replicate {A = ℕ} 4079 65))
