-- ===== src/Log/Tests.antt =====
-- Runs of src/utils/haier_log.cpp, and its theorems at concrete bytes.
use haier_protocol.Prelude.{
  ℕ, ◌≡◌, refl, List, [], ◌∷◌, replicate, All, All-replicate, IsByte, none, some, ◌++◌, arith, inr,
}
use haier_protocol.Log.{codes, hex_map, buf_to_hex, print_buf, buffer_size, log_haier_buffers}
use haier_protocol.Log.Text.{joined, buf_to_hex-joined}
use haier_protocol.Log.Placed.{InBounds, written}
use haier_protocol.Log.Print.{Printed, print_buf-Printed}
use haier_protocol.Log.Bounds.{log_haier_buffers-InBounds}
use haier_protocol.Log.Overrun.{log_haier_buffers-overruns}

abbrev three_bytes : List ℕ
three_bytes = 0xff ∷ 0xff ∷ 0x0a ∷ []

three_bytes-IsByte : All IsByte three_bytes
three_bytes-IsByte = (omega arith, (omega arith, (omega arith, tt)))

three_bytes_text : joined three_bytes ≡ codes "FF FF 0A"
three_bytes_text = refl

buf_to_hex-joined_example : buf_to_hex three_bytes ≡ joined three_bytes
buf_to_hex-joined_example = buf_to_hex-joined three_bytes three_bytes-IsByte (omega arith)

-- Eight characters are enough for one byte and the points.
cut_text : written (print_buf three_bytes 8).0 (replicate 8 b'x') ≡ codes "FF ..." ++ 0 ∷ b'x' ∷ []
unfolding print_buf written hex_map
cut_text = refl

print_buf-Printed_example : Printed three_bytes 8 (print_buf three_bytes 8)
print_buf-Printed_example =
    print_buf-Printed 0xff (0xff ∷ 0x0a ∷ []) 8 three_bytes-IsByte (omega arith) (omega arith)

log_haier_buffers-InBounds_example :
    InBounds buffer_size
      (log_haier_buffers (some (codes "Received data:")) three_bytes three_bytes).0
log_haier_buffers-InBounds_example =
    log_haier_buffers-InBounds (some (codes "Received data:")) three_bytes three_bytes
      three_bytes-IsByte three_bytes-IsByte (omega arith) (omega arith) (inr (omega arith))

log_haier_buffers-overruns_example :
    ¬ InBounds buffer_size (log_haier_buffers none (replicate 1364 0) three_bytes).0
log_haier_buffers-overruns_example =
    log_haier_buffers-overruns (replicate 1364 0) three_bytes
      (All-replicate IsByte 1364 0 (omega arith)) (omega arith) (omega arith) (omega arith)
      (omega arith)
