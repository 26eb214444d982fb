-- ===== src/Console.antt =====
-- tools/utils/console_log.cpp, `console_logger` and its counters, as they are built for Linux without
-- curses. What is printed is a list of characters.
pub mod Line
pub mod Tests
use haier_protocol.Prelude.{ℕ, ◌+◌, ◌/◌, ◌%◌, ◌^◌, List, [], ◌∷◌, ◌++◌, get_or, size_sub}
use haier_protocol.Log.{codes, Writes, buffer_size, shift, snprintf}
use haier_protocol.Log.State.{
  HaierLogLevel, level_none, level_error, level_warning, level_info, level_debug, level_verbose,
}
use haier_protocol.Log.Placed.{written}

-- The static variables. An `unsigned int` has 32 bits.
pub record Console : Type 0 where
  pub msg_buffer : List ℕ
  pub warnings_counter : ℕ
  pub errors_counter : ℕ

abbrev pub get_warnings_count : Console → ℕ
get_warnings_count c = c.warnings_counter

abbrev pub get_errors_count : Console → ℕ
get_errors_count c = c.errors_counter

-- The value of the enumerator.
abbrev pub level_number : HaierLogLevel → ℕ
level_number level_none = 0
level_number level_error = 1
level_number level_warning = 2
level_number level_info = 3
level_number level_debug = 5
level_number level_verbose = 6

abbrev pub ll2tag : List ℕ
ll2tag = codes "#EWI#DV"

-- The text of an escape sequence.
abbrev escape : List ℕ → List ℕ
escape text = 27 ∷ text

abbrev pub ll2color : List (List ℕ)
ll2color =
    escape (codes "[0m")
    ∷ escape (codes "[91m")
    ∷ escape (codes "[93m")
    ∷ escape (codes "[32m")
    ∷ escape (codes "[0m")
    ∷ escape (codes "[37m")
    ∷ escape (codes "[90m")
    ∷ []

-- `tm_hour`, `tm_min` and `tm_sec`, which `localtime` keeps below 100.
pub record LocalTime : Type 0 where
  pub tm_hour : ℕ
  pub tm_min : ℕ
  pub tm_sec : ℕ

-- `%02d`
abbrev pub two_digits : ℕ → List ℕ
two_digits n = (b'0' + n / 10) ∷ (b'0' + n % 10) ∷ []

-- "[%02d:%02d:%02d][%c][%s]: "
unfoldable pub prefix : LocalTime → HaierLogLevel → List ℕ → List ℕ
prefix now level tag =
    b'[' ∷ two_digits now.tm_hour
    ++ (b':' ∷ two_digits now.tm_min
        ++ (b':' ∷ two_digits now.tm_sec
            ++ (b']' ∷ b'[' ∷ get_or ll2tag (level_number level) 0 ∷ b']' ∷ b'[' ∷ tag
                ++ (b']' ∷ b':' ∷ b' ' ∷ []))))

abbrev pub count : HaierLogLevel → Console → Console
count level_warning c = record c { warnings_counter = (c.warnings_counter + 1) % 2 ^ 32 }
count level_error c = record c { errors_counter = (c.errors_counter + 1) % 2 ^ 32 }
count _ c = c

-- The writes to `msg_buffer`. `text` is the format with its arguments put in; the size that `vsnprintf`
-- is given is an `int` made a `size_t`.
unfoldable pub line_writes : LocalTime → HaierLogLevel → List ℕ → List ℕ → Writes
line_writes now level tag text =
    let (head, len) = snprintf (prefix now level tag) buffer_size in
    head ++ shift len (snprintf text (size_sub (size_sub buffer_size len) 1)).0

-- What goes to `std::cout`: the color, the buffer, whose text ends at its first 0, and the end.
pub record Printed : Type 0 where
  pub color : List ℕ
  pub line : List ℕ

unfoldable pub print_line :
    LocalTime → HaierLogLevel → List ℕ → List ℕ → Console → Console × List Printed
print_line now level tag text c =
    let buffer = written (line_writes now level tag text) c.msg_buffer in
    (
      record c { msg_buffer = buffer },
      record { color = get_or ll2color (level_number level) []; line = buffer } ∷ [],
    )

-- `console_logger`
unfoldable pub console_logger :
    LocalTime → HaierLogLevel → List ℕ → List ℕ → Console → Console × List Printed
console_logger now level_none tag text c = (c, [])
console_logger now level tag text c = print_line now level tag text (count level c)
