-- ===== src/Serial/Tests.antt =====
-- The theorem on serial_stream.cpp at a port that is a list of bytes.
use mathlib.Core.Option.{some-injective}
use haier_protocol.Prelude.{
  ℕ, ◌≤◌, subst, true, List, [], ◌∷◌, take, drop, length, length-take, replicate, some, arith,
}
use haier_protocol.Circular
use haier_protocol.Serial.{Port, SerialStream, serial_buffer_size}
use haier_protocol.Serial.Lossless.{SerialCall, call_available, call_read, call_write}

-- What can be read, and what was written.
abbrev pub memory_port : Port
memory_port = record {
  Device = List ℕ × List ℕ;
  read = λ d n. ((drop n d.0, d.1), some (take n d.0));
  write = λ d bytes. (d.0, bytes);
  read_le = λ d n bytes e.
      subst (λ l. length l ≤ n) (some-injective _ _ e) (omega (arith, length-take n d.0));
}

abbrev opened : SerialStream memory_port
opened = record {
  is_open = true;
  device = (10 ∷ 20 ∷ 30 ∷ [], []);
  buffer = Circular.make (replicate serial_buffer_size 0) serial_buffer_size;
}

abbrev some_calls : List SerialCall
some_calls =
    call_available ∷ call_read 2 ∷ call_write (1 ∷ 2 ∷ []) ∷ call_read 5 ∷ call_available ∷ []
