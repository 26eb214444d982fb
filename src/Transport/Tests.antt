-- ===== src/Transport/Tests.antt =====
-- The theorems on protocol_transport.cpp at concrete bytes and a stream that is two lists.
use haier_protocol.Prelude.{
  get_or, ap, ℕ, ◌-◌, ◌≤◌, ◌<◌, ◌≡◌, inl, refl, min, true, false, List, [], ◌∷◌, ◌++◌, map, length,
  take, drop, some, replicate, length-replicate, arith, u8, All,
}
use haier_protocol.Circular.{Circular, IsValid, get_size, get_space, index}
use haier_protocol.Circular.Contents.{contents}
use haier_protocol.Frame.Types.{HaierFrame, empty_frame}
use haier_protocol.Frame.Build.{header_accounts, data_accounts}
use haier_protocol.Frame.Build
use haier_protocol.Frame.Checksums.{crc16_byte, crc_table}
use haier_protocol.Frame.Wire.{wire, body_of}
use haier_protocol.Stream.{ProtocolStream}
use haier_protocol.Transport.State.{Transport}
use haier_protocol.Transport.Scan.{process_data, unescape_loop}
use haier_protocol.Transport.Io.{send_data, read_data}
use haier_protocol.Transport.Total.{IsReady, Looked, process_data_total}
use haier_protocol.Transport.Unescape.{unescape_loop-escape}
use haier_protocol.Transport.Line.{Piece, sent, spoiled, line, IsPiece}
use haier_protocol.Transport.Taken.{IsSent, stamped, wires}
use haier_protocol.Transport.Frames.{AtRest, process_data_line, Recovers}
use haier_protocol.Transport.Feed.{read_data_lem}
use haier_protocol.Transport.Deliver.{read_data-process_data}
use haier_protocol.Transport.Send.{send_data_lem}

-- What can be read, and what was written.
abbrev pub memory : ProtocolStream
memory = record {
  State = List ℕ × List ℕ;
  available = λ s. length s.0;
  read_array = λ s n. ((drop n s.0, s.1), take n s.0);
  write_array = λ s bytes. (s.0, s.1 ++ bytes);
  unread = λ s. s.0;
  available_lem = λ s. refl;
  read_array_lem = λ s n. (refl, refl);
}

-- A ring of 128 bytes that holds the bytes given, from its start on.
abbrev pub holding : List ℕ → Circular
holding bytes = record {
  is_empty = false;
  capacity = 128;
  buffer = bytes ++ replicate (128 - length bytes) 0;
  head = 0;
  tail = length bytes;
}

abbrev pub handler : Circular → Transport
handler c = record {
  buffer = c;
  pos = 0;
  sep_count = 0;
  frame_start_found = false;
  current_frame = empty_frame;
  frame_start = 0;
  incoming_queue = [];
}

abbrev pub some_bytes : List ℕ
some_bytes = 0x12 ∷ 0xff ∷ 0xff ∷ 0x0a ∷ []

some_bytes-IsValid : IsValid (holding some_bytes)
some_bytes-IsValid = record {
  storage = refl;
  large = omega arith;
  small = omega arith;
  head_in = omega arith;
  tail_in = omega arith;
  empty_at = λ e. cc;
}

pub some_bytes-IsReady : IsReady (handler (holding some_bytes))
some_bytes-IsReady = record {
  valid = some_bytes-IsValid;
  sep_le = omega arith;
  searching = λ e. refl;
  incomplete = λ e. cc;
}

process_data_total_example :
    (t' : Transport) × (process_data 1000 (handler (holding some_bytes)) ≡ some t')
    × IsReady t'
    × Looked (handler (holding some_bytes)) t'
process_data_total_example =
    process_data_total 1000 (handler (holding some_bytes)) some_bytes-IsReady

read_data_lem_example :
    let t = handler (holding some_bytes) in
    let (s', t', n) = read_data memory (1 ∷ 2 ∷ [], []) t in
    (n ≡ min 128 2)
    × IsReady t'
    × (contents t'.buffer
        ≡ drop (n - get_space t.buffer) (contents t.buffer) ++ take n (1 ∷ 2 ∷ []))
    × (s'.0 ≡ drop n (1 ∷ 2 ∷ []))
    × (t'.incoming_queue ≡ [])
read_data_lem_example =
    read_data_lem memory (1 ∷ 2 ∷ [], []) (handler (holding some_bytes)) some_bytes-IsReady

abbrev zeros : ℕ → List ℕ
zeros n = replicate n 0

length-zeros : (n : ℕ) → length (zeros n) ≡ n
length-zeros n = length-replicate n 0

send_data_lem_example :
    let w = wire (Build.make 1 (0xff ∷ 0x10 ∷ []) 2 true) in
    (2 ≤ 233
      → length w ≤ 256
      → send_data memory zeros ([], []) 1 (0xff ∷ 0x10 ∷ []) true ≡ (([], w), u8 (length w)))
    × (233 < 2 → send_data memory zeros ([], []) 1 (0xff ∷ 0x10 ∷ []) true ≡ (([], []), 0))
send_data_lem_example = send_data_lem memory zeros ([], []) 1 (0xff ∷ 0x10 ∷ []) true length-zeros

abbrev escaped : Circular
escaped = holding (0xff ∷ 0x55 ∷ 0x10 ∷ [])

unescape_loop-escape_example : unescape_loop escaped 3 0 ≡ (true, 0xff ∷ 0x10 ∷ [], 3)
unescape_loop-escape_example =
    unescape_loop-escape escaped 0 (0xff ∷ 0x10 ∷ []) (unfold index in (refl, (refl, (refl, tt))))
      (inl refl)

abbrev pub plain : HaierFrame
plain = Build.make 1 (0x10 ∷ []) 1 false

-- Its data is a 0xFF, and the CRC is on.
abbrev pub doubled : HaierFrame
doubled = Build.make 2 (0xff ∷ []) 1 true

abbrev both_wires : List ℕ
both_wires =
    0xff ∷ 0xff ∷ 9 ∷ 0 ∷ 0 ∷ 0 ∷ 0 ∷ 0 ∷ 0 ∷ 1 ∷ 0x10 ∷ 0x1a ∷ 0xff ∷ 0xff ∷ 9 ∷ 0x40 ∷ 0 ∷ 0 ∷ 0
    ∷ 0 ∷ 0 ∷ 2 ∷ 0xff ∷ 0x55 ∷ 0x9f ∷ 64 ∷ 47 ∷ []

both_wires_lem : contents (holding both_wires) ≡ wires (plain ∷ doubled ∷ [])
unfolding get_size wire Build.make header_accounts data_accounts crc16_byte crc_table
both_wires_lem = refl

both-IsSent : All IsSent (plain ∷ doubled ∷ [])
both-IsSent = (
  record { frame_type = 1; bytes = 0x10 ∷ []; use_crc = false; short = omega arith; made = refl },
  (
    record { frame_type = 2; bytes = 0xff ∷ []; use_crc = true; short = omega arith; made = refl },
    tt,
  ),
)

both_wires-IsValid : IsValid (holding both_wires)
both_wires-IsValid = record {
  storage = refl;
  large = omega arith;
  small = omega arith;
  head_in = omega arith;
  tail_in = omega arith;
  empty_at = λ e. cc;
}

-- Noise, a frame, a frame whose checksum is wrong, more noise, another frame, and a 0xFF at the end.
abbrev pub noisy_pieces : List Piece
noisy_pieces =
    sent (1 ∷ 0xff ∷ 2 ∷ 0xff ∷ []) plain
    ∷ spoiled [] 1 1 false (0x10 ∷ 0x1b ∷ [])
    ∷ sent (7 ∷ []) doubled
    ∷ []

abbrev pub noisy_wires : List ℕ
noisy_wires =
    1 ∷ 0xff ∷ 2 ∷ 0xff ∷ 0xff ∷ 0xff ∷ 9 ∷ 0 ∷ 0 ∷ 0 ∷ 0 ∷ 0 ∷ 0 ∷ 1 ∷ 0x10 ∷ 0x1a ∷ 0xff ∷ 0xff
    ∷ 9 ∷ 0 ∷ 0 ∷ 0 ∷ 0 ∷ 0 ∷ 0 ∷ 1 ∷ 0x10 ∷ 0x1b ∷ 7 ∷ 0xff ∷ 0xff ∷ 9 ∷ 0x40 ∷ 0 ∷ 0 ∷ 0 ∷ 0 ∷ 0
    ∷ 2 ∷ 0xff ∷ 0x55 ∷ 0x9f ∷ 64 ∷ 47 ∷ 3 ∷ 0xff ∷ []

noisy_wires_lem : contents (holding noisy_wires) ≡ line noisy_pieces ++ 3 ∷ 0xff ∷ []
unfolding get_size wire Build.make header_accounts data_accounts crc16_byte crc_table
noisy_wires_lem = refl

pub noisy_wires-IsValid : IsValid (holding noisy_wires)
noisy_wires-IsValid = record {
  storage = refl;
  large = omega arith;
  small = omega arith;
  head_in = omega arith;
  tail_in = omega arith;
  empty_at = λ e. cc;
}

made_trailer : get_or (body_of (Build.make 1 (0x10 ∷ []) 1 false)) 1 0 ≡ 0x1a
unfolding Build.make header_accounts data_accounts crc16_byte crc_table
made_trailer = refl

pub noisy-IsPiece : All IsPiece noisy_pieces
noisy-IsPiece =
    let (one, (other, _)) = both-IsSent in
    (
      (
        (λ h. omega arith, (λ h. absurd (h refl), (λ h. omega arith, (λ h. absurd (h refl), tt)))),
        one,
      ),
      (
        (
          tt,
          record {
            short = omega arith;
            bytes = (omega arith, (omega arith, tt));
            count = refl;
            differs = λ e. omega (arith, ap (λ l. get_or l 1 0) e, made_trailer);
          },
        ),
        (((λ h. omega arith, tt), other), tt),
      ),
    )

process_data_line_example :
    let t = handler (holding noisy_wires) in
    (t' : Transport) × (process_data 1000 t ≡ some t') × Recovers t t' (plain ∷ doubled ∷ []) 1
process_data_line_example =
    process_data_line 1000 (handler (holding noisy_wires)) noisy_pieces (3 ∷ 0xff ∷ []) refl
      noisy_wires-IsValid noisy-IsPiece (λ h. omega arith, (λ h. absurd (h refl), tt))
      noisy_wires_lem

abbrev pub empty_ring : Circular
empty_ring = record {
  is_empty = true;
  capacity = 128;
  buffer = replicate 128 0;
  head = 5;
  tail = 5;
}

pub empty_ring-IsReady : IsReady (handler empty_ring)
empty_ring-IsReady = record {
  valid = record {
    storage = refl;
    large = omega arith;
    small = omega arith;
    head_in = omega arith;
    tail_in = omega arith;
    empty_at = λ e. refl;
  };
  sep_le = omega arith;
  searching = λ e. refl;
  incomplete = λ e. cc;
}

streamed : both_wires ≡ wires (plain ∷ doubled ∷ [])
unfolding wire Build.make header_accounts data_accounts crc16_byte crc_table
streamed = refl

streamed-le : length (wires (plain ∷ doubled ∷ [])) ≤ 128
streamed-le = rw⁻¹ streamed (omega arith)

read_data-process_data_example :
    let (s', t1, n) = read_data memory (both_wires, []) (handler empty_ring) in
    (t' : Transport) × (process_data 1000 t1 ≡ some t')
    × (t'.incoming_queue ≡ map (stamped 0) (plain ∷ doubled ∷ []))
    × (s'.0 ≡ [])
    × (get_size t'.buffer ≡ 0)
    × AtRest t'
read_data-process_data_example =
    read_data-process_data memory 1000 (both_wires, []) (handler empty_ring) (plain ∷ doubled ∷ [])
      empty_ring-IsReady refl (unfold get_size in refl) both-IsSent streamed streamed-le

abbrev queued : Transport
queued = record (handler empty_ring) { incoming_queue = stamped 1 plain ∷ stamped 2 doubled ∷ [] }
