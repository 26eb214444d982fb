-- ===== src/VirtualStream.antt =====
-- test/utils/virtual_stream.h and virtual_stream.cpp: two rings that make a line between two protocol
-- handlers, each end of which is a stream.
use haier_protocol.Prelude.{
  ℕ, ◌≤◌, ◌≡◌, sym, ap, ◌∙◌, inl, inr, List, take, drop, take_all, drop_all, min, arith, length,
  Bool-cases, leb,
}
use haier_protocol.Circular.{Circular, IsValid, get_size, push_all}
use haier_protocol.Circular
use haier_protocol.Circular.Contents.{contents, length-contents}
use haier_protocol.Circular.Append.{push_all_lem}
use haier_protocol.Circular.Remove.{pop_lem}
use haier_protocol.Stream.{ProtocolStream}

-- A ring as its operations keep it.
abbrev pub Ring : Type 0
Ring = (c : Circular) × IsValid c

-- An end of the line, with the rings that it refers to.
pub record VirtualStream : Type 0 where
  pub tx_buffer : Ring
  pub rx_buffer : Ring

abbrev pub available : VirtualStream → ℕ
available s = get_size s.rx_buffer.0

abbrev pub read_array : VirtualStream → ℕ → VirtualStream × List ℕ
read_array s len =
    let (c, v) = s.rx_buffer in
    let popped = Circular.pop c len in
    (record s { rx_buffer = (popped.0, (pop_lem len v).1.valid) }, popped.1)

abbrev pub write_array : VirtualStream → List ℕ → VirtualStream
write_array s bytes =
    let (c, v) = s.tx_buffer in
    record s { tx_buffer = ((push_all c bytes).0, (push_all_lem bytes v).1.valid) }

-- `VirtualStreamHolder`: the two rings, and the end in each direction.
pub data StreamDirection : Type 0 where
  direction_a direction_b : StreamDirection

abbrev pub get_stream_reference : StreamDirection → Ring → Ring → VirtualStream
get_stream_reference direction_a first second = record { tx_buffer = first; rx_buffer = second }
get_stream_reference direction_b first second = record { tx_buffer = second; rx_buffer = first }

-- What one end has written the other one reads.
abbrev pub other_end : VirtualStream → VirtualStream
other_end s = record { tx_buffer = s.rx_buffer; rx_buffer = s.tx_buffer }

abbrev pub unread : VirtualStream → List ℕ
unread s = contents s.rx_buffer.0

take_least : (n : ℕ) (l : List ℕ) → take (min n (length l)) l ≡ take n l
take_least n l = elim (Bool-cases (leb (length l) n)) [
  | inl large ↦
      let h : length l ≤ n = ground (arith, large) in
      ap (λ k. take k l) {y = length l} (omega arith)
      ∙ (take_all (length l) l (omega arith) ∙ sym (take_all n l h))
  | inr small ↦ ap (λ k. take k l) (ground (arith, small))
]

drop_least : (n : ℕ) (l : List ℕ) → drop (min n (length l)) l ≡ drop n l
drop_least n l = elim (Bool-cases (leb (length l) n)) [
  | inl large ↦
      let h : length l ≤ n = ground (arith, large) in
      ap (λ k. drop k l) {y = length l} (omega arith)
      ∙ (drop_all (length l) l (omega arith) ∙ sym (drop_all n l h))
  | inr small ↦ ap (λ k. drop k l) (ground (arith, small))
]

pub available_lem : (s : VirtualStream) → available s ≡ length (unread s)
available_lem s = sym (length-contents s.rx_buffer.0)

pub read_array_lem :
    (s : VirtualStream) (n : ℕ)
    → let (s', bytes) = read_array s n in
      (bytes ≡ take n (unread s)) × (unread s' ≡ drop n (unread s))
read_array_lem s n =
    let (items, drops) = pop_lem n s.rx_buffer.1 in
    let l = unread s in
    let least = ap (min n) (available_lem s) in
    (
      items ∙ ap (λ k. take k l) least ∙ take_least n l,
      drops.bytes ∙ ap (λ k. drop k l) least ∙ drop_least n l,
    )

-- An end of the line is a stream as the interface promises it.
abbrev pub virtual_stream : ProtocolStream
virtual_stream = record {
  State = VirtualStream;
  available = available;
  read_array = read_array;
  write_array = write_array;
  unread = unread;
  available_lem = available_lem;
  read_array_lem = read_array_lem;
}
