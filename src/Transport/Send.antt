-- ===== src/Transport/Send.antt =====
-- `send_data` of protocol_transport.cpp, against the wire format.
use haier_protocol.Prelude.{
  ℕ, ◌≤◌, ◌<◌, ◌≡◌, ap, ◌∙◌, Bool, true, false, List, ◌++◌, arith, length, drop_all, append-nil,
  ltb, if◌then◌else◌, u8,
}
use haier_protocol.Frame.Build.{get_buffer_size}
use haier_protocol.Frame.Build
use haier_protocol.Frame.Fill.{fill_buffer}
use haier_protocol.Frame.Wire.{wire}
use haier_protocol.Frame.FillWire.{get_buffer_size_lem, fill_buffer_lem, make-IsWellFormed}
use haier_protocol.Stream.{ProtocolStream}
use haier_protocol.Transport.Io.{send_data}

-- `send_data` writes the bytes of the frame as they are on the wire, in one call, where these are at
-- most 256, and returns their number in a `uint8_t`, whatever the temporary buffer holds. Data of
-- more than 233 bytes is not sent, and 0 returned.
pub send_data_lem :
    (stream : ProtocolStream) (garbage : ℕ → List ℕ) (s : stream.State) (frame_type : ℕ)
    (bytes : List ℕ) (use_crc : Bool)
    → ((n : ℕ) → length (garbage n) ≡ n)
    → let w = wire (Build.make frame_type bytes (length bytes) use_crc) in
      (length bytes ≤ 233
        → length w ≤ 256
        → send_data stream garbage s frame_type bytes use_crc
          ≡ (stream.write_array s w, u8 (length w)))
      × (233 < length bytes → send_data stream garbage s frame_type bytes use_crc ≡ (s, 0))
unfolding send_data
send_data_lem stream garbage s frame_type bytes use_crc h = (
  λ short small.
      ap (λ b. if b then (s, 0) else sent (u8 (length bytes))) (fits short)
      ∙ (ap sent {y = length bytes} (omega arith) ∙ whole short small),
  λ long. ap (λ b. if b then (s, 0) else sent (u8 (length bytes))) (exceeds long),
)
  where
    sent : ℕ → stream.State × ℕ
    sent n =
        let frame = Build.make frame_type bytes n use_crc in
        let size = get_buffer_size frame in
        (stream.write_array s (fill_buffer frame (garbage size) size).0, u8 size)

    fits : length bytes ≤ 233 → ltb 233 (length bytes) ≡ false
    fits short = ground (arith, short)

    exceeds : 233 < length bytes → ltb 233 (length bytes) ≡ true
    exceeds long = ground (arith, long)

    whole :
        length bytes ≤ 233
        → length (wire (Build.make frame_type bytes (length bytes) use_crc)) ≤ 256
        → sent (length bytes) ≡ (
          stream.write_array s (wire (Build.make frame_type bytes (length bytes) use_crc)),
          u8 (length (wire (Build.make frame_type bytes (length bytes) use_crc))),
        )
    whole short small =
        let frame = Build.make frame_type bytes (length bytes) use_crc in
        let v = make-IsWellFormed frame_type bytes use_crc (omega arith) in
        let size = get_buffer_size_lem v in
        let room : length (garbage (length (wire frame))) ≡ length (wire frame) =
          h (length (wire frame)) in
        let filled =
          (fill_buffer_lem (garbage (length (wire frame))) (length (wire frame)) v small
              (omega (arith, room))).0
            (omega arith) in
        let none_left =
          drop_all (length (wire frame)) (garbage (length (wire frame))) (omega (arith, room)) in
        ap (λ n. (stream.write_array s (fill_buffer frame (garbage n) n).0, u8 n)) size
        ∙ (ap (λ r. (stream.write_array s r.0, u8 (length (wire frame)))) filled
            ∙ ap (λ l. (stream.write_array s l, u8 (length (wire frame))))
                (ap (λ l. wire frame ++ l) none_left ∙ append-nil (wire frame)))
