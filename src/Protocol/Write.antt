-- ===== src/Protocol/Write.antt =====
-- haier_protocol.cpp, `write_message_`: a message down to the bytes that the stream is given.
use haier_protocol.Prelude.{
  ℕ, ◌+◌, ◌≤◌, ◌<◌, ◌≡◌, sym, ap, ◌∙◌, Bool, true, false, List, [], ◌++◌, append-nil, arith, length,
  drop, drop_all, empty-length, ltb, ◌==◌, if◌then◌else◌, u8, Bool-cases, inl, inr, lt→ltb,
}
use haier_protocol.Message.{HaierMessage, get_buffer_size, fill_buffer}
use haier_protocol.Message.Payload.{
  payload, IsWellFormed, get_buffer_size-payload, fill_buffer-payload,
}
use haier_protocol.Frame.Build
use haier_protocol.Frame.Wire.{wire, wire-le}
use haier_protocol.Stream.{ProtocolStream}
use haier_protocol.Transport.Io.{send_data}
use haier_protocol.Transport.Send.{send_data_lem}
use haier_protocol.Protocol.State.{Protocol}
use haier_protocol.Protocol.Calls.{write_message}

-- `write_message_` gives the stream, in one call, the bytes on the wire of the frame that has the
-- message's type and, as its data, the message's subcommand and data, reports success and starts the
-- cooldown; this for a message whose size fits its data and whose frame has at most 233 bytes of data
-- and 255 on the wire. For more than 233 bytes of data it writes nothing and reports a failure, and
-- starts the cooldown all the same.
pub write_message_lem :
    (stream : ProtocolStream) (garbage : ℕ → List ℕ) (now : ℕ) (m : HaierMessage) (use_crc : Bool)
    (s : stream.State) (p : Protocol)
    → ((n : ℕ) → length (garbage n) ≡ n)
    → IsWellFormed m
    → let w = wire (Build.make m.frame_type (payload m) (length (payload m)) use_crc) in
      let cooled = record p { cooldown_time_point = now + p.cooldown_interval } in
      (length (payload m) ≤ 233
        → length w ≤ 255
        → write_message stream garbage now m use_crc s p ≡ (stream.write_array s w, cooled, true))
      × (233 < length (payload m)
          → write_message stream garbage now m use_crc s p ≡ (s, cooled, false))
unfolding write_message
write_message_lem stream garbage now m use_crc s p h v =
    let (short, long) = send_data_lem stream garbage s m.frame_type (payload m) use_crc h in
    let sends = ap (λ (r : stream.State × Bool). (r.0, cooled, r.1)) core in
    (
      λ few fits.
          let w = wire (Build.make m.frame_type (payload m) (length (payload m)) use_crc) in
          sends
          ∙ ap (λ r. (r.0, cooled, ltb 0 r.1)) (short few (omega arith))
          ∙ ap (λ b. (stream.write_array s w, cooled, b))
              (lt→ltb 0 (u8 (length w)) (
                omega (
                  arith,
                  wire-le (Build.make m.frame_type (payload m) (length (payload m)) use_crc),
                ))),
      λ many. sends ∙ ap (λ r. (r.0, cooled, ltb 0 r.1)) (long many),
    )
  where
    cooled : Protocol
    cooled = record p { cooldown_time_point = now + p.cooldown_interval }

    sent : List ℕ → stream.State × Bool
    sent bytes =
        let (s', n) = send_data stream garbage s m.frame_type bytes use_crc in (s', ltb 0 n)

    built : List ℕ × ℕ
    built = fill_buffer m (garbage (get_buffer_size m)) (get_buffer_size m)

    core :
        (if get_buffer_size m == 0
          then sent []
          else (if ltb 0 built.1 then sent built.0 else (s, false)))
        ≡ sent (payload m)
    core =
        let size = get_buffer_size-payload m v in
        let room : length (garbage (get_buffer_size m)) ≡ length (payload m) =
          h (get_buffer_size m) ∙ size in
        let whole =
          (fill_buffer-payload m (garbage (get_buffer_size m)) (get_buffer_size m) v
              (omega arith)).0
            (omega arith) in
        let none_left = drop_all (length (payload m)) (garbage (get_buffer_size m)) (omega arith) in
        elim (Bool-cases (get_buffer_size m == 0)) [
          | inl zero_size ↦
              let no_bytes = empty-length (payload m) (sym size ∙ ground (arith, zero_size)) in
              ap (λ b. if b then sent [] else (if ltb 0 built.1 then sent built.0 else (s, false)))
                zero_size
              ∙ ap sent (sym no_bytes)
          | inr some_size ↦
              let positive : 0 < length (payload m) = ground (arith, some_size, size) in
              ap (λ b. if b then sent [] else (if ltb 0 built.1 then sent built.0 else (s, false)))
                some_size
              ∙ (ap (λ r. if ltb 0 r.1 then sent r.0 else (s, false)) whole
                  ∙ (ap
                        (λ b.
                          if b
                          then sent
                              (payload m ++ drop (length (payload m)) (garbage (get_buffer_size m)))
                          else (s, false))
                        (lt→ltb 0 (length (payload m)) positive)
                      ∙ ap sent (ap (λ l. payload m ++ l) none_left ∙ append-nil (payload m))))
        ]
