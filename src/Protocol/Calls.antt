-- ===== src/Protocol/Calls.antt =====
-- src/protocol/haier_protocol.cpp: writing a message, and the calls that a client makes.
use haier_protocol.Prelude.{
  ℕ, ◌+◌, min, Bool, true, false, List, [], ◌∷◌, ◌++◌, ltb, ◌==◌, if◌then◌else◌,
}
use haier_protocol.Message.{HaierMessage, get_buffer_size, fill_buffer}
use haier_protocol.Message
use haier_protocol.Stream.{ProtocolStream}
use haier_protocol.Transport.Io.{send_data}
use haier_protocol.Protocol.State.{
  Protocol, OutgoingQueueItem, Call, set_answer_timeout, set_cooldown_interval, send_message,
  send_message_without_answer, send_answer, send_answer_with, no_answer, set_message_handler,
  set_answer_handler, set_timeout_handler, remove_message_handler, remove_answer_handler,
  remove_timeout_handler, set_default_message_handler, set_default_answer_handler,
  set_default_timeout_handler, max_packet_retries, assign, erase,
}

abbrev pub enqueue : OutgoingQueueItem → Protocol → Protocol
enqueue item p = record p { outgoing_messages = p.outgoing_messages ++ item ∷ [] }

-- `send_message`; `num_repeats` is a `uint8_t`.
abbrev pub request : HaierMessage → Bool → ℕ → ℕ → OutgoingQueueItem
request message use_crc num_repeats interval = record {
  message = Message.copy message;
  use_crc = use_crc;
  no_answer = false;
  number_of_retries = min num_repeats max_packet_retries + 1;
  retry_interval = interval;
}

-- `send_message_without_answer`
abbrev pub notice : HaierMessage → Bool → OutgoingQueueItem
notice message use_crc = record {
  message = Message.copy message;
  use_crc = use_crc;
  no_answer = true;
  number_of_retries = 1;
  retry_interval = 0;
}

module _ (stream : ProtocolStream) (garbage : ℕ → List ℕ) where
  open stream use {State}

  -- `write_message_` at the time `now`: the stream, the handler, and whether it succeeded.
  unfoldable pub write_message :
      ℕ → HaierMessage → Bool → State → Protocol → State × Protocol × Bool
  write_message now message use_crc s p =
      let buf_size = get_buffer_size message in
      let (s, is_success) =
        if buf_size == 0
        then (let (s, n) = send_data stream garbage s message.frame_type [] use_crc in (s, ltb 0 n))
        else (let (buffer, n) = fill_buffer message (garbage buf_size) buf_size in
            if ltb 0 n
            then (let (s, n) = send_data stream garbage s message.frame_type buffer use_crc in
                (s, ltb 0 n))
            else (s, false)) in
      (s, record p { cooldown_time_point = now + p.cooldown_interval }, is_success)

  -- `send_answer`: only from a message handler.
  unfoldable pub answer : ℕ → HaierMessage → Bool → State → Protocol → State × Protocol
  answer now message use_crc s p =
      if p.processing_message
      then (let (s, p, sent) = write_message now message use_crc s p in
          (s, record p { answer_sent = sent }))
      else (s, p)

  -- One call of the client.
  unfoldable pub apply : Call → State → Protocol → State × Protocol
  unfolding answer
  apply (set_answer_timeout t) s p = (s, record p { answer_timeout_interval = t })
  apply (set_cooldown_interval t) s p = (s, record p { cooldown_interval = t })
  apply (send_message m use_crc repeats interval) s p =
      (s, enqueue (request m use_crc repeats interval) p)
  apply (send_message_without_answer m use_crc) s p = (s, enqueue (notice m use_crc) p)
  apply (send_answer now m) s p = answer now m p.incoming_message_crc_status s p
  apply (send_answer_with now m use_crc) s p = answer now m use_crc s p
  apply no_answer s p = (s, if p.processing_message then record p { answer_sent = true } else p)
  apply (set_message_handler k h) s p =
      (s, record p { message_handlers_map = assign k h p.message_handlers_map })
  apply (set_answer_handler k h) s p =
      (s, record p { answer_handlers_map = assign k h p.answer_handlers_map })
  apply (set_timeout_handler k h) s p =
      (s, record p { timeout_handlers_map = assign k h p.timeout_handlers_map })
  apply (remove_message_handler k) s p =
      (s, record p { message_handlers_map = erase k p.message_handlers_map })
  apply (remove_answer_handler k) s p =
      (s, record p { answer_handlers_map = erase k p.answer_handlers_map })
  apply (remove_timeout_handler k) s p =
      (s, record p { timeout_handlers_map = erase k p.timeout_handlers_map })
  apply (set_default_message_handler h) s p = (s, record p { default_message_handler = h })
  apply (set_default_answer_handler h) s p = (s, record p { default_answer_handler = h })
  apply (set_default_timeout_handler h) s p = (s, record p { default_timeout_handler = h })

  -- The calls that a handler makes, in order.
  unfoldable pub apply_all : List Call → State → Protocol → State × Protocol
  unfolding apply
  apply_all [] s p = (s, p)
  apply_all (c ∷ cs) s p = let (s, p) = apply c s p in apply_all cs s p
