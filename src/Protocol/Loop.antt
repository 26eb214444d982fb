-- ===== src/Protocol/Loop.antt =====
-- src/protocol/haier_protocol.cpp, `loop`: one turn of the protocol's state machine.
use haier_protocol.Prelude.{
  ℕ, ◌+◌, ◌-◌, true, false, ◌&&◌, List, [], ◌∷◌, Option, none, some, ltb, leb, ◌==◌, if◌then◌else◌,
}
use haier_protocol.Frame.Types.{HaierFrame}
use haier_protocol.Stream.{ProtocolStream}
use haier_protocol.Transport.State.{TimestampedFrame, available, pop, drop_frames}
use haier_protocol.Transport.Scan.{process_data}
use haier_protocol.Transport.Io.{read_data}
use haier_protocol.Protocol.State.{
  Protocol, ProtocolState, idle, waiting_for_answer, OutgoingQueueItem, Handler, by_default,
  by_client, handler_ok, unsupported_message, find, Reaction, Client,
}
use haier_protocol.Protocol.Calls.{write_message, apply_all}

abbrev pub found_or : Option Handler → Handler → Handler
found_or none d = d
found_or (some h) d = h

abbrev pub pop_front : Protocol → List OutgoingQueueItem → Protocol
pop_front p [] = p
pop_front p (_ ∷ rest) = record p { outgoing_messages = rest }

-- `outgoing_messages_.pop(); retry_time_point_ = now;`
abbrev pub finish_request : ℕ → Protocol → Protocol
finish_request now p = record (pop_front p p.outgoing_messages) { retry_time_point = now }

module _ (client : Client) where
  -- `default_message_handler` is the case `by_default`, and so for the two below.
  unfoldable pub run_message_handler : Handler → ℕ → List ℕ → Reaction
  run_message_handler by_default type bytes = ([], unsupported_message)
  run_message_handler (by_client i) type bytes = client.on_message i type bytes

  unfoldable pub run_answer_handler : Handler → ℕ → ℕ → List ℕ → Reaction
  run_answer_handler by_default request type bytes = ([], unsupported_message)
  run_answer_handler (by_client i) request type bytes = client.on_answer i request type bytes

  unfoldable pub run_timeout_handler : Handler → ℕ → Reaction
  run_timeout_handler by_default request = ([], handler_ok)
  run_timeout_handler (by_client i) request = client.on_timeout i request

module _ (stream : ProtocolStream) (garbage : ℕ → List ℕ) (client : Client) where
  open stream use {State}

  -- A message arrived while idle: its handler runs, and may answer.
  unfoldable pub handle_message : HaierFrame → State → Protocol → State × Protocol
  unfolding apply_all run_message_handler
  handle_message frame s p =
      let type = frame.frame_type in
      let handler = found_or (find type p.message_handlers_map) p.default_message_handler in
      let p = record p {
        incoming_message_crc_status = frame.use_crc;
        processing_message = true;
        answer_sent = false;
      } in
      let (calls, _) = run_message_handler client handler type frame.bytes in
      let (s, p) = apply_all stream garbage calls s p in
      (s, record p { processing_message = false })

  unfoldable pub handle_popped : Option TimestampedFrame → State → Protocol → State × Protocol
  unfolding handle_message
  handle_popped none s p = (s, p)
  handle_popped (some f) s p = handle_message f.frame s p

  -- All incoming messages but the last are dropped.
  unfoldable pub handle_incoming : State → Protocol → State × Protocol
  unfolding handle_popped
  handle_incoming s p =
      let count = available p.transport in
      let t = if ltb 1 count then drop_frames p.transport (count - 1) else p.transport in
      let (t, frame) = pop t in handle_popped frame s (record p { transport = t })

  -- The first outgoing message is due. `number_of_retries--` after the pop of a message without an
  -- answer writes to an element that is gone, and has no effect here.
  unfoldable pub send_front : ℕ → ℕ → List OutgoingQueueItem → State → Protocol → State × Protocol
  send_front now later [] s p = (s, p)
  send_front now later (msg ∷ rest) s p =
      if ltb 0 msg.number_of_retries
      then (let (s, p, sent) = write_message stream garbage later msg.message msg.use_crc s p in
          let tried = record msg { number_of_retries = msg.number_of_retries - 1 } ∷ rest in
          (
            s,
            if sent
                then (let p = record p { last_message_type = msg.message.frame_type } in
                    if msg.no_answer
                    then record p { outgoing_messages = rest; retry_time_point = now }
                    else record p {
                      outgoing_messages = tried;
                      state = waiting_for_answer;
                      answer_time_point = now + p.answer_timeout_interval;
                      retry_time_point = now + msg.retry_interval;
                    })
                else record p { outgoing_messages = tried },
          ))
      else (s, record p { outgoing_messages = rest; retry_time_point = now })

  unfoldable pub send_outgoing : ℕ → ℕ → State → Protocol → State × Protocol
  unfolding send_front
  send_outgoing now later s p =
      if leb p.cooldown_time_point now && leb p.retry_time_point now
      then send_front now later p.outgoing_messages s p
      else (s, p)

  -- Nothing came in time. Without retries left the request is given up and its handler told.
  unfoldable pub answer_timeout : ℕ → List OutgoingQueueItem → State → Protocol → State × Protocol
  unfolding apply_all run_timeout_handler
  answer_timeout now [] s p = (s, record p { state = idle })
  answer_timeout now (msg ∷ rest) s p =
      let type = p.last_message_type in
      let (s, p) =
        if msg.number_of_retries == 0
        then (let p = record p { outgoing_messages = rest; retry_time_point = now } in
            let handler = found_or (find type p.timeout_handlers_map) p.default_timeout_handler in
            let (calls, _) = run_timeout_handler client handler type in
            apply_all stream garbage calls s p)
        else (s, p) in
      (s, record p { state = idle })

  -- An answer arrived: its handler runs, then the request is done.
  unfoldable pub handle_answer : ℕ → Option TimestampedFrame → State → Protocol → State × Protocol
  unfolding apply_all run_answer_handler
  handle_answer now none s p = (s, p)
  handle_answer now (some f) s p =
      let type = p.last_message_type in
      let handler = found_or (find type p.answer_handlers_map) p.default_answer_handler in
      let (calls, _) = run_answer_handler client handler type f.frame.frame_type f.frame.bytes in
      let (s, p) = apply_all stream garbage calls s p in
      (s, record (finish_request now p) { state = idle })

  unfoldable pub wait_answer : ℕ → State → Protocol → State × Protocol
  unfolding answer_timeout handle_answer
  wait_answer now s p =
      if ltb p.answer_time_point now
      then answer_timeout now p.outgoing_messages s p
      else (let (t, frame) = pop p.transport in
          handle_answer now frame s (record p { transport = t }))

  -- the `switch` of `loop`
  unfoldable pub dispatch : ℕ → ℕ → ProtocolState → State → Protocol → State × Protocol
  unfolding handle_incoming send_outgoing wait_answer
  dispatch now later idle s p = let (s, p) = handle_incoming s p in send_outgoing now later s p
  dispatch now later waiting_for_answer s p = wait_answer now s p

  -- `loop`: bytes are read and scanned, then the state machine takes a step. `now` is the time that
  -- `loop` asks for, `before` and `later` those of the calls within.
  unfoldable pub loop : ℕ → ℕ → ℕ → State → Protocol → Option (State × Protocol)
  unfolding dispatch
  loop before now later s p =
      let (s, t, _) = read_data stream s p.transport in
      elim (process_data before t) [
        | none ↦ none
        | some t ↦ let p = record p { transport = t } in some (dispatch now later p.state s p)
      ]
