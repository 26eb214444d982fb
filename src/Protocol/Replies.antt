-- ===== src/Protocol/Replies.antt =====
-- haier_protocol.cpp, `loop` on an idle handler that receives a message and answers it.
use haier_protocol.Prelude.{
  ℕ, ◌+◌, ◌≤◌, ◌≡◌, refl, ap, ◌∙◌, Bool, true, false, List, [], ◌∷◌, ◌++◌, length, some, if_false,
  ltb, leb, ◌&&◌, or_else,
}
use haier_protocol.Message.{HaierMessage}
use haier_protocol.Message.Payload.{payload, IsWellFormed}
use haier_protocol.Frame.Types.{HaierFrame}
use haier_protocol.Frame.Build
use haier_protocol.Frame.Wire.{wire}
use haier_protocol.Stream.{ProtocolStream}
use haier_protocol.Transport.State.{Transport, TimestampedFrame, pop, pop_queue}
use haier_protocol.Transport.Io.{read_data}
use haier_protocol.Transport.Total.{IsReady}
use haier_protocol.Transport.Taken.{IsSent, stamped, wires}
use haier_protocol.Protocol.State.{
  Protocol, idle, Client, Reaction, by_client, find, send_answer, handler_ok,
}
use haier_protocol.Protocol.Calls.{apply_all}
use haier_protocol.Protocol.Write.{write_message_lem}
use haier_protocol.Protocol.Reads.{IsCalm, loop-reads}
use haier_protocol.Protocol.Loop.{
  found_or, run_message_handler, handle_message, handle_popped, handle_incoming, send_front,
  send_outgoing, dispatch, loop,
}

-- A message that the wire can carry in one frame.
pub record IsCarried (m : HaierMessage) (use_crc : Bool) : Type 0 where
  pub well_formed : IsWellFormed m
  pub few : length (payload m) ≤ 233
  pub fits : length (wire (Build.make m.frame_type (payload m) (length (payload m)) use_crc)) ≤ 255

-- The bytes of a message on the wire.
abbrev pub message_wire : HaierMessage → Bool → List ℕ
message_wire m use_crc = wire (Build.make m.frame_type (payload m) (length (payload m)) use_crc)

-- The handler of a message's type makes one call, an answer.
pub record Answers (client : Client) (now : ℕ) (m : HaierMessage) (f : HaierFrame) (p : Protocol)
    : Type 0 where
  pub number : ℕ
  pub found : find f.frame_type p.message_handlers_map ≡ some (by_client number)
  pub reaction :
      client.on_message number f.frame_type f.bytes ≡ (send_answer now m ∷ [], handler_ok)

-- the protocol handler after the answer
abbrev pub replied : ℕ → HaierFrame → Protocol → Protocol
replied now f p = record p {
  incoming_message_crc_status = f.use_crc;
  processing_message = false;
  answer_sent = true;
  cooldown_time_point = now + p.cooldown_interval;
}

pub received-IsReady : (t : Transport) → IsReady t → IsReady (record t { incoming_queue = [] })
received-IsReady t r = record {
  valid = r.valid;
  sep_le = r.sep_le;
  searching = r.searching;
  incomplete = r.incomplete;
}

module _ (stream : ProtocolStream) (garbage : ℕ → List ℕ) where
  open stream use {State, unread}

  pub handle_incoming-one :
      (client : Client) (s : State) (p : Protocol) (x : TimestampedFrame)
      → p.transport.incoming_queue ≡ x ∷ []
      → handle_incoming stream garbage client s p
        ≡ handle_message stream garbage client x.frame s
            (record p { transport = record p.transport { incoming_queue = [] } })
  unfolding handle_incoming handle_popped pop
  handle_incoming-one client s p x e =
      ap
        (λ t.
          let (t, frame) = pop t in
          handle_popped stream garbage client frame s (record p { transport = t }))
        (if_false _ _ (ap (λ q. ltb 1 (length q)) e))
      ∙ ap
          (λ q.
            let (t, frame) = pop_queue q p.transport in
            handle_popped stream garbage client frame s (record p { transport = t }))
          e

  pub send_outgoing-nothing :
      (client : Client) (now later : ℕ) (s : State) (p : Protocol)
      → p.outgoing_messages ≡ []
      → send_outgoing stream garbage client now later s p ≡ (s, p)
  unfolding send_outgoing send_front
  send_outgoing-nothing client now later s p e =
      or_else {A = State × Protocol} (λ r. r ≡ (s, p))
        (leb p.cooldown_time_point now && leb p.retry_time_point now)
        (ap (λ q. send_front stream garbage client now later q s p) e) refl

  handle_message-reply :
      (client : Client) (now : ℕ) (m : HaierMessage) (f : HaierFrame) (s : State) (p : Protocol)
      → ((n : ℕ) → length (garbage n) ≡ n)
      → Answers client now m f p
      → IsCarried m f.use_crc
      → handle_message stream garbage client f s p
        ≡ (stream.write_array s (message_wire m f.use_crc), replied now f p)
  unfolding handle_message run_message_handler apply_all
  handle_message-reply client now m f s p h a c =
      let processing : Protocol = record p {
        incoming_message_crc_status = f.use_crc;
        processing_message = true;
        answer_sent = false;
      } in
      let after : State × Protocol → State × Protocol =
        λ r. (r.0, record r.1 { processing_message = false }) in
      let written =
        (write_message_lem stream garbage now m f.use_crc s processing h c.well_formed).0 c.few
          c.fits in
      ap
        (λ o. after (
          apply_all stream garbage
            (run_message_handler client (found_or o p.default_message_handler) f.frame_type
              f.bytes).0
            s processing))
        a.found
      ∙ ap (λ (r : Reaction). after (apply_all stream garbage r.0 s processing)) a.reaction
      ∙ ap
          (λ (r : State × Protocol × Bool).
            (r.0, record r.1 { answer_sent = r.2; processing_message = false }))
          written

  -- A turn on a line that carries one message answers it.
  pub loop-replies :
      (client : Client) (before now later : ℕ) (s : State) (p : Protocol) (m : HaierMessage)
      (f : HaierFrame)
      → ((n : ℕ) → length (garbage n) ≡ n)
      → IsCalm p.transport
      → p.transport.incoming_queue ≡ []
      → p.state ≡ idle
      → p.outgoing_messages ≡ []
      → Answers client now m f p
      → IsCarried m f.use_crc
      → IsSent f
      → unread s ≡ wires (f ∷ [])
      → length (wires (f ∷ [])) ≤ p.transport.buffer.capacity
      → let s' = (read_data stream s p.transport).0 in
        (t : Transport) × IsCalm t
        × (t.incoming_queue ≡ [])
        × (unread s' ≡ [])
        × (loop stream garbage client before now later s p
            ≡ some (
              stream.write_array s' (message_wire m f.use_crc),
              replied now f (record p { transport = t }),
            ))
  unfolding dispatch
  loop-replies client before now later s p m f h calm none_yet idles nothing a c sent held fits =
      let (t1, calm1, frames, _, drained, reads) =
        loop-reads stream garbage client before now later s p (f ∷ []) calm (sent, tt) held fits in
      let x = stamped p.transport.frame_start f in
      let one : t1.incoming_queue ≡ x ∷ [] = frames ∙ ap (λ q. q ++ x ∷ []) none_yet in
      let t = record t1 { incoming_queue = [] } in
      let s' = (read_data stream s p.transport).0 in
      let q = record p { transport = t } in
      let answered : State × Protocol =
        (stream.write_array s' (message_wire m f.use_crc), replied now f q) in
      (
        t,
        record {
          ready = received-IsReady t1 calm1.ready;
          rest = ap (λ (u : Transport). record u { incoming_queue = [] }) calm1.rest;
          empty = calm1.empty;
        },
        refl,
        drained,
        reads
            ∙ ap
                (λ state.
                  some (
                    dispatch stream garbage client now later state s'
                      (record p { transport = t1 })))
                idles
            ∙ ap
                (λ (r : State × Protocol).
                  some (send_outgoing stream garbage client now later r.0 r.1))
                (handle_incoming-one client s' (record p { transport = t1 }) x one
                  ∙ handle_message-reply client now m f s' q h
                      (record { number = a.number; found = a.found; reaction = a.reaction }) c)
            ∙ ap some (send_outgoing-nothing client now later answered.0 answered.1 nothing),
      )
