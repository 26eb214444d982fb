-- ===== src/Protocol/Answered.antt =====
-- haier_protocol.cpp, `loop` on a request whose answer arrives: from the stream's bytes to the client.
use haier_protocol.Prelude.{
  ℕ, ◌≤◌, ◌≡◌, refl, ap, ◌∙◌, false, List, [], ◌∷◌, ◌++◌, arith, length, some, if_false, All, ltb,
}
use haier_protocol.Frame.Types.{HaierFrame}
use haier_protocol.Circular.{get_size}
use haier_protocol.Stream.{ProtocolStream}
use haier_protocol.Transport.State.{Transport, TimestampedFrame, pop, pop_queue}
use haier_protocol.Transport.Io.{read_data}
use haier_protocol.Transport.Total.{IsReady}
use haier_protocol.Transport.Taken.{IsSent, stamped, wires}
use haier_protocol.Transport.Frames.{AtRest}
use haier_protocol.Protocol.State.{
  Protocol, idle, waiting_for_answer, OutgoingQueueItem, Client, Call, find,
}
use haier_protocol.Protocol.Calls.{apply_all}
use haier_protocol.Protocol.Called.{IsLimited, apply_all-Called}
use haier_protocol.Protocol.Reads.{loop-reads}
use haier_protocol.Protocol.Silent.{apply_all-silent}
use haier_protocol.Protocol.Loop.{
  found_or, run_answer_handler, pop_front, finish_request, handle_answer, wait_answer, dispatch,
  loop,
}

module _ (stream : ProtocolStream) (garbage : ℕ → List ℕ) (client : Client) where
  open stream use {State, unread}

  -- the calls of the handler that is set for the request's type, or of the default one
  abbrev pub answer_calls : HaierFrame → Protocol → List Call
  answer_calls f p =
      let type = p.last_message_type in
      (run_answer_handler client
        (found_or (find type p.answer_handlers_map) p.default_answer_handler) type f.frame_type
        f.bytes).0

  wait_answer-frame :
      (now : ℕ) (s : State) (p : Protocol) (x : TimestampedFrame)
      → now ≤ p.answer_time_point
      → p.transport.incoming_queue ≡ x ∷ []
      → wait_answer stream garbage client now s p
        ≡ handle_answer stream garbage client now
            (some x)
            s
            (record p { transport = record p.transport { incoming_queue = [] } })
  unfolding wait_answer pop
  wait_answer-frame now s p x h e =
      if_false {b = ltb p.answer_time_point now} _ _ (ground (arith, h))
      ∙ ap
          (λ q.
            let (t, frame) = pop_queue q p.transport in
            handle_answer stream garbage client now frame s (record p { transport = t }))
          e

  -- An answer in time ends the request. A turn of `loop` on a handler that waits, with nothing
  -- received before, the answer's time not over, and a stream that holds the bytes on the wire of one
  -- frame and nothing else, reads the stream to its end, gives the frame's type and data to the
  -- request's answer handler, whose calls it carries out, and leaves the stream as the reading left it.
  -- It is idle then, with nothing received and an empty buffer at rest, and its retry time is now; the
  -- queue holds what stood behind the request and what the answer handler added. The frame is one that
  -- the constructor makes from at most 233 bytes, and the buffer has the capacity for its bytes.
  pub loop-Answered :
      (before now later : ℕ) (s : State) (p : Protocol) (f : HaierFrame) (msg : OutgoingQueueItem)
      (rest : List OutgoingQueueItem)
      → IsReady p.transport
      → AtRest p.transport
      → get_size p.transport.buffer ≡ 0
      → p.transport.incoming_queue ≡ []
      → p.state ≡ waiting_for_answer
      → p.processing_message ≡ false
      → p.outgoing_messages ≡ msg ∷ rest
      → now ≤ p.answer_time_point
      → IsSent f
      → unread s ≡ wires (f ∷ [])
      → length (wires (f ∷ [])) ≤ p.transport.buffer.capacity
      → let s' = (read_data stream s p.transport).0 in
        (t : Transport) × (added : List OutgoingQueueItem) × (let told =
            (apply_all stream garbage (answer_calls f p) s' (record p { transport = t })).1 in
          (loop stream garbage client before now later s p
            ≡ some (
              s',
              record told {
                outgoing_messages = rest ++ added;
                retry_time_point = now;
                state = idle;
              },
            ))
          × (told.outgoing_messages ≡ msg ∷ rest ++ added))
        × All IsLimited added
        × (unread s' ≡ [])
        × (t.incoming_queue ≡ [])
        × (get_size t.buffer ≡ 0)
        × AtRest t
  unfolding dispatch handle_answer
  loop-Answered before now later s p f msg rest ready calm empty none_yet waits quiet queue time
        sent held fits =
      let (t1, calm1, frames, _, drained, reads) =
        loop-reads stream garbage client before now later s p (f ∷ [])
          (record { ready = ready; rest = calm; empty = empty }) (sent, tt) held fits in
      let x = stamped p.transport.frame_start f in
      let one : t1.incoming_queue ≡ x ∷ [] = frames ∙ ap (λ q. q ++ x ∷ []) none_yet in
      let t = record t1 { incoming_queue = [] } in
      let s' = (read_data stream s p.transport).0 in
      let calls = answer_calls f p in
      let d = apply_all-Called stream garbage calls s' (record p { transport = t }) in
      let told = (apply_all stream garbage calls s' (record p { transport = t })).1 in
      let behind : told.outgoing_messages ≡ msg ∷ rest ++ d.added =
        d.queue ∙ ap (λ q. q ++ d.added) queue in
      let turn =
        reads
        ∙ ap
            (λ state.
              some
                (dispatch stream garbage client now later state s' (record p { transport = t1 })))
            waits
        ∙ ap some (wait_answer-frame now s' (record p { transport = t1 }) x time one)
        ∙ ap (λ s2. some (s2, record (finish_request now told) { state = idle }))
            (apply_all-silent stream garbage calls s' (record p { transport = t }) quiet)
        ∙ ap
            (λ q.
              some (
                s',
                record (record (pop_front told q) { retry_time_point = now }) { state = idle },
              ))
            behind in
      (
        t,
        d.added,
        (turn, behind),
        d.limited,
        drained,
        refl,
        calm1.empty,
        ap (λ (u : Transport). record u { incoming_queue = [] }) calm1.rest,
      )
