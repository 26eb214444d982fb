-- ===== src/Protocol/Sound.antt =====
-- src/protocol/haier_protocol.cpp: what holds of a `ProtocolHandler` between two turns of `loop`.
use haier_protocol.Prelude.{
  ℕ, ◌-◌, ◌<◌, ◌≡◌, refl, sym, ◌∙◌, subst, List, [], ◌∷◌, Option, none, some, ◌&&◌, ltb, leb,
  if◌then◌else◌, arith, true, false, All, All-append, if-both, length,
}
use haier_protocol.Stream.{ProtocolStream}
use haier_protocol.Frame.Types.{HaierFrame}
use haier_protocol.Transport.State.{
  Transport, TimestampedFrame, available, pop, pop_queue, drop_frames,
}
use haier_protocol.Transport.Total.{IsReady}
use haier_protocol.Protocol.State.{
  Protocol, idle, waiting_for_answer, OutgoingQueueItem, Client, find,
}
use haier_protocol.Protocol.Calls.{write_message}
use haier_protocol.Protocol.Called.{IsLimited, Called, apply_all-Called}
use haier_protocol.Protocol.Loop.{
  found_or, handle_message, handle_popped, handle_incoming, send_front, send_outgoing,
  run_message_handler,
}

-- Between two turns: the transport is ready, every message has few retries, no message handler
-- runs, and the front of the queue is there while its answer is waited for.
pub record IsSound (p : Protocol) : Type 0 where
  pub ready : IsReady p.transport
  pub limited : All IsLimited p.outgoing_messages
  pub waiting : p.state ≡ waiting_for_answer → 0 < length p.outgoing_messages
  pub not_processing : p.processing_message ≡ false

-- After calls of the client, with the handler idle.
pub settled :
    {p q : Protocol} (r : Protocol)
    → IsReady p.transport
    → All IsLimited p.outgoing_messages
    → Called p q
    → r.transport ≡ q.transport
    → r.outgoing_messages ≡ q.outgoing_messages
    → r.state ≡ idle
    → r.processing_message ≡ false
    → IsSound r
settled {p} {q} r ready limited d e1 e2 idles processing = record {
  ready = subst IsReady (sym (e1 ∙ d.same_transport)) ready;
  limited =
      subst (All IsLimited) (sym (e2 ∙ d.queue))
        (All-append IsLimited p.outgoing_messages d.added limited d.limited);
  waiting = λ e. cc;
  not_processing = processing;
}

pop_queue-IsReady :
    (queue : List TimestampedFrame) (t : Transport) → IsReady t → IsReady (pop_queue queue t).0
pop_queue-IsReady [] t r = r
pop_queue-IsReady (f ∷ rest) t r = record {
  valid = r.valid;
  sep_le = r.sep_le;
  searching = r.searching;
  incomplete = r.incomplete;
}

pub pop-IsReady : (t : Transport) → IsReady t → IsReady (pop t).0
unfolding pop
pop-IsReady t r = pop_queue-IsReady t.incoming_queue t r

drop_frames-IsReady : (t : Transport) (n : ℕ) → IsReady t → IsReady (drop_frames t n)
unfolding drop_frames
drop_frames-IsReady t n r = record {
  valid = r.valid;
  sep_le = r.sep_le;
  searching = r.searching;
  incomplete = r.incomplete;
}

module _ (stream : ProtocolStream) (garbage : ℕ → List ℕ) (client : Client) where
  open stream use {State}

  handle_message-IsSound :
      (f : HaierFrame) (s : State) (p : Protocol)
      → IsSound p
      → p.state ≡ idle
      → let q = (handle_message stream garbage client f s p).1 in IsSound q × (q.state ≡ idle)
  unfolding handle_message
  handle_message-IsSound f s p v e =
      let handler = found_or (find f.frame_type p.message_handlers_map) p.default_message_handler in
      let started = record p {
        incoming_message_crc_status = f.use_crc;
        processing_message = true;
        answer_sent = false;
      } in
      let calls = (run_message_handler client handler f.frame_type f.bytes).0 in
      let d = apply_all-Called stream garbage calls s started in
      let idles = d.same_state ∙ e in (settled _ v.ready v.limited d refl refl idles refl, idles)

  handle_popped-IsSound :
      (f : Option TimestampedFrame) (s : State) (p : Protocol)
      → IsSound p
      → p.state ≡ idle
      → let q = (handle_popped stream garbage client f s p).1 in IsSound q × (q.state ≡ idle)
  unfolding handle_popped
  handle_popped-IsSound none s p v e = (v, e)
  handle_popped-IsSound (some f) s p v e = handle_message-IsSound f.frame s p v e

  pub handle_incoming-IsSound :
      (s : State) (p : Protocol)
      → IsSound p
      → p.state ≡ idle
      → let q = (handle_incoming stream garbage client s p).1 in IsSound q × (q.state ≡ idle)
  unfolding handle_incoming
  handle_incoming-IsSound s p v e =
      let count = available p.transport in
      let t = if ltb 1 count then drop_frames p.transport (count - 1) else p.transport in
      let ready : IsReady t =
        if-both IsReady (ltb 1 count) (λ _. drop_frames-IsReady p.transport (count - 1) v.ready)
          (λ _. v.ready) in
      handle_popped-IsSound (pop t).1 s (record p { transport = (pop t).0 })
        (record {
          ready = pop-IsReady t ready;
          limited = v.limited;
          waiting = v.waiting;
          not_processing = v.not_processing;
        })
        e

  send_front-IsSound :
      (now later : ℕ) (queue : List OutgoingQueueItem) (s : State) (p : Protocol)
      → IsSound p
      → p.state ≡ idle
      → All IsLimited queue
      → IsSound (send_front stream garbage client now later queue s p).1
  unfolding send_front write_message
  send_front-IsSound now later [] s p v e limited = v
  send_front-IsSound now later (msg ∷ rest) s p v e limited =
      let sent = (write_message stream garbage later msg.message msg.use_crc s p).2 in
      let tried : All IsLimited
          (record msg { number_of_retries = msg.number_of_retries - 1 } ∷ rest) =
        (omega (arith, limited.0), limited.1) in
      if-both {A = State × Protocol} (λ r. IsSound r.1) (ltb 0 msg.number_of_retries)
        (λ _.
          if-both IsSound sent
            (λ _.
              if-both IsSound msg.no_answer
                (λ _. record {
                  ready = v.ready;
                  limited = limited.1;
                  waiting = λ w. cc;
                  not_processing = v.not_processing;
                })
                (λ _. record {
                  ready = v.ready;
                  limited = tried;
                  waiting = λ w. omega arith;
                  not_processing = v.not_processing;
                }))
            (λ _. record {
              ready = v.ready;
              limited = tried;
              waiting = λ w. omega arith;
              not_processing = v.not_processing;
            }))
        (λ _. record {
          ready = v.ready;
          limited = limited.1;
          waiting = λ w. cc;
          not_processing = v.not_processing;
        })

  pub send_outgoing-IsSound :
      (now later : ℕ) (s : State) (p : Protocol)
      → IsSound p
      → p.state ≡ idle
      → IsSound (send_outgoing stream garbage client now later s p).1
  unfolding send_outgoing
  send_outgoing-IsSound now later s p v e =
      if-both {A = State × Protocol} (λ r. IsSound r.1)
        (leb p.cooldown_time_point now && leb p.retry_time_point now)
        (λ _. send_front-IsSound now later p.outgoing_messages s p v e v.limited) (λ _. v)
