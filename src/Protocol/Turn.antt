-- ===== src/Protocol/Turn.antt =====
-- src/protocol/haier_protocol.cpp: a turn of `loop`, and what holds after it.
use haier_protocol.Prelude.{
  ℕ, ◌≡◌, refl, sym, ap, ◌∙◌, subst, List, [], ◌∷◌, Option, none, some, ◌==◌, ltb, false, All,
  All-append, if-both,
}
use haier_protocol.Stream.{ProtocolStream}
use haier_protocol.Transport.State.{TimestampedFrame, pop}
use haier_protocol.Transport.Io.{read_data}
use haier_protocol.Transport.Total.{IsReady, process_data_total}
use haier_protocol.Transport.Feed.{read_data_lem}
use haier_protocol.Protocol.State.{
  Protocol, ProtocolState, idle, waiting_for_answer, OutgoingQueueItem, Client, find,
}
use haier_protocol.Protocol.Calls.{apply_all}
use haier_protocol.Protocol.Called.{IsLimited, apply_all-Called}
use haier_protocol.Protocol.Loop.{
  found_or, handle_incoming, answer_timeout, handle_answer, wait_answer, dispatch, loop,
  run_answer_handler, run_timeout_handler, pop_front,
}
use haier_protocol.Protocol.Sound.{
  IsSound, settled, pop-IsReady, handle_incoming-IsSound, send_outgoing-IsSound,
}

module _ (stream : ProtocolStream) (garbage : ℕ → List ℕ) (client : Client) where
  open stream use {State}

  answer_timeout-IsSound :
      (now : ℕ) (queue : List OutgoingQueueItem) (s : State) (p : Protocol)
      → IsSound p
      → All IsLimited queue
      → IsSound (answer_timeout stream garbage client now queue s p).1
  unfolding answer_timeout
  answer_timeout-IsSound now [] s p v limited = record {
    ready = v.ready;
    limited = v.limited;
    waiting = λ w. cc;
    not_processing = v.not_processing;
  }
  answer_timeout-IsSound now (msg ∷ rest) s p v limited =
      let p1 = record p { outgoing_messages = rest; retry_time_point = now } in
      let handler =
        found_or (find p.last_message_type p.timeout_handlers_map) p.default_timeout_handler in
      let calls = (run_timeout_handler client handler p.last_message_type).0 in
      let d = apply_all-Called stream garbage calls s p1 in
      if-both {A = State × Protocol} (λ r. IsSound (record r.1 { state = idle }))
        (msg.number_of_retries == 0)
        (λ _. settled _ v.ready limited.1 d refl refl refl (d.same_processing ∙ v.not_processing))
        (λ _. record {
          ready = v.ready;
          limited = v.limited;
          waiting = λ w. cc;
          not_processing = v.not_processing;
        })

  -- Removing the front of a queue to which a handler may have added.
  pop_front-IsSound :
      (now : ℕ) (q : Protocol) (queue : List OutgoingQueueItem)
      → q.outgoing_messages ≡ queue
      → IsReady q.transport
      → All IsLimited queue
      → q.processing_message ≡ false
      → IsSound (record (record (pop_front q queue) { retry_time_point = now }) { state = idle })
  pop_front-IsSound now q [] e ready limited processing = record {
    ready = ready;
    limited = subst (All IsLimited) (sym e) tt;
    waiting = λ w. cc;
    not_processing = processing;
  }
  pop_front-IsSound now q (_ ∷ rest) e ready limited processing = record {
    ready = ready;
    limited = limited.1;
    waiting = λ w. cc;
    not_processing = processing;
  }

  handle_answer-IsSound :
      (now : ℕ) (f : Option TimestampedFrame) (s : State) (p : Protocol)
      → IsSound p
      → IsSound (handle_answer stream garbage client now f s p).1
  unfolding handle_answer
  handle_answer-IsSound now none s p v = v
  handle_answer-IsSound now (some f) s p v =
      let handler =
        found_or (find p.last_message_type p.answer_handlers_map) p.default_answer_handler in
      let calls =
        (run_answer_handler client handler p.last_message_type f.frame.frame_type
          f.frame.bytes).0 in
      let d = apply_all-Called stream garbage calls s p in
      let q = (apply_all stream garbage calls s p).1 in
      pop_front-IsSound now q q.outgoing_messages refl
        (subst IsReady (sym d.same_transport) v.ready)
        (subst (All IsLimited) (sym d.queue)
          (All-append IsLimited p.outgoing_messages d.added v.limited d.limited))
        (d.same_processing ∙ v.not_processing)

  wait_answer-IsSound :
      (now : ℕ) (s : State) (p : Protocol)
      → IsSound p
      → IsSound (wait_answer stream garbage client now s p).1
  unfolding wait_answer
  wait_answer-IsSound now s p v =
      if-both {A = State × Protocol} (λ r. IsSound r.1) (ltb p.answer_time_point now)
        (λ _. answer_timeout-IsSound now p.outgoing_messages s p v v.limited)
        (λ _.
          handle_answer-IsSound now (pop p.transport).1 s
            (record p { transport = (pop p.transport).0 })
            (record {
              ready = pop-IsReady p.transport v.ready;
              limited = v.limited;
              waiting = v.waiting;
              not_processing = v.not_processing;
            }))

  dispatch-IsSound :
      (now later : ℕ) (st : ProtocolState) (s : State) (p : Protocol)
      → IsSound p
      → p.state ≡ st
      → IsSound (dispatch stream garbage client now later st s p).1
  unfolding dispatch
  dispatch-IsSound now later idle s p v e =
      let q = handle_incoming stream garbage client s p in
      let (w, idles) = handle_incoming-IsSound stream garbage client s p v e in
      send_outgoing-IsSound stream garbage client now later q.0 q.1 w idles
  dispatch-IsSound now later waiting_for_answer s p v e = wait_answer-IsSound now s p v

  -- A turn of `loop` ends on every sound handler, whatever the stream holds, the client's handlers do
  -- and the clock says, and leaves a sound handler: one whose transport is ready, where no message has
  -- more than ten attempts left, and where the request that an answer is waited for is in the queue.
  pub loop-IsSound :
      (before now later : ℕ) (s : State) (p : Protocol)
      → IsSound p
      → (s' : State) × (q : Protocol) × (loop stream garbage client before now later s p
          ≡ some (s', q))
        × IsSound q
  unfolding loop
  loop-IsSound before now later s p v =
      let read = read_data stream s p.transport in
      let (_, ready, _, _, _) = read_data_lem stream s p.transport v.ready in
      let (t, e, ready_after, _) = process_data_total before read.1 ready in
      let q = record p { transport = t } in
      let turned = dispatch stream garbage client now later q.state read.0 q in
      (
        turned.0,
        turned.1,
        ap
            (λ r. elim r [
              | none ↦ none
              | some t ↦
                  let q = record p { transport = t } in
                  some (dispatch stream garbage client now later q.state read.0 q)
            ])
            e,
        dispatch-IsSound now later q.state read.0 q
            (record {
              ready = ready_after;
              limited = v.limited;
              waiting = v.waiting;
              not_processing = v.not_processing;
            })
            refl,
      )
