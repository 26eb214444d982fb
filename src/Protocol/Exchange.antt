-- ===== src/Protocol/Exchange.antt =====
-- haier_protocol.cpp over both ends of test/utils/virtual_stream.cpp: a request goes to another protocol
-- handler, and its answer comes back.
pub mod Tests
use haier_protocol.Prelude.{
  ℕ, ◌+◌, ◌≤◌, ◌<◌, ◌≡◌, refl, sym, ap, subst, ◌∙◌, Bool, true, List, [], ◌∷◌, ◌++◌, append-nil,
  length, take, take_all, drop, drop-append_self, arith, if-both, some, All, Option,
}
use haier_protocol.Message.{HaierMessage}
use haier_protocol.Message.Payload.{payload}
use haier_protocol.Circular.{get_size, push_all, pop}
use haier_protocol.Circular.Contents.{contents, length-contents}
use haier_protocol.Circular.Append.{push_all_lem}
use haier_protocol.Frame.Types.{HaierFrame}
use haier_protocol.Frame.Wire.{wire}
use haier_protocol.Frame.Accounts.{described, make_lem}
use haier_protocol.VirtualStream.{Ring, VirtualStream, virtual_stream, write_array, other_end}
use haier_protocol.Transport.State.{Transport}
use haier_protocol.Transport.Io.{read_data, read_twice, read_into}
use haier_protocol.Transport.Taken.{IsSent, wires}
use haier_protocol.Protocol.State.{Protocol, idle, OutgoingQueueItem, Client, Call, find}
use haier_protocol.Protocol.Calls.{apply_all}
use haier_protocol.Protocol.Enqueued.{all_enqueued, apply_all-queue}
use haier_protocol.Protocol.Loop.{found_or, run_answer_handler, loop}
use haier_protocol.Protocol.Reads.{IsCalm, loop-reads}
use haier_protocol.Protocol.Replies.{IsCarried, Answers, replied, message_wire, loop-replies}
use haier_protocol.Protocol.Turns.{Attempt, IsSendable, IsAsking, waits, first_turn}
use haier_protocol.Protocol.Attempts.{tried}
use haier_protocol.Protocol.Answered.{loop-Answered}
use haier_protocol.Protocol.Ends.{
  IsFree, carried, carried-IsSent, carried-wires, read_data-tx, write_array-free,
  read_data-capacity,
}

append-cancel : (xs ys zs : List OutgoingQueueItem) → xs ++ ys ≡ xs ++ zs → ys ≡ zs
append-cancel xs ys zs e =
    sym (drop-append_self xs ys) ∙ ap (drop (length xs)) e ∙ drop-append_self xs zs

-- The times that a turn of `loop` asks for.
pub record Times : Type 0 where
  pub before : ℕ
  pub now : ℕ
  pub later : ℕ

abbrev attempt_at : Times → Attempt
attempt_at u = record { sent_at = u.now; written_at = u.later; checked_at = u.now }

module _ (garbage : ℕ → List ℕ) (a b : Client) where
  abbrev pub turn : Client → Times → VirtualStream → Protocol → Option (VirtualStream × Protocol)
  turn client t s p = loop virtual_stream garbage client t.before t.now t.later s p

  -- the calls that the request's handler makes when the answer is given to it
  abbrev pub told : OutgoingQueueItem → HaierMessage → Protocol → List Call
  told msg m p =
      let type = msg.message.frame_type in
      (run_answer_handler a (found_or (find type p.answer_handlers_map) p.default_answer_handler)
        type m.frame_type (payload m)).0

  -- Three turns: the request is written, answered at the other end, and its answer received.
  pub record Exchanged (u v w : Times) (first second : Ring) (msg : OutgoingQueueItem)
      (rest : List OutgoingQueueItem) (m : HaierMessage) (pa pb : Protocol) : Type 0 where
    pub asked : VirtualStream
    pub asking : Protocol
    pub answered : VirtualStream
    pub answering : Protocol
    pub ended : VirtualStream
    pub received : Transport
    pub ending : Protocol
    pub asks : turn a u (record { tx_buffer = first; rx_buffer = second }) pa ≡ some (asked, asking)
    pub request_on_line : contents asked.tx_buffer.0 ≡ wires (carried msg.message msg.use_crc ∷ [])
    pub answers : turn b v (other_end asked) pb ≡ some (answered, answering)
    pub answer_on_line : contents answered.tx_buffer.0 ≡ wires (carried m msg.use_crc ∷ [])
    pub answer_sent : answering.answer_sent ≡ true
    pub receives : turn a w (other_end answered) asking ≡ some (ended, ending)
    pub line_empty : (contents ended.tx_buffer.0 ≡ []) × (contents ended.rx_buffer.0 ≡ [])
    pub made :
        ending
        ≡ record (apply_all virtual_stream garbage
            (told msg m pa)
            ended
            (record asking { transport = received })).1 {
              outgoing_messages = rest ++ all_enqueued (told msg m pa);
              retry_time_point = w.now;
              state = idle;
            }

  -- The first turn: the request goes to the line.
  loop-asks :
      (u : Times) (s : VirtualStream) (msg : OutgoingQueueItem) (rest : List OutgoingQueueItem)
      (p : Protocol)
      → ((n : ℕ) → length (garbage n) ≡ n)
      → contents s.rx_buffer.0 ≡ []
      → IsCalm p.transport
      → IsSendable msg
      → IsAsking msg rest p
      → p.cooldown_time_point ≤ u.now
      → p.retry_time_point ≤ u.now
      → 0 < msg.number_of_retries
      → let s' = (read_data virtual_stream s p.transport).0 in
        (t : Transport) × IsCalm t
        × (t.incoming_queue ≡ [])
        × (t.buffer.capacity ≡ p.transport.buffer.capacity)
        × (contents s'.rx_buffer.0 ≡ [])
        × (turn a u s p
            ≡ some (
              write_array s' (message_wire msg.message msg.use_crc),
              waits (attempt_at u) msg rest (record p { transport = t }),
            ))
  loop-asks u s msg rest p h silent calm sendable asking cool retry left =
      let (t, calm', queue, same, drained, reads) =
        loop-reads virtual_stream garbage a u.before u.now u.later s p [] calm tt silent
          (omega arith) in
      let none_yet = queue ∙ append-nil p.transport.incoming_queue ∙ asking.received in
      let still : IsAsking msg rest (record p { transport = t }) = record {
        queue = asking.queue;
        idles = asking.idles;
        received = none_yet;
        quiet = asking.quiet;
      } in
      (
        t,
        calm',
        none_yet,
        same,
        drained,
        reads
            ∙ ap some (
                first_turn virtual_stream garbage a (attempt_at u) msg rest
                  (read_data virtual_stream s p.transport).0 (record p { transport = t }) h sendable
                  still cool retry left),
      )

  -- A request and its answer over the line of two streams, in three turns of `loop`: the first handler
  -- writes its request, the second reads it and answers, and the first reads the answer. The first is
  -- idle, with the request at the front of its queue and due, the second idle with nothing to send, and
  -- its handler for the request's type makes one call, which sends the answer; both have received
  -- nothing, the line is empty both ways with room for 255 bytes, and so are the handlers' buffers; the
  -- third turn comes before the answer's time is over. Request and answer have at most 233 bytes of
  -- data and 255 on the wire. Then the turns end, the line carries the one frame of the request and
  -- then the one of the answer, the answer's type and data are given to the request's answer handler,
  -- whose calls are carried out, and the line is empty both ways. The first handler is idle again,
  -- without the request; its queue holds what stood behind it and then exactly the messages that
  -- that handler's calls send.
  pub turn-Exchanged :
      (u v w : Times) (first second : Ring) (msg : OutgoingQueueItem)
      (rest : List OutgoingQueueItem) (m : HaierMessage) (pa pb : Protocol)
      → ((n : ℕ) → length (garbage n) ≡ n)
      → IsFree first
      → IsFree second
      → IsCalm pa.transport
      → 255 ≤ pa.transport.buffer.capacity
      → IsSendable msg
      → IsAsking msg rest pa
      → pa.cooldown_time_point ≤ u.now
      → pa.retry_time_point ≤ u.now
      → 0 < msg.number_of_retries
      → w.now ≤ u.now + pa.answer_timeout_interval
      → IsCalm pb.transport
      → 255 ≤ pb.transport.buffer.capacity
      → pb.transport.incoming_queue ≡ []
      → pb.state ≡ idle
      → pb.outgoing_messages ≡ []
      → Answers b v.now m (carried msg.message msg.use_crc) pb
      → IsCarried m msg.use_crc
      → Exchanged u v w first second msg rest m pa pb
  turn-Exchanged u v w first second msg rest m pa pb h free1 free2 calm_a room_a sendable asking
        cool retry left in_time calm_b room_b none_b idle_b nothing_b answers carried_m =
      let s : VirtualStream = record { tx_buffer = first; rx_buffer = second } in
      let f = carried msg.message msg.use_crc in
      let (ta, calm_a1, none_a, same_a, drained_a, asks) =
        loop-asks u s msg rest pa h free2.empty calm_a sendable asking cool retry left in
      let s0 = (read_data virtual_stream s pa.transport).0 in
      let pa1 = waits (attempt_at u) msg rest (record pa { transport = ta }) in
      let sa1 = write_array s0 (message_wire msg.message msg.use_crc) in
      let free_tx : IsFree s0.tx_buffer = subst IsFree (sym (read_data-tx s pa.transport)) free1 in
      let request_wires = carried-wires msg.message msg.use_crc sendable.few in
      let on_line : contents sa1.tx_buffer.0 ≡ wires (f ∷ []) =
        write_array-free s0 (message_wire msg.message msg.use_crc) free_tx sendable.fits
        ∙ request_wires in
      let sb = other_end sa1 in
      let (tb, calm_b1, _, drained_b, answered) =
        loop-replies virtual_stream garbage b v.before v.now v.later sb pb m f h calm_b none_b
          idle_b nothing_b answers carried_m (carried-IsSent msg.message msg.use_crc sendable.few)
          on_line (omega (arith, ap length (sym request_wires), sendable.fits, room_b)) in
      let s1 = (read_data virtual_stream sb pb.transport).0 in
      let sb1 = write_array s1 (message_wire m msg.use_crc) in
      let free_back : IsFree s0.rx_buffer = record {
        empty = drained_a;
        room = omega (arith, read_data-capacity s pa.transport, free2.room);
      } in
      let free_tx1 : IsFree s1.tx_buffer =
        subst IsFree (sym (read_data-tx sb pb.transport)) free_back in
      let answer_wires = carried-wires m msg.use_crc carried_m.few in
      let back : contents sb1.tx_buffer.0 ≡ wires (carried m msg.use_crc ∷ []) =
        write_array-free s1 (message_wire m msg.use_crc) free_tx1 carried_m.fits ∙ answer_wires in
      let sa2 = other_end sb1 in
      let (t, added, (run, behind), _, drained, _, _, _) =
        loop-Answered virtual_stream garbage a w.before w.now w.later sa2 pa1
          (carried m msg.use_crc) (tried msg) rest calm_a1.ready calm_a1.rest calm_a1.empty none_a
          refl asking.quiet refl in_time (carried-IsSent m msg.use_crc carried_m.few) back
          (omega (arith, ap length (sym answer_wires), carried_m.fits, room_a, same_a)) in
      let ended = (read_data virtual_stream sa2 pa1.transport).0 in
      let calls = told msg m pa in
      let after = (apply_all virtual_stream garbage calls ended (record pa1 { transport = t })).1 in
      let with_queue : List OutgoingQueueItem → Protocol = λ l. record after {
        outgoing_messages = rest ++ l;
        retry_time_point = w.now;
        state = idle;
      } in
      let exactly : added ≡ all_enqueued calls =
        append-cancel (tried msg ∷ rest) added (all_enqueued calls) (
          sym behind
          ∙ apply_all-queue virtual_stream garbage calls ended (record pa1 { transport = t })) in
      record {
        asked = sa1;
        asking = pa1;
        answered = sb1;
        answering = replied v.now f (record pb { transport = tb });
        ended = ended;
        received = t;
        ending = _;
        asks = asks;
        request_on_line = on_line;
        answers = answered;
        answer_on_line = back;
        answer_sent = refl;
        receives = run ∙ ap (λ l. some (ended, with_queue l)) exactly;
        line_empty =
            (ap (λ (r : Ring). contents r.0) (read_data-tx sa2 pa1.transport) ∙ drained_b, drained);
        made = refl;
      }
