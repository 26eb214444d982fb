-- ===== src/Hon/Line.antt =====
-- The appliance of tools/utils/hon_server.cpp on the line: a turn of `loop` in
-- src/protocol/haier_protocol.cpp, from a request's bytes to the answer.
use haier_protocol.Prelude.{ℕ, ◌≤◌, ◌≡◌, refl, ap, ◌∙◌, List, [], ◌∷◌, ◌++◌, length, some, Bool}
use haier_protocol.Message.{HaierMessage}
use haier_protocol.Frame.Types.{HaierFrame}
use haier_protocol.Circular.{get_size}
use haier_protocol.Stream.{ProtocolStream}
use haier_protocol.Transport.State.{Transport}
use haier_protocol.Transport.Io.{read_data}
use haier_protocol.Transport.Total.{IsReady}
use haier_protocol.Transport.Taken.{IsSent, stamped, wires}
use haier_protocol.Transport.Frames.{AtRest}
use haier_protocol.Protocol.State.{Protocol, idle, by_client, find}
use haier_protocol.Protocol.Calls.{write_message}
use haier_protocol.Protocol.Loop.{handle_message, send_outgoing, dispatch, loop}
use haier_protocol.Protocol.Reads.{loop-reads}
use haier_protocol.Protocol.Replies.{handle_incoming-one, send_outgoing-nothing}
use haier_protocol.Hon.Server.{Server}
use haier_protocol.Hon.Simulator.{MessageHandler, run, number, serve}
use haier_protocol.Hon.Serve.{Reply, answered, handle_message-Reply}

module _ (stream : ProtocolStream) (garbage : ℕ → List ℕ) where
  open stream use {State, unread}

  answered-outgoing :
      (now : ℕ) (m : HaierMessage) (use_crc : Bool) (f : HaierFrame) (s : State) (p : Protocol)
      → (answered stream garbage now m use_crc f s p).1.outgoing_messages ≡ p.outgoing_messages
  unfolding write_message
  answered-outgoing now m use_crc f s p = refl

  -- A request on the line is answered within the turn of `loop` that reads it. On the simulator's
  -- protocol handler, idle, with nothing received before, an empty buffer at rest and no message of its
  -- own to send, where the stream holds the bytes on the wire of one frame and nothing else, and a
  -- handler of the simulator is registered for the frame's type: the turn reads the stream to its end,
  -- and gives `write_message_` the message of the one call that this handler makes on the frame's type
  -- and data, with a CRC where that call asks for one, or, if it does not say, where the frame had one.
  -- The message is INVALID exactly where the handler refused the frame; nothing else is done to the
  -- stream, no frame is left in the queue and no byte in the buffer. The frame is one that the
  -- constructor makes from at most 233 bytes, and the buffer has the capacity for its bytes.
  pub loop-Reply :
      (h : MessageHandler) (before now later : ℕ) (server : Server) (s : State) (p : Protocol)
      (f : HaierFrame)
      → IsReady p.transport
      → AtRest p.transport
      → get_size p.transport.buffer ≡ 0
      → p.transport.incoming_queue ≡ []
      → p.state ≡ idle
      → p.outgoing_messages ≡ []
      → find f.frame_type p.message_handlers_map ≡ some (by_client (number h))
      → IsSent f
      → unread s ≡ wires (f ∷ [])
      → length (wires (f ∷ [])) ≤ p.transport.buffer.capacity
      → let s' = (read_data stream s p.transport).0 in
        (t : Transport) × (r : State × Protocol) × (loop stream garbage
            (serve now server)
            before
            now
            later
            s
            p
          ≡ some r)
        × Reply stream garbage now
            (run h now f.frame_type f.bytes server)
            f
            s'
            (record p { transport = t })
            r
        × (unread s' ≡ [])
        × (t.incoming_queue ≡ [])
        × (get_size t.buffer ≡ 0)
        × AtRest t
  unfolding dispatch
  loop-Reply h before now later server s p f ready calm empty none_yet idles nothing found sent held
        fits =
      let client = serve now server in
      let (t1, calm1, frames, _, drained, reads) =
        loop-reads stream garbage client before now later s p (f ∷ [])
          (record { ready = ready; rest = calm; empty = empty }) (sent, tt) held fits in
      let x = stamped p.transport.frame_start f in
      let one : t1.incoming_queue ≡ x ∷ [] = frames ∙ ap (λ q. q ++ x ∷ []) none_yet in
      let t = record t1 { incoming_queue = [] } in
      let s' = (read_data stream s p.transport).0 in
      let q = record p { transport = t } in
      let r = handle_message stream garbage client f s' q in
      let reply = handle_message-Reply stream garbage h now server f s' q found in
      let sends : r.1.outgoing_messages ≡ [] =
        ap (λ (a : State × Protocol). a.1.outgoing_messages) reply.written
        ∙ (answered-outgoing now reply.message reply.use_crc f s' q ∙ nothing) in
      let turn =
        reads
        ∙ ap
            (λ state.
              some
                (dispatch stream garbage client now later state s' (record p { transport = t1 })))
            idles
        ∙ ap
            (λ (a : State × Protocol). some (send_outgoing stream garbage client now later a.0 a.1))
            (handle_incoming-one stream garbage client s' (record p { transport = t1 }) x one)
        ∙ ap some (send_outgoing-nothing stream garbage client now later r.0 r.1 sends) in
      (
        t,
        r,
        turn,
        reply,
        drained,
        refl,
        calm1.empty,
        ap (λ (u : Transport). record u { incoming_queue = [] }) calm1.rest,
      )
