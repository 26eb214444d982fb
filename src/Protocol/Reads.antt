-- ===== src/Protocol/Reads.antt =====
-- haier_protocol.cpp, `loop`: its first two steps on a handler whose line carries whole frames.
use haier_protocol.Prelude.{
  subst, ℕ, ◌≤◌, ◌≡◌, sym, ap, ◌∙◌, List, [], ◌++◌, length, map, none, some, Option, All,
}
use haier_protocol.Circular.{get_size}
use haier_protocol.Frame.Types.{HaierFrame}
use haier_protocol.Stream.{ProtocolStream}
use haier_protocol.Transport.State.{Transport}
use haier_protocol.Transport.Scan.{process_data}
use haier_protocol.Transport.Io.{read_data}
use haier_protocol.Transport.Total.{IsReady, process_data_total}
use haier_protocol.Transport.Capacity.{process_data-capacity, read_data-capacity}
use haier_protocol.Transport.Taken.{IsSent, stamped, wires}
use haier_protocol.Transport.Frames.{AtRest}
use haier_protocol.Transport.Feed.{read_data_lem}
use haier_protocol.Transport.Deliver.{read_data-process_data}
use haier_protocol.Protocol.State.{Protocol, Client}
use haier_protocol.Protocol.Loop.{dispatch, loop}

-- Between two frames: nothing is in the buffer, and the search begins anew.
pub record IsCalm (t : Transport) : Type 0 where
  pub ready : IsReady t
  pub rest : AtRest t
  pub empty : get_size t.buffer ≡ 0

process_data-IsReady :
    (now : ℕ) (t t' : Transport) → IsReady t → process_data now t ≡ some t' → IsReady t'
process_data-IsReady now t t' r e =
    let (u, run, ready, _) = process_data_total now t r in
    subst IsReady (some-eq (sym run ∙ e)) ready
  where
    some-eq : {u v : Transport} → some u ≡ some v → u ≡ v
    some-eq e = cc

module _ (stream : ProtocolStream) (garbage : ℕ → List ℕ) (client : Client) where
  open stream use {State, unread}

  -- `loop` goes on to its `switch` with the line read to its end and the line's frames received.
  pub loop-reads :
      (before now later : ℕ) (s : State) (p : Protocol) (fs : List HaierFrame)
      → IsCalm p.transport
      → All IsSent fs
      → unread s ≡ wires fs
      → length (wires fs) ≤ p.transport.buffer.capacity
      → let s' = (read_data stream s p.transport).0 in
        (t : Transport) × IsCalm t
        × (t.incoming_queue
            ≡ p.transport.incoming_queue ++ map (stamped p.transport.frame_start) fs)
        × (t.buffer.capacity ≡ p.transport.buffer.capacity)
        × (unread s' ≡ [])
        × (loop stream garbage client before now later s p
            ≡ some
                (dispatch stream garbage client now later p.state s' (record p { transport = t })))
  unfolding loop
  loop-reads before now later s p fs c sent held fits =
      let read = read_data stream s p.transport in
      let (_, ready, _, _, _) = read_data_lem stream s p.transport c.ready in
      let (t, run, queue, drained, empty, rest) =
        read_data-process_data stream before s p.transport fs c.ready c.rest c.empty sent held
          fits in
      (
        t,
        record {
          ready = process_data-IsReady before read.1 t ready run;
          rest = rest;
          empty = empty;
        },
        queue,
        process_data-capacity before read.1 t run ∙ read_data-capacity stream s p.transport,
        drained,
        ap
            (λ (o : Option Transport). elim o [
              | none ↦ none
              | some u ↦ some (
                  dispatch stream garbage client now later p.state read.0
                    (record p { transport = u }))
            ])
            run,
      )
