-- ===== src/Transport/State.antt =====
-- include/transport/protocol_transport.h and src/transport/protocol_transport.cpp: the state of a
-- `TransportLevelHandler`, its queue of frames and its resets.
use haier_protocol.Prelude.{
  ℕ, zero, suc, Bool, false, List, [], ◌∷◌, Option, none, some, length, ltb, if◌then◌else◌,
}
use haier_protocol.Circular.{Circular, get_size}
use haier_protocol.Circular
use haier_protocol.Frame.Types.{HaierFrame, empty_frame}

pub record TimestampedFrame : Type 0 where
  pub frame : HaierFrame
  pub timestamp : ℕ

-- Times are milliseconds since the epoch of the steady clock.
pub record Transport : Type 0 where
  pub buffer : Circular
  pub pos : ℕ
  pub sep_count : ℕ
  pub frame_start_found : Bool
  pub current_frame : HaierFrame
  pub frame_start : ℕ
  pub incoming_queue : List TimestampedFrame

-- The constructor. `frame_start_` is not initialised by it, so it has its type's default, the epoch.
unfoldable pub make : List ℕ → ℕ → Transport
make storage buffer_size = record {
  buffer = Circular.make storage buffer_size;
  pos = 0;
  sep_count = 0;
  frame_start_found = false;
  current_frame = empty_frame;
  frame_start = 0;
  incoming_queue = [];
}

abbrev pub drop_bytes : Transport → ℕ → Transport
drop_bytes t size = record t { buffer = (Circular.drop t.buffer size).0 }

-- what every reset has in common: the scan starts anew at the front of the buffer
abbrev pub rescan : Transport → Transport
rescan t = record t {
  pos = 0;
  sep_count = 0;
  frame_start_found = false;
  current_frame = empty_frame;
}

unfoldable pub reset_protocol : Transport → Transport
reset_protocol t =
    let size = get_size t.buffer in rescan (drop_bytes t (if ltb t.pos size then t.pos else size))

unfoldable pub clear : Transport → Transport
clear t = rescan (record t { buffer = Circular.clear t.buffer })

abbrev pub available : Transport → ℕ
available t = length t.incoming_queue

abbrev pub pop_queue : List TimestampedFrame → Transport → Transport × Option TimestampedFrame
pop_queue [] t = (t, none)
pop_queue (x ∷ rest) t = (record t { incoming_queue = rest }, some x)

-- `pop`: the frame moved out, if there is one
unfoldable pub pop : Transport → Transport × Option TimestampedFrame
pop t = pop_queue t.incoming_queue t

-- the loop of `drop`, which pops `sz` frames
unfoldable pub drop_frames_loop : ℕ → List TimestampedFrame → List TimestampedFrame
drop_frames_loop zero queue = queue
drop_frames_loop (suc sz) [] = []
drop_frames_loop (suc sz) (x ∷ queue) = drop_frames_loop sz queue

-- `drop`
unfoldable pub drop_frames : Transport → ℕ → Transport
unfolding drop_frames_loop
drop_frames t frames_count =
    let sz = available t in
    record t {
      incoming_queue =
          drop_frames_loop (if ltb frames_count sz then frames_count else sz) t.incoming_queue;
    }
