-- ===== src/Protocol/Tests.antt =====
-- The theorems on haier_protocol.cpp at a handler with a request and a client that asks again.
use haier_protocol.Prelude.{
  ◌++◌, ℕ, ◌<◌, ◌≤◌, length, length-replicate, All, ℕ, ◌≡◌, refl, true, false, List, [], ◌∷◌, some,
  replicate, arith,
}
use haier_protocol.Message.{HaierMessage}
use haier_protocol.Transport.Tests.{
  memory, handler, holding, some_bytes, some_bytes-IsReady, plain, empty_ring, empty_ring-IsReady,
}
use haier_protocol.Message.Payload.{payload}
use haier_protocol.Frame.Build.{header_accounts, data_accounts}
use haier_protocol.Frame.Build
use haier_protocol.Frame.Checksums.{crc16_byte, crc_table}
use haier_protocol.Frame.Wire.{wire}
use haier_protocol.Protocol.Calls.{write_message, apply_all}
use haier_protocol.Protocol.Called.{IsLimited}
use haier_protocol.Protocol.Write.{write_message_lem}
use haier_protocol.Protocol.State.{
  idle, OutgoingQueueItem, Protocol, waiting_for_answer, by_default, by_client, Client, Call,
  send_message, no_answer, handler_ok,
}
use haier_protocol.Protocol.Turns.{Attempt, wire_of, IsSendable, given_up, timeout_calls}
use haier_protocol.Protocol.Enqueued.{all_enqueued}
use haier_protocol.Protocol.GivingUp.{IsSpaced, last_of, attempts, rewritten, attempts-GivenUp}
use haier_protocol.Circular.{get_size}
use haier_protocol.Transport.State.{Transport}
use haier_protocol.Transport.Io.{read_data}
use haier_protocol.Transport.Taken.{IsSent, wires}
use haier_protocol.Transport.Frames.{AtRest}
use haier_protocol.Protocol.Answered.{answer_calls, loop-Answered}
use haier_protocol.Protocol.Loop.{loop}
use haier_protocol.Protocol.Sound.{IsSound}
use haier_protocol.Protocol.Turn.{loop-IsSound}

abbrev sample_request : HaierMessage
sample_request = record { frame_type = 1; subcommand = 0; data_size = 0; bytes = [] }

-- Each handler sends the request again.
abbrev insistent : Client
insistent = record {
  on_message = λ i type bytes. (send_message sample_request true 3 0 ∷ no_answer ∷ [], handler_ok);
  on_answer = λ i sent type bytes. (send_message sample_request true 3 0 ∷ [], handler_ok);
  on_timeout = λ i sent. (send_message sample_request true 3 0 ∷ [], handler_ok);
}

-- Two attempts are left for a request that was sent.
abbrev protocol : Protocol
protocol = record {
  transport = handler (holding some_bytes);
  message_handlers_map = [];
  answer_handlers_map = [];
  timeout_handlers_map = (1, by_client 0) ∷ [];
  outgoing_messages =
      record {
        message = sample_request;
        use_crc = true;
        no_answer = false;
        number_of_retries = 2;
        retry_interval = 0;
      }
      ∷ [];
  default_message_handler = by_default;
  default_answer_handler = by_default;
  default_timeout_handler = by_default;
  state = waiting_for_answer;
  processing_message = false;
  incoming_message_crc_status = false;
  answer_sent = false;
  last_message_type = 1;
  answer_timeout_interval = 200;
  cooldown_interval = 400;
  cooldown_time_point = 0;
  answer_time_point = 900;
  retry_time_point = 0;
}

protocol-IsSound : IsSound protocol
protocol-IsSound = record {
  ready = some_bytes-IsReady;
  limited = (omega arith, tt);
  waiting = λ e. omega arith;
  not_processing = refl;
}

loop-IsSound_example :
    (s' : List ℕ × List ℕ) × (q : Protocol) × (loop memory
        (λ n. replicate n 0)
        insistent
        1000
        1000
        1001
        (0xff ∷ [], [])
        protocol
      ≡ some (s', q))
    × IsSound q
loop-IsSound_example =
    loop-IsSound memory (λ n. replicate n 0) insistent 1000 1000 1001 (0xff ∷ [], []) protocol
      protocol-IsSound

abbrev waiting_request : OutgoingQueueItem
waiting_request = record {
  message = sample_request;
  use_crc = true;
  no_answer = false;
  number_of_retries = 2;
  retry_interval = 0;
}

abbrev idle_protocol : Protocol
idle_protocol = record protocol { state = idle }

abbrev zeros : ℕ → List ℕ
zeros n = replicate n 0

abbrev query : HaierMessage
query = record { frame_type = 1; subcommand = 0x4dfe; data_size = 1; bytes = 0xff ∷ [] }

length-zeros : (n : ℕ) → length (zeros n) ≡ n
length-zeros n = length-replicate n 0

write_message_lem_example :
    let w = wire (Build.make 1 (payload query) (length (payload query)) true) in
    let cooled = record protocol { cooldown_time_point = 1400 } in
    (length (payload query) ≤ 233
      → length w ≤ 255
      → write_message memory zeros 1000 query true ([], []) protocol ≡ (([], w), cooled, true))
    × (233 < length (payload query)
        → write_message memory zeros 1000 query true ([], []) protocol ≡ (([], []), cooled, false))
write_message_lem_example =
    write_message_lem memory zeros 1000 query true ([], []) protocol length-zeros refl

abbrev two_attempts : List Attempt
two_attempts =
    record { sent_at = 1000; written_at = 1001; checked_at = 1201 }
    ∷ record { sent_at = 1401; written_at = 1402; checked_at = 1602 }
    ∷ []

abbrev asking_request : OutgoingQueueItem
asking_request = record {
  message = query;
  use_crc = true;
  no_answer = false;
  number_of_retries = 2;
  retry_interval = 300;
}

abbrev asking_protocol : Protocol
asking_protocol = record idle_protocol { outgoing_messages = asking_request ∷ waiting_request ∷ [] }

short_wire : length (wire_of asking_request) ≡ 17
unfolding wire Build.make header_accounts data_accounts crc16_byte crc_table
short_wire = refl

few_bytes : length (payload query) ≡ 3
few_bytes = refl

asking_request-IsSendable : IsSendable asking_request
asking_request-IsSendable = record {
  well_formed = refl;
  few = omega (arith, few_bytes);
  fits = omega (arith, short_wire);
  expects = refl;
}

attempts-GivenUp_example :
    let s' = rewritten memory two_attempts (wire_of asking_request) ([], []) in
    let calls = timeout_calls insistent asking_request asking_protocol in
    let told =
      (apply_all memory zeros calls s' (
        given_up (last_of two_attempts) asking_request (waiting_request ∷ []) asking_protocol)).1 in
    (attempts memory zeros insistent two_attempts ([], []) asking_protocol
      ≡ (s', record told { state = idle }))
    × (told.outgoing_messages ≡ (waiting_request ∷ []) ++ all_enqueued calls)
    × All IsLimited (all_enqueued calls)
unfolding IsSpaced
attempts-GivenUp_example =
    attempts-GivenUp memory zeros insistent two_attempts asking_request (waiting_request ∷ [])
      ([], []) asking_protocol length-zeros asking_request-IsSendable
      (record { queue = refl; idles = refl; received = refl; quiet = refl })
      (omega arith, omega arith, omega arith, (omega arith, omega arith, omega arith, tt))
      (omega arith) refl

-- The request is sent, and its answer's time is not over.
abbrev answered_protocol : Protocol
answered_protocol = record protocol { transport = handler empty_ring; answer_time_point = 1100 }

abbrev plain_wire : List ℕ
plain_wire = 0xff ∷ 0xff ∷ 9 ∷ 0 ∷ 0 ∷ 0 ∷ 0 ∷ 0 ∷ 0 ∷ 1 ∷ 0x10 ∷ 0x1a ∷ []

plain_wire_lem : plain_wire ≡ wires (plain ∷ [])
unfolding wire Build.make header_accounts data_accounts crc16_byte crc_table
plain_wire_lem = refl

plain-IsSent : IsSent plain
plain-IsSent = record {
  frame_type = 1;
  bytes = 0x10 ∷ [];
  use_crc = false;
  short = omega arith;
  made = refl;
}

abbrev plain_calls : List Call
plain_calls = answer_calls memory zeros insistent plain answered_protocol

loop-Answered_example :
    let s' = (read_data memory (plain_wire, []) (handler empty_ring)).0 in
    (t : Transport) × (added : List OutgoingQueueItem) × (let told =
        (apply_all memory zeros plain_calls s' (record answered_protocol { transport = t })).1 in
      (loop memory zeros insistent 1000 1000 1001 (plain_wire, []) answered_protocol
        ≡ some
            (s', record told { outgoing_messages = added; retry_time_point = 1000; state = idle }))
      × (told.outgoing_messages ≡ waiting_request ∷ added))
    × All IsLimited added
    × (s'.0 ≡ [])
    × (t.incoming_queue ≡ [])
    × (get_size t.buffer ≡ 0)
    × AtRest t
loop-Answered_example =
    loop-Answered memory zeros insistent 1000 1000 1001 (plain_wire, []) answered_protocol plain
      waiting_request [] empty_ring-IsReady refl (unfold get_size in refl) refl refl refl refl
      (omega arith) plain-IsSent plain_wire_lem (rw⁻¹ plain_wire_lem (omega arith))
