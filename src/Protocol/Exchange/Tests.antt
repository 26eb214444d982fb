-- ===== src/Protocol/Exchange/Tests.antt =====
-- An exchange of two handlers over the line of test/utils/virtual_stream.cpp.
use haier_protocol.Prelude.{
  ℕ, ◌≡◌, refl, true, false, List, [], ◌∷◌, length, replicate, length-replicate, arith,
}
use haier_protocol.Message.{HaierMessage}
use haier_protocol.Circular.{Circular, IsValid, get_size}
use haier_protocol.Frame.Build.{header_accounts, data_accounts}
use haier_protocol.Frame.Build
use haier_protocol.Frame.Checksums.{crc16_byte, crc_table}
use haier_protocol.Frame.Wire.{wire}
use haier_protocol.VirtualStream.{Ring}
use haier_protocol.Transport.Tests.{handler}
use haier_protocol.Protocol.State.{
  Protocol, idle, OutgoingQueueItem, by_default, by_client, Client, send_answer, find, handler_ok,
}
use haier_protocol.Protocol.Reads.{IsCalm}
use haier_protocol.Protocol.Replies.{IsCarried, Answers, message_wire}
use haier_protocol.Protocol.Turns.{IsSendable}
use haier_protocol.Protocol.Exchange.{Times, Exchanged, turn-Exchanged}
use haier_protocol.Protocol.Ends.{IsFree, carried}

abbrev zeros : ℕ → List ℕ
zeros n = replicate n 0

abbrev wide_ring : Circular
wide_ring = record { is_empty = true; capacity = 256; buffer = replicate 256 0; head = 7; tail = 7 }

wide_ring-IsValid : IsValid wide_ring
wide_ring-IsValid = record {
  storage = refl;
  large = omega arith;
  small = omega arith;
  head_in = omega arith;
  tail_in = omega arith;
  empty_at = λ e. refl;
}

wide-IsCalm : IsCalm (handler wide_ring)
unfolding get_size
wide-IsCalm = record {
  ready = record {
    valid = wide_ring-IsValid;
    sep_le = omega arith;
    searching = λ e. refl;
    incomplete = λ e. cc;
  };
  rest = refl;
  empty = refl;
}

abbrev wide : Ring
wide = (wide_ring, wide_ring-IsValid)

wide-IsFree : IsFree wide
unfolding get_size
wide-IsFree = record { empty = refl; room = omega arith }

abbrev question : HaierMessage
question = record { frame_type = 1; subcommand = 0x4d01; data_size = 0; bytes = [] }

abbrev report : HaierMessage
report = record { frame_type = 2; subcommand = 0x6d01; data_size = 2; bytes = 0xff ∷ 0x20 ∷ [] }

abbrev asker : Client
asker = record {
  on_message = λ i type bytes. ([], handler_ok);
  on_answer = λ i sent type bytes. ([], handler_ok);
  on_timeout = λ i sent. ([], handler_ok);
}

-- The other end answers every message with the report.
abbrev reporter : Client
reporter = record asker { on_message = λ i type bytes. (send_answer 1010 report ∷ [], handler_ok) }

abbrev asked_once : OutgoingQueueItem
asked_once = record {
  message = question;
  use_crc = true;
  no_answer = false;
  number_of_retries = 1;
  retry_interval = 0;
}

abbrev idle_handler : Protocol
idle_handler = record {
  transport = handler wide_ring;
  message_handlers_map = (1, by_client 4) ∷ [];
  answer_handlers_map = (1, by_client 2) ∷ [];
  timeout_handlers_map = [];
  outgoing_messages = [];
  default_message_handler = by_default;
  default_answer_handler = by_default;
  default_timeout_handler = by_default;
  state = idle;
  processing_message = false;
  incoming_message_crc_status = false;
  answer_sent = false;
  last_message_type = 0;
  answer_timeout_interval = 200;
  cooldown_interval = 400;
  cooldown_time_point = 0;
  answer_time_point = 0;
  retry_time_point = 0;
}

question_size : length (message_wire question true) ≡ 15
unfolding wire Build.make header_accounts data_accounts crc16_byte crc_table
question_size = refl

report_size : length (message_wire report true) ≡ 18
unfolding wire Build.make header_accounts data_accounts crc16_byte crc_table
report_size = refl

question-IsSendable : IsSendable asked_once
question-IsSendable = record {
  well_formed = refl;
  few = omega arith;
  fits = omega (arith, question_size);
  expects = refl;
}

report-IsCarried : IsCarried report true
report-IsCarried = record {
  well_formed = refl;
  few = omega arith;
  fits = omega (arith, report_size);
}

reporter-Answers : Answers reporter 1010 report (carried question true) idle_handler
unfolding find
reporter-Answers = record { number = 4; found = refl; reaction = refl }

abbrev times : ℕ → Times
times n = record { before = n; now = n; later = n }

turn-Exchanged_example :
    Exchanged zeros asker reporter
      (times 1000)
      (times 1010)
      (times 1020)
      wide
      wide
      asked_once
      []
      report
      (record idle_handler { outgoing_messages = asked_once ∷ [] })
      idle_handler
turn-Exchanged_example =
    turn-Exchanged zeros asker reporter (times 1000) (times 1010) (times 1020) wide wide asked_once
      [] report (record idle_handler { outgoing_messages = asked_once ∷ [] }) idle_handler
      (λ n. length-replicate n 0) wide-IsFree wide-IsFree wide-IsCalm (omega arith)
      question-IsSendable (record { queue = refl; idles = refl; received = refl; quiet = refl })
      (omega arith) (omega arith) (omega arith) (omega arith) wide-IsCalm (omega arith) refl refl
      refl reporter-Answers report-IsCarried
