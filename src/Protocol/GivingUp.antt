-- ===== src/Protocol/GivingUp.antt =====
-- haier_protocol.cpp, `loop` on a request that nobody answers, over all its attempts.
use haier_protocol.Prelude.{
  ℕ, ◌+◌, ◌≤◌, ◌<◌, ◌≡◌, refl, ap, ◌∙◌, List, [], ◌∷◌, ◌++◌, arith, length, All,
}
use haier_protocol.Stream.{ProtocolStream}
use haier_protocol.Protocol.State.{Protocol, idle, OutgoingQueueItem, Client}
use haier_protocol.Protocol.Calls.{apply_all}
use haier_protocol.Protocol.Called.{IsLimited}
use haier_protocol.Protocol.Enqueued.{all_enqueued, all_enqueued-IsLimited, apply_all-queue}
use haier_protocol.Protocol.Attempts.{tried}
use haier_protocol.Protocol.Turns.{
  Attempt, attempt, waits, wire_of, IsSendable, IsAsking, given_up, timeout_calls, attempt-again,
  attempt-last,
}

-- Each attempt begins when the one before allows it, and is checked after its answer's time.
unfoldable pub IsSpaced : ℕ → ℕ → ℕ → ℕ → ℕ → List Attempt → Type 0
IsSpaced cooldown timeout interval cool ready [] = Unit
IsSpaced cooldown timeout interval cool ready (t ∷ ts) =
    (cool ≤ t.sent_at)
    × (ready ≤ t.sent_at)
    × (t.sent_at + timeout < t.checked_at)
    × IsSpaced cooldown timeout interval (t.written_at + cooldown) (t.sent_at + interval) ts

-- The last attempt; without one, all its times are 0.
abbrev pub last_of : List Attempt → Attempt
last_of [] = record { sent_at = 0; written_at = 0; checked_at = 0 }
last_of (t ∷ []) = t
last_of (t ∷ u ∷ us) = last_of (u ∷ us)

module _ (stream : ProtocolStream) where
  open stream use {State}

  -- the stream after one writing of the bytes for each attempt
  unfoldable pub rewritten : List Attempt → List ℕ → State → State
  rewritten [] bytes s = s
  rewritten (t ∷ ts) bytes s = rewritten ts bytes (stream.write_array s bytes)

module _ (stream : ProtocolStream) (garbage : ℕ → List ℕ) (client : Client) where
  open stream use {State}

  unfoldable pub attempts : List Attempt → State → Protocol → State × Protocol
  attempts [] s p = (s, p)
  attempts (t ∷ ts) s p = let (s, p) = attempt stream garbage client t s p in attempts ts s p

  -- A request that nobody answers is given up, after as many writings as it had attempts. From an idle
  -- handler with the request at the front of the queue and no frame received, where each attempt
  -- begins after the cooldown and the retry interval of the one before and is checked after its
  -- answer's time, the turns' steps write the request's bytes on the wire once for each attempt and
  -- nothing else. Then the handler is as the calls of the request's timeout handler leave it, made once
  -- and without the request in the queue, and idle: the queue holds what stood behind the request and
  -- then exactly the messages that these calls send. The request asks for an answer, its message's size
  -- fits its data, and its frame has at most 233 bytes of data and 255 on the wire.
  pub attempts-GivenUp :
      (ts : List Attempt) (msg : OutgoingQueueItem) (rest : List OutgoingQueueItem) (s : State)
      (p : Protocol)
      → ((n : ℕ) → length (garbage n) ≡ n)
      → IsSendable msg
      → IsAsking msg rest p
      → IsSpaced p.cooldown_interval p.answer_timeout_interval msg.retry_interval
          p.cooldown_time_point p.retry_time_point ts
      → 0 < msg.number_of_retries
      → msg.number_of_retries ≡ length ts
      → let s' = rewritten stream ts (wire_of msg) s in
        let calls = timeout_calls client msg p in
        let told = (apply_all stream garbage calls s' (given_up (last_of ts) msg rest p)).1 in
        (attempts ts s p ≡ (s', record told { state = idle }))
        × (told.outgoing_messages ≡ rest ++ all_enqueued calls)
        × All IsLimited (all_enqueued calls)
  unfolding attempts rewritten IsSpaced
  attempts-GivenUp [] msg rest s p h m a spaced left e = absurd (omega (arith, left, e))
  attempts-GivenUp (t ∷ []) msg rest s p h m a (cool, ready, over, _) left e =
      let calls = timeout_calls client msg p in
      (
        attempt-last stream garbage client t msg rest s p h m a cool ready over e,
        apply_all-queue stream garbage calls (stream.write_array s (wire_of msg))
            (given_up t msg rest p),
        all_enqueued-IsLimited calls,
      )
  attempts-GivenUp (t ∷ u ∷ us) msg rest s p h m a (cool, ready, over, spaced) left e =
      let again =
        attempt-again stream garbage client t msg rest s p h m a cool ready over
          (omega (arith, e)) in
      let asking : IsAsking (tried msg) rest (record (waits t msg rest p) { state = idle }) =
        record { queue = refl; idles = refl; received = a.received; quiet = a.quiet } in
      let sendable : IsSendable (tried msg) = record {
        well_formed = m.well_formed;
        few = m.few;
        fits = m.fits;
        expects = m.expects;
      } in
      let (ends, queue, limited) =
        attempts-GivenUp (u ∷ us) (tried msg) rest (stream.write_array s (wire_of msg))
          (record (waits t msg rest p) { state = idle }) h sendable asking spaced (omega (arith, e))
          (omega (arith, e)) in
      (ap (λ (r : State × Protocol). attempts (u ∷ us) r.0 r.1) again ∙ ends, queue, limited)
