-- ===== src/Iq/Tests.antt =====
-- Runs of the IQ data plane on concrete packets, and its theorems at concrete inputs.
use diploma_munka.Prelude.{
  ℕ, ◌+◌, ◌≡◌, ◌≢◌, ◌⊎◌, ◌↔◌, refl, inl, Bool, true, false, List, [], ◌∷◌, none, arith, ltb, str_eq,
}
use diploma_munka.Prelude.Int.{pos, negsuc, ◌≤ℤ◌, ◌+ℤ◌}
use diploma_munka.Prelude.Python.{PyText}
use diploma_munka.Prelude.Results.{ok, raise, raise_first}
use diploma_munka.Channel.{pop_front, put_nowait, get_nowait, task_done}
use diploma_munka.Iq.Packet.{IqPacket, validate, default_max_samples, invalid_iq_frequency_metadata}
use diploma_munka.Iq.Valid.{IsWellFormed, validate_iff}
use diploma_munka.Iq.Plane.{
  IqDataPlaneConfig, IqDataPlane, from_env, init, initial_state, disabled, not_configured,
  configured_not_tested, degraded, failed, ready, receive, gap_after, count_drop,
}
use diploma_munka.Iq.Enqueue.{
  enqueue, offer, on_full, evict, mark_evicted, offer_again, start, connect_sink, close_sink,
}
use diploma_munka.Iq.Window.{Holds, kept, enqueue_all, enqueue_all_lem}
use diploma_munka.Iq.Threads.{
  Event, call, producer_moves, worker_moves, run, boot, is_idle, step, begin_call, producer_step,
  producer_at, first_put, worker_step, worker_at, test_loop, get_packet, publish_packet,
  acknowledge,
}
use diploma_munka.Iq.Accounting.{Accounted, run-boot-Accounted, unfinished_zero_drained}
use diploma_munka.Iq.Gaps.{sequence_gaps_lem}
use diploma_munka.Iq.Lifecycle.{from_env_ranges, start_needs, close_sink_state}
use diploma_munka.Iq.Mock.{MockIqSink, mock_sink, new_mock_sink}

-- Numbers below 1000 stand for the finite floats.
abbrev finite : ℕ → Bool
finite x = ltb x 1000

abbrev packet : ℕ → IqPacket ℕ
packet n = record {
  protocol_version = pos 1;
  sample_format = "cf32_le";
  sample_rate_hz = pos 48_000;
  center_frequency_hz = pos 100_000_000;
  timestamp_ns = pos 1;
  sequence = pos n;
  samples = (1, 2) ∷ [];
  packet_loss = pos 0;
  overflow = pos 0;
}

packet-IsWellFormed : (n : ℕ) → IsWellFormed finite (packet n) default_max_samples
packet-IsWellFormed n = record {
  version = refl;
  format = inl refl;
  rate = omega arith;
  center = omega arith;
  stamped = omega arith;
  numbered = omega arith;
  some_samples = omega arith;
  few_samples = omega arith;
  loss = omega arith;
  overflows = omega arith;
  finite = ((refl, refl), tt);
}

abbrev config : IqDataPlaneConfig
config = record {
  enabled = true;
  mode = "mock";
  endpoint = "memory://mock-sink";
  sample_format = "cf32_le";
  sample_rate_hz = pos 48_000;
  queue_size = pos 2;
  drop_policy = "drop_oldest";
}

abbrev plain_text : PyText
plain_text = record {
  strip = λ s. s;
  lower = λ s. s;
  upper = λ s. s;
  casefold = λ s. s;
  int_of = λ s. none;
}

no_rate :
    validate finite (record (packet 0) { sample_rate_hz = negsuc 0 }) 4
    ≡ raise invalid_iq_frequency_metadata
unfolding validate raise_first
no_rate = refl

abbrev three : List (IqPacket ℕ)
three = packet 0 ∷ packet 4 ∷ packet 5 ∷ []

abbrev mock : MockIqSink ℕ
mock = new_mock_sink

abbrev plane : IqDataPlane ℕ (MockIqSink ℕ)
plane = init config mock

keeps_two : (enqueue_all finite three plane).queue.items ≡ packet 4 ∷ packet 5 ∷ []
unfolding init enqueue_all enqueue validate raise_first offer receive gap_after put_nowait
    get_nowait task_done on_full evict mark_evicted offer_again count_drop
keeps_two = refl

validate_iff_example :
    (validate finite (packet 3) default_max_samples ≡ ok tt)
    ↔ IsWellFormed finite (packet 3) default_max_samples
validate_iff_example = validate_iff finite (packet 3) default_max_samples

enqueue_all_lem_example :
    Holds
      (enqueue_all finite three (init config mock))
      2
      3
      (kept (str_eq "drop_oldest" "drop_newest") 2 three)
enqueue_all_lem_example =
    enqueue_all_lem finite three config mock
      (packet-IsWellFormed 0, (packet-IsWellFormed 4, (packet-IsWellFormed 5, tt))) (omega arith)

sequence_gaps_lem_example :
    (enqueue_all finite three (init config mock)).stats.sequence_gaps +ℤ pos 0 +ℤ pos 2 ≡ pos 5
sequence_gaps_lem_example =
    sequence_gaps_lem finite (packet 0) (packet 4 ∷ packet 5 ∷ []) config mock
      (packet-IsWellFormed 0) (packet-IsWellFormed 4, (packet-IsWellFormed 5, tt))
      (omega arith, (omega arith, tt))

-- Two calls, and the worker taking the first packet in between.
abbrev schedule : List (Event ℕ)
schedule =
    call (packet 0)
    ∷ producer_moves
    ∷ worker_moves
    ∷ worker_moves
    ∷ call (packet 1)
    ∷ producer_moves
    ∷ worker_moves
    ∷ worker_moves
    ∷ []

run-boot-Accounted_example : Accounted 2 (run finite mock_sink schedule (boot config mock))
run-boot-Accounted_example = run-boot-Accounted finite mock_sink config mock schedule (omega arith)

abbrev connected_mock : MockIqSink ℕ
connected_mock = record mock { connected = true }

-- A packet that is queued, taken, published and marked as done.
abbrev delivered : List (Event ℕ)
delivered =
    call (packet 0)
    ∷ producer_moves
    ∷ worker_moves
    ∷ worker_moves
    ∷ worker_moves
    ∷ worker_moves
    ∷ []

published_one :
    let s = run finite mock_sink delivered (boot config connected_mock) in
    (s.plane.stats.packets_published ≡ 1)
    × (s.plane.queue.unfinished ≡ 0)
    × (is_idle s.producer ≡ true)
unfolding run boot init step begin_call producer_step producer_at first_put worker_step worker_at
    test_loop get_packet publish_packet acknowledge receive validate put_nowait get_nowait pop_front
    task_done gap_after initial_state raise_first
published_one = (refl, refl, refl)

unfinished_zero_drained_example :
    let s = run finite mock_sink delivered (boot config connected_mock) in
    let st = s.plane.stats in
    (s.plane.queue.items ≡ [])
    × (st.packets_received ≡ st.packets_published + st.reconnects + st.packets_dropped)
unfinished_zero_drained_example =
    unfinished_zero_drained finite mock_sink config connected_mock delivered (omega arith)
      published_one.1 published_one.2

from_env_ranges_example :
    let c = from_env plain_text (λ name. none) in
    (pos 1 ≤ℤ c.queue_size)
    × (c.queue_size ≤ℤ pos 4096)
    × (pos 0 ≤ℤ c.sample_rate_hz)
    × ((c.drop_policy ≡ "drop_oldest") ⊎ (c.drop_policy ≡ "drop_newest"))
from_env_ranges_example = from_env_ranges plain_text (λ name. none)

start_needs_example :
    let p = plane in
    (p.state ≢ disabled)
    × (p.state ≢ not_configured)
    × ((p.state ≢ configured_not_tested) ⊎ (true ≡ true))
    × ((start mock_sink true p).0.state ≡ ready)
    × ((start mock_sink true p).0.stopping ≡ false)
    × ((start mock_sink true p).1 ≡ none)
unfolding init initial_state start connect_sink
start_needs_example = start_needs mock_sink true (init config mock) refl refl

close_sink_state_example :
    let p = plane in
    (((close_sink mock_sink p).0.state ≡ p.state) × ((p.state ≡ failed) ⊎ (p.state ≡ degraded)))
    ⊎ (((close_sink mock_sink p).0.state ≡ initial_state config)
        × (p.state ≢ failed)
        × (p.state ≢ degraded))
unfolding close_sink init
close_sink_state_example = close_sink_state mock_sink (init config mock) refl
