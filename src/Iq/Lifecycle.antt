-- ===== src/Iq/Lifecycle.antt =====
-- When the IQ data plane starts and stops, and the ranges of its configuration.
use diploma_munka.Prelude.{◌≡◌, ◌≢◌, ◌⊎◌, Bool, true, false, String, Option, none, arith, eq_iff}
use diploma_munka.Prelude.Int.{pos, ◌≤ℤ◌}
use diploma_munka.Prelude.Python.{PyText}
use diploma_munka.Iq.Plane.{
  disabled, not_configured, configured_not_tested, ready, degraded, failed, IqDataPlane, IqSink,
  initial_state, from_env, or_else, known_policy,
}
use diploma_munka.Iq.Enqueue.{start, connect_sink, close_sink}

policy_known : (s : String) → (known_policy s ≡ "drop_oldest") ⊎ (known_policy s ≡ "drop_newest")
policy_known s = ground (arith, eq_iff s "drop_oldest", eq_iff s "drop_newest")

-- What `from_env` guarantees, whatever the environment holds: a queue of 1 to 4096 packets, a
-- sample rate that is not negative, and one of the two drop policies.
pub from_env_ranges :
    (py : PyText) (env : String → Option String)
    → let c = from_env py env in
      (pos 1 ≤ℤ c.queue_size)
      × (c.queue_size ≤ℤ pos 4096)
      × (pos 0 ≤ℤ c.sample_rate_hz)
      × ((c.drop_policy ≡ "drop_oldest") ⊎ (c.drop_policy ≡ "drop_newest"))
unfolding from_env
from_env_ranges py env = (
  ground arith,
  ground arith,
  ground arith,
  policy_known (py.lower (py.strip (or_else (env "SDRANGEL_IQ_DROP_POLICY") "drop_oldest"))),
)

module _ {F S : Type 0} (sink : IqSink F S) where
  -- A plane without a worker gets one from `start` only out of a state that is neither disabled nor
  -- not configured, and out of `configured_not_tested` only with `allow_mock_ready`; it is then
  -- ready, and a stop asked for earlier is forgotten.
  pub start_needs :
      (allow_mock_ready : Bool) (s : IqDataPlane F S)
      → s.thread_alive ≡ false
      → (start sink allow_mock_ready s).0.thread_alive ≡ true
      → (s.state ≢ disabled)
        × (s.state ≢ not_configured)
        × ((s.state ≢ configured_not_tested) ⊎ (allow_mock_ready ≡ true))
        × ((start sink allow_mock_ready s).0.state ≡ ready)
        × ((start sink allow_mock_ready s).0.stopping ≡ false)
        × ((start sink allow_mock_ready s).1 ≡ none)
  unfolding start connect_sink
  start_needs allow s h k = ground arith

  -- After `stop` whose sink closes, a failed or degraded plane shows that state still, and a plane
  -- in any other state is back in the one that its configuration gives.
  pub close_sink_state :
      (s : IqDataPlane F S)
      → (close_sink sink s).1 ≡ none
      → (((close_sink sink s).0.state ≡ s.state) × ((s.state ≡ failed) ⊎ (s.state ≡ degraded)))
        ⊎ (((close_sink sink s).0.state ≡ initial_state s.config)
            × (s.state ≢ failed)
            × (s.state ≢ degraded))
  unfolding close_sink
  close_sink_state s h = ground arith
