-- ===== src/Iq/Plane.antt =====
-- The state of `IqDataPlane` in python-processor/app/services/sdrangel/iq_pipeline.py, its
-- configuration, and `enqueue`, `start`, `stop` and `status` as one thread runs them.
use diploma_munka.Prelude.{
  ℕ, ◌+◌, Bool, false, not, ◌||◌, String, Option, none, some, str_eq, if◌then◌else◌,
}
use diploma_munka.Prelude.Int.{ℤ, pos, negsuc, ◌+ℤ◌, ◌-ℤ◌, ltb_ℤ, leb_ℤ}
use diploma_munka.Prelude.Python.{PyText}
use diploma_munka.Channel.{Channel, empty_channel}
use diploma_munka.Iq.Packet.{IqPacket, supported_sample_format}

pub data DataPlaneState : Type 0 where
  disabled not_configured configured_not_tested connecting ready degraded failed : DataPlaneState

pub record IqDataPlaneConfig : Type 0 where
  pub enabled : Bool
  pub mode : String
  pub endpoint : String
  pub sample_format : String
  pub sample_rate_hz : ℤ
  pub queue_size : ℤ
  pub drop_policy : String

abbrev pub max_ℤ : ℤ → ℤ → ℤ
max_ℤ a b = if ltb_ℤ a b then b else a

abbrev pub min_ℤ : ℤ → ℤ → ℤ
min_ℤ a b = if ltb_ℤ b a then b else a

abbrev pub or_else {ℓ} : {A : Type ℓ} → Option A → A → A
or_else none d = d
or_else (some a) d = a

abbrev pub truthy_flag : String → Bool
truthy_flag s = str_eq s "1" || str_eq s "true" || str_eq s "yes" || str_eq s "on"

abbrev pub known_policy : String → String
known_policy s = if str_eq s "drop_oldest" || str_eq s "drop_newest" then s else "drop_oldest"

-- `os.getenv(name, default)` is `or_else (env name) default`.
module _ (py : PyText) (env : String → Option String) where
  open py use {strip, lower, int_of}

  -- A ValueError of `int` gives 0 for the rate and 32 for the queue.
  unfoldable pub from_env : IqDataPlaneConfig
  from_env = record {
    enabled = truthy_flag (lower (strip (or_else (env "SDRANGEL_ENABLED") "false")));
    mode = strip (or_else (env "SDRANGEL_DATA_PLANE_MODE") "not_configured");
    endpoint = strip (or_else (env "SDRANGEL_DATA_PLANE_ENDPOINT") "");
    sample_format = strip (or_else (env "SDRANGEL_IQ_SAMPLE_FORMAT") "cf32_le");
    sample_rate_hz =
        max_ℤ (pos 0) (or_else (int_of (or_else (env "SDRANGEL_IQ_SAMPLE_RATE_HZ") "0")) (pos 0));
    queue_size = elim (int_of (or_else (env "SDRANGEL_IQ_QUEUE_SIZE") "32")) [
      | none ↦ pos 32
      | some n ↦ max_ℤ (pos 1) (min_ℤ (pos 4096) n)
    ];
    drop_policy =
        known_policy (lower (strip (or_else (env "SDRANGEL_IQ_DROP_POLICY") "drop_oldest")));
  }

unfoldable pub initial_state : IqDataPlaneConfig → DataPlaneState
initial_state c =
    if not c.enabled
    then disabled
    else if str_eq c.mode ""
        || str_eq c.mode "not_configured"
        || str_eq c.endpoint ""
        || leb_ℤ c.sample_rate_hz (pos 0)
        || not (supported_sample_format c.sample_format)
    then not_configured
    else configured_not_tested

pub record IqDataPlaneStats : Type 0 where
  pub packets_received : ℕ
  pub packets_published : ℕ
  pub packets_dropped : ℕ
  pub sequence_gaps : ℤ
  pub packet_loss : ℤ
  pub overflows : ℤ
  pub reconnects : ℕ
  pub last_sequence : Option ℤ
  pub last_error : Option String
  pub last_packet_at_ns : Option ℤ

abbrev pub fresh_stats : IqDataPlaneStats
fresh_stats = record {
  packets_received = 0;
  packets_published = 0;
  packets_dropped = 0;
  sequence_gaps = pos 0;
  packet_loss = pos 0;
  overflows = pos 0;
  reconnects = 0;
  last_sequence = none;
  last_error = none;
  last_packet_at_ns = none;
}

-- The `IqSink` protocol: a call gives the sink's new state, and the text of what it raised, if it did.
pub record IqSink (F S : Type 0) : Type 0 where
  pub connect : S → S × Option String
  pub publish : IqPacket F → S → S × Option String
  pub close : S → S × Option String

-- `stopping` is the event `_stop`; `thread_alive` is `_thread and _thread.is_alive()`.
pub record IqDataPlane (F S : Type 0) : Type 0 where
  pub config : IqDataPlaneConfig
  pub sink : S
  pub state : DataPlaneState
  pub stats : IqDataPlaneStats
  pub queue : Channel (IqPacket F)
  pub stopping : Bool
  pub thread_alive : Bool

-- `Queue(maxsize=…)`: no bound for a size that is not positive.
abbrev pub maxsize_of : ℤ → ℕ
maxsize_of (pos n) = n
maxsize_of (negsuc n) = 0

-- `if last_sequence is not None and sequence > last_sequence + 1: sequence_gaps += …`
unfoldable pub gap_after : Option ℤ → ℤ → ℤ
gap_after none sequence = pos 0
gap_after (some last) sequence =
    if ltb_ℤ (last +ℤ pos 1) sequence then sequence -ℤ last -ℤ pos 1 else pos 0

module _ {F S : Type 0} where
  unfoldable pub init : IqDataPlaneConfig → S → IqDataPlane F S
  init config sink = record {
    config = config;
    sink = sink;
    state = initial_state config;
    stats = fresh_stats;
    queue = empty_channel (maxsize_of config.queue_size);
    stopping = false;
    thread_alive = false;
  }

  -- The counters that `enqueue` updates before it touches the queue.
  unfoldable pub receive : IqPacket F → IqDataPlane F S → IqDataPlane F S
  receive p s = record s {
    stats = record st {
      packets_received = st.packets_received + 1;
      packet_loss = st.packet_loss +ℤ p.packet_loss;
      overflows = st.overflows +ℤ p.overflow;
      sequence_gaps = st.sequence_gaps +ℤ gap_after st.last_sequence p.sequence;
      last_sequence = some p.sequence;
      last_packet_at_ns = some p.timestamp_ns;
    };
  }
    where
      open s use {stats as st}

  unfoldable pub count_drop : IqDataPlane F S → IqDataPlane F S
  count_drop s = record s { stats = record st { packets_dropped = st.packets_dropped + 1 } }
    where
      open s use {stats as st}

  abbrev pub set_queue : IqDataPlane F S → Channel (IqPacket F) → IqDataPlane F S
  set_queue s q = record s { queue = q }
