-- ===== src/Ingest/State.antt =====
-- `Metrics`, `IngestState`, and what one message of the RF agent does to them, in
-- spectrum-ingest/app.py: the body of the `async for` loop of `consume_source`.
use diploma_munka.Prelude.{
  ℕ, ◌+◌, Bool, true, false, not, ◌&&◌, Option, none, some, List, [], ◌∷◌, ◌++◌, String, str_eq,
  if◌then◌else◌, last_n,
}
use diploma_munka.Prelude.Int.{ℤ, pos, ◌+ℤ◌, eqb_ℤ}
use diploma_munka.Ingest.Json.{Json, Fields}
use diploma_munka.Ingest.Fanout.{Client, fan_out}
use diploma_munka.Ingest.Frame.{value, text_of}

pub record Metrics (F : Type 0) : Type 0 where
  pub received_frames : ℕ
  pub invalid_frames : ℕ
  pub dropped_frames : ℕ
  pub sequence_gaps : ℕ
  pub connected_clients : ℕ
  pub source_latency_ms : F
  pub source_fps : F
  pub outgoing_fps : F
  pub audio_packets : ℕ
  pub audio_bytes : ℕ
  pub audio_dropped_packets : ℕ
  pub audio_invalid_packets : ℕ
  pub audio_connected_clients : ℕ

abbrev pub FrameKey : Type 0
FrameKey = String × String × String

-- Bytes are numbers below 256; they are only moved.
pub record IngestState (F : Type 0) : Type 0 where
  pub metrics : Metrics F
  pub source_connected : Bool
  pub last_error : Option String
  pub last_source : Option (List (String × Json F))
  pub last_payload : Option String
  pub clients : List (Client String)
  pub audio_clients : List (Client (List ℕ))
  pub audio_last_error : Option String
  pub audio_last_packet_at : Option String
  pub last_sequences : List (FrameKey × ℤ)
  pub received_times : List F
  pub outgoing_times : List F

abbrev pub same_key : FrameKey → FrameKey → Bool
same_key a b = str_eq a.0 b.0 && str_eq a.1 b.1 && str_eq a.2 b.2

unfoldable pub lookup_sequence : FrameKey → List (FrameKey × ℤ) → Option ℤ
lookup_sequence key [] = none
lookup_sequence key ((k, n) ∷ rest) = if same_key k key then some n else lookup_sequence key rest

unfoldable pub set_sequence : FrameKey → ℤ → List (FrameKey × ℤ) → List (FrameKey × ℤ)
set_sequence key n [] = (key, n) ∷ []
set_sequence key n ((k, m) ∷ rest) =
    if same_key k key then (k, n) ∷ rest else (k, m) ∷ set_sequence key n rest

-- `previous is not None and sequence != previous + 1`
abbrev pub breaks_sequence : Option ℤ → ℤ → Bool
breaks_sequence none n = false
breaks_sequence (some previous) n = not (eqb_ℤ n (previous +ℤ pos 1))

-- `deque(maxlen=120).append`
abbrev pub remember {ℓ} : {A : Type ℓ} → A → List A → List A
remember x xs = last_n 120 (xs ++ x ∷ [])

-- A message of the WebSocket: text or binary.
pub data Payload : Type 0 where
  text : String → Payload
  binary : List ℕ → Payload

abbrev pub count_gap : Bool → ℕ → ℕ
count_gap true n = n + 1
count_gap false n = n

-- The summary of a frame that `/status` shows.
abbrev pub source_fields : List String
source_fields =
    "sensor_id" ∷ "source_type" ∷ "source_device" ∷ "session_id" ∷ "device_model"
    ∷ "measurement_mode" ∷ "start_frequency_hz" ∷ "stop_frequency_hz" ∷ "point_count" ∷ "sequence"
    ∷ []

module _ {F : Type 0} where
  abbrev pub set_metrics : IngestState F → Metrics F → IngestState F
  set_metrics s m = record s { metrics = m }

  unfoldable pub count_invalid : IngestState F → IngestState F
  count_invalid s = set_metrics s (record m { invalid_frames = m.invalid_frames + 1 })
    where
      open s use {metrics as m}

  abbrev pub frame_key : Fields F → FrameKey
  frame_key fs = (
    text_of (value fs "sensor_id"),
    text_of (value fs "session_id"),
    text_of (value fs "source_type"),
  )

  -- `publish(payload)`
  unfoldable pub publish : String → IngestState F → IngestState F
  publish payload s =
      let (clients, dropped) = fan_out payload s.clients in
      record s {
        clients = clients;
        metrics = record m { dropped_frames = m.dropped_frames + dropped };
      }
    where
      open s use {metrics as m}
