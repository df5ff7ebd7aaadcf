-- ===== src/Ingest/Source.antt =====
-- The handling of one message in `consume_source` of spectrum-ingest/app.py, and the life of a
-- browser's connection in `spectrum_socket`.
use Prim.Native.String
use diploma_munka.Prelude.{
  ℕ, suc, ◌+◌, Bool, Option, none, some, List, [], ◌∷◌, map, String, if◌then◌else◌, ltb, ◌==◌,
  length, len,
}
use diploma_munka.Prelude.Int.{ℤ}
use diploma_munka.Prelude.Floats.{Floats}
use diploma_munka.Prelude.Results.{ok, raise}
use diploma_munka.Channel.{Channel, empty_channel}
use diploma_munka.Ingest.Json.{Json, obj, Fields, end}
use diploma_munka.Ingest.Fanout.{Client, put_suppressed}
use diploma_munka.Ingest.Frame.{
  Fault, invalid, invalid_key, exception, validate_frame, value, int_at,
}
use diploma_munka.Ingest.State.{
  IngestState, Payload, text, binary, count_invalid, count_gap, breaks_sequence, lookup_sequence,
  set_sequence, frame_key, source_fields, remember, publish,
}

module _ (fl : Floats) where
  open fl use {F, zero as zero_float, sub, div, lt, of_ℕ}

  abbrev pub last_or : F → List F → F
  last_or x [] = x
  last_or x (y ∷ ys) = last_or y ys

  abbrev pub rate : F → ℕ → F
  rate elapsed n = if lt zero_float elapsed then div (of_ℕ n) elapsed else zero_float

  -- `_rolling_fps`
  unfoldable pub rolling_fps : List F → F
  rolling_fps [] = zero_float
  rolling_fps (x ∷ []) = zero_float
  rolling_fps (x ∷ y ∷ ys) = rate (sub (last_or y ys) x) (suc (length ys))

  -- `max(0.0, x)`
  abbrev pub not_negative : F → F
  not_negative x = if lt zero_float x then x else zero_float

  -- What the loop does with a valid frame at the monotonic time `now`; `latency` is the wall clock's
  -- distance to the frame's time stamp, in milliseconds.
  unfoldable pub note_frame : F → F → Fields F → IngestState F → IngestState F
  note_frame now latency fs s =
      let sequence = int_at fs "sequence" in
      let gap = breaks_sequence (lookup_sequence (frame_key fs) s.last_sequences) sequence in
      let times = remember now s.received_times in
      record s {
        last_sequences = set_sequence (frame_key fs) sequence s.last_sequences;
        received_times = times;
        metrics = record m {
          received_frames = m.received_frames + 1;
          sequence_gaps = count_gap gap m.sequence_gaps;
          source_fps = rolling_fps times;
          source_latency_ms = not_negative latency;
        };
        last_source = some (map (λ key. (key, value fs key)) source_fields);
      }
    where
      open s use {metrics as m}

  unfoldable pub accept : F → F → String → Fields F → IngestState F → IngestState F
  accept now latency payload fs s =
      publish payload (record n { last_payload = some payload; last_error = none })
    where
      n : IngestState F
      n = note_frame now latency fs s

  -- A frame that is not accepted: counted and explained, or an exception that ends the connection.
  unfoldable pub refuse : Fault → IngestState F → IngestState F × Option String
  refuse (invalid e) s = (record (count_invalid s) { last_error = some e }, none)
  refuse (invalid_key k) s =
      (record (count_invalid s) { last_error = some (String.◌++◌ "invalid " k) }, none)
  refuse (exception e) s = (s, some e)

  abbrev pub fields_of : Json F → Fields F
  fields_of (obj fs) = fs
  fields_of other = end

  -- `loads` is `json.loads`, `none` its JSONDecodeError.
  module _ {Stamp : Type 0} (parse_iso : String → Option Stamp) (has_timezone : Stamp → Bool)
      (loads : String → Option (Json F)) (max_points : ℤ) (max_bytes : ℕ) where
    unfoldable pub on_frame :
        F → F → String → Json F → IngestState F → IngestState F × Option String
    on_frame now latency payload frame s =
        elim (validate_frame fl parse_iso has_timezone max_points frame) [
          | ok _ ↦ (accept now latency payload (fields_of frame) s, none)
          | raise e ↦ refuse e s
        ]

    unfoldable pub on_text : F → F → String → IngestState F → IngestState F × Option String
    on_text now latency payload s =
        if ltb max_bytes (len payload) then (count_invalid s, none) else elim (loads payload) [
          | none ↦ (count_invalid s, none)
          | some frame ↦ on_frame now latency payload frame s
        ]

    -- One message of the source, with the exception that ends the connection, if any.
    unfoldable pub on_message : F → F → Payload → IngestState F → IngestState F × Option String
    on_message now latency (text payload) s = on_text now latency payload s
    on_message now latency (binary data_bytes) s = (count_invalid s, none)

abbrev pub greeted : ℕ → Option String → Channel String
greeted max_queue none = empty_channel max_queue
greeted max_queue (some payload) = put_suppressed payload (empty_channel max_queue)

-- `clients.discard(queue)`
unfoldable pub discard {ℓ} : {A : Type ℓ} → ℕ → List (Client A) → List (Client A)
discard identity [] = []
discard identity (c ∷ cs) =
    if c.identity == identity then discard identity cs else c ∷ discard identity cs

module _ {F : Type 0} where
  -- The start of `spectrum_socket`: a queue of `max_queue`, with the last payload in it.
  unfoldable pub connect : ℕ → ℕ → IngestState F → IngestState F
  connect max_queue identity s =
      let clients =
        record { identity = identity; queue = greeted max_queue s.last_payload } ∷ s.clients in
      record s { clients = clients; metrics = record m { connected_clients = length clients } }
    where
      open s use {metrics as m}

  -- The `finally` of `spectrum_socket`.
  unfoldable pub disconnect : ℕ → IngestState F → IngestState F
  disconnect identity s =
      let clients = discard identity s.clients in
      record s { clients = clients; metrics = record m { connected_clients = length clients } }
    where
      open s use {metrics as m}
