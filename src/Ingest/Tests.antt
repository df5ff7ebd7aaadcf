-- ===== src/Ingest/Tests.antt =====
-- The ingest service on concrete frames, and its theorems at concrete inputs.
use diploma_munka.Prelude.{
  ℕ, ◌+◌, ◌*◌, ◌/◌, ◌-◌, ◌≡◌, refl, Bool, true, Option, none, some, List, [], ◌∷◌, String, str_eq,
  arith, ltb, leb, ◌==◌, if◌then◌else◌,
}
use diploma_munka.Prelude.Int.{pos, negsuc, nat_abs, ◌+ℤ◌, ◌*ℤ◌, ◌-ℤ◌}
use diploma_munka.Prelude.Floats.{Floats}
use diploma_munka.Prelude.Results.{ok, raise}
use diploma_munka.Channel.{Channel, empty_channel}
use diploma_munka.Ingest.Json.{
  Json, null, bool, int, float, str, arr, obj, nil, item, Fields, end, field, find_field, to_list,
}
use diploma_munka.Ingest.Frame.{
  validate_frame, first_fault, finite_number, all_finite, check_powers_list, check_rbw, check_texts,
  exception,
}
use diploma_munka.Ingest.Accepted.{IsFrame, validate_frame_sound}
use diploma_munka.Ingest.Fanout.{deliver}
use diploma_munka.Ingest.Delivery.{
  Delivered, deliver_lem, ClientEvent, offered, takes, offers, session_run, Serves,
  session_run-Serves,
}
use diploma_munka.Ingest.State.{IngestState, Metrics, text, binary}
use diploma_munka.Ingest.Source.{on_message}
use diploma_munka.Ingest.Audio.{datagram_received}
use diploma_munka.Ingest.Clients.{IsSound}
use diploma_munka.Ingest.Messages.{Outcome, on_message_lem}
use diploma_munka.Ingest.Hub.{HubEvent, arrives, joins, leaves, reads, hub_run, hub_run-IsSound}
use diploma_munka.Ingest.Packets.{Heard, datagram_received_lem}

-- Natural numbers stand for the floats; 999 is the one that is not finite.
abbrev floats : Floats
floats = record {
  F = ℕ;
  zero = 0;
  add = λ x y. x + y;
  sub = λ x y. x - y;
  mul = λ x y. x * y;
  div = λ x y. x / y;
  lt = λ x y. ltb x y;
  le = λ x y. leb x y;
  isfinite = λ x. ltb x 999;
  of_ℕ = λ n. n;
  of_int = λ n. some (nat_abs n);
  eq_int = λ x n. x == nat_abs n;
  le_int = λ x n. leb x (nat_abs n);
}

abbrev parse_stamp : String → Option String
parse_stamp s = if str_eq s "now" then some s else none

abbrev is_aware : String → Bool
is_aware s = true

abbrev frame_with : Json ℕ → Fields ℕ
frame_with metadata = field "schema_version" (int (pos 1)) (
    field "sensor_id" (str "s") (
      field "source_type" (str "mock") (
        field "source_device" (str "d") (
          field "device_model" (str "m") (
            field "measurement_mode" (str "sweep") (
              field "session_id" (str "1")
                (field "timestamp" (str "now") (field "sequence" (int (pos 7)) axis))))))))
  where
    rest : Fields ℕ
    rest =
        field "powers_dbm" (arr (item (int (negsuc 79)) (item (float 3) nil)))
          (field "flags" (obj end) (field "metadata" metadata end))

    axis : Fields ℕ
    axis = field "start_frequency_hz" (int (pos 100)) (
        field "stop_frequency_hz" (int (pos 110)) (
          field "step_frequency_hz" (int (pos 10)) (
            field "center_frequency_hz" (int (pos 105)) (
              field "sample_rate_hz" (int (pos 20)) (
                field "rbw_hz" (int (pos 10)) (
                  field "num_points" (int (pos 2))
                    (field "point_count" (int (pos 2)) (field "power_unit" (str "dBm") rest))))))))

abbrev frame : Fields ℕ
frame = frame_with (obj (field "is_simulated" (bool true) end))

abbrev loads : String → Option (Json ℕ)
loads s = if str_eq s "frame" then some (obj frame) else none

frame_accepted : validate_frame floats parse_stamp is_aware (pos 4096) (obj frame) ≡ ok tt
unfolding validate_frame first_fault find_field finite_number all_finite check_powers_list check_rbw
    to_list check_texts ◌+ℤ◌ ◌*ℤ◌ ◌-ℤ◌
frame_accepted = refl

-- Metadata that is no object, of a simulated source.
no_metadata_breaks :
    validate_frame floats parse_stamp is_aware (pos 4096) (obj (frame_with null))
    ≡ raise (exception "AttributeError")
unfolding validate_frame first_fault find_field finite_number all_finite check_powers_list check_rbw
    to_list check_texts ◌+ℤ◌ ◌*ℤ◌ ◌-ℤ◌
no_metadata_breaks = refl

validate_frame_sound_example : IsFrame floats (pos 4096) frame
validate_frame_sound_example =
    validate_frame_sound floats parse_stamp is_aware (pos 4096) frame frame_accepted

abbrev full_queue : Channel ℕ
full_queue = record { items = 1 ∷ 2 ∷ []; maxsize = 2; unfinished = 2 }

deliver_lem_example : Delivered 3 full_queue (deliver 3 full_queue)
deliver_lem_example = deliver_lem 3 full_queue (omega arith) (omega arith)

abbrev session : List (ClientEvent ℕ)
session = offered 1 ∷ offered 2 ∷ takes ∷ offered 3 ∷ offered 4 ∷ []

session_run-Serves_example :
    Serves
      (session_run session (record { queue = empty_channel 2; sent = []; lost = 0 }))
      (offers session)
      2
session_run-Serves_example = session_run-Serves session 2 (omega arith)

abbrev quiet : Metrics ℕ
quiet = record {
  received_frames = 0;
  invalid_frames = 0;
  dropped_frames = 0;
  sequence_gaps = 0;
  connected_clients = 1;
  source_latency_ms = 0;
  source_fps = 0;
  outgoing_fps = 0;
  audio_packets = 0;
  audio_bytes = 0;
  audio_dropped_packets = 0;
  audio_invalid_packets = 0;
  audio_connected_clients = 1;
}

abbrev waiting : IngestState ℕ
waiting = record {
  metrics = quiet;
  source_connected = true;
  last_error = none;
  last_source = none;
  last_payload = none;
  clients = record { identity = 0; queue = empty_channel 1 } ∷ [];
  audio_clients = record { identity = 0; queue = empty_channel 4 } ∷ [];
  audio_last_error = none;
  audio_last_packet_at = none;
  last_sequences = [];
  received_times = [];
  outgoing_times = [];
}

waiting-IsSound : IsSound waiting
waiting-IsSound = record { kept = ((omega arith, omega arith), tt); counted = refl }

on_message_lem_example :
    Outcome floats parse_stamp is_aware loads
      (pos 4096)
      1000
      waiting
      (on_message floats parse_stamp is_aware loads (pos 4096) 1000 5 1 (text "frame") waiting)
on_message_lem_example =
    on_message_lem floats parse_stamp is_aware loads (pos 4096) 1000 5 1 (text "frame") waiting
      waiting-IsSound

abbrev traffic : List (HubEvent floats parse_stamp is_aware loads (pos 4096) 1000)
traffic =
    arrives 5 1 (text "frame")
    ∷ joins 1
    ∷ arrives 6 1 (binary [])
    ∷ reads 1
    ∷ arrives 7 1 (text "frame")
    ∷ leaves 0
    ∷ []

hub_run-IsSound_example :
    IsSound (hub_run floats parse_stamp is_aware loads (pos 4096) 1000 2 traffic waiting)
hub_run-IsSound_example =
    hub_run-IsSound floats parse_stamp is_aware loads (pos 4096) 1000 2 traffic waiting
      (omega arith) waiting-IsSound

datagram_received_lem_example :
    Heard 1500 "now"
      (1 ∷ 2 ∷ 3 ∷ [])
      waiting
      (datagram_received 1500 "now" (1 ∷ 2 ∷ 3 ∷ []) waiting)
datagram_received_lem_example =
    datagram_received_lem 1500 "now" (1 ∷ 2 ∷ 3 ∷ []) waiting ((omega arith, omega arith), tt)
