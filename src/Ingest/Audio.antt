-- ===== src/Ingest/Audio.antt =====
-- `AudioDatagramProtocol` of spectrum-ingest/app.py: 16-bit samples from UDP, fanned out to browsers.
use diploma_munka.Prelude.{
  ℕ, ◌+◌, ◌-◌, ◌%◌, ◌||◌, none, some, List, String, if◌then◌else◌, ltb, ◌==◌, length, take,
}
use diploma_munka.Ingest.Fanout.{fan_out}
use diploma_munka.Ingest.State.{IngestState}

-- `if len(data) % 2: data = data[:-1]`
unfoldable pub whole_samples : List ℕ → List ℕ
whole_samples bytes = if length bytes % 2 == 0 then bytes else take (length bytes - 1) bytes

module _ {F : Type 0} where
  unfoldable pub count_invalid_packet : IngestState F → IngestState F
  count_invalid_packet s = record s {
    metrics = record m { audio_invalid_packets = m.audio_invalid_packets + 1 };
  }
    where
      open s use {metrics as m}

  -- The counters and the fan-out, at the time `now`.
  unfoldable pub play : String → List ℕ → IngestState F → IngestState F
  play now bytes s =
      let (clients, dropped) = fan_out bytes s.audio_clients in
      record s {
        audio_clients = clients;
        audio_last_packet_at = some now;
        audio_last_error = none;
        metrics = record m {
          audio_packets = m.audio_packets + 1;
          audio_bytes = m.audio_bytes + length bytes;
          audio_dropped_packets = m.audio_dropped_packets + dropped;
        };
      }
    where
      open s use {metrics as m}

  unfoldable pub datagram_received : ℕ → String → List ℕ → IngestState F → IngestState F
  datagram_received max_packet now bytes s =
      if ltb (length bytes) 2 || ltb max_packet (length bytes)
      then count_invalid_packet s
      else if length (whole_samples bytes) == 0
      then count_invalid_packet s
      else play now (whole_samples bytes) s
