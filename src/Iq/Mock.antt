-- ===== src/Iq/Mock.antt =====
-- `MockIqSink` of python-processor/app/services/sdrangel/iq_pipeline.py: an implementation of `IqSink`
-- that keeps what it is given.
use diploma_munka.Prelude.{Bool, true, false, List, [], ◌∷◌, ◌++◌, none, some, if◌then◌else◌}
use diploma_munka.Iq.Packet.{IqPacket}
use diploma_munka.Iq.Plane.{IqSink}

pub record MockIqSink (F : Type 0) : Type 0 where
  pub packets : List (IqPacket F)
  pub connected : Bool

abbrev pub new_mock_sink : {F : Type 0} → MockIqSink F
new_mock_sink = record { packets = []; connected = false }

abbrev pub mock_sink : {F : Type 0} → IqSink F (MockIqSink F)
mock_sink = record {
  connect = λ s. (record s { connected = true }, none);
  publish = λ p s.
      if s.connected
      then (record s { packets = s.packets ++ p ∷ [] }, none)
      else (s, some "RuntimeError:mock_sink_not_connected");
  close = λ s. (record s { connected = false }, none);
}
