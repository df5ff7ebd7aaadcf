-- ===== src/Ingest/Hub.antt =====
-- The browsers of spectrum-ingest/app.py over time: messages, connections and reads in any order.
use diploma_munka.Prelude.{ℕ, ◌<◌, ◌∙◌, sym, List, [], ◌∷◌, Option, String, Bool}
use diploma_munka.Prelude.Int.{ℤ}
use diploma_munka.Prelude.Floats.{Floats}
use diploma_munka.Ingest.Json.{Json}
use diploma_munka.Ingest.State.{IngestState, Payload}
use diploma_munka.Ingest.Source.{connect, disconnect, on_message}
use diploma_munka.Ingest.Clients.{
  IsSound, read_from, read_from-WellKept, length-read_from, connect-IsSound, disconnect-IsSound,
}
use diploma_munka.Ingest.Messages.{on_message_lem, Outcome-IsSound}

module _ (fl : Floats) {Stamp : Type 0} (parse_iso : String → Option Stamp)
    (has_timezone : Stamp → Bool) (loads : String → Option (Json fl.F)) (max_points : ℤ)
    (max_bytes : ℕ) where
  open fl use {F}

  -- What can happen to the browsers: a message arrives, a browser connects under a number, leaves,
  -- or its coroutine takes a payload.
  pub data HubEvent : Type 0 where
    arrives : F → F → Payload → HubEvent
    joins leaves reads : ℕ → HubEvent

  pub hub_step : ℕ → HubEvent → IngestState F → IngestState F
  hub_step max_queue (arrives now latency message) s =
      (on_message fl parse_iso has_timezone loads max_points max_bytes now latency message s).0
  hub_step max_queue (joins i) s = connect max_queue i s
  hub_step max_queue (leaves i) s = disconnect i s
  hub_step max_queue (reads i) s = record s { clients = read_from i s.clients }

  pub hub_run : ℕ → List HubEvent → IngestState F → IngestState F
  hub_run max_queue [] s = s
  hub_run max_queue (e ∷ es) s = hub_run max_queue es (hub_step max_queue e s)

  hub_step-IsSound :
      (max_queue : ℕ) (e : HubEvent) (s : IngestState F)
      → 0 < max_queue
      → IsSound s
      → IsSound (hub_step max_queue e s)
  unfolding hub_step
  hub_step-IsSound n (arrives now latency message) s pos h =
      Outcome-IsSound fl parse_iso has_timezone loads max_points max_bytes s _ h (
        on_message_lem fl parse_iso has_timezone loads max_points max_bytes now latency message s h)
  hub_step-IsSound n (joins i) s pos h = connect-IsSound n i s pos h
  hub_step-IsSound n (leaves i) s pos h = disconnect-IsSound i s h
  hub_step-IsSound n (reads i) s pos h = record {
    kept = read_from-WellKept i s.clients h.kept;
    counted = h.counted ∙ sym (length-read_from i s.clients);
  }

  -- Whatever messages arrive and whenever browsers connect, read and leave: the gauge of connected
  -- browsers is their number, and no browser's queue ever exceeds its size. `max_queue`, the size of
  -- a new queue, is positive, as `max(1, …)` makes it.
  pub hub_run-IsSound :
      (max_queue : ℕ) (es : List HubEvent) (s : IngestState F)
      → 0 < max_queue
      → IsSound s
      → IsSound (hub_run max_queue es s)
  unfolding hub_run
  hub_run-IsSound n [] s pos h = h
  hub_run-IsSound n (e ∷ es) s pos h =
      hub_run-IsSound n es (hub_step n e s) pos (hub_step-IsSound n e s pos h)
