-- ===== src/Iq/Enqueue.antt =====
-- `enqueue`, `start` and `stop` of `IqDataPlane` in
-- python-processor/app/services/sdrangel/iq_pipeline.py, with no other thread at work between their
-- steps. Iq/Threads has the steps of `enqueue` and of the worker one by one.
use diploma_munka.Prelude.{
  Bool, true, false, Option, none, some, String, str_eq, if◌then◌else◌, ◌&&◌, not,
}
use diploma_munka.Prelude.Results.{ok, raise}
use diploma_munka.Channel.{put_nowait, get_nowait, task_done}
use diploma_munka.Iq.Packet.{IqPacket, IqError, validate, default_max_samples}
use diploma_munka.Iq.Plane.{
  DataPlaneState, disabled, not_configured, configured_not_tested, connecting, ready, degraded,
  failed, IqDataPlane, IqSink, initial_state, receive, count_drop, set_queue,
}

-- What a call of `enqueue` ends with; `full` and `too_many_done` are exceptions of the queue.
pub data Reply : Type 0 where
  returned : Bool → Reply
  rejected : IqError → Reply
  full too_many_done : Reply

module _ {F S : Type 0} where
  -- The second `put_nowait`.
  unfoldable pub offer_again : IqPacket F → IqDataPlane F S → IqDataPlane F S × Reply
  offer_again p s = elim (put_nowait p s.queue) [
    | none ↦ (s, full)
    | some q ↦ (set_queue s q, returned true)
  ]

  unfoldable pub mark_evicted : IqPacket F → IqDataPlane F S → IqDataPlane F S × Reply
  mark_evicted p s = elim (task_done s.queue) [
    | none ↦ (s, too_many_done)
    | some q ↦ offer_again p (set_queue s q)
  ]

  unfoldable pub evict : IqPacket F → IqDataPlane F S → IqDataPlane F S × Reply
  evict p s = elim (get_nowait s.queue) [
    | none ↦ (s, returned false)
    | some (oldest, q) ↦ mark_evicted p (set_queue s q)
  ]

  unfoldable pub on_full : IqPacket F → IqDataPlane F S → IqDataPlane F S × Reply
  on_full p s = if str_eq s.config.drop_policy "drop_newest" then (s, returned false) else evict p s

  unfoldable pub offer : IqPacket F → IqDataPlane F S → IqDataPlane F S × Reply
  offer p s = elim (put_nowait p s.queue) [
    | none ↦ on_full p (count_drop s)
    | some q ↦ (set_queue s q, returned true)
  ]

  unfoldable pub request_stop : IqDataPlane F S → IqDataPlane F S
  request_stop s = record s { stopping = true }

module _ {F S : Type 0} (isfinite : F → Bool) where
  unfoldable pub enqueue : IqPacket F → IqDataPlane F S → IqDataPlane F S × Reply
  enqueue p s = elim (validate isfinite p default_max_samples) [
    | raise e ↦ (s, rejected e)
    | ok _ ↦ offer p (receive p s)
  ]

-- What `start` raises: the plane is off or not configured, its transport is not verified, or
-- the sink's own exception.
pub data StartError : Type 0 where
  not_startable : DataPlaneState → StartError
  transport_not_verified : StartError
  connect_failed : String → StartError

abbrev pub is_off : DataPlaneState → Bool
is_off disabled = true
is_off not_configured = true
is_off other = false

abbrev pub is_unverified : DataPlaneState → Bool
is_unverified configured_not_tested = true
is_unverified other = false

abbrev pub keeps_state : DataPlaneState → Bool
keeps_state failed = true
keeps_state degraded = true
keeps_state other = false

module _ {F S : Type 0} (sink : IqSink F S) where
  -- `CONNECTING` is set before the sink is called, and stays if that raises.
  unfoldable pub connect_sink : IqDataPlane F S → IqDataPlane F S × Option StartError
  connect_sink s =
      let (sink', failure) = sink.connect s.sink in
      elim failure [
        | some e ↦ (record s { sink = sink'; state = connecting }, some (connect_failed e))
        | none ↦
            (record s { sink = sink'; state = ready; stopping = false; thread_alive = true }, none)
      ]

  unfoldable pub start : Bool → IqDataPlane F S → IqDataPlane F S × Option StartError
  start allow_mock_ready s =
      if s.thread_alive
      then (s, none)
      else if is_off s.state
      then (s, some (not_startable s.state))
      else if is_unverified s.state && not allow_mock_ready
      then (s, some transport_not_verified)
      else connect_sink s

  -- The end of `stop`, once the worker has ended or the two seconds of `join` are over.
  -- An exception of `close` leaves the state as it is.
  unfoldable pub close_sink : IqDataPlane F S → IqDataPlane F S × Option String
  close_sink s =
      let (sink', failure) = sink.close s.sink in
      elim failure [
        | some e ↦ (record s { sink = sink' }, some e)
        | none ↦ (
          record s {
            sink = sink';
            state = if keeps_state s.state then s.state else initial_state s.config;
          },
          none,
        )
      ]
