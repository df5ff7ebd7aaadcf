-- ===== src/Iq/Threads.antt =====
-- The two threads of `IqDataPlane` in python-processor/app/services/sdrangel/iq_pipeline.py, step by
-- step: the producer inside `enqueue`, and `_worker`. Each queue operation is one step, and a
-- schedule says which thread moves next, so every interleaving is a schedule.
use diploma_munka.Prelude.{
  ◌+◌, Bool, true, false, not, ◌||◌, List, [], ◌∷◌, none, some, ltb, str_eq, if◌then◌else◌,
}
use diploma_munka.Prelude.Results.{ok, raise}
use diploma_munka.Channel.{put_nowait, get_nowait, task_done, qsize}
use diploma_munka.Iq.Packet.{IqPacket, validate, default_max_samples}
use diploma_munka.Iq.Plane.{
  IqDataPlane, IqSink, IqDataPlaneConfig, init, degraded, ready, receive, count_drop, set_queue,
}
use diploma_munka.Iq.Enqueue.{
  Reply, returned, rejected, full, too_many_done, request_stop, close_sink,
}

-- Where the producer stands in `enqueue`: before the first `put_nowait`, before `get_nowait`, before
-- `task_done`, before the second `put_nowait`; or outside, with the outcome of its last call, if any.
pub data Producer (F : Type 0) : Type 0 where
  putting evicting marking putting_again : IqPacket F → Producer F
  finished : Reply → Producer F
  idle : Producer F

-- Where the worker stands in its loop: at the test, at `get`, in `publish`, before `task_done`; or
-- it has left the loop, or died of an exception of `task_done`.
pub data Worker (F : Type 0) : Type 0 where
  testing getting : Worker F
  publishing : IqPacket F → Worker F
  acknowledging ended died : Worker F

pub record System (F S : Type 0) : Type 0 where
  pub plane : IqDataPlane F S
  pub producer : Producer F
  pub worker : Worker F

-- A call of `enqueue` by the producer, one step of a thread, `_stop.set()`, or the end of `stop`.
pub data Event (F : Type 0) : Type 0 where
  call : IqPacket F → Event F
  producer_moves worker_moves stop_requested sink_closed : Event F

abbrev pub is_idle : {F : Type 0} → Producer F → Bool
is_idle (finished r) = true
is_idle idle = true
is_idle other = false

module _ {F S : Type 0} where
  abbrev pub at_producer : System F S → IqDataPlane F S → Producer F → System F S
  at_producer s p pc = record s { plane = p; producer = pc }

  abbrev pub at_worker : System F S → IqDataPlane F S → Worker F → System F S
  at_worker s p pc = record s { plane = p; worker = pc }

  unfoldable pub first_put : IqPacket F → System F S → System F S
  first_put p s = elim (put_nowait p s.plane.queue) [
    | some q ↦ at_producer s (set_queue s.plane q) (finished (returned true))
    | none ↦ at_producer s (count_drop s.plane) (
        if str_eq s.plane.config.drop_policy "drop_newest"
        then finished (returned false)
        else evicting p)
  ]

  unfoldable pub take_oldest : IqPacket F → System F S → System F S
  take_oldest p s = elim (get_nowait s.plane.queue) [
    | none ↦ at_producer s s.plane (finished (returned false))
    | some (oldest, q) ↦ at_producer s (set_queue s.plane q) (marking p)
  ]

  unfoldable pub mark_oldest : IqPacket F → System F S → System F S
  mark_oldest p s = elim (task_done s.plane.queue) [
    | none ↦ at_producer s s.plane (finished too_many_done)
    | some q ↦ at_producer s (set_queue s.plane q) (putting_again p)
  ]

  unfoldable pub second_put : IqPacket F → System F S → System F S
  second_put p s = elim (put_nowait p s.plane.queue) [
    | none ↦ at_producer s s.plane (finished full)
    | some q ↦ at_producer s (set_queue s.plane q) (finished (returned true))
  ]

  unfoldable pub producer_at : Producer F → System F S → System F S
  producer_at (putting p) s = first_put p s
  producer_at (evicting p) s = take_oldest p s
  producer_at (marking p) s = mark_oldest p s
  producer_at (putting_again p) s = second_put p s
  producer_at (finished r) s = s
  producer_at idle s = s

  unfoldable pub producer_step : System F S → System F S
  unfolding producer_at
  producer_step s = producer_at s.producer s

  -- `while not _stop.is_set() or not _queue.empty()`
  unfoldable pub test_loop : System F S → System F S
  test_loop s =
      if not s.plane.stopping || not (ltb (qsize s.plane.queue) 1)
      then at_worker s s.plane getting
      else at_worker s (record p { thread_alive = false }) ended
    where
      open s use {plane as p}

  -- `get(timeout=0.05)`: Empty goes back to the test.
  unfoldable pub get_packet : System F S → System F S
  get_packet s = elim (get_nowait s.plane.queue) [
    | none ↦ at_worker s s.plane testing
    | some (p, q) ↦ at_worker s (set_queue s.plane q) (publishing p)
  ]

  unfoldable pub acknowledge : System F S → System F S
  acknowledge s = elim (task_done s.plane.queue) [
    | none ↦ at_worker s (record p { thread_alive = false }) died
    | some q ↦ at_worker s (set_queue s.plane q) testing
  ]
    where
      open s use {plane as p}

module _ {F S : Type 0} (isfinite : F → Bool) (sink : IqSink F S) where
  -- A failure of the sink is kept as text, degrades the plane and counts as a reconnect.
  unfoldable pub publish_packet : IqPacket F → System F S → System F S
  publish_packet packet s =
      let (sink', failure) = sink.publish packet plane.sink in
      elim failure [
        | none ↦
            at_worker s
              (record plane {
                sink = sink';
                stats = record stats { packets_published = stats.packets_published + 1 };
              })
              acknowledging
        | some e ↦
            at_worker s
              (record plane {
                sink = sink';
                state = degraded;
                stats = record stats { last_error = some e; reconnects = stats.reconnects + 1 };
              })
              acknowledging
      ]
    where
      open s use {plane}
      open plane use {stats}

  unfoldable pub worker_at : Worker F → System F S → System F S
  worker_at testing s = test_loop s
  worker_at getting s = get_packet s
  worker_at (publishing p) s = publish_packet p s
  worker_at acknowledging s = acknowledge s
  worker_at ended s = s
  worker_at died s = s

  unfoldable pub worker_step : System F S → System F S
  unfolding worker_at
  worker_step s = worker_at s.worker s

  -- A call is made only by a producer that is not inside another one.
  unfoldable pub begin_call : IqPacket F → System F S → System F S
  begin_call p s = elim (validate isfinite p default_max_samples) [
    | raise e ↦ at_producer s s.plane (finished (rejected e))
    | ok _ ↦ at_producer s (receive p s.plane) (putting p)
  ]

  unfoldable pub step : Event F → System F S → System F S
  step (call p) s = if is_idle s.producer then begin_call p s else s
  step producer_moves s = producer_step s
  step worker_moves s = worker_step s
  step stop_requested s = record s { plane = request_stop s.plane }
  step sink_closed s = record s { plane = (close_sink sink s.plane).0 }

  unfoldable pub run : List (Event F) → System F S → System F S
  run [] s = s
  run (e ∷ es) s = run es (step e s)

-- The plane right after `start`, the worker at its first test.
unfoldable pub boot : {F S : Type 0} → IqDataPlaneConfig → S → System F S
boot config sink = record {
  plane = record (init config sink) { state = ready; thread_alive = true };
  producer = idle;
  worker = testing;
}
