-- ===== src/Iq/Accounting.antt =====
-- Where every packet of the IQ data plane is, at each point of each interleaving of its threads.
use diploma_munka.Prelude.{
  nil_of_length-eq-zero, ℕ, ◌+◌, ◌≤◌, ◌<◌, ◌≡◌, refl, Bool, true, List, [], ◌∷◌, arith,
  length-append, Bool-cases, inl, inr,
}
use diploma_munka.Channel.{put_nowait, get_nowait, task_done, qsize}
use diploma_munka.Iq.Packet.{IqPacket}
use diploma_munka.Iq.Plane.{IqDataPlaneConfig, IqSink, receive, count_drop, init, maxsize_of}
use diploma_munka.Iq.Enqueue.{returned, rejected, full, too_many_done, request_stop, close_sink}
use diploma_munka.Iq.Threads.{
  Producer, putting, evicting, marking, putting_again, finished, idle, boot, Worker, testing,
  getting, publishing, acknowledging, ended, died, System, Event, call, producer_moves,
  worker_moves, stop_requested, sink_closed, first_put, take_oldest, mark_oldest, second_put,
  producer_step, test_loop, get_packet, acknowledge, publish_packet, worker_step, begin_call, step,
  run, is_idle, producer_at, worker_at,
}

-- A packet in the producer's hands that is neither in the queue nor counted as dropped.
abbrev pub pending : {F : Type 0} → Producer F → ℕ
pending (putting p) = 1
pending (evicting p) = 0
pending (marking p) = 1
pending (putting_again p) = 1
pending (finished r) = 0
pending idle = 0

-- A place of the queue that the producer has emptied for its packet.
abbrev pub reserved : {F : Type 0} → Producer F → ℕ
reserved (putting p) = 0
reserved (evicting p) = 0
reserved (marking p) = 1
reserved (putting_again p) = 1
reserved (finished r) = 0
reserved idle = 0

-- A packet that the producer has evicted and not yet marked as done.
abbrev pub evicted : {F : Type 0} → Producer F → ℕ
evicted (putting p) = 0
evicted (evicting p) = 0
evicted (marking p) = 1
evicted (putting_again p) = 0
evicted (finished r) = 0
evicted idle = 0

-- A packet that the worker has taken and not yet published.
abbrev pub held : {F : Type 0} → Worker F → ℕ
held testing = 0
held getting = 0
held (publishing p) = 1
held acknowledging = 0
held ended = 0
held died = 0

-- A packet that the worker has taken and not yet marked as done.
abbrev pub unmarked : {F : Type 0} → Worker F → ℕ
unmarked testing = 0
unmarked getting = 0
unmarked (publishing p) = 1
unmarked acknowledging = 1
unmarked ended = 0
unmarked died = 0

-- The producer has met no exception of the queue.
abbrev pub Unbroken : {F : Type 0} → Producer F → Type 0
Unbroken (finished full) = ⊥
Unbroken (finished too_many_done) = ⊥
Unbroken (finished (returned b)) = Unit
Unbroken (finished (rejected e)) = Unit
Unbroken idle = Unit
Unbroken (putting p) = Unit
Unbroken (evicting p) = Unit
Unbroken (marking p) = Unit
Unbroken (putting_again p) = Unit

abbrev pub Alive : {F : Type 0} → Worker F → Type 0
Alive died = ⊥
Alive testing = Unit
Alive getting = Unit
Alive (publishing p) = Unit
Alive acknowledging = Unit
Alive ended = Unit

pub record Accounted {F S : Type 0} (cap : ℕ) (s : System F S) : Type 0 where
  pub capacity : s.plane.queue.maxsize ≡ cap
  pub bounded : qsize s.plane.queue + reserved s.producer ≤ cap
  pub counted :
      s.plane.stats.packets_received
      ≡ s.plane.stats.packets_published
        + s.plane.stats.reconnects
        + s.plane.stats.packets_dropped
        + qsize s.plane.queue
        + pending s.producer
        + held s.worker
  pub marked :
      s.plane.queue.unfinished ≡ qsize s.plane.queue + evicted s.producer + unmarked s.worker
  pub unbroken : Unbroken s.producer
  pub alive : Alive s.worker

module _ {F S : Type 0} {cap : ℕ} (pos : 0 < cap) where
  first_put-Accounted :
      (p : IqPacket F) (s : System F S)
      → s.producer ≡ putting p
      → Accounted cap s
      → Accounted cap (first_put p s)
  unfolding first_put count_drop put_nowait
  first_put-Accounted p s e a =
      ground (arith, a.counted, length-append s.plane.queue.items (p ∷ []))

  take_oldest-Accounted :
      (p : IqPacket F) (s : System F S)
      → s.producer ≡ evicting p
      → Accounted cap s
      → Accounted cap (take_oldest p s)
  unfolding take_oldest get_nowait
  take_oldest-Accounted p s e a = ground (arith, a.counted)

  mark_oldest-Accounted :
      (p : IqPacket F) (s : System F S)
      → s.producer ≡ marking p
      → Accounted cap s
      → Accounted cap (mark_oldest p s)
  unfolding mark_oldest task_done
  mark_oldest-Accounted p s e a = ground (arith, a.counted)

  second_put-Accounted :
      (p : IqPacket F) (s : System F S)
      → s.producer ≡ putting_again p
      → Accounted cap s
      → Accounted cap (second_put p s)
  unfolding second_put put_nowait
  second_put-Accounted p s e a =
      ground (arith, a.counted, length-append s.plane.queue.items (p ∷ []))

  producer_at-Accounted :
      (pc : Producer F) (s : System F S)
      → s.producer ≡ pc
      → Accounted cap s
      → Accounted cap (producer_at pc s)
  unfolding producer_at
  producer_at-Accounted (putting p) s e a = first_put-Accounted p s e a
  producer_at-Accounted (evicting p) s e a = take_oldest-Accounted p s e a
  producer_at-Accounted (marking p) s e a = mark_oldest-Accounted p s e a
  producer_at-Accounted (putting_again p) s e a = second_put-Accounted p s e a
  producer_at-Accounted (finished r) s e a = a
  producer_at-Accounted idle s e a = a

  test_loop-Accounted :
      (s : System F S) → s.worker ≡ testing → Accounted cap s → Accounted cap (test_loop s)
  unfolding test_loop
  test_loop-Accounted s e a = ground (arith, a.counted)

  get_packet-Accounted :
      (s : System F S) → s.worker ≡ getting → Accounted cap s → Accounted cap (get_packet s)
  unfolding get_packet get_nowait
  get_packet-Accounted s e a = ground (arith, a.counted)

  acknowledge-Accounted :
      (s : System F S) → s.worker ≡ acknowledging → Accounted cap s → Accounted cap (acknowledge s)
  unfolding acknowledge task_done
  acknowledge-Accounted s e a = ground (arith, a.counted)

  publish_packet-Accounted :
      (isfinite : F → Bool) (sink : IqSink F S) (p : IqPacket F) (s : System F S)
      → s.worker ≡ publishing p
      → Accounted cap s
      → Accounted cap (publish_packet isfinite sink p s)
  unfolding publish_packet
  publish_packet-Accounted isfinite sink p s e a = ground (arith, a.counted)

  worker_at-Accounted :
      (isfinite : F → Bool) (sink : IqSink F S) (pc : Worker F) (s : System F S)
      → s.worker ≡ pc
      → Accounted cap s
      → Accounted cap (worker_at isfinite sink pc s)
  unfolding worker_at
  worker_at-Accounted isfinite sink testing s e a = test_loop-Accounted s e a
  worker_at-Accounted isfinite sink getting s e a = get_packet-Accounted s e a
  worker_at-Accounted isfinite sink (publishing p) s e a =
      publish_packet-Accounted isfinite sink p s e a
  worker_at-Accounted isfinite sink acknowledging s e a = acknowledge-Accounted s e a
  worker_at-Accounted isfinite sink ended s e a = a
  worker_at-Accounted isfinite sink died s e a = a

  module _ (isfinite : F → Bool) (sink : IqSink F S) where
    begin_call-Accounted :
        (p : IqPacket F) (s : System F S)
        → is_idle s.producer ≡ true
        → Accounted cap s
        → Accounted cap (begin_call isfinite sink p s)
    unfolding begin_call receive
    begin_call-Accounted p s outside a = ground (arith, a.counted)

    -- Every event keeps the accounts.
    pub step-Accounted :
        (e : Event F) (s : System F S) → Accounted cap s → Accounted cap (step isfinite sink e s)
    unfolding step producer_step worker_step
    step-Accounted (call p) s a = elim (Bool-cases (is_idle s.producer)) [
      | inl outside ↦ rw outside (begin_call-Accounted p s outside a)
      | inr busy ↦ rw busy a
    ]
    step-Accounted producer_moves s a = producer_at-Accounted s.producer s refl a
    step-Accounted worker_moves s a = worker_at-Accounted isfinite sink s.worker s refl a
    step-Accounted stop_requested s a = unfold request_stop in (ground (arith, a.counted))
    step-Accounted sink_closed s a = unfold close_sink in (ground (arith, a.counted))

    pub run-Accounted :
        (es : List (Event F)) (s : System F S)
        → Accounted cap s
        → Accounted cap (run isfinite sink es s)
    unfolding run
    run-Accounted [] s a = a
    run-Accounted (e ∷ es) s a = run-Accounted es (step isfinite sink e s) (step-Accounted e s a)

module _ {F S : Type 0} (isfinite : F → Bool) (sink : IqSink F S) where
  -- Whatever the order in which the producer and the worker move, whatever the sink answers, and
  -- whenever a stop is asked for: each packet received is published, failed in the sink, dropped,
  -- queued, in the producer's hands or in the worker's; the queue keeps its capacity and never holds
  -- more; `unfinished_tasks` counts what is queued or not yet marked as done; and neither the second
  -- `put_nowait` of `enqueue` nor a `task_done` ever raises. The queue's size must be positive.
  pub run-boot-Accounted :
      (config : IqDataPlaneConfig) (start : S) (es : List (Event F))
      → 0 < maxsize_of config.queue_size
      → Accounted (maxsize_of config.queue_size) (run isfinite sink es (boot config start))
  run-boot-Accounted config start es pos =
      run-Accounted pos isfinite sink es (boot config start) (unfold boot init in (omega arith))

  idle_pending : (pc : Producer F) → is_idle pc ≡ true → pending pc ≡ 0
  idle_pending (finished r) h = refl
  idle_pending idle h = refl
  idle_pending (putting p) h = absurd (cc)
  idle_pending (evicting p) h = absurd (cc)
  idle_pending (marking p) h = absurd (cc)
  idle_pending (putting_again p) h = absurd (cc)

  held-le-unmarked : (pc : Worker F) → held pc ≤ unmarked pc
  held-le-unmarked testing = omega arith
  held-le-unmarked getting = omega arith
  held-le-unmarked (publishing p) = omega arith
  held-le-unmarked acknowledging = omega arith
  held-le-unmarked ended = omega arith
  held-le-unmarked died = omega arith

  drained_at :
      {cap : ℕ} (s : System F S)
      → Accounted cap s
      → s.plane.queue.unfinished ≡ 0
      → is_idle s.producer ≡ true
      → let st = s.plane.stats in
        (s.plane.queue.items ≡ [])
        × (st.packets_received ≡ st.packets_published + st.reconnects + st.packets_dropped)
  drained_at s a zero_left outside = (
    nil_of_length-eq-zero s.plane.queue.items (omega (arith, a.marked)),
    omega (arith, a.marked, a.counted, idle_pending s.producer outside, held-le-unmarked s.worker),
  )

  -- When `wait_until_empty` sees no unfinished task, between two calls of `enqueue`, the queue is
  -- empty and every packet received so far has been published, has failed in the sink or was
  -- dropped, whatever the threads did. The queue's size must be positive.
  pub unfinished_zero_drained :
      (config : IqDataPlaneConfig) (start : S) (es : List (Event F))
      → 0 < maxsize_of config.queue_size
      → (run isfinite sink es (boot config start)).plane.queue.unfinished ≡ 0
      → is_idle (run isfinite sink es (boot config start)).producer ≡ true
      → let s = run isfinite sink es (boot config start) in
        let st = s.plane.stats in
        (s.plane.queue.items ≡ [])
        × (st.packets_received ≡ st.packets_published + st.reconnects + st.packets_dropped)
  unfinished_zero_drained config start es pos zero_left outside =
      drained_at (run isfinite sink es (boot config start)) (run-boot-Accounted config start es pos)
        zero_left outside
