-- ===== src/Anomaly/Accounting.antt =====
-- What becomes of the envelopes offered to the pipeline of services/anomaly/pipeline.py.
use mathlib.Core.Path.{subst}
use diploma_munka.Prelude.{
  ℕ, ◌+◌, ◌≤◌, ◌<◌, ◌≡◌, refl, ap, ◌∙◌, inl, inr, Bool-cases, ◌&&◌, Bool, Option, none, some, List,
  [], ◌∷◌, String, arith, length, length-append, take, length-take,
}
use diploma_munka.Prelude.Results.{Result, ok, raise}
use diploma_munka.Channel.{qsize, put_nowait, task_done}
use diploma_munka.Anomaly.Pipeline.{
  Task, absent, waiting, died, processing, persisting, Online, submit_nowait, append_left,
  note_detections, acknowledge_to, any_detection, end_process, end_persist, cancel_at, start_at,
}

-- An envelope that the worker has taken and not acknowledged.
abbrev pub in_hand : {E D : Type 0} → Task E D → ℕ
in_hand (processing e r) = 1
in_hand (persisting e ds) = 1
in_hand absent = 0
in_hand waiting = 0
in_hand died = 0

-- An envelope that the detector works on.
abbrev pub in_detector : {E D : Type 0} → Task E D → ℕ
in_detector (processing e r) = 1
in_detector (persisting e ds) = 0
in_detector absent = 0
in_detector waiting = 0
in_detector died = 0

abbrev pub IsLive : {E D : Type 0} → Task E D → Type 0
IsLive died = ⊥
IsLive absent = Unit
IsLive waiting = Unit
IsLive (processing e r) = Unit
IsLive (persisting e ds) = Unit

-- The books of the pipeline: every envelope offered was dropped, is queued or with the detector, or
-- was processed, refused or cut off; the queue and the list of recent detections are within their
-- sizes; `task_done` is called once for each envelope taken, and the worker has not died of it.
pub record IsBalanced {E D S : Type 0} (cap : ℕ) (s : Online E D S) : Type 0 where
  pub capacity : s.pipeline.queue.maxsize ≡ cap
  pub bounded : qsize s.pipeline.queue ≤ cap
  pub counted :
      s.offered
      ≡ s.pipeline.dropped_frames
        + qsize s.pipeline.queue
        + in_detector s.task
        + s.pipeline.processed_frames
        + s.failed
        + s.cancelled
  pub unfinished : s.pipeline.queue.unfinished ≡ qsize s.pipeline.queue + in_hand s.task
  pub live : IsLive s.task
  pub shown : length s.pipeline.recent ≤ s.pipeline.recent_limit
  pub found : length s.pipeline.recent ≤ s.pipeline.detection_count

length-append_left :
    {D : Type 0} (limit : ℕ) (ds recent : List D)
    → length recent ≤ limit
    → (length (append_left limit ds recent) ≤ limit)
      × (length (append_left limit ds recent) ≤ length recent + length ds)
unfolding append_left
length-append_left limit [] recent h = (h, omega arith)
length-append_left limit (d ∷ ds) recent h =
    let cut = length-take limit (d ∷ recent) in
    let (a, b) = length-append_left limit ds (take limit (d ∷ recent)) (omega (arith, cut)) in
    (a, omega (arith, b, cut))

module _ {E D S : Type 0} {cap : ℕ} (pos : 0 < cap) where
  pub submit-IsBalanced :
      (e : E) (s : Online E D S)
      → IsBalanced cap s
      → IsBalanced cap
          (record s { pipeline = (submit_nowait e s.pipeline).0; offered = s.offered + 1 })
  unfolding submit_nowait put_nowait
  submit-IsBalanced e s a = ground (arith, a.counted, length-append s.pipeline.queue.items (e ∷ []))

  -- What must hold before the worker acknowledges an envelope.
  record IsSettled (s : Online E D S) : Type 0 where
    pub capacity : s.pipeline.queue.maxsize ≡ cap
    pub bounded : qsize s.pipeline.queue ≤ cap
    pub counted :
        s.offered
        ≡ s.pipeline.dropped_frames
          + qsize s.pipeline.queue
          + s.pipeline.processed_frames
          + s.failed
          + s.cancelled
    pub unfinished : s.pipeline.queue.unfinished ≡ qsize s.pipeline.queue + 1
    pub shown : length s.pipeline.recent ≤ s.pipeline.recent_limit
    pub found : length s.pipeline.recent ≤ s.pipeline.detection_count

  acknowledge_to-IsBalanced :
      (next : Task E D) (s : Online E D S)
      → in_detector next ≡ 0
      → in_hand next ≡ 0
      → IsLive next
      → IsSettled s
      → IsBalanced cap (acknowledge_to next s)
  unfolding acknowledge_to task_done
  acknowledge_to-IsBalanced next s d h l a = ground (arith, a.counted)

  noted-IsSettled :
      (e : E) (r : Result String (List D)) (ds : List D) (s : Online E D S)
      → s.task ≡ processing e r
      → IsBalanced cap s
      → IsSettled (record s { pipeline = note_detections ds s.pipeline })
  unfolding note_detections
  noted-IsSettled e r ds s t a =
      let (fits, grown) = length-append_left s.pipeline.recent_limit ds s.pipeline.recent a.shown in
      record {
        capacity = a.capacity;
        bounded = a.bounded;
        counted = omega (arith, a.counted, ap in_detector t);
        unfinished = a.unfinished ∙ ap (λ n. qsize s.pipeline.queue + n) (ap in_hand t);
        shown = fits;
        found = omega (arith, grown, a.found);
      }

  unsettled-IsBalanced :
      (e : E) (ds : List D) (s : Online E D S)
      → IsSettled s
      → IsBalanced cap (record s { task = persisting e ds })
  unsettled-IsBalanced e ds s a = record {
    capacity = a.capacity;
    bounded = a.bounded;
    counted = omega (arith, a.counted);
    unfinished = a.unfinished;
    live = tt;
    shown = a.shown;
    found = a.found;
  }

  taken-IsSettled :
      (e : E) (ds : List D) (s : Online E D S)
      → s.task ≡ persisting e ds
      → IsBalanced cap s
      → IsSettled s
  taken-IsSettled e ds s t a = record {
    capacity = a.capacity;
    bounded = a.bounded;
    counted = omega (arith, a.counted, ap in_detector t);
    unfinished = a.unfinished ∙ ap (λ n. qsize s.pipeline.queue + n) (ap in_hand t);
    shown = a.shown;
    found = a.found;
  }

  pub end_process-IsBalanced :
      (has_persist : Bool) (e : E) (r : Result String (List D)) (s : Online E D S)
      → s.task ≡ processing e r
      → IsBalanced cap s
      → IsBalanced cap (end_process has_persist e r s)
  unfolding end_process
  end_process-IsBalanced has_persist e (raise error) s t a =
      acknowledge_to-IsBalanced waiting _ refl refl tt (record {
        capacity = a.capacity;
        bounded = a.bounded;
        counted = omega (arith, a.counted, ap in_detector t);
        unfinished = a.unfinished ∙ ap (λ n. qsize s.pipeline.queue + n) (ap in_hand t);
        shown = a.shown;
        found = a.found;
      })
  end_process-IsBalanced has_persist e (ok ds) s t a =
      elim (Bool-cases (any_detection ds && has_persist)) [
        | inl p ↦ rw p (unsettled-IsBalanced e ds _ (noted-IsSettled e (ok ds) ds s t a))
        | inr p ↦
            rw p (
              acknowledge_to-IsBalanced waiting _ refl refl tt (noted-IsSettled e (ok ds) ds s t a))
      ]

  pub end_persist-IsBalanced :
      (outcome : Option String) (e : E) (ds : List D) (s : Online E D S)
      → s.task ≡ persisting e ds
      → IsBalanced cap s
      → IsBalanced cap (end_persist outcome s)
  unfolding end_persist
  end_persist-IsBalanced none e ds s t a =
      acknowledge_to-IsBalanced waiting s refl refl tt (taken-IsSettled e ds s t a)
  end_persist-IsBalanced (some error) e ds s t a =
      let b = taken-IsSettled e ds s t a in
      acknowledge_to-IsBalanced waiting _ refl refl tt (record {
        capacity = b.capacity;
        bounded = b.bounded;
        counted = b.counted;
        unfinished = b.unfinished;
        shown = b.shown;
        found = b.found;
      })

  pub cancel_at-IsBalanced :
      (t : Task E D) (s : Online E D S)
      → s.task ≡ t
      → IsBalanced cap s
      → IsBalanced cap (cancel_at t s)
  unfolding cancel_at
  cancel_at-IsBalanced absent s t a = a
  cancel_at-IsBalanced waiting s t a = ground (arith, a.counted, ap in_detector t, ap in_hand t)
  cancel_at-IsBalanced died s t a = absurd (subst IsLive t a.live)
  cancel_at-IsBalanced (processing e r) s t a =
      acknowledge_to-IsBalanced absent _ refl refl tt (record {
        capacity = a.capacity;
        bounded = a.bounded;
        counted = omega (arith, a.counted, ap in_detector t);
        unfinished = a.unfinished ∙ ap (λ n. qsize s.pipeline.queue + n) (ap in_hand t);
        shown = a.shown;
        found = a.found;
      })
  cancel_at-IsBalanced (persisting e ds) s t a =
      acknowledge_to-IsBalanced absent s refl refl tt (taken-IsSettled e ds s t a)

  pub start_at-IsBalanced :
      (t : Task E D) (s : Online E D S)
      → s.task ≡ t
      → IsBalanced cap s
      → IsBalanced cap (start_at t s)
  start_at-IsBalanced absent s t a = ground (arith, a.counted, ap in_detector t, ap in_hand t)
  start_at-IsBalanced died s t a = absurd (subst IsLive t a.live)
  start_at-IsBalanced waiting s t a = a
  start_at-IsBalanced (processing e r) s t a = a
  start_at-IsBalanced (persisting e ds) s t a = a
