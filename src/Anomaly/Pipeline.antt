-- ===== src/Anomaly/Pipeline.antt =====
-- `OnlineAnomalyPipeline` of services/anomaly/pipeline.py, with its worker task cut at its awaits.
use Prim.Native.String
use diploma_munka.Prelude.{
  ℕ, ◌+◌, Bool, true, false, ◌&&◌, Option, none, some, List, [], ◌∷◌, String, if◌then◌else◌, length,
  take, max,
}
use diploma_munka.Prelude.Results.{Result, ok, raise}
use diploma_munka.Channel.{Channel, empty_channel, put_nowait, get_nowait, task_done}

-- `E` is the type of envelopes, `D` of detections, `S` of the detector's state.
pub record Pipeline (E D S : Type 0) : Type 0 where
  pub detector : S
  pub queue : Channel E
  pub recent : List D
  pub recent_limit : ℕ
  pub dropped_frames : ℕ
  pub processed_frames : ℕ
  pub detection_count : ℕ
  pub last_error : Option String

-- Where the worker task stands: there is none; at `queue.get()`; in the thread that runs the
-- detector; in the callback that persists; or ended by an error of `task_done`.
pub data Task (E D : Type 0) : Type 0 where
  absent waiting died : Task E D
  processing : E → Result String (List D) → Task E D
  persisting : E → List D → Task E D

-- The pipeline and its task, with the number of envelopes that were offered, that the detector
-- refused, and that a cancellation cut off.
pub record Online (E D S : Type 0) : Type 0 where
  pub pipeline : Pipeline E D S
  pub task : Task E D
  pub offered : ℕ
  pub failed : ℕ
  pub cancelled : ℕ

-- What happens: a frame is offered, `start`, `stop`, the worker gets an envelope, its thread ends,
-- the callback ends, with an error or not.
pub data PipelineEvent (E : Type 0) : Type 0 where
  submits : E → PipelineEvent E
  starts stops gets ends : PipelineEvent E
  persists : Option String → PipelineEvent E

module _ {D : Type 0} where
  -- `recent.appendleft` for each detection, on a deque of `maxlen`.
  unfoldable pub append_left : ℕ → List D → List D → List D
  append_left limit [] recent = recent
  append_left limit (d ∷ ds) recent = append_left limit ds (take limit (d ∷ recent))

  abbrev pub any_detection : List D → Bool
  any_detection [] = false
  any_detection (d ∷ ds) = true

module _ {E D S : Type 0} where
  abbrev pub new_pipeline : S → ℕ → ℕ → Pipeline E D S
  new_pipeline detector queue_size recent_limit = record {
    detector = detector;
    queue = empty_channel (max 1 queue_size);
    recent = [];
    recent_limit = recent_limit;
    dropped_frames = 0;
    processed_frames = 0;
    detection_count = 0;
    last_error = none;
  }

  unfoldable pub submit_nowait : E → Pipeline E D S → Pipeline E D S × Bool
  submit_nowait envelope p = elim (put_nowait envelope p.queue) [
    | some q ↦ (record p { queue = q }, true)
    | none ↦ (record p { dropped_frames = p.dropped_frames + 1 }, false)
  ]

  unfoldable pub note_detections : List D → Pipeline E D S → Pipeline E D S
  note_detections ds p = record p {
    processed_frames = p.processed_frames + 1;
    detection_count = p.detection_count + length ds;
    recent = append_left p.recent_limit ds p.recent;
  }

  -- The `finally` of the loop, and where the task goes from there.
  unfoldable pub acknowledge_to : Task E D → Online E D S → Online E D S
  acknowledge_to next s = elim (task_done s.pipeline.queue) [
    | none ↦ record s { task = died }
    | some q ↦ record s { pipeline = record p { queue = q }; task = next }
  ]
    where
      open s use {pipeline as p}

  -- The thread has ended; `has_persist` says that a callback is set.
  unfoldable pub end_process : Bool → E → Result String (List D) → Online E D S → Online E D S
  end_process has_persist e (raise error) s = acknowledge_to waiting (record s {
    pipeline = record p { last_error = some (String.◌++◌ "process:" error) };
    failed = s.failed + 1;
  })
    where
      open s use {pipeline as p}
  end_process has_persist e (ok ds) s =
      let noted = record s { pipeline = note_detections ds s.pipeline } in
      if any_detection ds && has_persist
      then record noted { task = persisting e ds }
      else acknowledge_to waiting noted

  unfoldable pub end_persist : Option String → Online E D S → Online E D S
  end_persist none s = acknowledge_to waiting s
  end_persist (some error) s =
      acknowledge_to waiting
        (record s { pipeline = record p { last_error = some (String.◌++◌ "persist:" error) } })
    where
      open s use {pipeline as p}

  -- `stop`: the task is cancelled where it waits, and its `finally` runs.
  unfoldable pub cancel_at : Task E D → Online E D S → Online E D S
  cancel_at absent s = s
  cancel_at waiting s = record s { task = absent }
  cancel_at died s = record s { task = absent }
  cancel_at (processing e r) s = acknowledge_to absent (record s { cancelled = s.cancelled + 1 })
  cancel_at (persisting e ds) s = acknowledge_to absent s

  abbrev pub start_at : Task E D → Online E D S → Online E D S
  start_at absent s = record s { task = waiting }
  start_at died s = record s { task = waiting }
  start_at other s = s

module _ {E D S : Type 0} (process : E → S → Result String (List D) × S) (has_persist : Bool) where
  unfoldable pub get_at : Task E D → Online E D S → Online E D S
  get_at waiting s = elim (get_nowait s.pipeline.queue) [
    | none ↦ s
    | some (e, q) ↦
        let (result, detector) = process e s.pipeline.detector in
        record s {
          pipeline = record p { queue = q; detector = detector };
          task = processing e result;
        }
  ]
    where
      open s use {pipeline as p}
  get_at other s = s

  abbrev pub end_at : Task E D → Online E D S → Online E D S
  end_at (processing e r) s = end_process has_persist e r s
  end_at other s = s

  abbrev pub persist_at : Option String → Task E D → Online E D S → Online E D S
  persist_at outcome (persisting e ds) s = end_persist outcome s
  persist_at outcome other s = s

  unfoldable pub pipeline_step : PipelineEvent E → Online E D S → Online E D S
  pipeline_step (submits e) s = record s {
    pipeline = (submit_nowait e s.pipeline).0;
    offered = s.offered + 1;
  }
  pipeline_step starts s = start_at s.task s
  pipeline_step stops s = cancel_at s.task s
  pipeline_step gets s = get_at s.task s
  pipeline_step ends s = end_at s.task s
  pipeline_step (persists outcome) s = persist_at outcome s.task s

  unfoldable pub pipeline_run : List (PipelineEvent E) → Online E D S → Online E D S
  pipeline_run [] s = s
  pipeline_run (e ∷ es) s = pipeline_run es (pipeline_step e s)
