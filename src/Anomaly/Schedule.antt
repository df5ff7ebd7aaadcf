-- ===== src/Anomaly/Schedule.antt =====
-- Every schedule of the pipeline of services/anomaly/pipeline.py keeps its books.
use diploma_munka.Prelude.{
  ℕ, ◌<◌, ◌≡◌, refl, ap, ◌∙◌, inl, inr, Bool, Option, Option-cases, List, [], ◌∷◌, String, arith,
  max,
}
use diploma_munka.Prelude.Results.{Result}
use diploma_munka.Channel.{get_nowait}
use diploma_munka.Channel.Laws.{get_nowait-some}
use diploma_munka.Anomaly.Pipeline.{
  Task, absent, waiting, died, processing, persisting, Online, PipelineEvent, submits, starts,
  stops, gets, ends, persists, new_pipeline, get_at, end_at, persist_at, pipeline_step,
  pipeline_run,
}
use diploma_munka.Anomaly.Accounting.{
  IsBalanced, in_detector, in_hand, submit-IsBalanced, end_process-IsBalanced,
  end_persist-IsBalanced, cancel_at-IsBalanced, start_at-IsBalanced,
}

-- A new pipeline, no task yet.
unfoldable pub boot_pipeline : {E D S : Type 0} → S → ℕ → ℕ → Online E D S
boot_pipeline detector queue_size recent_limit = record {
  pipeline = new_pipeline detector queue_size recent_limit;
  task = absent;
  offered = 0;
  failed = 0;
  cancelled = 0;
}

module _ {E D S : Type 0} (process : E → S → Result String (List D) × S) (has_persist : Bool) where
  module _ {cap : ℕ} (pos : 0 < cap) where
    get_at-IsBalanced :
        (t : Task E D) (s : Online E D S)
        → s.task ≡ t
        → IsBalanced cap s
        → IsBalanced cap (get_at process has_persist t s)
    unfolding get_at
    get_at-IsBalanced waiting s t a = elim (Option-cases (get_nowait s.pipeline.queue)) [
      | inl e ↦ rw (e, get_at) a
      | inr ((x, q), e) ↦
          let (items, size, capacity, unfinished) = get_nowait-some s.pipeline.queue e in
          rw (e, get_at)
            (record {
              capacity = capacity ∙ a.capacity;
              bounded = omega (arith, size, a.bounded);
              counted = omega (arith, a.counted, size, ap in_detector t);
              unfinished = omega (arith, a.unfinished, size, unfinished, ap in_hand t);
              live = tt;
              shown = a.shown;
              found = a.found;
            })
    ]
    get_at-IsBalanced absent s t a = a
    get_at-IsBalanced died s t a = a
    get_at-IsBalanced (processing e r) s t a = a
    get_at-IsBalanced (persisting e ds) s t a = a

    end_at-IsBalanced :
        (t : Task E D) (s : Online E D S)
        → s.task ≡ t
        → IsBalanced cap s
        → IsBalanced cap (end_at process has_persist t s)
    end_at-IsBalanced (processing e r) s t a = end_process-IsBalanced pos has_persist e r s t a
    end_at-IsBalanced absent s t a = a
    end_at-IsBalanced waiting s t a = a
    end_at-IsBalanced died s t a = a
    end_at-IsBalanced (persisting e ds) s t a = a

    persist_at-IsBalanced :
        (outcome : Option String) (t : Task E D) (s : Online E D S)
        → s.task ≡ t
        → IsBalanced cap s
        → IsBalanced cap (persist_at process has_persist outcome t s)
    persist_at-IsBalanced o (persisting e ds) s t a = end_persist-IsBalanced pos o e ds s t a
    persist_at-IsBalanced o absent s t a = a
    persist_at-IsBalanced o waiting s t a = a
    persist_at-IsBalanced o died s t a = a
    persist_at-IsBalanced o (processing e r) s t a = a

    pipeline_step-IsBalanced :
        (e : PipelineEvent E) (s : Online E D S)
        → IsBalanced cap s
        → IsBalanced cap (pipeline_step process has_persist e s)
    unfolding pipeline_step
    pipeline_step-IsBalanced (submits x) s a = submit-IsBalanced pos x s a
    pipeline_step-IsBalanced starts s a = start_at-IsBalanced pos s.task s refl a
    pipeline_step-IsBalanced stops s a = cancel_at-IsBalanced pos s.task s refl a
    pipeline_step-IsBalanced gets s a = get_at-IsBalanced s.task s refl a
    pipeline_step-IsBalanced ends s a = end_at-IsBalanced s.task s refl a
    pipeline_step-IsBalanced (persists o) s a = persist_at-IsBalanced o s.task s refl a

    pipeline_run-IsBalanced :
        (es : List (PipelineEvent E)) (s : Online E D S)
        → IsBalanced cap s
        → IsBalanced cap (pipeline_run process has_persist es s)
    unfolding pipeline_run
    pipeline_run-IsBalanced [] s a = a
    pipeline_run-IsBalanced (e ∷ es) s a =
        pipeline_run-IsBalanced es (pipeline_step process has_persist e s)
          (pipeline_step-IsBalanced e s a)

  -- In every schedule of a new pipeline, whatever the detector and the callback do: each offered
  -- envelope is counted once, as dropped, queued, with the detector, processed, refused or cut off by
  -- `stop`; the queue and the recent detections are within their sizes; every envelope that the worker
  -- has taken is acknowledged once, so the worker never ends by an error of `task_done`.
  pub run-boot_pipeline-IsBalanced :
      (detector : S) (queue_size recent_limit : ℕ) (es : List (PipelineEvent E))
      → IsBalanced
          (max 1 queue_size)
          (pipeline_run process has_persist es (boot_pipeline detector queue_size recent_limit))
  unfolding boot_pipeline
  run-boot_pipeline-IsBalanced detector queue_size recent_limit es =
      pipeline_run-IsBalanced (omega arith) es (boot_pipeline detector queue_size recent_limit)
        (record {
          capacity = refl;
          bounded = omega arith;
          counted = refl;
          unfinished = refl;
          live = tt;
          shown = omega arith;
          found = omega arith;
        })
