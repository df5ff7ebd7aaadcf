-- ===== src/Anomaly/Tests.antt =====
-- Masks, cooldowns and a schedule of the anomaly pipeline.
use diploma_munka.Prelude.{
  ℕ, zero, suc, ◌+◌, ◌≡◌, refl, Bool, true, false, none, List, [], ◌∷◌, String, arith, max, ◌==◌,
}
use diploma_munka.Prelude.Results.{Result, ok, raise}
use diploma_munka.Anomaly.Groups.{groups, groups_from}
use diploma_munka.Anomaly.Runs.{covered, marked, Spaced, groups_lem}
use diploma_munka.Anomaly.Cooldown.{
  Cooldowns, emit_once, next_frame, frame, asks, Use, use_all, emit_once_lem, frames,
}
use diploma_munka.Anomaly.Pipeline.{
  PipelineEvent, submits, starts, stops, gets, ends, persists, pipeline_run,
}
use diploma_munka.Anomaly.Accounting.{IsBalanced}
use diploma_munka.Anomaly.Schedule.{boot_pipeline, run-boot_pipeline-IsBalanced}

abbrev mask : List Bool
mask = true ∷ true ∷ false ∷ true ∷ []

two_runs : groups mask ≡ (0, 1) ∷ (3, 3) ∷ []
unfolding groups groups_from
two_runs = refl

groups_lem_example : ((j : ℕ) → covered j (groups mask) ≡ marked 0 mask j) × Spaced 0 (groups mask)
groups_lem_example = groups_lem mask

abbrev none_cooling : Cooldowns
none_cooling key = 0

abbrev uses : List Use
uses = frame ∷ asks "noise_floor_shift" ∷ frame ∷ asks "occupancy_change" ∷ []

emit_once_lem_example :
    let later = use_all 3 uses (emit_once 3 "occupancy_change" none_cooling).1 in
    ((emit_once 3 "occupancy_change" later).0 ≡ false)
    × ((emit_once 3 "occupancy_change" (next_frame later)).0 ≡ (frames uses + 1 == 3))
unfolding emit_once
emit_once_lem_example = emit_once_lem 3 "occupancy_change" none_cooling uses refl (omega arith)

-- A detector that finds as many things as the envelope says, and refuses an empty one.
abbrev detect : ℕ → ℕ → Result String (List ℕ) × ℕ
detect zero n = (raise "invalid_spectrum_shape", n)
detect (suc zero) n = (ok [], n + 1)
detect (suc (suc k)) n = (ok (k ∷ []), n + 1)

abbrev schedule : List (PipelineEvent ℕ)
schedule =
    submits 0
    ∷ submits 2
    ∷ starts
    ∷ submits 3
    ∷ gets
    ∷ ends
    ∷ gets
    ∷ ends
    ∷ persists none
    ∷ stops
    ∷ []

run-boot_pipeline-IsBalanced_example :
    IsBalanced (max 1 2) (pipeline_run detect true schedule (boot_pipeline 0 2 500))
run-boot_pipeline-IsBalanced_example = run-boot_pipeline-IsBalanced detect true 0 2 500 schedule
