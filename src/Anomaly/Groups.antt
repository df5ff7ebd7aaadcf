-- ===== src/Anomaly/Groups.antt =====
-- `SpectrumAnomalyDetector._groups` of services/anomaly/spectrum.py: the runs of active bins.
use diploma_munka.Prelude.{ℕ, suc, ◌-◌, Bool, true, false, Option, none, some, List, [], ◌∷◌}

-- The loop from the bin `index` on, and its end; `start` is the variable of the source.
unfoldable pub groups_from : ℕ → Option ℕ → List Bool → List (ℕ × ℕ)
groups_from index none [] = []
groups_from index (some start) [] = (start, index - 1) ∷ []
groups_from index none (true ∷ mask) = groups_from (suc index) (some index) mask
groups_from index none (false ∷ mask) = groups_from (suc index) none mask
groups_from index (some start) (true ∷ mask) = groups_from (suc index) (some start) mask
groups_from index (some start) (false ∷ mask) =
    (start, index - 1) ∷ groups_from (suc index) none mask

unfoldable pub groups : List Bool → List (ℕ × ℕ)
groups mask = groups_from 0 none mask
