-- ===== src/Anomaly/Runs.antt =====
-- That the groups of services/anomaly/spectrum.py are the maximal runs of the mask.
use diploma_munka.Prelude.{
  ℕ, suc, ◌+◌, ◌-◌, ◌≤◌, ◌<◌, ◌≡◌, refl, ap, ◌∙◌, Bool, true, false, ◌&&◌, ◌||◌, Option, none, some,
  List, [], ◌∷◌, leb, ◌==◌, arith, any,
}
use diploma_munka.Anomaly.Groups.{groups_from, groups}

-- The bin `j` lies in the group.
abbrev pub within : ℕ → ℕ × ℕ → Bool
within j g = leb g.0 j && leb j g.1

abbrev pub covered : ℕ → List (ℕ × ℕ) → Bool
covered j gs = any (within j) gs

-- The mask, whose first bin is `index`, is set at the bin `j`.
abbrev pub marked : ℕ → List Bool → ℕ → Bool
marked index [] j = false
marked index (b ∷ mask) j = (b && index == j) || marked (suc index) mask j

-- Every group begins at `low` or later, is not empty, and leaves a bin free before the next one.
abbrev pub Spaced : ℕ → List (ℕ × ℕ) → Type 0
Spaced low [] = Unit
Spaced low (g ∷ gs) = (low ≤ g.0) × (g.0 ≤ g.1) × Spaced (g.1 + 2) gs

-- What the variable `start` stands for before the bin `index`.
abbrev pub is_open : ℕ → ℕ → Option ℕ → Bool
is_open j index none = false
is_open j index (some start) = within j (start, index - 1)

abbrev pub Earlier : Option ℕ → ℕ → Type 0
Earlier none index = Unit
Earlier (some start) index = start < index

abbrev pub start_or : Option ℕ → ℕ → ℕ
start_or none index = index
start_or (some start) index = start

covered-groups_from :
    (j index : ℕ) (start : Option ℕ) (mask : List Bool)
    → Earlier start index
    → covered j (groups_from index start mask) ≡ (is_open j index start || marked index mask j)
unfolding groups_from
covered-groups_from j index none [] h = refl
covered-groups_from j index (some start) [] h = refl
covered-groups_from j index none (true ∷ mask) h =
    covered-groups_from j (suc index) (some index) mask (omega arith) ∙ ground arith
covered-groups_from j index none (false ∷ mask) h = covered-groups_from j (suc index) none mask tt
covered-groups_from j index (some start) (true ∷ mask) h =
    covered-groups_from j (suc index) (some start) mask (omega (arith, h)) ∙ ground arith
covered-groups_from j index (some start) (false ∷ mask) h =
    ap (λ b. within j (start, index - 1) || b) (covered-groups_from j (suc index) none mask tt)

Spaced-weaken : (a b : ℕ) (gs : List (ℕ × ℕ)) → a ≤ b → Spaced b gs → Spaced a gs
Spaced-weaken a b [] h s = tt
Spaced-weaken a b (g ∷ gs) h s = (omega (arith, h, s.0), s.1, s.2)

Spaced-groups_from :
    (index : ℕ) (start : Option ℕ) (mask : List Bool)
    → Earlier start index
    → Spaced (start_or start index) (groups_from index start mask)
unfolding groups_from
Spaced-groups_from index none [] h = tt
Spaced-groups_from index (some start) [] h = (omega arith, omega (arith, h), tt)
Spaced-groups_from index none (true ∷ mask) h =
    Spaced-groups_from (suc index) (some index) mask (omega arith)
Spaced-groups_from index none (false ∷ mask) h =
    Spaced-weaken index (suc index) (groups_from (suc index) none mask) (omega arith)
      (Spaced-groups_from (suc index) none mask tt)
Spaced-groups_from index (some start) (true ∷ mask) h =
    Spaced-groups_from (suc index) (some start) mask (omega (arith, h))
Spaced-groups_from index (some start) (false ∷ mask) h = (
  omega arith,
  omega (arith, h),
  Spaced-weaken (index - 1 + 2) (suc index) (groups_from (suc index) none mask) (omega (arith, h))
      (Spaced-groups_from (suc index) none mask tt),
)

-- The groups of a mask are its maximal runs: a bin lies in a group exactly when it is set, no group is
-- empty, and between two groups at least one bin is free, in increasing order.
pub groups_lem :
    (mask : List Bool)
    → ((j : ℕ) → covered j (groups mask) ≡ marked 0 mask j) × Spaced 0 (groups mask)
unfolding groups
groups_lem mask = (λ j. covered-groups_from j 0 none mask tt, Spaced-groups_from 0 none mask tt)
