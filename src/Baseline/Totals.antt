-- ===== src/Baseline/Totals.antt =====
-- That a comparison of services/baseline.py counts every device and every row.
use diploma_munka.Prelude.{
  ℕ, ◌+◌, ◌≡◌, Bool, false, ◌||◌, none, some, List, [], ◌∷◌, ◌++◌, if◌then◌else◌, length,
}
use diploma_munka.Prelude.Python.{PyText}
use diploma_munka.Prelude.Values.{Values, Dict}
use diploma_munka.Baseline.Table.{Baseline}
use diploma_munka.Baseline.Index.{last_with, AreDistinct}
use diploma_munka.Baseline.Items.{AreItemsOf}
use diploma_munka.Baseline.Placed.{ArePlaced}
use diploma_munka.Baseline.Compare.{
  State, known, new, changed, missing, uncertain_match, ignored, same_state, Item, Counts,
  Comparison, find_row,
}

abbrev tally : State → State → ℕ → ℕ
tally found s n = if same_state found s then n + 1 else n

module _ (py : PyText) (vs : Values) where
  open vs use {V, eq}

  -- Whether an item with this identity was found in the baseline.
  abbrev pub takes : Item vs → V → Bool
  takes i v = elim i.reference_values [ none ↦ false | some b ↦ eq i.identity v ]

  abbrev pub is_taken : List (Item vs) → V → Bool
  is_taken [] v = false
  is_taken (i ∷ items) v = takes i v || is_taken items v

  module _ (recent : V → Bool) where
    abbrev pub sum_of : Counts → ℕ
    sum_of c =
        c.known_count + c.new_count + c.changed_count + c.missing_count + c.uncertain_match_count
        + c.ignored_count

    abbrev pub count_of : State → Counts → ℕ
    count_of known c = c.known_count
    count_of new c = c.new_count
    count_of changed c = c.changed_count
    count_of missing c = c.missing_count
    count_of uncertain_match c = c.uncertain_match_count
    count_of ignored c = c.ignored_count

    -- The items in a state.
    unfoldable pub those : State → List (Item vs) → List (Item vs)
    those s [] = []
    those s (i ∷ items) =
        let rest = those s items in if same_state i.status s then i ∷ rest else rest

    -- What a comparison of the rows with the devices has to hold.
    pub record IsAccounted (rows : List (Baseline vs)) (devices : List (Dict vs))
        (c : Comparison vs) : Type 0 where
      pub item_of_each : AreItemsOf py vs c.protocol rows [] devices c.items
      pub index : List (Baseline vs)
      pub distinct : AreDistinct py vs index
      pub indexed : (v : V) → find_row py vs v index ≡ last_with py vs v rows
      pub placed : ArePlaced py vs recent (is_taken c.items) index c.missing_items
      pub counted :
          (s : State) → count_of s c.summary ≡ length (those s (c.items ++ c.missing_items))
      pub summed : sum_of c.summary ≡ length devices + length c.missing_items
      pub active_devices : c.summary.total_active_devices ≡ length devices
