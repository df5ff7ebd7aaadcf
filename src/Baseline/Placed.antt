-- ===== src/Baseline/Placed.antt =====
-- What a comparison of services/baseline.py reports of the rows that no device has matched.

use diploma_munka.Prelude.{
  ◌≡◌, sym, ◌∙◌, inl, inr, Bool, true, false, none, some, List, [], ◌∷◌, str_eq, eq_iff, Bool-cases,
}
use diploma_munka.Prelude.Python.{PyText}
use diploma_munka.Prelude.Values.{Values, get}
use diploma_munka.Baseline.Table.{Baseline}
use diploma_munka.Baseline.Compare.{State, missing, ignored, Item, is_matched, missing_of}

module _ (py : PyText) (vs : Values) where
  open vs use {V, truthy, eq}

  -- The rows of an index and the items that are reported for them, in the order of the rows.
  module _ (recent : V → Bool) (is_taken : V → Bool) where
    abbrev pub reported : State → Baseline vs → Item vs
    reported s b = record {
      identity = b.stable_identity;
      status = s;
      current_values = none;
      reference_values = some b;
    }

    pub data ArePlaced : List (Baseline vs) → List (Item vs) → Type 0 where
      no_place : ArePlaced [] []
      matched_row :
          (b : Baseline vs) (index : List (Baseline vs)) (items : List (Item vs))
          → is_taken b.stable_identity ≡ true
          → ArePlaced index items
          → ArePlaced (b ∷ index) items
      ignored_row :
          (b : Baseline vs) (index : List (Baseline vs)) (items : List (Item vs))
          → is_taken b.stable_identity ≡ false
          → b.expected_state ≡ "ignored"
          → ArePlaced index items
          → ArePlaced (b ∷ index) (reported ignored b ∷ items)
      spared_row :
          (b : Baseline vs) (index : List (Baseline vs)) (items : List (Item vs))
          → is_taken b.stable_identity ≡ false
          → ¬ (b.expected_state ≡ "ignored")
          → recent (get vs b.columns "last_seen") ≡ true
          → ArePlaced index items
          → ArePlaced (b ∷ index) items
      missing_row :
          (b : Baseline vs) (index : List (Baseline vs)) (items : List (Item vs))
          → is_taken b.stable_identity ≡ false
          → ¬ (b.expected_state ≡ "ignored")
          → recent (get vs b.columns "last_seen") ≡ false
          → ArePlaced index items
          → ArePlaced (b ∷ index) (reported missing b ∷ items)

    pub missing_of-ArePlaced :
        (matched : List V)
        → ((v : V) → is_matched py vs matched v ≡ is_taken v)
        → (index : List (Baseline vs)) → ArePlaced index (missing_of py vs recent matched index)
    unfolding missing_of
    missing_of-ArePlaced matched same [] = no_place
    missing_of-ArePlaced matched same (b ∷ index) =
        let rest = missing_of-ArePlaced matched same index in
        let here = sym (same b.stable_identity) in
        elim (Bool-cases (is_matched py vs matched b.stable_identity)) [
          | inl e ↦ rw e (matched_row b index _ (here ∙ e) rest)
          | inr e ↦ elim (Bool-cases (str_eq b.expected_state "ignored")) [
            | inl f ↦
                rw (e, f)
                  (ignored_row b index _ (here ∙ e) ((eq_iff b.expected_state "ignored").0 f) rest)
            | inr f ↦
                let unlike : ¬ (b.expected_state ≡ "ignored") =
                  λ h. absurd (cc (f, (eq_iff b.expected_state "ignored").1 h)) in
                elim (Bool-cases (recent (get vs b.columns "last_seen"))) [
                  | inl g ↦ rw (e, f, g) (spared_row b index _ (here ∙ e) unlike g rest)
                  | inr g ↦ rw (e, f, g) (missing_row b index _ (here ∙ e) unlike g rest)
                ]
          ]
        ]
