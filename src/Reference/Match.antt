-- ===== src/Reference/Match.antt =====
-- The choice of the reference row of a device, in services/reference_match.py.
use diploma_munka.Prelude.{
  Bool, true, false, not, ◌&&◌, Option, none, some, List, [], ◌∷◌, if◌then◌else◌, any, ltb,
}
use diploma_munka.Prelude.Python.{PyText}
use diploma_munka.Prelude.Values.{Values, Dict}
use diploma_munka.Reference.Candidate.{
  Row, Confidence, certain, Method, by_stable_identity, rank, promotable, is_certain, first_of,
  bluetooth_match_candidate,
}

module _ (py : PyText) (vs : Values) where
  open vs use {V, eq}

  abbrev pub MatchResult : Type 0
  MatchResult = Option (Row py vs × Method × Confidence)

  -- `identity in matched_ids`
  abbrev pub is_matched : List V → Row py vs → Bool
  is_matched matched_ids b = any (λ m. eq b.stable_identity m) matched_ids

  unfoldable pub find_identity : V → List (Row py vs) → List V → MatchResult
  find_identity identity [] matched_ids = none
  find_identity identity (b ∷ bs) matched_ids =
      if not (is_matched matched_ids b) && eq b.stable_identity identity
      then some (b, by_stable_identity, certain)
      else find_identity identity bs matched_ids

  unfoldable pub match_wifi_identity : Dict vs → List (Row py vs) → List V → MatchResult
  match_wifi_identity current rows matched_ids =
      let identity = first_of py vs current "stable_identity" "bssid" in
      if vs.truthy identity then find_identity identity rows matched_ids else none

  -- `best is None or _CONFIDENCE_RANK[confidence] > _CONFIDENCE_RANK[best[2]]`
  abbrev pub improves : Confidence → MatchResult → Bool
  improves c none = true
  improves c (some (b, m, d)) = ltb (rank d) (rank c)

  abbrev pub consider_candidate :
      Row py vs → Option (Method × Confidence) → MatchResult → MatchResult × Bool
  consider_candidate b none best = (best, false)
  consider_candidate b (some (m, c)) best =
      if improves c best then (some (b, m, c), is_certain c) else (best, false)

  -- The body of the loop: the best row so far, and whether it breaks off.
  abbrev pub consider : Dict vs → List V → Row py vs → MatchResult → MatchResult × Bool
  consider current matched_ids b best =
      if is_matched matched_ids b
      then (best, false)
      else consider_candidate b (bluetooth_match_candidate py vs current b) best

  unfoldable pub best_match : Dict vs → List V → List (Row py vs) → MatchResult → MatchResult
  best_match current matched_ids [] best = best
  best_match current matched_ids (b ∷ bs) best =
      let (next, done) = consider current matched_ids b best in
      elim done [ true ↦ next | false ↦ best_match current matched_ids bs next ]

  abbrev pub promoted : MatchResult → MatchResult
  promoted none = none
  promoted (some (b, m, c)) = if promotable c then some (b, m, c) else none

  unfoldable pub match_bluetooth_identity : Dict vs → List (Row py vs) → List V → MatchResult
  match_bluetooth_identity current rows matched_ids =
      promoted (best_match current matched_ids rows none)
