-- ===== src/Known/Match.antt =====
-- `evaluate_known_signal` of services/known_signals/matching.py.
use Prim.Native.String
use diploma_munka.Prelude.{
  ℕ, Bool, true, false, ◌&&◌, Option, none, some, List, [], ◌∷◌, ◌++◌, String, str_eq,
  if◌then◌else◌,
}
use diploma_munka.Prelude.Int.{ℤ, pos, ◌-ℤ◌, leb_ℤ, nat_abs}
use diploma_munka.Prelude.Python.{PyText}
use diploma_munka.Prelude.Values.{Values, Dict, get}
use diploma_munka.Prelude.Results.{Result, ok, raise, ◌>>=◌}

pub record Verdict : Type 0 where
  pub known_signal_id : Option String
  pub matched : Bool
  pub suppress_alert : Bool
  pub suppression_reason : Option String
  pub frequency_delta_hz : ℕ
  pub matched_attributes : List String
  pub mismatches : List String

module _ (py : PyText) (vs : Values) where
  open py use {casefold}
  open vs use {V, is_none, of_int, truthy, eq, str, of_text, to_int, lt, le, sub, absolute, quarter}

  -- An entry of `checks`, with the key of the measurement that it reads.
  pub record Check : Type 0 where
    pub profile_key : String
    pub measurement_key : String
    pub reason : String
    pub compare : V → V → Bool

  -- `max(x, tolerance)`
  abbrev pub at_least : V → V → V
  at_least x tolerance = if lt x tolerance then tolerance else x

  abbrev pub near : ℤ → V → V → Bool
  near tolerance value target =
      le (absolute (sub value target)) (at_least (quarter target) (of_int tolerance))

  abbrev pub same_folded : V → V → Bool
  same_folded value target = str_eq (casefold (str value)) (casefold (str target))

  abbrev pub checks : ℤ → List Check
  checks tolerance =
      entry "bandwidth_hz" "bandwidth_hz" "bandwidth" (near tolerance)
      ∷ entry "expected_power_min_dbm" "power_dbm" "power_min" (λ value target. le target value)
      ∷ entry "expected_power_max_dbm" "power_dbm" "power_max" (λ value target. le value target)
      ∷ entry "modulation" "modulation" "modulation" same_folded
      ∷ entry "protocol" "protocol" "protocol" same_folded
      ∷ entry "source_type" "source_type" "source_type" same_folded
      ∷ entry "location_id" "location_id" "location"
          (λ value target. str_eq (str value) (str target))
      ∷ []
    where
      entry : String → String → String → (V → V → Bool) → Check
      entry k m r f = record { profile_key = k; measurement_key = m; reason = r; compare = f }

  -- The body of the loop, on `reasons` and `mismatches`.
  unfoldable pub check_one :
      Dict vs → Dict vs → Check → List String × List String → List String × List String
  check_one profile measurement c (reasons, mismatches) =
      let target = get vs profile c.profile_key in
      let value = get vs measurement c.measurement_key in
      if is_none target
      then (reasons, mismatches)
      else if is_none value
      then (reasons, mismatches ++ String.◌++◌ c.reason "_missing" ∷ [])
      else if c.compare value target
      then (reasons ++ c.reason ∷ [], mismatches)
      else (reasons, mismatches ++ c.reason ∷ [])

  unfoldable pub check_all :
      Dict vs → Dict vs → List Check → List String × List String → List String × List String
  check_all profile measurement [] acc = acc
  check_all profile measurement (c ∷ cs) acc =
      check_all profile measurement cs (check_one profile measurement c acc)

  -- `int(d[key])`
  unfoldable pub int_field : Dict vs → String → Result String ℤ
  int_field d key = elim (d key) [
    | none ↦ raise "KeyError"
    | some v ↦ elim (to_int v) [ none ↦ raise "int" | some n ↦ ok n ]
  ]

  abbrev pub frequency_entry : Bool → List String × List String
  frequency_entry true = ("frequency" ∷ [], [])
  frequency_entry false = ([], "frequency" ∷ [])

  abbrev pub is_empty : List String → Bool
  is_empty [] = true
  is_empty (x ∷ xs) = false

  unfoldable pub verdict : Dict vs → ℕ → List String × List String → Verdict
  verdict profile delta (reasons, mismatches) =
      let matched = is_empty mismatches in
      let suppress =
        matched
        && truthy (get vs profile "suppress_alerts")
        && eq (get vs profile "status") (of_text "active") in
      record {
        known_signal_id =
            if truthy (get vs profile "id") then some (str (get vs profile "id")) else none;
        matched = matched;
        suppress_alert = suppress;
        suppression_reason = if suppress then some "known_signal_profile_match" else none;
        frequency_delta_hz = delta;
        matched_attributes = reasons;
        mismatches = mismatches;
      }

  unfoldable pub evaluate_at : Dict vs → Dict vs → ℤ → ℤ → ℤ → Verdict
  evaluate_at profile measurement center expected tolerance =
      let delta = nat_abs (center -ℤ expected) in
      verdict profile delta (
        check_all profile measurement (checks tolerance)
          (frequency_entry (leb_ℤ (pos delta) tolerance)))

  unfoldable pub evaluate_known_signal : Dict vs → Dict vs → Result String Verdict
  evaluate_known_signal profile measurement = do
    center ← int_field measurement "center_frequency_hz"
    expected ← int_field profile "center_frequency_hz"
    tolerance ← int_field profile "frequency_tolerance_hz"
    ok (evaluate_at profile measurement center expected tolerance)
