-- ===== src/Ingest/Frame.antt =====
-- `validate_frame` of spectrum-ingest/app.py, over the values that `json.loads` gives.
-- Each test stands in a check of its own; the checks run in the order of the source, and the first
-- that fails decides. A field is read only behind the check that it is there, and an integer only
-- behind the check of its type, so the defaults of `value` and `int_at` are never seen.
use diploma_munka.Prelude.{
  Bool, true, false, not, ◌&&◌, ◌||◌, Option, none, some, List, [], ◌∷◌, String, if◌then◌else◌, all,
  length, is_some,
}
use diploma_munka.Prelude.Int.{ℤ, pos, ◌+ℤ◌, ◌-ℤ◌, ◌*ℤ◌, ltb_ℤ, leb_ℤ, eqb_ℤ}
use diploma_munka.Prelude.Floats.{Floats}
use diploma_munka.Prelude.Results.{Result, ok, raise}
use diploma_munka.Ingest.Json.{
  Json, null, bool, int, float, str, arr, obj, Fields, find_field, to_list, as_int, non_empty_text,
  hashable, is_text, is_int,
}

-- `return False, text`, or `return False, f"invalid {key}"`, or an exception that leaves
-- `validate_frame`.
pub data Fault : Type 0 where
  invalid : String → Fault
  invalid_key : String → Fault
  exception : String → Fault

unfoldable pub first_fault : List (Result Fault (Unit {0})) → Result Fault (Unit {0})
first_fault [] = ok tt
first_fault (c ∷ cs) = elim c [ ok u ↦ first_fault cs | raise e ↦ raise e ]

abbrev pub require : Bool → String → Result Fault (Unit {0})
require true text = ok tt
require false text = raise (invalid text)

abbrev pub required : List String
required =
    "schema_version" ∷ "sensor_id" ∷ "source_type" ∷ "source_device" ∷ "device_model"
    ∷ "measurement_mode" ∷ "session_id" ∷ "timestamp" ∷ "sequence" ∷ "start_frequency_hz"
    ∷ "stop_frequency_hz" ∷ "step_frequency_hz" ∷ "center_frequency_hz" ∷ "sample_rate_hz"
    ∷ "rbw_hz" ∷ "num_points" ∷ "point_count" ∷ "power_unit" ∷ "powers_dbm" ∷ "flags" ∷ "metadata"
    ∷ []

abbrev pub text_fields : List String
text_fields =
    "sensor_id" ∷ "source_device" ∷ "device_model" ∷ "measurement_mode" ∷ "session_id" ∷ "timestamp"
    ∷ []

abbrev pub integer_fields : List String
integer_fields =
    "sequence" ∷ "start_frequency_hz" ∷ "stop_frequency_hz" ∷ "step_frequency_hz"
    ∷ "center_frequency_hz" ∷ "sample_rate_hz" ∷ "num_points" ∷ []

abbrev pub or_zero : Option ℤ → ℤ
or_zero none = pos 0
or_zero (some n) = n

module _ {F : Type 0} where
  abbrev pub value : Fields F → String → Json F
  value fs key = elim (find_field key fs) [ none ↦ null | some v ↦ v ]

  abbrev pub int_at : Fields F → String → ℤ
  int_at fs key = or_zero (as_int (value fs key))

  abbrev pub check_required : Fields F → Result Fault (Unit {0})
  check_required fs =
      require (all (λ key. is_some (find_field key fs)) required)
        "missing required SpectrumFrame fields"

  abbrev pub known_source : Json F → Bool
  known_source v =
      is_text "mock" v
      || is_text "replay" v
      || is_text "aaronia" v
      || is_text "usrp" v
      || is_text "hackrf" v

  -- Membership in a set hashes the value first.
  abbrev pub check_source : Fields F → Result Fault (Unit {0})
  check_source fs =
      if hashable (value fs "source_type")
      then require (known_source (value fs "source_type")) "invalid source_type"
      else raise (exception "TypeError")

  -- `f"invalid {key}"` of the first key whose value is no text or empty.
  unfoldable pub check_texts : List String → Fields F → Result Fault (Unit {0})
  check_texts [] fs = ok tt
  check_texts (key ∷ keys) fs = elim (non_empty_text (value fs key)) [
    | true ↦ check_texts keys fs
    | false ↦ raise (invalid_key key)
  ]

  abbrev pub text_of : Json F → String
  text_of (str s) = s
  text_of other = ""

  abbrev pub check_integers : Fields F → Result Fault (Unit {0})
  check_integers fs =
      require (all (λ key. is_some (as_int (value fs key))) integer_fields)
        "integer frame field has invalid type"

  abbrev pub check_axis : Fields F → Result Fault (Unit {0})
  check_axis fs =
      require
        (eqb_ℤ (int_at fs "stop_frequency_hz") (
          int_at fs "start_frequency_hz"
          +ℤ int_at fs "step_frequency_hz" *ℤ (int_at fs "num_points" -ℤ pos 1)))
        "frequency axis is inconsistent"

  abbrev pub check_center : Fields F → Result Fault (Unit {0})
  check_center fs =
      require
        (leb_ℤ (int_at fs "start_frequency_hz") (int_at fs "center_frequency_hz")
          && leb_ℤ (int_at fs "center_frequency_hz") (int_at fs "stop_frequency_hz"))
        "center frequency is outside the frame"

  -- `v is True`
  abbrev pub says_true : Option (Json F) → Bool
  says_true (some (bool b)) = b
  says_true other = false

  -- A simulated source must say so; `metadata` that is no object has no `get`.
  abbrev pub labelled : Json F → Result Fault (Unit {0})
  labelled (obj fs) =
      require (says_true (find_field "is_simulated" fs)) "simulated source is not labelled"
  labelled other = raise (exception "AttributeError")

  abbrev pub check_label : Fields F → Result Fault (Unit {0})
  check_label fs =
      if is_text "mock" (value fs "source_type") || is_text "replay" (value fs "source_type")
      then labelled (value fs "metadata")
      else ok tt

module _ (fl : Floats) where
  open fl use {F, isfinite, of_int, eq_int, le_int}

  abbrev pub check_version : Fields F → Result Fault (Unit {0})
  check_version fs =
      require
        (is_int eq_int (pos 1) (value fs "schema_version") && is_text "dBm" (value fs "power_unit"))
        "unsupported SpectrumFrame schema or power unit"

  -- `_finite_number`: `math.isfinite` of an integer beyond the floats is an OverflowError.
  unfoldable pub finite_number : Json F → Result Fault Bool
  finite_number (float x) = ok (isfinite x)
  finite_number (int n) = elim (of_int n) [
    | none ↦ raise (exception "OverflowError")
    | some x ↦ ok (isfinite x)
  ]
  finite_number other = ok false

  unfoldable pub all_finite : List (Json F) → Result Fault Bool
  all_finite [] = ok true
  all_finite (v ∷ vs) = elim (finite_number v) [
    | raise e ↦ raise e
    | ok b ↦ elim b [ true ↦ all_finite vs | false ↦ ok false ]
  ]

  abbrev pub required_true : Result Fault Bool → String → Result Fault (Unit {0})
  required_true (ok b) text = require b text
  required_true (raise e) text = raise e

  unfoldable pub check_powers_list : ℤ → Json F → Result Fault (Unit {0})
  check_powers_list points (arr vs) =
      if eqb_ℤ (pos (length (to_list vs))) points
      then required_true (all_finite (to_list vs)) "powers_dbm is invalid"
      else raise (invalid "powers_dbm is invalid")
  check_powers_list points other = raise (invalid "powers_dbm is invalid")

  abbrev pub positive_number : Json F → Bool
  positive_number (int n) = not (leb_ℤ n (pos 0))
  positive_number (float x) = not (le_int x (pos 0))
  positive_number other = false

  unfoldable pub check_rbw : Json F → Result Fault (Unit {0})
  check_rbw v = elim (finite_number v) [
    | raise e ↦ raise e
    | ok b ↦ require (b && positive_number v) "rbw_hz is invalid"
  ]

  abbrev pub check_points : ℤ → Fields F → Result Fault (Unit {0})
  check_points max_points fs =
      require
        (not (leb_ℤ (int_at fs "num_points") (pos 0))
          && not (ltb_ℤ max_points (int_at fs "num_points"))
          && is_int eq_int (int_at fs "num_points") (value fs "point_count")
          && not (leb_ℤ (int_at fs "step_frequency_hz") (pos 0)))
        "invalid point count or frequency step"

  -- `parse_iso` is `datetime.fromisoformat(text.replace("Z", "+00:00"))`, `none` its ValueError.
  module _ {Stamp : Type 0} (parse_iso : String → Option Stamp) (has_timezone : Stamp → Bool) where
    abbrev pub check_timestamp : Fields F → Result Fault (Unit {0})
    check_timestamp fs = elim (parse_iso (text_of (value fs "timestamp"))) [
      | none ↦ raise (invalid "invalid timestamp")
      | some t ↦ require (has_timezone t) "timestamp timezone is required"
    ]

    abbrev pub frame_checks : ℤ → Fields F → List (Result Fault (Unit {0}))
    frame_checks max_points fs =
        check_required fs
        ∷ check_version fs
        ∷ check_source fs
        ∷ check_texts text_fields fs
        ∷ check_timestamp fs
        ∷ check_integers fs
        ∷ check_points max_points fs
        ∷ check_axis fs
        ∷ check_center fs
        ∷ check_powers_list (int_at fs "num_points") (value fs "powers_dbm")
        ∷ check_rbw (value fs "rbw_hz")
        ∷ check_label fs
        ∷ []

    unfoldable pub validate_frame : ℤ → Json F → Result Fault (Unit {0})
    validate_frame max_points (obj fs) = first_fault (frame_checks max_points fs)
    validate_frame max_points other = raise (invalid "missing required SpectrumFrame fields")
