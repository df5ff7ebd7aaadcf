-- ===== src/Baseline/Table.antt =====
-- The table `device_baselines` as services/baseline.py uses it, and its two statements.
use diploma_munka.Prelude.{
  ℕ, ◌+◌, Bool, true, false, ◌&&◌, List, [], ◌∷◌, String, str_eq, if◌then◌else◌, max, bool_ℕ,
}
use diploma_munka.Prelude.Python.{PyText}
use diploma_munka.Prelude.Values.{Values, Dict}
use diploma_munka.Prelude.Results.{Result, ok, raise}

pub data Protocol : Type 0 where
  wifi bluetooth : Protocol

abbrev pub same_protocol : Protocol → Protocol → Bool
same_protocol wifi wifi = true
same_protocol bluetooth bluetooth = true
same_protocol wifi bluetooth = false
same_protocol bluetooth wifi = false

-- The details of the HTTPExceptions.
pub data BaselineError : Type 0 where
  invalid_baseline_protocol location_name_required no_current_devices_for_location : BaselineError

-- A row of the table; `columns` are those that the code fills from the device and the request.
pub record Baseline (vs : Values) : Type 0 where
  pub location_name : String
  pub protocol : Protocol
  pub stable_identity : vs.V
  pub version : ℕ
  pub is_active : Bool
  pub expected_state : String
  pub columns : Dict vs

-- `_normalize_protocol`
unfoldable pub normalize_protocol : PyText → String → Result BaselineError Protocol
normalize_protocol py protocol =
    let cleaned = py.lower (py.strip protocol) in
    if str_eq cleaned "wifi"
    then ok wifi
    else if str_eq cleaned "bluetooth"
    then ok bluetooth
    else raise invalid_baseline_protocol

abbrev pub blank_error : String → Result BaselineError String
blank_error cleaned = if str_eq cleaned "" then raise location_name_required else ok cleaned

-- `(location_name or "").strip()`, which must not be empty.
unfoldable pub clean_location : PyText → String → Result BaselineError String
clean_location py location_name = blank_error (py.strip location_name)

-- `sql_lower` is the `lower` of the database.
module _ {vs : Values} (sql_lower : String → String) where
  -- `lower(location_name) = lower(%s) AND protocol = %s`
  abbrev pub is_at : String → Protocol → Baseline vs → Bool
  is_at location protocol b =
      str_eq (sql_lower b.location_name) (sql_lower location) && same_protocol b.protocol protocol

  -- `COALESCE(MAX(version), 0)` of the rows there.
  unfoldable pub max_version : String → Protocol → List (Baseline vs) → ℕ
  max_version location protocol [] = 0
  max_version location protocol (b ∷ table) =
      let rest = max_version location protocol table in
      if is_at location protocol b then max b.version rest else rest

  abbrev pub deactivated : String → Protocol → Baseline vs → Baseline vs
  deactivated location protocol b =
      if is_at location protocol b && b.is_active then record b { is_active = false } else b

  -- `UPDATE ... SET is_active = false WHERE ... AND is_active`
  unfoldable pub deactivate : String → Protocol → List (Baseline vs) → List (Baseline vs)
  deactivate location protocol [] = []
  deactivate location protocol (b ∷ table) =
      deactivated location protocol b ∷ deactivate location protocol table

  -- The rows that `RETURNING id` gives.
  unfoldable pub count_active : String → Protocol → List (Baseline vs) → ℕ
  count_active location protocol [] = 0
  count_active location protocol (b ∷ table) =
      bool_ℕ (is_at location protocol b && b.is_active) + count_active location protocol table

  -- `SELECT * ... AND is_active`
  unfoldable pub select_active : String → Protocol → List (Baseline vs) → List (Baseline vs)
  select_active location protocol [] = []
  select_active location protocol (b ∷ table) =
      let rest = select_active location protocol table in
      if is_at location protocol b && b.is_active then b ∷ rest else rest
