-- ===== src/Passive/Rules.antt =====
-- What the two detectors of services/anomaly/passive.py share. A row is a dict of values; `F` are
-- floats.
use diploma_munka.Prelude.{
  ℕ, Bool, true, false, not, List, [], ◌∷◌, String, str_eq, any, length, if◌then◌else◌,
}
use diploma_munka.Prelude.Int.{ℤ}
use diploma_munka.Prelude.Python.{PyText}
use diploma_munka.Prelude.Floats.{Floats}
use diploma_munka.Prelude.Values.{Values, Dict, get}
use diploma_munka.Prelude.Results.{Result, ok, ◌>>=◌}
use diploma_munka.Parsing.Interpreter.{PyError}

-- The kinds of evidence that a detection carries.
pub data Evidence (V F : Type 0) : Type 0 where
  text : String → Evidence V F
  texts : List String → Evidence V F
  value : V → Evidence V F
  number : F → Evidence V F
  count : ℕ → Evidence V F
  integer : ℤ → Evidence V F

-- The confidence is in hundredths. The explanation is a fixed text for each class.
pub record Detection (V F : Type 0) : Type 0 where
  pub entity_domain : String
  pub class_name : String
  pub severity : String
  pub confidence : ℕ
  pub evidence : List (String × Evidence V F)

-- A set of texts, by its elements.
abbrev pub is_in : String → List String → Bool
is_in s set = any (str_eq s) set

unfoldable pub add_to_set : String → List String → List String
add_to_set s set = if is_in s set then set else s ∷ set

abbrev pub is_empty_set : List String → Bool
is_empty_set [] = true
is_empty_set (s ∷ set) = false

abbrev pub is_no_text : String → Bool
is_no_text s = str_eq s ""

module _ (py : PyText) (vs : Values) (fl : Floats) (to_float : vs.V → Result PyError fl.F) where
  open py use {strip, casefold}
  open vs use {V, is_none, of_text, truthy, str}
  open fl use {F}

  -- `a or b`
  abbrev pub value_or : V → V → V
  value_or a b = if truthy a then a else b

  -- `str(value or "")`
  abbrev pub text_of : V → String
  text_of v = str (value_or v (of_text ""))

  -- `_norm`
  unfoldable pub norm : V → String
  norm v = casefold (strip (text_of v))

  -- `str(row.get("location_id") or row.get("location_name") or "")`
  unfoldable pub location_of : Dict vs → String
  location_of row = text_of (value_or (get vs row "location_id") (get vs row "location_name"))

  -- `{f(row) for row in rows if p(row)}`
  unfoldable pub set_of : (Dict vs → Bool) → (Dict vs → String) → List (Dict vs) → List String
  set_of p f [] = []
  set_of p f (row ∷ rows) =
      let rest = set_of p f rows in if p row then add_to_set (f row) rest else rest

  -- `[row for row in rows if p(row)]`
  unfoldable pub only : (Dict vs → Bool) → List (Dict vs) → List (Dict vs)
  only p [] = []
  only p (row ∷ rows) = let rest = only p rows in if p row then row ∷ rest else rest

  -- `locations`, without the empty text
  unfoldable pub locations_of : List (Dict vs) → List String
  locations_of rows = set_of (λ row. not (is_no_text (location_of row))) location_of rows

  abbrev pub alert : String → String → String → ℕ → List (String × Evidence V F) → Detection V F
  alert domain class_name severity confidence evidence = record {
    entity_domain = domain;
    class_name = class_name;
    severity = severity;
    confidence = confidence;
    evidence = evidence;
  }

  -- `if test: detections.append(…)`
  unfoldable pub when : Bool → Detection V F → List (Detection V F)
  when test d = if test then d ∷ [] else []

  -- `[float(row["rssi_dbm"]) for row in rows if row.get("rssi_dbm") is not None]`
  unfoldable pub rssis_of : List (Dict vs) → Result PyError (List F)
  rssis_of [] = ok []
  rssis_of (row ∷ rows) =
      if is_none (get vs row "rssi_dbm")
      then rssis_of rows
      else (do x ← to_float (get vs row "rssi_dbm"); xs ← rssis_of rows; ok (x ∷ xs))

  -- `sum(xs)`
  unfoldable pub total : F → List F → F
  total acc [] = acc
  total acc (x ∷ xs) = total (fl.add acc x) xs

  abbrev pub mean : List F → F
  mean xs = fl.div (total fl.zero xs) (fl.of_ℕ (length xs))

  -- `abs(x)`
  abbrev pub absolute : F → F
  absolute x = if fl.lt x fl.zero then fl.sub fl.zero x else x

  abbrev pub rssi_alert : String → String → ℕ → V → F → F → List (Detection V F)
  rssi_alert domain class_name confidence current baseline x =
      when (fl.le (fl.of_ℕ 20) (absolute (fl.sub x baseline))) (
        alert domain class_name "low" confidence (
          ("baseline_rssi_dbm", number baseline)
          ∷ ("current_rssi_dbm", value current)
          ∷ ("delta_db", number (fl.sub x baseline))
          ∷ []))

  -- Nothing is compared without an earlier level or a present one.
  unfoldable pub check_rssi :
      String → String → ℕ → Dict vs → List F → Result PyError (List (Detection V F))
  check_rssi domain class_name confidence current [] = ok []
  check_rssi domain class_name confidence current (r ∷ rssis) =
      if is_none (get vs current "rssi_dbm") then ok [] else (do
        x ← to_float (get vs current "rssi_dbm")
        ok (
            rssi_alert domain class_name confidence (get vs current "rssi_dbm") (mean (r ∷ rssis))
              x))
