-- ===== src/Parsing/Numbers.antt =====
-- The numbers, dates and plain texts of a row of utils/parsing.py.
use Prim.Native.Char.{Char, code}
use Prim.Native.String.{◌++◌ as append}
use diploma_munka.Prelude.{
  ℕ, ◌/◌, Bool, not, ◌&&◌, Option, none, some, [], ◌∷◌, String, ltb, ◌==◌, if◌then◌else◌,
}
use diploma_munka.Prelude.Int.{ℤ, pos, negsuc}
use diploma_munka.Prelude.Results.{Result, ok, ◌>>=◌}
use diploma_munka.Ingest.Json.{Json, bool, int, float, arr, obj}
use diploma_munka.Parsing.Interpreter.{Interpreter, PyError}
use diploma_munka.Parsing.Text.{empty_text, contains, replace, is_one_of}
use diploma_munka.Parsing.Rows.{is_blank, is_void}

-- The pattern `-?\d+(?:\.\d+)?` where a text begins, and the first place where it matches.
module _ (is_decimal : Char → Bool) where
  unfoldable pub take_digits : String → String × String
  take_digits String.[] = ("", "")
  take_digits (String.◌∷◌ c s) =
      let (digits, rest) = take_digits s in
      if is_decimal c then (String.◌∷◌ c digits, rest) else ("", String.◌∷◌ c s)

  abbrev pub fraction_at : String → String
  fraction_at String.[] = ""
  fraction_at (String.◌∷◌ c s) =
      let digits = (take_digits s).0 in
      if (code c == b'.') && not (empty_text digits) then String.◌∷◌ c digits else ""

  abbrev pub unsigned_at : String → Option String
  unsigned_at s =
      let (digits, rest) = take_digits s in
      if empty_text digits then none else some (append digits (fraction_at rest))

  abbrev pub number_at : String → Option String
  number_at String.[] = none
  number_at (String.◌∷◌ c s) =
      if code c == b'-'
      then elim (unsigned_at s) [ none ↦ none | some t ↦ some (String.◌∷◌ c t) ]
      else unsigned_at (String.◌∷◌ c s)

  unfoldable pub search_number : String → Option String
  search_number String.[] = none
  search_number (String.◌∷◌ c s) =
      let rest = search_number s in
      elim (number_at (String.◌∷◌ c s)) [ none ↦ rest | some t ↦ some t ]

module _ (it : Interpreter) where
  open it use {
    py, F, D, is_decimal, isdigit, int_of_digits, float_of, float_of_int, int_of_float, times, over,
    lt_int, le_int, gt_int, from_timestamp, from_timestamp_float, from_isoformat, has_zone, set_utc,
    str_of, dumps,
  }

  unfoldable pub parse_float : Json F → Option F
  parse_float value =
      if is_blank value
      then none
      else elim (search_number is_decimal (replace b',' "." (py.strip (str_of value)))) [
        | none ↦ none
        | some digits ↦ float_of digits
      ]

  -- `int(x)`, of a number that may not be there
  abbrev pub whole : Option F → Result PyError (Option ℤ)
  whole none = ok none
  whole (some x) = do n ← int_of_float x; ok (some n)

  unfoldable pub parse_int : Json F → Result PyError (Option ℤ)
  parse_int value = whole (parse_float value)

  -- The factor that a unit in the text stands for.
  abbrev pub unit_of : String → Option ℕ
  unit_of text =
      if contains text "ghz"
      then some 1_000_000_000
      else if contains text "mhz"
      then some 1_000_000
      else if contains text "khz"
      then some 1_000
      else none

  abbrev pub in_hertz : Option ℕ → F → F
  in_hertz (some factor) x = times x factor
  in_hertz none x = if le_int x 30_000 then times x 1_000_000 else x

  unfoldable pub parse_frequency_hz : Json F → Result PyError (Option ℤ)
  parse_frequency_hz value = elim (parse_float value) [
    | none ↦ ok none
    | some x ↦ whole (some (in_hertz (unit_of (py.lower (py.strip (str_of value)))) x))
  ]

  abbrev pub in_hertz_kismet : Option ℕ → F → F
  in_hertz_kismet (some factor) x = times x factor
  in_hertz_kismet none x =
      if le_int x 30_000
      then times x 1_000_000
      else if lt_int x 100_000_000
      then times x 1_000
      else x

  unfoldable pub parse_kismet_frequency_hz : Json F → Result PyError (Option ℤ)
  parse_kismet_frequency_hz value = if is_blank value then ok none else elim (parse_float value) [
    | none ↦ ok none
    | some x ↦ whole (some (in_hertz_kismet (unit_of (py.lower (py.strip (str_of value)))) x))
  ]

  unfoldable pub parse_kismet_dbm : Json F → Option F
  parse_kismet_dbm value = elim (parse_float value) [
    | none ↦ none
    | some x ↦ if lt_int x 0 then some x else none
  ]

  -- Milliseconds are taken for seconds beyond ten billion.
  abbrev pub in_seconds : ℤ → ℤ
  in_seconds (pos n) = if ltb 10_000_000_000 n then pos (n / 1000) else pos n
  in_seconds (negsuc n) = negsuc n

  abbrev pub datetime_of_text : String → Result PyError (Option D)
  datetime_of_text text =
      if empty_text text
      then ok none
      else if isdigit text
      then (do n ← int_of_digits text; d ← from_timestamp (in_seconds n); ok (some d))
      else ok (from_isoformat (replace b'Z' "+00:00" text))

  unfoldable pub parse_datetime_value : Json F → Result PyError (Option D)
  parse_datetime_value value =
      if is_blank value then ok none else datetime_of_text (py.strip (str_of value))

  -- `if d.tzinfo is None: d = d.replace(tzinfo=timezone.utc)`
  unfoldable pub with_zone : D → D
  with_zone d = if has_zone d then d else set_utc d

  abbrev pub map_zone : Option D → Option D
  map_zone none = none
  map_zone (some d) = some (with_zone d)

  abbrev pub timestamp_seconds : F → F
  timestamp_seconds x = if gt_int x 10_000_000_000 then over x 1000 else x

  abbrev pub datetime_of_number : F → Option D
  datetime_of_number x = from_timestamp_float (timestamp_seconds x)

  -- A Boolean is an integer.
  unfoldable pub parse_bettercap_datetime : Json F → Result PyError (Option D)
  parse_bettercap_datetime (float x) = ok (datetime_of_number x)
  parse_bettercap_datetime (int n) = do x ← float_of_int n; ok (datetime_of_number x)
  parse_bettercap_datetime (bool b) = do
    x ← float_of_int (if b then pos 1 else pos 0)
    ok (datetime_of_number x)
  parse_bettercap_datetime other = do parsed ← parse_datetime_value other; ok (map_zone parsed)

  -- `text or None`
  abbrev pub non_empty : String → Option String
  non_empty s = if empty_text s then none else some s

  unfoldable pub text_of : Json F → Option String
  text_of (arr vs) = some (dumps (arr vs))
  text_of (obj fs) = some (dumps (obj fs))
  text_of other = non_empty (py.strip (str_of other))

  unfoldable pub kismet_text : Json F → Option String
  kismet_text value = if is_void it value then none else text_of value

  abbrev pub known_vendor : Option String → Option String
  known_vendor none = none
  known_vendor (some text) =
      if is_one_of ("unknown" ∷ "ismeretlen" ∷ "n/a" ∷ "na" ∷ "none" ∷ "null" ∷ [])
        (py.lower (py.strip text))
      then none
      else some text

  unfoldable pub normalized_vendor_text : Json F → Option String
  normalized_vendor_text value = known_vendor (kismet_text value)
