-- ===== src/Parsing/Rows.antt =====
-- The lookups in a row of utils/parsing.py, and the tests of Python on what they find.
use diploma_munka.Prelude.{
  Bool, true, false, not, ◌||◌, List, [], ◌∷◌, ◌++◌, String, str_eq, if◌then◌else◌,
}
use diploma_munka.Prelude.Int.{pos, eqb_ℤ}
use diploma_munka.Ingest.Json.{
  Json, null, bool, int, float, str, arr, obj, nil, item, Fields, end, field,
}
use diploma_munka.Parsing.Interpreter.{Interpreter}
use diploma_munka.Parsing.Text.{empty_text, keep_key_chars}

-- A dict in the order of its keys, which differ from each other.
abbrev pub Row : Type 0 → Type 0
Row F = List (String × Json F)

module _ {F : Type 0} where
  unfoldable pub to_row : Fields F → Row F
  to_row end = []
  to_row (field k v rest) = (k, v) ∷ to_row rest

  -- `value in (None, "")`
  abbrev pub is_blank : Json F → Bool
  is_blank null = true
  is_blank (str s) = empty_text s
  is_blank other = false

  -- `key in row`
  unfoldable pub has_key : String → Row F → Bool
  has_key key [] = false
  has_key key ((k, v) ∷ row) = let rest = has_key key row in str_eq k key || rest

  -- `if key not in row: row[key] = value`
  abbrev pub add_new : String → Json F → Row F → Row F
  add_new key v row = if has_key key row then row else row ++ (key, v) ∷ []

module _ (it : Interpreter) where
  open it use {py, F, eq_int}

  -- `normalize_key`
  unfoldable pub normalize_key : String → String
  normalize_key key = keep_key_chars (py.lower (py.strip key))

  unfoldable pub has_normalized : String → Row F → Bool
  has_normalized key [] = false
  has_normalized key ((k, v) ∷ row) =
      let rest = has_normalized key row in str_eq (normalize_key k) key || rest

  -- `normalized.get(key)`: of the keys that are normalised to one, the last.
  unfoldable pub find_normalized : String → Row F → Json F
  find_normalized key [] = null
  find_normalized key ((k, v) ∷ row) =
      let rest = find_normalized key row in
      if has_normalized key row then rest else if str_eq (normalize_key k) key then v else null

  -- `row_get(row, *candidate_keys)`
  unfoldable pub row_get : Row F → List String → Json F
  row_get row [] = null
  row_get row (key ∷ keys) =
      let value = find_normalized (normalize_key key) row in
      let rest = row_get row keys in if is_blank value then rest else value

  -- `bool(v)`
  abbrev pub truthy : Json F → Bool
  truthy null = false
  truthy (bool b) = b
  truthy (int n) = not (eqb_ℤ n (pos 0))
  truthy (float x) = not (eq_int x 0)
  truthy (str s) = not (empty_text s)
  truthy (arr nil) = false
  truthy (arr (item v vs)) = true
  truthy (obj end) = false
  truthy (obj (field k v fs)) = true

  -- `value in (None, "", 0, "0")`
  abbrev pub is_void : Json F → Bool
  is_void null = true
  is_void (bool b) = not b
  is_void (int n) = eqb_ℤ n (pos 0)
  is_void (float x) = eq_int x 0
  is_void (str s) = empty_text s || str_eq s "0"
  is_void other = false

  -- `value in (None, "", [], {})`
  abbrev pub is_hollow : Json F → Bool
  is_hollow null = true
  is_hollow (str s) = empty_text s
  is_hollow (arr nil) = true
  is_hollow (obj end) = true
  is_hollow other = false

  -- `a or b`
  abbrev pub or_else : Json F → Json F → Json F
  or_else a b = if truthy a then a else b
