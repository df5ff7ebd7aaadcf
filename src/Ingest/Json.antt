-- ===== src/Ingest/Json.antt =====
-- What `json.loads` gives in spectrum-ingest/app.py, and the tests of Python on such values that the
-- code uses. `F` is the type of floats.
use diploma_munka.Prelude.{
  Bool, true, false, not, Option, none, some, List, [], ◌∷◌, String, str_eq, if◌then◌else◌,
}
use diploma_munka.Prelude.Int.{ℤ, pos, eqb_ℤ}

mutual
  pub data Json (F : Type 0) : Type 0 where
    null : Json F
    bool : Bool → Json F
    int : ℤ → Json F
    float : F → Json F
    str : String → Json F
    arr : Items F → Json F
    obj : Fields F → Json F

  pub data Items (F : Type 0) : Type 0 where
    nil : Items F
    item : Json F → Items F → Items F

  pub data Fields (F : Type 0) : Type 0 where
    end : Fields F
    field : String → Json F → Fields F → Fields F

module _ {F : Type 0} where
  -- `d.get(key)`: of two entries with one key, `json.loads` keeps the last.
  unfoldable pub find_field : String → Fields F → Option (Json F)
  find_field key end = none
  find_field key (field k v rest) =
      let later = find_field key rest in
      elim later [ some w ↦ some w | none ↦ if str_eq k key then some v else none ]

  unfoldable pub to_list : Items F → List (Json F)
  to_list nil = []
  to_list (item v vs) = v ∷ to_list vs

  abbrev pub as_int : Json F → Option ℤ
  as_int (int n) = some n
  as_int other = none

  abbrev pub as_text : Json F → Option String
  as_text (str s) = some s
  as_text other = none

  -- `isinstance(v, str) and v`
  abbrev pub non_empty_text : Json F → Bool
  non_empty_text (str s) = not (str_eq s "")
  non_empty_text other = false

  -- A list or an object cannot be looked up in a set: TypeError.
  abbrev pub hashable : Json F → Bool
  hashable (arr vs) = false
  hashable (obj fs) = false
  hashable other = true

  -- `v == s` for a text
  abbrev pub is_text : String → Json F → Bool
  is_text s (str t) = str_eq t s
  is_text s other = false

  -- `v == n` for an integer: `True` is 1, and a float may equal it.
  abbrev pub is_int : (F → ℤ → Bool) → ℤ → Json F → Bool
  is_int eq_int n (int m) = eqb_ℤ m n
  is_int eq_int n (bool true) = eqb_ℤ (pos 1) n
  is_int eq_int n (bool false) = eqb_ℤ (pos 0) n
  is_int eq_int n (float x) = eq_int x n
  is_int eq_int n other = false
