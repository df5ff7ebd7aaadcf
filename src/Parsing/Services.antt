-- ===== src/Parsing/Services.antt =====
-- The service UUIDs, the company and the manufacturer's data of a Bluetooth row, of
-- utils/parsing.py.
use Prim.Native.Char.{Char, code}
use diploma_munka.Prelude.{
  ℕ, zero, suc, ◌+◌, ◌-◌, ◌*◌, Bool, ◌&&◌, ◌||◌, Option, none, some, List, [], ◌∷◌, ◌++◌, String,
  str_eq, leb, ◌==◌, any, if◌then◌else◌,
}
use diploma_munka.Prelude.Int.{ℤ, pos, negsuc}
use diploma_munka.Prelude.Results.{Result, ok, raise, ◌>>=◌}
use diploma_munka.Ingest.Json.{
  Json, null, bool, int, float, str, arr, obj, Items, nil, item, Fields, end, field, to_list,
}
use diploma_munka.Parsing.Interpreter.{Interpreter, PyError, recursion_error}
use diploma_munka.Parsing.Text.{empty_text, starts_with, split_list}
use diploma_munka.Parsing.Rows.{to_row, is_blank, is_hollow, row_get, truthy}
use diploma_munka.Parsing.Numbers.{parse_int}
use diploma_munka.Parsing.Mac.{ends_word}

abbrev pub uuid_keys : List String
uuid_keys = "uuid" ∷ "service_uuid" ∷ "service" ∷ "id" ∷ []

unfoldable pub field_values : {F : Type 0} → Fields F → List (Json F)
field_values end = []
field_values (field k v rest) = v ∷ field_values rest

unfoldable pub texts : {F : Type 0} → List String → List (Json F)
texts [] = []
texts (s ∷ ss) = str s ∷ texts ss

module _ (it : Interpreter) where
  open it use {py, F, is_space, str_of, json_loads, dumps_sorted, sha256_hex}

  abbrev pub add_text : String → List String → List String
  add_text text found =
      if empty_text text || any (str_eq text) found then found else found ++ text ∷ []

  -- The loop over `values`. An object in the list is looked into by the function itself.
  unfoldable pub gather :
      (Json F → Result PyError (List String))
      → List (Json F)
      → List String
      → Result PyError (List String)
  gather look [] found = ok found
  gather look (obj fs ∷ values) found =
      let nested = row_get it (to_row fs) uuid_keys in
      let plain = gather look values found in
      if is_blank nested then plain else (do more ← look nested; gather look values (found ++ more))
  gather look (value ∷ values) found = gather look values (add_text (py.strip (str_of value)) found)

  -- What a list, an object and a text hold; other values stand for themselves.
  unfoldable pub listed : Json F → List (Json F)
  listed (arr vs) = to_list vs
  listed (obj fs) =
      let direct = row_get it (to_row fs) uuid_keys in
      if truthy it direct then direct ∷ [] else field_values fs
  listed (str s) = if empty_text (py.strip s) then [] else texts (split_list is_space (py.strip s))
  listed other = other ∷ []

  abbrev pub is_json_text : String → Bool
  is_json_text text = starts_with text "[" || starts_with text "{"

  -- A text that is JSON.
  unfoldable pub embedded : Json F → Option (Json F)
  embedded (str s) = if is_json_text (py.strip s) then json_loads (py.strip s) else none
  embedded other = none

  -- The number is that of the calls that the interpreter's stack still has room for.
  unfoldable pub normalize_service_uuids : ℕ → Json F → Result PyError (List String)
  normalize_service_uuids zero value = raise recursion_error
  normalize_service_uuids (suc calls) value =
      let look = normalize_service_uuids calls in
      if is_blank value
      then ok []
      else elim (embedded value) [ some inner ↦ look inner | none ↦ gather look (listed value) [] ]

-- `[0-9a-f]`
unfoldable pub small_hex_value : Char → Option ℕ
small_hex_value c =
    if leb b'0' (code c) && leb (code c) b'9'
    then some (code c - b'0')
    else if leb b'a' (code c) && leb (code c) b'f'
    then some (code c - b'a' + 10)
    else none

abbrev pub next_digit : Option ℕ → Option ℕ → Option ℕ
next_digit (some n) (some d) = some (16 * n + d)
next_digit (some n) none = none
next_digit none d = none

-- `([0-9a-f]{4})\b` where a text begins, with its number.
unfoldable pub hex_run : (Char → Bool) → ℕ → Option ℕ → String → Option ℕ
hex_run is_other_word zero n s = if ends_word is_other_word s then n else none
hex_run is_other_word (suc k) n String.[] = none
hex_run is_other_word (suc k) n (String.◌∷◌ c s) =
    hex_run is_other_word k (next_digit n (small_hex_value c)) s

abbrev pub four_digits : (Char → Bool) → String → Option ℕ
four_digits is_other_word s = hex_run is_other_word 4 (some 0) s

-- `(?:0x)?` in front of them
abbrev pub past_0x : String → Option String
past_0x String.[] = none
past_0x (String.◌∷◌ a String.[]) = none
past_0x (String.◌∷◌ a (String.◌∷◌ b s)) =
    if (code a == b'0') && (code b == b'x') then some s else none

abbrev pub or_next : Option ℕ → Option ℕ → Option ℕ
or_next (some n) other = some n
or_next none other = other

abbrev pub prefixed : (Char → Bool) → Option String → Option ℕ
prefixed is_other_word none = none
prefixed is_other_word (some s) = four_digits is_other_word s

unfoldable pub search_company : (Char → Bool) → String → Option ℕ
search_company is_other_word String.[] = none
search_company is_other_word (String.◌∷◌ c s) =
    or_next (prefixed is_other_word (past_0x (String.◌∷◌ c s)))
      (or_next (four_digits is_other_word (String.◌∷◌ c s)) (search_company is_other_word s))

-- `parsed if parsed is not None and 0 <= parsed <= 0xFFFF else None`
unfoldable pub in_range : Option ℤ → Option ℤ
in_range none = none
in_range (some (pos n)) = if leb n 65_535 then some (pos n) else none
in_range (some (negsuc n)) = none

module _ (it : Interpreter) where
  open it use {py, F, is_other_word, str_of, dumps_sorted, sha256_hex}

  abbrev pub company_or_number : Option ℕ → Result PyError (Option ℤ) → Result PyError (Option ℤ)
  company_or_number (some n) parsed = ok (some (pos n))
  company_or_number none (ok parsed) = ok (in_range parsed)
  company_or_number none (raise e) = raise e

  unfoldable pub company_of_text : String → Result PyError (Option ℤ)
  company_of_text text =
      company_or_number (search_company is_other_word text) (parse_int it (str text))

  -- The first that is not None.
  abbrev pub or_else_company :
      Result PyError (Option ℤ) → Result PyError (Option ℤ) → Result PyError (Option ℤ)
  or_else_company (ok (some n)) next = ok (some n)
  or_else_company (ok none) next = next
  or_else_company (raise e) next = raise e

  -- `parse_bluetooth_company_id(value.get(key))`, from what the function gives for each value.
  unfoldable pub company_at :
      String → List (String × Result PyError (Option ℤ)) → Result PyError (Option ℤ)
  company_at key [] = ok none
  company_at key ((k, r) ∷ found) =
      let rest = company_at key found in if str_eq k key then r else rest

  unfoldable mutual
    pub parse_bluetooth_company_id : Json F → Result PyError (Option ℤ)
    parse_bluetooth_company_id null = ok none
    parse_bluetooth_company_id (obj fs) =
        let found = companies_of_fields fs in
        or_else_company (company_at "company_id" found) (
          or_else_company (company_at "company" found)
            (or_else_company (company_at "id" found) (company_at "uuid" found)))
    parse_bluetooth_company_id (arr vs) = company_of_items vs
    parse_bluetooth_company_id (str s) =
        if empty_text s then ok none else company_of_text (py.lower (py.strip (str_of (str s))))
    parse_bluetooth_company_id (bool b) = company_of_text (py.lower (py.strip (str_of (bool b))))
    parse_bluetooth_company_id (int n) = company_of_text (py.lower (py.strip (str_of (int n))))
    parse_bluetooth_company_id (float x) = company_of_text (py.lower (py.strip (str_of (float x))))

    pub companies_of_fields : Fields F → List (String × Result PyError (Option ℤ))
    companies_of_fields end = []
    companies_of_fields (field k v rest) =
        (k, parse_bluetooth_company_id v) ∷ companies_of_fields rest

    pub company_of_items : Items F → Result PyError (Option ℤ)
    company_of_items nil = ok none
    company_of_items (item v vs) =
        or_else_company (parse_bluetooth_company_id v) (company_of_items vs)

  unfoldable pub manufacturer_data_hash : Json F → Option String
  manufacturer_data_hash value =
      if is_hollow it value then none else some (sha256_hex (dumps_sorted value))
