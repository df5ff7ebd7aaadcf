-- ===== src/Parsing/Uploads.antt =====
-- `parse_kismet_upload` and `parse_bettercap_upload` of utils/parsing.py.
use diploma_munka.Prelude.{
  ℕ, Bool, ◌||◌, Option, none, some, List, [], ◌∷◌, String, str_eq, if◌then◌else◌,
}
use diploma_munka.Prelude.Results.{Result, ok, raise, ◌>>=◌}
use diploma_munka.Ingest.Json.{
  Json, null, bool, int, float, str, arr, obj, Fields, to_list, find_field,
}
use diploma_munka.Parsing.Text.{is_one_of}
use diploma_munka.Parsing.Identity.{text_or}

-- The HTTPExceptions, all with status 400.
pub data UploadError : Type 0 where
  unreadable_csv missing_csv_header unreadable_json not_a_list_or_object no_objects : UploadError

-- A row of an upload: a CSV row or a JSON object.
pub record Upload (F : Type 0) : Type 0 where
  pub rows : List (Fields F)
  pub first_line : ℕ
  pub format : String

-- `parse_csv_bytes` reads with the library csv, `decode_json` is `json.loads` of the decoded bytes,
-- and `suffix_of` is `Path(filename).suffix.lower()`.
module _ {B F : Type 0} (parse_csv_bytes : B → Result UploadError (List (Fields F)))
    (decode_json : B → Option (Json F)) (starts_json : B → Bool) (suffix_of : String → String)
    (lower : String → String) where
  unfoldable pub objects_of : List (Json F) → List (Fields F)
  objects_of [] = []
  objects_of (obj fs ∷ values) = fs ∷ objects_of values
  objects_of (value ∷ values) = objects_of values

  -- `isinstance(payload.get(key), list)`
  abbrev pub list_at : String → Fields F → Option (List (Json F))
  list_at key payload = elim (find_field key payload) [
    | none ↦ none
    | some v ↦ elim v [
      | arr vs ↦ some (to_list vs)
      | null ↦ none
      | bool b ↦ none
      | int n ↦ none
      | float x ↦ none
      | str s ↦ none
      | obj fs ↦ none
    ]
  ]

  -- The first of the keys that has a list.
  unfoldable pub first_list : List String → Fields F → Option (List (Json F))
  first_list [] payload = none
  first_list (key ∷ keys) payload =
      let rest = first_list keys payload in
      elim (list_at key payload) [ none ↦ rest | some values ↦ some values ]

  unfoldable pub payload_values : List String → Json F → Result UploadError (List (Json F))
  payload_values keys (arr vs) = ok (to_list vs)
  payload_values keys (obj payload) = elim (first_list keys payload) [
    | none ↦ ok (obj payload ∷ [])
    | some values ↦ ok values
  ]
  payload_values keys other = raise not_a_list_or_object

  abbrev pub json_rows : List (Fields F) → Result UploadError (Upload F)
  json_rows [] = raise no_objects
  json_rows (row ∷ rows) = ok (record { rows = row ∷ rows; first_line = 1; format = "json" })

  unfoldable pub parse_json : List String → B → Result UploadError (Upload F)
  parse_json keys file_bytes = elim (decode_json file_bytes) [
    | none ↦ raise unreadable_json
    | some payload ↦ (do values ← payload_values keys payload; json_rows (objects_of values))
  ]

  unfoldable pub parse_csv : B → Result UploadError (Upload F)
  parse_csv file_bytes = do
    rows ← parse_csv_bytes file_bytes
    ok (record { rows = rows; first_line = 2; format = "csv" })

  abbrev pub is_json_type : Option String → Bool
  is_json_type content_type =
      is_one_of ("application/json" ∷ "text/json" ∷ []) (lower (text_or content_type ""))

  unfoldable pub parse_kismet_upload : B → String → Option String → Result UploadError (Upload F)
  parse_kismet_upload file_bytes filename content_type =
      if str_eq (suffix_of filename) ".json" || is_json_type content_type
      then parse_json ("observations" ∷ "devices" ∷ "rows" ∷ "data" ∷ []) file_bytes
      else parse_csv file_bytes

  unfoldable pub parse_bettercap_upload : B → String → Option String → Result UploadError (Upload F)
  parse_bettercap_upload file_bytes filename content_type =
      if str_eq (suffix_of filename) ".json" || is_json_type content_type || starts_json file_bytes
      then parse_json ("devices" ∷ "observations" ∷ "rows" ∷ "events" ∷ "data" ∷ []) file_bytes
      else parse_csv file_bytes
