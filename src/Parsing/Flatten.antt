-- ===== src/Parsing/Flatten.antt =====
-- `flatten_kismet_row` and `flatten_bettercap_row` of utils/parsing.py.
use Prim.Native.String.{◌++◌ as append}
use diploma_munka.Prelude.{Bool, true, false, not, ◌&&◌, String, if◌then◌else◌}
use diploma_munka.Ingest.Json.{Json, null, bool, int, float, str, arr, obj, Fields, end, field}
use diploma_munka.Parsing.Text.{empty_text, contains}
use diploma_munka.Parsing.Rows.{Row, to_row, add_new}

-- `f"{prefix}.{key}" if prefix else key`
abbrev pub path_of : String → String → String
path_of prefix key = if empty_text prefix then key else append prefix (append "." key)

module _ {F : Type 0} where
  -- A key with a point stands in the row by itself too, in the rows of Kismet.
  abbrev pub add_dotted : Bool → String → String → Json F → Row F → Row F
  add_dotted dotted prefix key v row =
      if dotted && not (empty_text prefix) && contains key "." then add_new key v row else row

  -- `visit`; `dotted` says which of the two functions it is of.
  unfoldable mutual
    pub visit : Bool → Json F → String → Row F → Row F
    visit dotted (obj fs) prefix row = visit_fields dotted fs prefix row
    visit dotted null prefix row = row
    visit dotted (bool b) prefix row = row
    visit dotted (int n) prefix row = row
    visit dotted (float x) prefix row = row
    visit dotted (str s) prefix row = row
    visit dotted (arr vs) prefix row = row

    pub visit_fields : Bool → Fields F → String → Row F → Row F
    visit_fields dotted end prefix row = row
    visit_fields dotted (field key nested rest) prefix row = visit_fields dotted rest prefix (
        visit dotted nested (path_of prefix key)
          (add_dotted dotted prefix key nested (add_new (path_of prefix key) nested row)))

  unfoldable pub flatten_kismet_row : Fields F → Row F
  flatten_kismet_row row = visit_fields true row "" (to_row row)

  unfoldable pub flatten_bettercap_row : Fields F → Row F
  flatten_bettercap_row row = visit_fields false row "" (to_row row)
