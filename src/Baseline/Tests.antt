-- ===== src/Baseline/Tests.antt =====
-- Two devices saved, then compared with a later session.
use diploma_munka.Prelude.{
  All, ◌≡◌, refl, false, none, some, List, [], ◌∷◌, String, str_eq, if◌then◌else◌,
}
use diploma_munka.Prelude.Values.{Dict}
use diploma_munka.Prelude.Results.{ok}
use diploma_munka.Samples.{nothing, word, plain_text, values}
use diploma_munka.Baseline.Table.{
  select_active, Protocol, wifi, Baseline, normalize_protocol, clean_location, max_version,
  deactivate, invalid_baseline_protocol,
}
use diploma_munka.Baseline.Save.{
  Request, Saved, save_baseline, save_rows, inserted, new_row, dict_of, taken_columns,
}
use diploma_munka.Baseline.History.{Call, saves, deactivates, call_all, call_all-OneVersion_lem}
use diploma_munka.Baseline.Compare.{
  compare_rows, Comparison, count_state, missing_of, classify_all, find_row, index_rows, put_row,
}
use diploma_munka.Baseline.Refused.{error_of, refusal_of, error_of-save_baseline, is_empty}

abbrev with_field : String → String → Dict values → Dict values
with_field key text d k = if str_eq k key then some (word text) else d k

abbrev blank : Dict values
blank k = none

abbrev device : String → String → Dict values
device identity ssid = with_field "stable_identity" identity (with_field "ssid" ssid blank)

abbrev before_devices : Protocol → String → List (Dict values)
before_devices p l = device "a" "net" ∷ device "b" "net" ∷ []

abbrev later_devices : Protocol → String → List (Dict values)
later_devices p l = device "a" "other" ∷ device "c" "net" ∷ []

abbrev request : Request values
request = record {
  location_id = nothing;
  session_id = nothing;
  operator = nothing;
  notes = nothing;
  reference_set_id = nothing;
}

abbrev entry : String → Dict values → Baseline values
entry identity d = new_row plain_text values wifi "lab" 1 request (word identity) d

abbrev saved_rows : List (Baseline values)
saved_rows = entry "a" (device "a" "net") ∷ entry "b" (device "b" "net") ∷ []

abbrev receipt : Saved
receipt = record { protocol = wifi; location_name = "lab"; version = 1; saved_entries = 2 }

saves_two :
    save_baseline plain_text values (λ s. s) before_devices "wifi" "lab" request []
    ≡ ok (saved_rows, receipt)
unfolding save_baseline normalize_protocol clean_location save_rows inserted max_version deactivate
saves_two = refl

-- The second save ends the rows of the first one.
abbrev ended_rows : List (Baseline values)
ended_rows =
    (record (entry "a" (device "a" "net")) { is_active = false })
    ∷ (record (entry "b" (device "b" "net")) { is_active = false })
    ∷ []

abbrev later_rows : List (Baseline values)
later_rows =
    new_row plain_text values wifi "lab" 2 request (word "a") (device "a" "other")
    ∷ new_row plain_text values wifi "lab" 2 request (word "c") (device "c" "net")
    ∷ []

abbrev second_receipt : Saved
second_receipt = record { protocol = wifi; location_name = "lab"; version = 2; saved_entries = 2 }

abbrev calls : List (Call plain_text values (λ s. s))
calls =
    saves before_devices "wifi" "lab" request
    ∷ deactivates "lab" "wifi"
    ∷ saves later_devices "wifi" "lab" request
    ∷ []

abbrev saved_table : List (Baseline values)
saved_table = call_all plain_text values (λ s. s) calls []

call_all-OneVersion_lem_example :
    All
      (λ b. b.version ≡ max_version (λ s. s) "lab" wifi saved_table)
      (select_active (λ s. s) "lab" wifi saved_table)
call_all-OneVersion_lem_example =
    call_all-OneVersion_lem plain_text values (λ s. s) calls "lab" wifi

abbrev comparison : Comparison values
comparison =
    compare_rows plain_text values (λ v. false) wifi "lab" saved_rows (later_devices wifi "lab")

changed_new_missing :
    (comparison.summary.changed_count ≡ 1)
    × (comparison.summary.new_count ≡ 1)
    × (comparison.summary.missing_count ≡ 1)
unfolding compare_rows count_state missing_of classify_all find_row index_rows put_row new_row
    dict_of taken_columns
changed_new_missing = (refl, refl, refl)

refuses_zigbee :
    refusal_of plain_text values (λ s. s) (λ p l. false) "zigbee" "lab"
    ≡ some invalid_baseline_protocol
refuses_zigbee = refl

error_of-save_baseline_example :
    error_of (save_baseline plain_text values (λ s. s) before_devices "zigbee" "lab" request [])
    ≡ refusal_of plain_text values (λ s. s) (λ p l. is_empty (before_devices p l)) "zigbee" "lab"
error_of-save_baseline_example =
    (error_of-save_baseline plain_text values (λ s. s) (λ v. false) before_devices
      (λ p l. saved_rows) "zigbee" "lab" request []).0
