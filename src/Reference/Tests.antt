-- ===== src/Reference/Tests.antt =====
-- A session of two devices against a reference of three.
use diploma_munka.Prelude.{
  ◌≡◌, ◌≢◌, refl, sym, ap, ◌∙◌, eq_iff, false, none, some, List, [], ◌∷◌, String, str_eq,
  if◌then◌else◌,
}
use diploma_munka.Prelude.Values.{Dict}
use diploma_munka.Samples.{plain_text, word, values, same_value_iff, as_word}
use diploma_munka.Reference.Candidate.{
  Row, bluetooth_match_candidate, normalize, service_uuid_fingerprint,
}
use diploma_munka.Reference.Match.{match_bluetooth_identity, best_match}
use diploma_munka.Reference.Best.{Choice, match_bluetooth_identity_lem}
use diploma_munka.Reference.Annotate.{annotate_devices, annotate_all, annotate_item}
use diploma_munka.Reference.Free.{Distinct}
use diploma_munka.Reference.Totals.{Reconciled, annotate_devices_lem}

abbrev with_field : String → String → Dict values → Dict values
with_field key text d k = if str_eq k key then some (word text) else d k

abbrev empty : Dict values
empty k = none

abbrev row : String → Dict values → Row plain_text values
row identity columns = record { stable_identity = word identity; columns = columns }

-- By name and vendor only; by its manufacturer's data; ignored.
abbrev rows : List (Row plain_text values)
rows =
    row "a" (with_field "device_name" "tag" (with_field "vendor" "v" empty))
    ∷ row "b"
        (with_field "bluetooth_company_id" "76" (with_field "manufacturer_data_hash" "h" empty))
    ∷ row "c" (with_field "expected_state" "ignored" empty)
    ∷ []

abbrev device : Dict values
device = with_field "device_name" "tag" (
    with_field "vendor" "v"
      (with_field "bluetooth_company_id" "76" (with_field "manufacturer_data_hash" "h" empty)))

words_apart : (s t : String) → str_eq s t ≡ false → word s ≢ word t
words_apart s t h e = absurd (cc (sym h ∙ (eq_iff s t).1 (ap as_word e)))

rows-Distinct : Distinct plain_text values rows
rows-Distinct = (
  (words_apart "b" "a" refl, (words_apart "c" "a" refl, tt)),
  ((words_apart "c" "b" refl, tt), (tt, tt)),
)

prefers_manufacturer :
    (annotate_devices plain_text values false rows (device ∷ empty ∷ [])).in_reference_total ≡ 1
unfolding annotate_devices annotate_all annotate_item match_bluetooth_identity best_match
    bluetooth_match_candidate normalize service_uuid_fingerprint
prefers_manufacturer = refl

match_bluetooth_identity_lem_example :
    Choice plain_text values device [] rows
      (match_bluetooth_identity plain_text values device rows [])
match_bluetooth_identity_lem_example = match_bluetooth_identity_lem plain_text values device [] rows

annotate_devices_lem_example :
    Reconciled plain_text values same_value_iff rows 2
      (annotate_devices plain_text values false rows (device ∷ empty ∷ []))
annotate_devices_lem_example =
    annotate_devices_lem plain_text values same_value_iff false rows (device ∷ empty ∷ [])
      rows-Distinct
