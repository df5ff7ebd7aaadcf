-- ===== src/Passive/Tests.antt =====
-- An access point that the history knows, and one that has a new name.
use diploma_munka.Prelude.{
  ℕ, ◌+◌, ◌-◌, ◌*◌, ◌/◌, ◌≡◌, refl, Bool, true, false, not, Option, none, some, List, [], ◌∷◌, ◌++◌,
  String, str_eq, if◌then◌else◌, ltb, leb, ◌==◌,
}
use diploma_munka.Prelude.Int.{ℤ, pos, nat_abs}
use diploma_munka.Prelude.Floats.{Floats}
use diploma_munka.Prelude.Values.{Values, Dict}
use diploma_munka.Prelude.Results.{Result, ok, raise}
use diploma_munka.Samples.{Value, nothing, number, word, plain_text, values}
use diploma_munka.Parsing.Interpreter.{PyError, value_error}
use diploma_munka.Passive.Rules.{
  Detection, add_to_set, norm, location_of, set_of, only, locations_of, when, rssis_of, check_rssi,
}
use diploma_munka.Passive.Wifi.{
  same_bssid, new_bssid, encryption_changed, hidden_ssid, multiple_ssids, unusual_channel,
  vendor_mismatch, multiple_locations, detect_wifi_anomalies,
}
use diploma_munka.Passive.Bluetooth.{
  new_ble_device, services_of, all_services, news_of, new_service_uuid, manufacturer_changed,
  ble_locations, persistent_presence, detect_bluetooth_anomalies,
}
use diploma_munka.Passive.Repeated.{here, KeepsTexts}
use diploma_munka.Passive.Known.{IsLike, detect_wifi_anomalies-seen}

abbrev is_true : Value → Bool
is_true nothing = false
is_true (number n) = ltb 0 n
is_true (word s) = not (str_eq s "")

abbrev text_values : Values
text_values = record values { truthy = is_true }

abbrev floats : Floats
floats = record {
  F = ℕ;
  zero = 0;
  add = λ x y. x + y;
  sub = λ x y. x - y;
  mul = λ x y. x * y;
  div = λ x y. x / y;
  lt = λ x y. ltb x y;
  le = λ x y. leb x y;
  isfinite = λ x. true;
  of_ℕ = λ n. n;
  of_int = λ n. some (nat_abs n);
  eq_int = λ x n. x == nat_abs n;
  le_int = λ x n. leb x (nat_abs n);
}

abbrev to_float : Value → Result PyError ℕ
to_float (number n) = ok n
to_float other = raise value_error

abbrev channel_of : Value → Option (Result PyError ℤ)
channel_of (number n) = some (ok (pos n))
channel_of other = none

texts_kept : KeepsTexts plain_text text_values floats to_float
texts_kept = record {
  str_text = λ s. refl;
  truthy_text = λ s. refl;
  strip_again = λ s. refl;
  strip_empty = refl;
  casefold_empty = refl;
}

abbrev blank : Dict text_values
blank k = none

abbrev with_field : String → Value → Dict text_values → Dict text_values
with_field key v d k = if str_eq k key then some v else d k

abbrev access_point : String → Dict text_values
access_point ssid = with_field "bssid" (word "b") (with_field "ssid" (word ssid) blank)

abbrev history : List (Dict text_values)
history = access_point "net" ∷ []

known_device :
    detect_wifi_anomalies plain_text text_values floats to_float channel_of
      (access_point "net")
      history
    ≡ ok []
unfolding detect_wifi_anomalies new_bssid encryption_changed hidden_ssid multiple_ssids
    unusual_channel vendor_mismatch multiple_locations add_to_set norm location_of set_of only
    locations_of when rssis_of check_rssi
known_device = refl

abbrev class_names : Result PyError (List (Detection Value ℕ)) → List String
class_names (raise e) = []
class_names (ok found) = names found
  where
    names : List (Detection Value ℕ) → List String
    names [] = []
    names (d ∷ ds) = d.class_name ∷ names ds

renamed :
    class_names (
      detect_wifi_anomalies plain_text text_values floats to_float channel_of
        (access_point "other")
        history)
    ≡ "bssid_multiple_ssids" ∷ []
unfolding detect_wifi_anomalies new_bssid encryption_changed hidden_ssid multiple_ssids
    unusual_channel vendor_mismatch multiple_locations add_to_set norm location_of set_of only
    locations_of when rssis_of check_rssi
renamed = refl

new_tag :
    class_names (
      detect_bluetooth_anomalies plain_text text_values floats to_float
        (with_field "mac" (word "m") (with_field "observation_count" (number 100) blank))
        [])
    ≡ "new_ble_device" ∷ "unusually_persistent_presence" ∷ []
unfolding detect_bluetooth_anomalies new_ble_device new_service_uuid manufacturer_changed
    ble_locations persistent_presence services_of all_services news_of add_to_set norm location_of
    set_of only locations_of when rssis_of check_rssi
new_tag = refl

-- The access point as it was seen before, with a level and a time of its own.
abbrev seen_before : Dict text_values
seen_before =
    with_field "latest_rssi_dbm" (number 40)
      (with_field "last_seen" (word "2024-01-01") (access_point "net"))

abbrev older : List (Dict text_values)
older = seen_before ∷ []

known_again :
    detect_wifi_anomalies plain_text text_values floats to_float channel_of
      (access_point "net")
      older
    ≡ ok []
unfolding detect_wifi_anomalies new_bssid encryption_changed hidden_ssid multiple_ssids
    unusual_channel vendor_mismatch multiple_locations add_to_set norm location_of set_of only
    locations_of when rssis_of check_rssi
known_again = refl

alike : IsLike plain_text text_values floats to_float channel_of (access_point "net") seen_before
unfolding norm location_of
alike = record { bssid = refl; ssid = refl; encryption = refl; vendor = refl; place = refl }

detect_wifi_anomalies-seen_example :
    (channel : List (Detection Value ℕ)) × (rssis : List ℕ) × (rssi : List (Detection Value ℕ))
    × (unusual_channel plain_text text_values floats to_float channel_of (access_point "net")
        ≡ ok channel)
    × (rssis_of plain_text text_values floats to_float (
          only plain_text text_values floats to_float
            (same_bssid plain_text text_values floats to_float channel_of (access_point "net"))
            older)
        ≡ ok rssis)
    × (check_rssi plain_text text_values floats to_float "wifi" "rssi_behavior_changed" 72
          (access_point "net")
          rssis
        ≡ ok rssi)
    × ([]
        ≡ hidden_ssid plain_text text_values floats to_float channel_of (access_point "net")
          ++ channel
          ++ rssi)
detect_wifi_anomalies-seen_example =
    detect_wifi_anomalies-seen plain_text text_values floats to_float channel_of texts_kept
      (access_point "net") seen_before older (here []) alike [] known_again
