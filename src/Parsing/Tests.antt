-- ===== src/Parsing/Tests.antt =====
-- Rows of Kismet and Bettercap, parsed with a small stand-in for the interpreter.
use mathlib.Core.Path.{subst}
use Prim.Native.Char.{code}
use diploma_munka.Prelude.{
  ℕ, ◌≡◌, refl, Bool, true, false, ◌&&◌, ◌||◌, arith, none, some, List, [], ◌∷◌, String, str_eq,
  leb, ◌==◌, if◌then◌else◌,
}
use diploma_munka.Prelude.Int.{ℤ, pos, negsuc, ltb_ℤ, leb_ℤ, eqb_ℤ, ◌*ℤ◌}
use diploma_munka.Prelude.Results.{ok, raise}
use diploma_munka.Samples.{plain_text}
use diploma_munka.Ingest.Json.{Json, str, arr, obj, nil, item, Fields, end, field, to_list}
use diploma_munka.Parsing.Interpreter.{Interpreter, value_error}
use diploma_munka.Parsing.Text.{
  is_one_of, starts_with, contains, replace, keep_key_chars, underscored, lstrip_underscore,
  rstrip_underscore, split_from,
}
use diploma_munka.Parsing.Rows.{
  to_row, has_key, normalize_key, has_normalized, find_normalized, row_get,
}
use diploma_munka.Parsing.Numbers.{
  take_digits, search_number, parse_float, parse_int, parse_kismet_dbm, parse_kismet_frequency_hz,
  parse_datetime_value, with_zone, parse_bettercap_datetime, text_of, kismet_text,
  normalized_vendor_text,
}
use diploma_munka.Parsing.Mac.{
  Octet, hex_value, hex_pair, more_octets, mac_at, search_mac, upper_digit, spell_more, spell,
  canonical, parse_mac,
}
use diploma_munka.Parsing.Spelling.{
  AreOctets, upper_digit-IsDigit, parse_mac-spell, parse_mac_again,
}
use diploma_munka.Parsing.Flatten.{visit, visit_fields, flatten_kismet_row, flatten_bettercap_row}
use diploma_munka.Parsing.Found.{find_key}
use diploma_munka.Parsing.Kept.{IsComplete, flatten_kismet_row-IsComplete}
use diploma_munka.Parsing.Services.{
  texts, gather, listed, embedded, normalize_service_uuids, small_hex_value, hex_run,
  search_company, company_of_text, company_at, parse_bluetooth_company_id, companies_of_fields,
  manufacturer_data_hash,
}
use diploma_munka.Parsing.Company.{
  IsCompany, parse_bluetooth_company_id-IsCompany, normalize_wifi_management_frame_type-IsType,
}
use diploma_munka.Parsing.Identity.{
  before_colon, mac_is_locally_administered, wifi_identity_metadata, bluetooth_identity_metadata,
  bluetooth_vendor_metadata,
}
use diploma_munka.Parsing.Bluetooth.{
  at_least_one, BluetoothRow, normalize_bettercap_row, normalize_kismet_bluetooth_row,
}
use diploma_munka.Parsing.Normal.{
  KeepsZones, IsNormal, normalize_bettercap_row-IsNormal, normalize_kismet_bluetooth_row-IsNormal,
}
use diploma_munka.Parsing.Wifi.{
  WifiRow, has_word_ap, typed_values, lower_texts, join_spaces, normalize_wifi_device_type,
  normalize_kismet_row,
}
use diploma_munka.Parsing.WifiNormal.{IsNormalWifi, normalize_kismet_row-IsNormalWifi}
use diploma_munka.Parsing.Alerts.{
  wifi_management_frame_types, find_alias, frame_type_of, normalize_wifi_management_frame_type,
}

abbrev plain_str : Json ℤ → String
plain_str (str s) = s
plain_str other = "other"

-- Dates are numbers with or without a zone, floats are integers.
abbrev interpreter : Interpreter
interpreter = record {
  py = plain_text;
  F = ℤ;
  D = ℕ × Bool;
  is_decimal = λ c. leb b'0' (code c) && leb (code c) b'9';
  is_space = λ c. code c == b' ';
  is_other_word = λ c. false;
  isdigit = λ s. false;
  int_of_digits = λ s. raise value_error;
  int_of_hex = λ s. some (pos 0);
  float_of = λ s. if str_eq s "-40" then some (negsuc 39) else some (pos 6);
  float_of_int = λ n. ok n;
  int_of_float = λ n. ok n;
  times = λ x n. x *ℤ pos n;
  over = λ x n. x;
  eq_int = λ x n. eqb_ℤ x (pos n);
  lt_int = λ x n. ltb_ℤ x (pos n);
  le_int = λ x n. leb_ℤ x (pos n);
  gt_int = λ x n. ltb_ℤ (pos n) x;
  from_timestamp = λ n. ok (0, true);
  from_timestamp_float = λ x. some (1, true);
  from_isoformat = λ s. some (2, false);
  has_zone = λ d. d.1;
  set_utc = λ d. (d.0, true);
  str_of = plain_str;
  json_loads = λ s. none;
  dumps = λ v. "json";
  dumps_sorted = λ v. "json";
  sha256_hex = λ s. "digest";
}

abbrev address : List Octet
address = (0, 1) ∷ (2, 3) ∷ (4, 5) ∷ (6, 7) ∷ (8, 9) ∷ (10, 15) ∷ []

six_octets : AreOctets 6 address
six_octets = grind arith

parse_mac-spell_example :
    parse_mac interpreter (str (spell upper_digit "-" address)) ≡ some (canonical address)
parse_mac-spell_example =
    parse_mac-spell interpreter (λ s. refl) upper_digit upper_digit-IsDigit "-" refl address
      six_octets

found_in_text : parse_mac interpreter (str "bssid=01-23-45-67-89-af!") ≡ some "01:23:45:67:89:AF"
unfolding parse_mac search_mac mac_at hex_pair more_octets hex_value spell spell_more
found_in_text = refl

parse_mac_again_example : parse_mac interpreter (str "01:23:45:67:89:AF") ≡ some "01:23:45:67:89:AF"
parse_mac_again_example =
    parse_mac_again interpreter (λ s. refl) (str "bssid=01-23-45-67-89-af!") "01:23:45:67:89:AF"
      found_in_text

abbrev nested_row : Fields ℤ
nested_row =
    field "mac" (str "01:23:45:67:89:AF") (field "ble" (obj (field "name" (str "tag") end)) end)

flatten_kismet_row-IsComplete_example :
    IsComplete true nested_row (flatten_kismet_row nested_row)
    × IsComplete false nested_row (flatten_bettercap_row nested_row)
flatten_kismet_row-IsComplete_example = flatten_kismet_row-IsComplete nested_row

nested_name : find_key "ble.name" (flatten_bettercap_row nested_row) ≡ some (str "tag")
unfolding find_key flatten_bettercap_row visit visit_fields to_row has_key
nested_name = refl

abbrev company_value : Json ℤ
company_value = obj (field "company_id" (str "0x004c") end)

apple : parse_bluetooth_company_id interpreter company_value ≡ ok (some (pos 76))
unfolding parse_bluetooth_company_id companies_of_fields company_at company_of_text search_company
    hex_run small_hex_value
apple = refl

parse_bluetooth_company_id-IsCompany_example : IsCompany (pos 76)
parse_bluetooth_company_id-IsCompany_example =
    parse_bluetooth_company_id-IsCompany interpreter company_value (pos 76) apple

probe_request :
    normalize_wifi_management_frame_type interpreter (str "probe  req!") ≡ some "probe_request"
unfolding normalize_wifi_management_frame_type frame_type_of kismet_text text_of find_alias
    underscored lstrip_underscore rstrip_underscore
probe_request = refl

-- An object in a list is not compared with what was found before.
repeated_uuids :
    normalize_service_uuids interpreter 3 (
      arr (
        item
          (obj (field "uuid" (str "180f") end))
          (item (obj (field "uuid" (str "180f") end)) nil)))
    ≡ ok ("180f" ∷ "180f" ∷ [])
unfolding normalize_service_uuids gather listed embedded texts split_from row_get find_normalized
    has_normalized normalize_key keep_key_chars to_row starts_with to_list
repeated_uuids = refl

-- The same, where a text in small letters is one of two words or nothing.
abbrev terse : Interpreter
terse = record interpreter {
  py = record plain_text { lower = λ s. if str_eq s "mac" || str_eq s "signal" then s else "" };
}

terse_zones : KeepsZones terse
terse_zones = record {
  set_utc_zone = λ d. refl;
  from_timestamp_zone = λ x d h. let e : (1, true) ≡ d = cc h in subst (λ t. t.1 ≡ true) e refl;
}

abbrev row : Fields ℤ
row = field "mac" (str "01:23:45:67:89:AF") (field "signal" (str "-40") end)

abbrev bettercap_result : BluetoothRow terse
bettercap_result = record {
  mac = some "01:23:45:67:89:AF";
  device_name = none;
  rssi_dbm = some (negsuc 39);
  vendor = none;
  vendor_resolution_method = "unknown";
  vendor_confidence = "unknown";
  bluetooth_company_id = none;
  manufacturer_data_hash = none;
  stable_identity = some "01:23:45:67:89:AF";
  identity_confidence = "high";
  service_uuids = [];
  address_type = none;
  bluetooth_type = "ble";
  first_seen = (9, true);
  last_seen = (9, true);
  observed_at = (9, true);
  observation_count = pos 1;
}

bettercap_parses : normalize_bettercap_row terse 3 row (9, true) ≡ ok bettercap_result
unfolding normalize_bettercap_row flatten_bettercap_row visit visit_fields row_get
    parse_bettercap_datetime find_normalized has_key to_row has_normalized normalize_key
    keep_key_chars parse_datetime_value normalize_service_uuids parse_bluetooth_company_id parse_int
    parse_float parse_mac kismet_text bluetooth_vendor_metadata bluetooth_identity_metadata
    at_least_one search_mac mac_at hex_pair hex_value before_colon mac_is_locally_administered
    more_octets spell spell_more normalized_vendor_text search_number take_digits text_of with_zone
    manufacturer_data_hash contains replace starts_with
bettercap_parses = refl

normalize_bettercap_row-IsNormal_example : IsNormal terse bettercap_result
normalize_bettercap_row-IsNormal_example =
    normalize_bettercap_row-IsNormal terse terse_zones 3 row (9, true) bettercap_result refl
      bettercap_parses

abbrev kismet_result : BluetoothRow terse
kismet_result = record bettercap_result { bluetooth_type = "bluetooth" }

kismet_parses : normalize_kismet_bluetooth_row terse 3 row (9, true) ≡ ok kismet_result
unfolding normalize_kismet_bluetooth_row flatten_kismet_row visit visit_fields row_get
    find_normalized has_key to_row has_normalized normalize_key keep_key_chars parse_datetime_value
    normalize_service_uuids parse_bluetooth_company_id parse_int parse_float parse_mac kismet_text
    bluetooth_vendor_metadata bluetooth_identity_metadata at_least_one search_mac mac_at hex_pair
    hex_value before_colon mac_is_locally_administered more_octets spell spell_more
    normalized_vendor_text search_number take_digits text_of with_zone manufacturer_data_hash
    contains replace starts_with parse_kismet_dbm
kismet_parses = refl

normalize_kismet_bluetooth_row-IsNormal_example : IsNormal terse kismet_result
normalize_kismet_bluetooth_row-IsNormal_example =
    normalize_kismet_bluetooth_row-IsNormal terse terse_zones 3 row (9, true) kismet_result refl
      kismet_parses

abbrev wifi_result : WifiRow terse
wifi_result = record {
  bssid = some "01:23:45:67:89:AF";
  ssid = none;
  channel = none;
  frequency_hz = none;
  rssi_dbm = some (negsuc 39);
  signal_dbm = some (negsuc 39);
  noise_dbm = none;
  encryption = none;
  vendor = none;
  device_type = "unknown";
  stable_identity = some "01:23:45:67:89:AF";
  identity_confidence = "medium";
  first_seen = (9, true);
  last_seen = (9, true);
  observed_at = (9, true);
  packet_count = none;
}

wifi_parses : normalize_kismet_row terse row (9, true) ≡ ok wifi_result
unfolding normalize_kismet_row flatten_kismet_row visit visit_fields row_get find_normalized has_key
    to_row has_normalized normalize_key keep_key_chars parse_datetime_value parse_int parse_float
    parse_mac kismet_text wifi_identity_metadata search_mac mac_at hex_pair hex_value before_colon
    mac_is_locally_administered more_octets spell spell_more search_number take_digits text_of
    with_zone contains replace starts_with parse_kismet_dbm parse_kismet_frequency_hz
    normalize_wifi_device_type typed_values lower_texts join_spaces has_word_ap
wifi_parses = refl

normalize_kismet_row-IsNormalWifi_example : IsNormalWifi terse wifi_result
normalize_kismet_row-IsNormalWifi_example =
    normalize_kismet_row-IsNormalWifi terse terse_zones row (9, true) wifi_result refl wifi_parses

normalize_wifi_management_frame_type-IsType_example :
    is_one_of wifi_management_frame_types "probe_request" ≡ true
normalize_wifi_management_frame_type-IsType_example =
    normalize_wifi_management_frame_type-IsType interpreter (str "probe  req!") "probe_request"
      probe_request
