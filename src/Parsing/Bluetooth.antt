-- ===== src/Parsing/Bluetooth.antt =====
-- The normalised Bluetooth rows of utils/parsing.py, from Bettercap and from Kismet.
use diploma_munka.Prelude.{
  ℕ, Bool, true, false, ◌||◌, Option, none, some, List, [], ◌∷◌, String, any, max, if◌then◌else◌,
}
use diploma_munka.Prelude.Int.{ℤ, pos, negsuc}
use diploma_munka.Prelude.Results.{Result, ok, ◌>>=◌}
use diploma_munka.Ingest.Json.{Json, Fields, str}
use diploma_munka.Parsing.Interpreter.{Interpreter, PyError}
use diploma_munka.Parsing.Text.{contains, contains_any, is_one_of}
use diploma_munka.Parsing.Rows.{Row, has_key, row_get, or_else}
use diploma_munka.Parsing.Numbers.{
  parse_float, parse_int, parse_datetime_value, map_zone, parse_bettercap_datetime, kismet_text,
  normalized_vendor_text, parse_kismet_dbm,
}
use diploma_munka.Parsing.Mac.{parse_mac}
use diploma_munka.Parsing.Flatten.{flatten_kismet_row, flatten_bettercap_row}
use diploma_munka.Parsing.Services.{
  normalize_service_uuids, parse_bluetooth_company_id, manufacturer_data_hash,
}
use diploma_munka.Parsing.Identity.{text_or, bluetooth_identity_metadata, bluetooth_vendor_metadata}

-- `a or b` of dates, which are never false.
abbrev pub date_or : {D : Type 0} → Option D → D → D
date_or none e = e
date_or (some d) e = d

-- `max(1, n or 1)`
unfoldable pub at_least_one : Option ℤ → ℤ
at_least_one none = pos 1
at_least_one (some (pos n)) = pos (max 1 n)
at_least_one (some (negsuc n)) = pos 1

pub record BluetoothRow (it : Interpreter) : Type 0 where
  pub mac : Option String
  pub device_name : Option String
  pub rssi_dbm : Option it.F
  pub vendor : Option String
  pub vendor_resolution_method : String
  pub vendor_confidence : String
  pub bluetooth_company_id : Option ℤ
  pub manufacturer_data_hash : Option String
  pub stable_identity : Option String
  pub identity_confidence : String
  pub service_uuids : List String
  pub address_type : Option String
  pub bluetooth_type : String
  pub first_seen : it.D
  pub last_seen : it.D
  pub observed_at : it.D
  pub observation_count : ℤ

module _ (it : Interpreter) where
  open it use {py, F, D, str_of}

  -- The two functions make their row from its parts in the same way. `source` is "bettercap" or
  -- "kismet".
  abbrev pub bluetooth_row :
      String
      → Option D
      → Option D
      → D
      → List String
      → String
      → Option String
      → Option String
      → Option ℤ
      → Option String
      → Option String
      → Option String
      → Option F
      → ℤ
      → BluetoothRow it
  bluetooth_row source first_seen last_seen fallback_time services bluetooth_type address_type
        vendor company_id data_hash mac device_name rssi_dbm observation_count =
      let observed_at = date_or last_seen (date_or first_seen fallback_time) in
      let vendor_meta =
        bluetooth_vendor_metadata it vendor source address_type company_id data_hash in
      let identity_meta =
        bluetooth_identity_metadata it mac device_name address_type bluetooth_type
          vendor_meta.bluetooth_company_id services vendor_meta.manufacturer_data_hash in
      record {
        mac = mac;
        device_name = device_name;
        rssi_dbm = rssi_dbm;
        vendor = vendor_meta.vendor;
        vendor_resolution_method = vendor_meta.vendor_resolution_method;
        vendor_confidence = vendor_meta.vendor_confidence;
        bluetooth_company_id = vendor_meta.bluetooth_company_id;
        manufacturer_data_hash = vendor_meta.manufacturer_data_hash;
        stable_identity = identity_meta.stable_identity;
        identity_confidence = identity_meta.identity_confidence;
        service_uuids = services;
        address_type = address_type;
        bluetooth_type = bluetooth_type;
        first_seen = date_or first_seen observed_at;
        last_seen = date_or last_seen observed_at;
        observed_at = observed_at;
        observation_count = observation_count;
      }

  abbrev pub bettercap_first_seen : Row F → Result PyError (Option D)
  bettercap_first_seen flattened = parse_bettercap_datetime it (
      row_get it flattened
        ("first_seen" ∷ "firstseen" ∷ "first" ∷ "ble.first_seen" ∷ "data.first_seen" ∷ []))

  abbrev pub bettercap_last_seen : Row F → Result PyError (Option D)
  bettercap_last_seen flattened = parse_bettercap_datetime it (
      row_get it flattened (
        "last_seen" ∷ "lastseen" ∷ "seen" ∷ "timestamp" ∷ "time" ∷ "observed_at" ∷ "ble.last_seen"
        ∷ "data.last_seen" ∷ "data.timestamp" ∷ []))

  abbrev pub bettercap_services : ℕ → Row F → Result PyError (List String)
  bettercap_services calls flattened = normalize_service_uuids it calls (
      row_get it flattened (
        "service_uuids" ∷ "services" ∷ "uuids" ∷ "service_uuid" ∷ "service" ∷ "uuid"
        ∷ "ble.services" ∷ "data.services" ∷ "data.uuids" ∷ []))

  abbrev pub bettercap_data : Row F → Json F
  bettercap_data flattened = row_get it flattened (
      "manufacturer_data" ∷ "manufacturerdata" ∷ "manufacturer_specific_data"
      ∷ "ble.manufacturer_data" ∷ "data.manufacturer_data" ∷ [])

  abbrev pub bettercap_company : Row F → Result PyError (Option ℤ)
  bettercap_company flattened = parse_bluetooth_company_id it (
      or_else it
        (row_get it flattened
          ("company_id" ∷ "company_identifier" ∷ "bluetooth_company_id" ∷ "data.company_id" ∷ []))
        (bettercap_data flattened))

  abbrev pub bettercap_count : Row F → Result PyError (Option ℤ)
  bettercap_count flattened =
      parse_int it (row_get it flattened ("observation_count" ∷ "count" ∷ "seen_count" ∷ []))

  unfoldable pub normalize_bettercap_row : ℕ → Fields F → D → Result PyError (BluetoothRow it)
  normalize_bettercap_row calls row fallback_time = do
    let flattened = flatten_bettercap_row row
    first_seen ← bettercap_first_seen flattened
    last_seen ← bettercap_last_seen flattened
    services ← bettercap_services calls flattened
    company_id ← bettercap_company flattened
    count ← bettercap_count flattened
    ok (
        bluetooth_row "bettercap" first_seen last_seen fallback_time services
          (text_or
            (kismet_text it (
              row_get it flattened
                ("bluetooth_type" ∷ "device_type" ∷ "type" ∷ "technology" ∷ "ble.type" ∷ [])))
            "ble")
          (kismet_text it (
            row_get it flattened (
              "address_type" ∷ "addr_type" ∷ "addressType" ∷ "ble.address_type"
              ∷ "data.address_type" ∷ [])))
          (normalized_vendor_text it (
            row_get it flattened (
              "vendor" ∷ "manufacturer" ∷ "manuf" ∷ "company" ∷ "ble.vendor" ∷ "data.vendor"
              ∷ "data.manufacturer" ∷ [])))
          company_id (manufacturer_data_hash it (bettercap_data flattened))
          (parse_mac it (
            row_get it flattened (
              "mac" ∷ "mac_address" ∷ "address" ∷ "addr" ∷ "device_mac" ∷ "device.address"
              ∷ "ble.mac" ∷ "data.mac" ∷ "data.address" ∷ [])))
          (kismet_text it (
            row_get it flattened (
              "name" ∷ "device_name" ∷ "alias" ∷ "local_name" ∷ "ble.name" ∷ "data.name"
              ∷ "data.local_name" ∷ [])))
          (parse_float it (
            row_get it flattened (
              "rssi_dbm" ∷ "rssi" ∷ "signal" ∷ "signal_dbm" ∷ "ble.rssi" ∷ "data.rssi"
              ∷ "data.signal" ∷ [])))
          (at_least_one count))

  abbrev pub kismet_first_seen : Row F → Result PyError (Option D)
  kismet_first_seen flattened = parse_datetime_value it (
      row_get it flattened (
        "first_seen" ∷ "first_time" ∷ "kismet.device.base.first_time"
        ∷ "kismet.device.base.first_time_sec" ∷ []))

  abbrev pub kismet_last_seen : Row F → Result PyError (Option D)
  kismet_last_seen flattened = parse_datetime_value it (
      row_get it flattened (
        "last_seen" ∷ "last_time" ∷ "timestamp" ∷ "kismet.device.base.last_time"
        ∷ "kismet.device.base.last_time_sec" ∷ []))

  abbrev pub kismet_data : Row F → Json F
  kismet_data flattened = row_get it flattened (
      "manufacturer_data" ∷ "manufacturerdata" ∷ "manufacturer_specific_data"
      ∷ "bluetooth.device.manufacturer_data" ∷ "bluetooth.device.manufacturerdata" ∷ [])

  abbrev pub kismet_company : Row F → Result PyError (Option ℤ)
  kismet_company flattened = parse_bluetooth_company_id it (
      or_else it
        (row_get it flattened ("company_id" ∷ "company_identifier" ∷ "bluetooth_company_id" ∷ []))
        (kismet_data flattened))

  abbrev pub kismet_services : ℕ → Row F → Result PyError (List String)
  kismet_services calls flattened = normalize_service_uuids it calls (
      row_get it flattened (
        "service_uuids" ∷ "services" ∷ "uuids" ∷ "service_uuid" ∷ "bluetooth.device.service_uuids"
        ∷ "bluetooth.device.services" ∷ []))

  abbrev pub kismet_count : Row F → Result PyError (Option ℤ)
  kismet_count flattened = parse_int it (
      row_get it flattened
        ("observation_count" ∷ "count" ∷ "seen_count" ∷ "kismet.device.base.packets.total" ∷ []))

  unfoldable pub normalize_kismet_bluetooth_row :
      ℕ → Fields F → D → Result PyError (BluetoothRow it)
  normalize_kismet_bluetooth_row calls row fallback_time = do
    let flattened = flatten_kismet_row row
    first_seen ← kismet_first_seen flattened
    last_seen ← kismet_last_seen flattened
    company_id ← kismet_company flattened
    services ← kismet_services calls flattened
    count ← kismet_count flattened
    ok (
        bluetooth_row "kismet" (map_zone it first_seen) (map_zone it last_seen) fallback_time
          services
          (text_or
            (kismet_text it (
              row_get it flattened (
                "bluetooth_type" ∷ "kismet.device.base.type" ∷ "bluetooth.device.type"
                ∷ "kismet.device.base.phyname" ∷ [])))
            "bluetooth")
          (kismet_text it (
            row_get it flattened
              ("address_type" ∷ "addr_type" ∷ "bluetooth.device.address_type" ∷ [])))
          (normalized_vendor_text it (
            row_get it flattened (
              "vendor" ∷ "manufacturer" ∷ "manuf" ∷ "kismet.device.base.manuf"
              ∷ "bluetooth.device.vendor" ∷ [])))
          company_id (manufacturer_data_hash it (kismet_data flattened))
          (parse_mac it (
            row_get it flattened (
              "mac" ∷ "mac_address" ∷ "address" ∷ "addr" ∷ "kismet.device.base.macaddr"
              ∷ "bluetooth.device.address" ∷ [])))
          (kismet_text it (
            row_get it flattened (
              "name" ∷ "device_name" ∷ "alias" ∷ "local_name" ∷ "kismet.device.base.name"
              ∷ "bluetooth.device.name" ∷ "bluetooth.device.alias" ∷ [])))
          (parse_kismet_dbm it (
            row_get it flattened (
              "bluetooth_rssi_last" ∷ "bluetooth_rssi_avg"
              ∷ "bluetooth.device/bluetooth.device.rssi_last"
              ∷ "bluetooth.device/bluetooth.device.rssi_avg" ∷ "bluetooth.device.rssi_last"
              ∷ "bluetooth.device.rssi_avg" ∷ "bluetooth.device.bluetooth.device.rssi_last"
              ∷ "bluetooth.device.bluetooth.device.rssi_avg" ∷ "device_last_signal"
              ∷ "kismet.device.base.signal/kismet.common.signal.last_signal"
              ∷ "kismet.common.signal.last_signal"
              ∷ "kismet.device.base.signal.kismet.common.signal.last_signal"
              ∷ "kismet.device.base.signal.last_signal" ∷ "rssi_dbm" ∷ "rssi" ∷ "signal_dbm"
              ∷ "signal" ∷ [])))
          (at_least_one count))

  -- `str(row_get(…) or "").lower().strip()`
  abbrev pub word_at : Row F → List String → String
  word_at flattened keys =
      py.strip (py.lower (str_of (or_else it (row_get it flattened keys) (str ""))))

  abbrev pub bluetooth_words : List String
  bluetooth_words = "bluetooth" ∷ "btle" ∷ "ble" ∷ "br/edr" ∷ []

  abbrev pub some_key : (String → Bool) → Row F → Bool
  some_key p row = any (λ entry. p entry.0) row

  abbrev pub is_bluetooth : String → String → Row F → Bool
  is_bluetooth phy_name device_type flattened =
      if contains_any ("802.11" ∷ "wi-fi" ∷ "wifi" ∷ []) phy_name
      then false
      else if contains_any ("wi-fi" ∷ "wifi" ∷ []) device_type
      then false
      else if is_one_of bluetooth_words phy_name
      then true
      else if is_one_of bluetooth_words device_type
      then true
      else if has_key "bluetooth_rssi_last" flattened || has_key "bluetooth_rssi_avg" flattened
      then true
      else some_key (λ key. contains key "bluetooth.device") flattened

  unfoldable pub is_kismet_bluetooth_row : Fields F → Bool
  is_kismet_bluetooth_row row =
      let flattened = flatten_kismet_row row in
      is_bluetooth (word_at flattened ("kismet.device.base.phyname" ∷ "phyname" ∷ "phy" ∷ []))
        (word_at flattened ("kismet.device.base.type" ∷ "type" ∷ "device_type" ∷ [])) flattened
