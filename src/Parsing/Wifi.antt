-- ===== src/Parsing/Wifi.antt =====
-- The normalised Wi-Fi rows of Kismet, in utils/parsing.py.
use Prim.Native.String.{◌++◌ as append}
use diploma_munka.Prelude.{
  Bool, false, not, ◌&&◌, ◌||◌, Option, none, some, List, [], ◌∷◌, String, if◌then◌else◌,
}
use diploma_munka.Prelude.Int.{ℤ}
use diploma_munka.Prelude.Results.{Result, ok, ◌>>=◌}
use diploma_munka.Ingest.Json.{Json, Fields}
use diploma_munka.Parsing.Interpreter.{Interpreter, PyError}
use diploma_munka.Parsing.Text.{starts_with, contains_any}
use diploma_munka.Parsing.Rows.{Row, is_blank, row_get, truthy}
use diploma_munka.Parsing.Numbers.{
  parse_int, parse_datetime_value, map_zone, kismet_text, parse_kismet_dbm,
  parse_kismet_frequency_hz,
}
use diploma_munka.Parsing.Mac.{parse_mac, is_word, ends_word}
use diploma_munka.Parsing.Flatten.{flatten_kismet_row}
use diploma_munka.Parsing.Identity.{wifi_identity_metadata}
use diploma_munka.Parsing.Bluetooth.{date_or}

pub record WifiRow (it : Interpreter) : Type 0 where
  pub bssid : Option String
  pub ssid : Option String
  pub channel : Option ℤ
  pub frequency_hz : Option ℤ
  pub rssi_dbm : Option it.F
  pub signal_dbm : Option it.F
  pub noise_dbm : Option it.F
  pub encryption : Option String
  pub vendor : Option String
  pub device_type : String
  pub stable_identity : Option String
  pub identity_confidence : String
  pub first_seen : it.D
  pub last_seen : it.D
  pub observed_at : it.D
  pub packet_count : Option ℤ

-- `s[2:]`
abbrev pub past_two : String → String
past_two String.[] = ""
past_two (String.◌∷◌ a String.[]) = ""
past_two (String.◌∷◌ a (String.◌∷◌ b s)) = s

-- `" ".join(texts)`
unfoldable pub join_spaces : List String → String
join_spaces [] = ""
join_spaces (s ∷ []) = s
join_spaces (s ∷ t ∷ ss) = append s (append " " (join_spaces (t ∷ ss)))

module _ (it : Interpreter) where
  open it use {py, F, D, is_other_word, str_of}

  -- `re.search(r"\bap\b", s)`
  unfoldable pub has_word_ap : Bool → String → Bool
  has_word_ap after_word String.[] = false
  has_word_ap after_word (String.◌∷◌ c s) =
      let rest = has_word_ap (is_word is_other_word c) s in
      (not after_word
        && starts_with (String.◌∷◌ c s) "ap"
        && ends_word is_other_word (past_two (String.◌∷◌ c s)))
      || rest

  -- The values whose keys speak of a type or a role.
  unfoldable pub typed_values : Row F → List (Json F)
  typed_values [] = []
  typed_values ((k, v) ∷ row) =
      let rest = typed_values row in
      if contains_any ("type" ∷ "role" ∷ []) (py.lower k) then v ∷ rest else rest

  -- The texts of what is not blank.
  unfoldable pub lower_texts : List (Json F) → List String
  lower_texts [] = []
  lower_texts (v ∷ vs) =
      let rest = lower_texts vs in if is_blank v then rest else py.lower (str_of v) ∷ rest

  abbrev pub type_of_text : String → Option String
  type_of_text text =
      if contains_any ("mesh" ∷ "bridge" ∷ "wds" ∷ []) text
      then some "bridge/mesh"
      else if contains_any ("ad-hoc" ∷ "adhoc" ∷ "ibss" ∷ []) text
      then some "ad-hoc"
      else if contains_any ("access point" ∷ "base station" ∷ "infrastructure" ∷ []) text
          || has_word_ap false text
      then some "AP"
      else if contains_any ("client" ∷ "station" ∷ " sta" ∷ "probe" ∷ []) text
      then some "client"
      else none

  abbrev pub type_of_ssids : Row F → String
  type_of_ssids flattened =
      if truthy it (row_get it flattened ("dot11.device.last_beaconed_ssid" ∷ []))
      then "AP"
      else if truthy it (row_get it flattened ("dot11.device.last_probed_ssid" ∷ []))
      then "client"
      else "unknown"

  unfoldable pub normalize_wifi_device_type : Fields F → String
  normalize_wifi_device_type row =
      let flattened = flatten_kismet_row row in
      elim (type_of_text (
        join_spaces (
          lower_texts (
            row_get it flattened (
              "device_type" ∷ "type" ∷ "role" ∷ "kismet.device.base.type"
              ∷ "kismet.device.base.basic_type_set" ∷ "dot11.device.type" ∷ "dot11.device.role"
              ∷ "dot11.device/dot11.device.type" ∷ "dot11.device/dot11.device.role" ∷ [])
            ∷ typed_values flattened)))) [
              | some device_type ↦ device_type
              | none ↦ type_of_ssids flattened
            ]

  abbrev pub wifi_row :
      Option D
      → Option D
      → D
      → Option String
      → String
      → Option F
      → Option ℤ
      → Option ℤ
      → Option ℤ
      → Row F
      → WifiRow it
  wifi_row first_seen last_seen fallback_time bssid device_type signal_dbm channel frequency_hz
        packet_count flattened =
      let observed_at = date_or last_seen (date_or first_seen fallback_time) in
      let identity_meta = wifi_identity_metadata it bssid (some device_type) in
      record {
        bssid = bssid;
        ssid = kismet_text it (
            row_get it flattened (
              "ssid" ∷ "essid" ∷ "network" ∷ "kismet.device.base.name"
              ∷ "dot11.device.last_beaconed_ssid" ∷ "dot11.device.last_probed_ssid" ∷ []));
        channel = channel;
        frequency_hz = frequency_hz;
        rssi_dbm = signal_dbm;
        signal_dbm = signal_dbm;
        noise_dbm = parse_kismet_dbm it (
            row_get it flattened (
              "device_last_noise" ∷ "kismet.device.base.signal/kismet.common.signal.last_noise"
              ∷ "kismet.common.signal.last_noise"
              ∷ "kismet.device.base.signal.kismet.common.signal.last_noise"
              ∷ "kismet.device.base.signal.last_noise" ∷ "noise_dbm" ∷ "noise" ∷ []));
        encryption =
            kismet_text it
              (row_get it flattened ("encryption" ∷ "security" ∷ "privacy" ∷ "crypt" ∷ []));
        vendor = kismet_text it (
            row_get it flattened
              ("vendor" ∷ "manufacturer" ∷ "manuf" ∷ "kismet.device.base.manuf" ∷ []));
        device_type = device_type;
        stable_identity = identity_meta.stable_identity;
        identity_confidence = identity_meta.identity_confidence;
        first_seen = date_or first_seen observed_at;
        last_seen = date_or last_seen observed_at;
        observed_at = observed_at;
        packet_count = packet_count;
      }

  abbrev pub wifi_first_seen : Row F → Result PyError (Option D)
  wifi_first_seen flattened = parse_datetime_value it (
      row_get it flattened (
        "first_seen" ∷ "first_time" ∷ "kismet.device.base.first_time"
        ∷ "kismet.device.base.first_time_sec" ∷ []))

  abbrev pub wifi_last_seen : Row F → Result PyError (Option D)
  wifi_last_seen flattened = parse_datetime_value it (
      row_get it flattened (
        "last_seen" ∷ "last_time" ∷ "kismet.device.base.last_time"
        ∷ "kismet.device.base.last_time_sec" ∷ "timestamp" ∷ []))

  abbrev pub wifi_bssid : Row F → Option String
  wifi_bssid flattened =
      parse_mac it
        (row_get it flattened ("bssid" ∷ "mac" ∷ "mac_address" ∷ "kismet.device.base.macaddr" ∷ []))

  abbrev pub wifi_signal : Row F → Option F
  wifi_signal flattened = parse_kismet_dbm it (
      row_get it flattened (
        "device_last_signal" ∷ "kismet.device.base.signal/kismet.common.signal.last_signal"
        ∷ "kismet.common.signal.last_signal"
        ∷ "kismet.device.base.signal.kismet.common.signal.last_signal"
        ∷ "kismet.device.base.signal.last_signal" ∷ "kismet.device.base.signal.last_signal_dbm"
        ∷ "signal_dbm" ∷ "rssi_dbm" ∷ "rssi" ∷ "signal" ∷ []))

  abbrev pub wifi_channel : Row F → Result PyError (Option ℤ)
  wifi_channel flattened =
      parse_int it (row_get it flattened ("channel" ∷ "chan" ∷ "kismet.device.base.channel" ∷ []))

  abbrev pub wifi_frequency : Row F → Result PyError (Option ℤ)
  wifi_frequency flattened = parse_kismet_frequency_hz it (
      row_get it flattened
        ("frequency_hz" ∷ "frequency" ∷ "freq" ∷ "kismet.device.base.frequency" ∷ []))

  abbrev pub wifi_packets : Row F → Result PyError (Option ℤ)
  wifi_packets flattened =
      parse_int it (
        row_get it flattened ("packet_count" ∷ "packets" ∷ "kismet.device.base.packets.total" ∷ []))

  unfoldable pub normalize_kismet_row : Fields F → D → Result PyError (WifiRow it)
  normalize_kismet_row row fallback_time = do
    let flattened = flatten_kismet_row row
    first_seen ← wifi_first_seen flattened
    last_seen ← wifi_last_seen flattened
    channel ← wifi_channel flattened
    frequency_hz ← wifi_frequency flattened
    packet_count ← wifi_packets flattened
    ok (
        wifi_row (map_zone it first_seen) (map_zone it last_seen) fallback_time
          (wifi_bssid flattened) (normalize_wifi_device_type row) (wifi_signal flattened) channel
          frequency_hz packet_count flattened)
