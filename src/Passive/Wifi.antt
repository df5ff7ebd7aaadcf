-- ===== src/Passive/Wifi.antt =====
-- `detect_wifi_anomalies` of services/anomaly/passive.py.
use diploma_munka.Prelude.{
  ℕ, Bool, not, ◌&&◌, ◌||◌, Option, none, some, List, [], ◌∷◌, ◌++◌, String, str_eq, any,
}
use diploma_munka.Prelude.Int.{ℤ, pos, leb_ℤ}
use diploma_munka.Prelude.Python.{PyText}
use diploma_munka.Prelude.Floats.{Floats}
use diploma_munka.Prelude.Values.{Values, Dict, get}
use diploma_munka.Prelude.Results.{Result, ok, ◌>>=◌}
use diploma_munka.Parsing.Interpreter.{PyError}
use diploma_munka.Parsing.Identity.{sorted}
use diploma_munka.Passive.Rules.{
  Evidence, text, texts, value, Detection, is_in, is_empty_set, is_no_text, value_or, text_of, norm,
  location_of, set_of, only, locations_of, alert, when, rssis_of, check_rssi,
}

-- `set(range(1, 15)) | set(range(32, 178))`
abbrev pub is_usual_channel : ℤ → Bool
is_usual_channel n =
    (leb_ℤ (pos 1) n && leb_ℤ n (pos 14)) || (leb_ℤ (pos 32) n && leb_ℤ n (pos 177))

-- `channel_of` is `int(channel)` if the channel is a number, which may raise.
module _ (py : PyText) (vs : Values) (fl : Floats) (to_float : vs.V → Result PyError fl.F)
    (channel_of : vs.V → Option (Result PyError ℤ)) where
  open py use {strip}
  open vs use {V, of_text, truthy}
  open fl use {F}

  abbrev pub bssid_of : Dict vs → String
  bssid_of row =
      norm py vs fl to_float
        (value_or py vs fl to_float (get vs row "bssid") (get vs row "mac_address"))

  abbrev pub normed : String → Dict vs → String
  normed key row = norm py vs fl to_float (get vs row key)

  abbrev pub has : String → Dict vs → Bool
  has key row = truthy (get vs row key)

  abbrev pub ssid_of : Dict vs → String
  ssid_of row = strip (text_of py vs fl to_float (get vs row "ssid"))

  -- `_norm(ssid)` of that text
  abbrev pub ssid_key : Dict vs → String
  ssid_key row = norm py vs fl to_float (of_text (ssid_of row))

  abbrev pub same_place : Dict vs → Dict vs → Bool
  same_place current row =
      str_eq (location_of py vs fl to_float row) (location_of py vs fl to_float current)

  abbrev pub same_bssid : Dict vs → Dict vs → Bool
  same_bssid current row = str_eq (bssid_of row) (bssid_of current)

  abbrev pub same_ssid : Dict vs → Dict vs → Bool
  same_ssid current row =
      str_eq (normed "ssid" row) (ssid_key current) && not (is_no_text (ssid_of current))

  abbrev pub alarm : String → String → ℕ → List (String × Evidence V F) → Detection V F
  alarm class_name severity confidence evidence =
      alert py vs fl to_float "wifi" class_name severity confidence evidence

  -- A set and what is there now: the set is not empty and lacks it.
  abbrev pub is_news : String → List String → Bool
  is_news now before = not (is_empty_set before) && not (is_no_text now) && not (is_in now before)

  unfoldable pub new_bssid : Dict vs → List (Dict vs) → List (Detection V F)
  new_bssid current rows =
      when py vs fl to_float
        (not (is_no_text (bssid_of current))
          && not (any (same_bssid current) (only py vs fl to_float (same_place current) rows)))
        (alarm "new_bssid" "low" 85 (
          ("bssid", text (bssid_of current))
          ∷ ("ssid", text (ssid_of current))
          ∷ ("location", text (location_of py vs fl to_float current))
          ∷ []))

  abbrev pub previous : String → (Dict vs → Bool) → List (Dict vs) → List String
  previous key p rows =
      set_of py vs fl to_float (has key) (normed key) (only py vs fl to_float p rows)

  unfoldable pub encryption_changed : Dict vs → List (Dict vs) → List (Detection V F)
  encryption_changed current rows =
      let before = previous "encryption" (same_ssid current) rows in
      let now = normed "encryption" current in
      when py vs fl to_float (is_news now before) (
        alarm "ssid_encryption_changed" "high" 96 (
          ("ssid", text (ssid_of current))
          ∷ ("previous", texts (sorted before))
          ∷ ("current", text now)
          ∷ []))

  unfoldable pub hidden_ssid : Dict vs → List (Detection V F)
  hidden_ssid current =
      when py vs fl to_float (is_no_text (ssid_of current))
        (alarm "hidden_ssid" "low" 70 (("bssid", text (bssid_of current)) ∷ []))

  unfoldable pub multiple_ssids : Dict vs → List (Dict vs) → List (Detection V F)
  multiple_ssids current rows =
      let before = previous "ssid" (same_bssid current) rows in
      when py vs fl to_float
        (not (is_no_text (ssid_of current))
          && not (is_empty_set before)
          && not (is_in (ssid_key current) before))
        (alarm "bssid_multiple_ssids" "medium" 82 (
          ("bssid", text (bssid_of current))
          ∷ ("previous_ssids", texts (sorted before))
          ∷ ("current_ssid", text (ssid_of current))
          ∷ []))

  unfoldable pub unusual_channel : Dict vs → Result PyError (List (Detection V F))
  unusual_channel current = elim (channel_of (get vs current "channel")) [
    | none ↦ ok []
    | some number ↦ (do
      n ← number
      ok (
          when py vs fl to_float (not (is_usual_channel n)) (
            alarm "unusual_channel" "low" 65 (("channel", value (get vs current "channel")) ∷ []))))
  ]

  unfoldable pub vendor_mismatch : Dict vs → List (Dict vs) → List (Detection V F)
  vendor_mismatch current rows =
      let before = previous "vendor" (same_bssid current) rows in
      let now = normed "vendor" current in
      when py vs fl to_float (is_news now before) (
        alarm "vendor_property_mismatch" "low" 55 (
          ("previous", texts (sorted before))
          ∷ ("current", text now)
          ∷ ("certainty", text "weak")
          ∷ []))

  unfoldable pub multiple_locations : Dict vs → List (Dict vs) → List (Detection V F)
  multiple_locations current rows =
      let before =
        locations_of py vs fl to_float (only py vs fl to_float (same_bssid current) rows) in
      let now = location_of py vs fl to_float current in
      when py vs fl to_float (is_news now before) (
        alarm "device_seen_multiple_locations" "medium" 80
          (("previous_locations", texts (sorted before)) ∷ ("current_location", text now) ∷ []))

  unfoldable pub detect_wifi_anomalies :
      Dict vs → List (Dict vs) → Result PyError (List (Detection V F))
  detect_wifi_anomalies current rows = do
    channel ← unusual_channel current
    rssis ← rssis_of py vs fl to_float (only py vs fl to_float (same_bssid current) rows)
    rssi ← check_rssi py vs fl to_float "wifi" "rssi_behavior_changed" 72 current rssis
    ok (
        new_bssid current rows
        ++ encryption_changed current rows
        ++ hidden_ssid current
        ++ multiple_ssids current rows
        ++ channel
        ++ rssi
        ++ vendor_mismatch current rows
        ++ multiple_locations current rows)
