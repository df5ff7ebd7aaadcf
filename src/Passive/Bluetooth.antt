-- ===== src/Passive/Bluetooth.antt =====
-- `detect_bluetooth_anomalies` of services/anomaly/passive.py.
use diploma_munka.Prelude.{
  ℕ, Bool, true, false, not, ◌&&◌, ◌||◌, none, some, List, [], ◌∷◌, ◌++◌, String, str_eq, any,
  length, if◌then◌else◌,
}
use diploma_munka.Prelude.Int.{ℤ, pos, leb_ℤ}
use diploma_munka.Prelude.Python.{PyText}
use diploma_munka.Prelude.Floats.{Floats}
use diploma_munka.Prelude.Values.{Values, Dict, get}
use diploma_munka.Prelude.Results.{Result, ok, raise, ◌>>=◌}
use diploma_munka.Parsing.Interpreter.{PyError, value_error}
use diploma_munka.Parsing.Identity.{sorted}
use diploma_munka.Passive.Rules.{
  Evidence, text, texts, number, count, integer, Detection, is_in, add_to_set, is_empty_set,
  is_no_text, value_or, norm, location_of, set_of, only, locations_of, alert, when, rssis_of,
  check_rssi,
}

module _ (py : PyText) (vs : Values) (fl : Floats) (to_float : vs.V → Result PyError fl.F) where
  open vs use {V, of_text, of_int, truthy, eq, str, to_int, elements}
  open fl use {F}

  abbrev pub mac_of : Dict vs → String
  mac_of row =
      norm py vs fl to_float
        (value_or py vs fl to_float (get vs row "mac_address") (get vs row "mac"))

  abbrev pub same_place : Dict vs → Dict vs → Bool
  same_place current row =
      str_eq (location_of py vs fl to_float row) (location_of py vs fl to_float current)

  abbrev pub same_device : Dict vs → Dict vs → Bool
  same_device current row = str_eq (mac_of row) (mac_of current)

  abbrev pub alarm : String → String → ℕ → List (String × Evidence V F) → Detection V F
  alarm class_name severity confidence evidence =
      alert py vs fl to_float "bluetooth" class_name severity confidence evidence

  unfoldable pub new_ble_device : Dict vs → List (Dict vs) → List (Detection V F)
  new_ble_device current rows =
      when py vs fl to_float
        (not (is_no_text (mac_of current))
          && not (any (same_device current) (only py vs fl to_float (same_place current) rows)))
        (alarm "new_ble_device" "low" 78 (
          ("mac", text (mac_of current))
          ∷ ("location", text (location_of py vs fl to_float current))
          ∷ []))

  -- `row.get("service_uuids") or ([row.get("service_uuid")] if row.get("service_uuid") else [])`
  unfoldable pub services_of : Dict vs → List V
  services_of row =
      if truthy (get vs row "service_uuids")
      then elements (get vs row "service_uuids")
      else if truthy (get vs row "service_uuid")
      then get vs row "service_uuid" ∷ []
      else []

  unfoldable pub all_services : List (Dict vs) → List V
  all_services [] = []
  all_services (row ∷ rows) = services_of row ++ all_services rows

  abbrev pub is_known_service : List V → V → Bool
  is_known_service before v = any (λ w. eq w v) before

  -- `new_services`
  unfoldable pub news_of : List V → List V → List String
  news_of before [] = []
  news_of before (v ∷ now) =
      let rest = news_of before now in
      if truthy v && not (is_known_service before v) then add_to_set (str v) rest else rest

  abbrev pub lacks_services : List V → Bool
  lacks_services [] = true
  lacks_services (v ∷ before) = false

  unfoldable pub new_service_uuid : Dict vs → List (Dict vs) → List (Detection V F)
  new_service_uuid current rows =
      let before = all_services (only py vs fl to_float (same_device current) rows) in
      let news = news_of before (services_of current) in
      when py vs fl to_float (not (lacks_services before) && not (is_empty_set news))
        (alarm "new_service_uuid" "medium" 84 (("new_service_uuids", texts (sorted news)) ∷ []))

  unfoldable pub manufacturer_changed : Dict vs → List (Dict vs) → List (Detection V F)
  manufacturer_changed current rows =
      let before =
        set_of py vs fl to_float (λ row. truthy (get vs row "manufacturer_data"))
          (λ row. str (get vs row "manufacturer_data"))
          (only py vs fl to_float (same_device current) rows) in
      let now = get vs current "manufacturer_data" in
      when py vs fl to_float
        (not (is_empty_set before) && truthy now && not (is_in (str now) before))
        (alarm "manufacturer_data_changed" "medium" 80
          (("previous_count", count (length before)) ∷ ("current", text (str now)) ∷ []))

  unfoldable pub ble_locations : Dict vs → List (Dict vs) → List (Detection V F)
  ble_locations current rows =
      let before =
        locations_of py vs fl to_float (only py vs fl to_float (same_device current) rows) in
      let now = location_of py vs fl to_float current in
      when py vs fl to_float
        (not (is_empty_set before) && not (is_no_text now) && not (is_in now before))
        (alarm "ble_seen_multiple_locations" "medium" 65 (
          ("previous_locations", texts (sorted before))
          ∷ ("current_location", text now)
          ∷ ("certainty", text "cautious")
          ∷ []))

  -- `int(v)`, with its exception
  abbrev pub int_of : V → Result PyError ℤ
  int_of v = elim (to_int v) [ none ↦ raise value_error | some n ↦ ok n ]

  unfoldable pub persistent_presence : ℤ → F → List (Detection V F)
  persistent_presence observation_count duration_seconds =
      when py vs fl to_float
        (leb_ℤ (pos 100) observation_count || fl.le (fl.of_ℕ 3600) duration_seconds)
        (alarm "unusually_persistent_presence" "low" 72 (
          ("observation_count", integer observation_count)
          ∷ ("presence_duration_seconds", number duration_seconds)
          ∷ []))

  unfoldable pub detect_bluetooth_anomalies :
      Dict vs → List (Dict vs) → Result PyError (List (Detection V F))
  detect_bluetooth_anomalies current rows = do
    rssis ← rssis_of py vs fl to_float (only py vs fl to_float (same_device current) rows)
    rssi ← check_rssi py vs fl to_float "bluetooth" "ble_rssi_behavior_changed" 68 current rssis
    observation_count ←
        int_of (value_or py vs fl to_float (get vs current "observation_count") (of_int (pos 0)))
    duration_seconds ←
        to_float
          (value_or py vs fl to_float (get vs current "presence_duration_seconds") (of_int (pos 0)))
    ok (
        new_ble_device current rows
        ++ new_service_uuid current rows
        ++ manufacturer_changed current rows
        ++ rssi
        ++ ble_locations current rows
        ++ persistent_presence observation_count duration_seconds)
