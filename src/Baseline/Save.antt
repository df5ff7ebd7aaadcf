-- ===== src/Baseline/Save.antt =====
-- `save_baseline` and `deactivate_baseline` of services/baseline.py.
use diploma_munka.Prelude.{
  ℕ, ◌+◌, true, none, some, List, [], ◌∷◌, ◌++◌, String, str_eq, if◌then◌else◌, length,
}
use diploma_munka.Prelude.Python.{PyText}
use diploma_munka.Prelude.Values.{Values, Dict, get}
use diploma_munka.Prelude.Results.{Result, ok, raise, ◌>>=◌}
use diploma_munka.Reference.Candidate.{service_uuid_fingerprint, first_of}
use diploma_munka.Reference.Annotate.{text_or_null}
use diploma_munka.Baseline.Table.{
  Protocol, wifi, bluetooth, BaselineError, no_current_devices_for_location, Baseline,
  normalize_protocol, clean_location, max_version, deactivate, count_active,
}

-- What the caller gives besides the protocol and the location.
pub record Request (vs : Values) : Type 0 where
  pub location_id : vs.V
  pub session_id : vs.V
  pub operator : vs.V
  pub notes : vs.V
  pub reference_set_id : vs.V

pub record Saved : Type 0 where
  pub protocol : Protocol
  pub location_name : String
  pub version : ℕ
  pub saved_entries : ℕ

pub record Deactivated : Type 0 where
  pub protocol : Protocol
  pub location_name : String
  pub deactivated_entries : ℕ

module _ (py : PyText) (vs : Values) where
  open vs use {V, null, of_text, truthy}

  -- The columns that take a value of the device, with its key.
  abbrev pub wifi_columns : List (String × String)
  wifi_columns =
      ("mac_address", "mac_address")
      ∷ ("vendor", "vendor")
      ∷ ("device_type", "device_type")
      ∷ ("ssid", "ssid")
      ∷ ("encryption", "encryption")
      ∷ ("typical_channel", "latest_channel")
      ∷ ("typical_frequency_hz", "latest_frequency_hz")
      ∷ ("typical_rssi_min_dbm", "rssi_min_dbm")
      ∷ ("typical_rssi_max_dbm", "rssi_max_dbm")
      ∷ ("first_seen", "first_seen")
      ∷ ("last_seen", "last_seen")
      ∷ []

  abbrev pub bluetooth_columns : List (String × String)
  bluetooth_columns =
      ("mac_address", "mac_address")
      ∷ ("device_name", "device_name")
      ∷ ("vendor", "vendor")
      ∷ ("bluetooth_company_id", "bluetooth_company_id")
      ∷ ("manufacturer_data_hash", "manufacturer_data_hash")
      ∷ ("typical_rssi_min_dbm", "rssi_min_dbm")
      ∷ ("typical_rssi_max_dbm", "rssi_max_dbm")
      ∷ ("first_seen", "first_seen")
      ∷ ("last_seen", "last_seen")
      ∷ ("device_type", "bluetooth_type")
      ∷ []

  unfoldable pub taken_columns : List (String × String) → Dict vs → List (String × V)
  taken_columns [] device = []
  taken_columns ((column, key) ∷ rest) device =
      (column, get vs device key) ∷ taken_columns rest device

  -- `device.get("identity_confidence") or "unknown"`
  abbrev pub confidence_of : Dict vs → V
  confidence_of device =
      if truthy (get vs device "identity_confidence")
      then get vs device "identity_confidence"
      else of_text "unknown"

  abbrev pub shared_columns : Request vs → Dict vs → List (String × V)
  shared_columns r device =
      ("location_id", r.location_id)
      ∷ ("identity_confidence", confidence_of device)
      ∷ ("notes", r.notes)
      ∷ ("created_by", r.operator)
      ∷ ("reference_set_id", r.reference_set_id)
      ∷ ("source_measurement_session_id", r.session_id)
      ∷ []

  abbrev pub own_columns : Protocol → Dict vs → List (String × V)
  own_columns wifi device = taken_columns wifi_columns device
  own_columns bluetooth device =
      (
        "service_uuid_fingerprint",
        text_or_null py vs (service_uuid_fingerprint py vs (get vs device "latest_service_uuids")),
      )
      ∷ taken_columns bluetooth_columns device

  -- A column that the statement does not name is null.
  unfoldable pub dict_of : List (String × V) → Dict vs
  dict_of [] key = none
  dict_of ((k, v) ∷ entries) key = if str_eq k key then some v else dict_of entries key

  -- The row that INSERT makes; `expected_state` has its default.
  unfoldable pub new_row : Protocol → String → ℕ → Request vs → V → Dict vs → Baseline vs
  new_row protocol location version r identity device = record {
    location_name = location;
    protocol = protocol;
    stable_identity = identity;
    version = version;
    is_active = true;
    expected_state = "expected";
    columns = dict_of (shared_columns r device ++ own_columns protocol device);
  }

  -- The loop over the snapshot: the rows that it inserts.
  unfoldable pub inserted : Protocol → String → ℕ → Request vs → List (Dict vs) → List (Baseline vs)
  inserted protocol location version r [] = []
  inserted protocol location version r (device ∷ devices) =
      let identity = first_of py vs device "stable_identity" "mac_address" in
      let rest = inserted protocol location version r devices in
      if truthy identity then new_row protocol location version r identity device ∷ rest else rest

  module _ (sql_lower : String → String) where
    unfoldable pub save_rows :
        Protocol
        → String
        → Request vs
        → List (Dict vs)
        → List (Baseline vs)
        → Result BaselineError (List (Baseline vs) × Saved)
    save_rows protocol location r [] table = raise no_current_devices_for_location
    save_rows protocol location r (device ∷ devices) table =
        let version = max_version sql_lower location protocol table + 1 in
        let rows = inserted protocol location version r (device ∷ devices) in
        ok (
          deactivate sql_lower location protocol table ++ rows,
          record {
            protocol = protocol;
            location_name = location;
            version = version;
            saved_entries = length rows;
          },
        )

    -- `fetch_snapshot` are the two `fetch_current_*_snapshot`, by protocol and location.
    unfoldable pub save_baseline :
        (Protocol → String → List (Dict vs))
        → String
        → String
        → Request vs
        → List (Baseline vs)
        → Result BaselineError (List (Baseline vs) × Saved)
    save_baseline fetch_snapshot protocol_text location_text r table = do
      protocol ← normalize_protocol py protocol_text
      location ← clean_location py location_text
      save_rows protocol location r (fetch_snapshot protocol location) table

    unfoldable pub deactivate_baseline :
        String
        → String
        → List (Baseline vs)
        → Result BaselineError (List (Baseline vs) × Deactivated)
    deactivate_baseline protocol_text location_text table = do
      protocol ← normalize_protocol py protocol_text
      location ← clean_location py location_text
      ok (
        deactivate sql_lower location protocol table,
        record {
          protocol = protocol;
          location_name = location;
          deactivated_entries = count_active sql_lower location protocol table;
        },
      )
