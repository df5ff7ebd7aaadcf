-- ===== src/Parsing/Alerts.antt =====
-- The management frame types and the alerts of Kismet, in utils/parsing.py.
use Prim.Native.String.{◌++◌ as append}
use diploma_munka.Prelude.{false, Option, none, some, List, [], ◌∷◌, String, str_eq, if◌then◌else◌}
use diploma_munka.Prelude.Int.{ℤ, pos, eqb_ℤ}
use diploma_munka.Prelude.Results.{Result, ok, ◌>>=◌}
use diploma_munka.Ingest.Json.{Json, Fields, str, int}
use diploma_munka.Parsing.Interpreter.{Interpreter, PyError}
use diploma_munka.Parsing.Text.{is_one_of, underscored, strip_underscore}
use diploma_munka.Parsing.Rows.{Row, row_get, or_else}
use diploma_munka.Parsing.Numbers.{
  parse_int, parse_datetime_value, with_zone, kismet_text, parse_kismet_dbm,
  parse_kismet_frequency_hz,
}
use diploma_munka.Parsing.Mac.{parse_mac}
use diploma_munka.Parsing.Flatten.{flatten_kismet_row}
use diploma_munka.Parsing.Identity.{text_or}
use diploma_munka.Parsing.Bluetooth.{date_or}

-- `WIFI_MANAGEMENT_FRAME_TYPES`
abbrev pub wifi_management_frame_types : List String
wifi_management_frame_types =
    "beacon" ∷ "probe_request" ∷ "probe_response" ∷ "authentication" ∷ "association_request"
    ∷ "association_response" ∷ "reassociation" ∷ "disassociation" ∷ "deauthentication" ∷ "action"
    ∷ []

-- `_MANAGEMENT_FRAME_TYPE_("beacon", "beacon") ∷ ("probe_req", "probe_request") ∷ ("probereq", "probe_request") ∷ ("probe_request", "probe_request") ∷ ("probe-request", "probe_request") ∷ ("probe_resp", "probe_response") ∷ ("proberesp", "probe_response") ∷ ("probe_response", "probe_response") ∷ ("probe-response", "probe_response") ∷ ("auth", "authentication") ∷ ("authentication", "authentication") ∷ ("assoc_req", "association_request") ∷ ("assocreq", "association_request") ∷ ("association_request", "association_request") ∷ ("association-request", "association_request") ∷ ("assoc_resp", "association_response") ∷ ("assocresp", "association_response") ∷ ("association_response", "association_response") ∷ ("association-response", "association_response") ∷ ("reassoc", "reassociation") ∷ ("reassociation", "reassociation") ∷ ("reassociation_request", "reassociation") ∷ ("reassociation_response", "reassociation") ∷ ("disassoc", "disassociation") ∷ ("disassociation", "disassociation") ∷ ("deauth", "deauthentication") ∷ ("deauthentication", "deauthentication") ∷ ("deauthflood", "deauthentication") ∷ ("bcastdiscon", "disassociation") ∷ ("disassoctraffic", "disassociation") ∷ ("action", "action") ∷ []`
abbrev pub management_frame_type_aliases : List (String × String)
management_frame_type_aliases =
    ("beacon", "beacon")
    ∷ ("probe_req", "probe_request")
    ∷ ("probereq", "probe_request")
    ∷ ("probe_request", "probe_request")
    ∷ ("probe-request", "probe_request")
    ∷ ("probe_resp", "probe_response")
    ∷ ("proberesp", "probe_response")
    ∷ ("probe_response", "probe_response")
    ∷ ("probe-response", "probe_response")
    ∷ ("auth", "authentication")
    ∷ ("authentication", "authentication")
    ∷ ("assoc_req", "association_request")
    ∷ ("assocreq", "association_request")
    ∷ ("association_request", "association_request")
    ∷ ("association-request", "association_request")
    ∷ ("assoc_resp", "association_response")
    ∷ ("assocresp", "association_response")
    ∷ ("association_response", "association_response")
    ∷ ("association-response", "association_response")
    ∷ ("reassoc", "reassociation")
    ∷ ("reassociation", "reassociation")
    ∷ ("reassociation_request", "reassociation")
    ∷ ("reassociation_response", "reassociation")
    ∷ ("disassoc", "disassociation")
    ∷ ("disassociation", "disassociation")
    ∷ ("deauth", "deauthentication")
    ∷ ("deauthentication", "deauthentication")
    ∷ ("deauthflood", "deauthentication")
    ∷ ("bcastdiscon", "disassociation")
    ∷ ("disassoctraffic", "disassociation")
    ∷ ("action", "action")
    ∷ []

unfoldable pub find_alias : String → List (String × String) → Option String
find_alias key [] = none
find_alias key ((k, v) ∷ aliases) =
    let rest = find_alias key aliases in if str_eq k key then some v else rest

pub record AlertRow (it : Interpreter) : Type 0 where
  pub observed_at : it.D
  pub alert_type : String
  pub severity : String
  pub message : String
  pub suspected_transmitter_mac : Option String
  pub destination_mac : Option String
  pub bssid : Option String
  pub ssid : Option String
  pub frame_type : Option String
  pub reason_code : Option ℤ
  pub channel : Option ℤ
  pub frequency_hz : Option ℤ
  pub rssi_dbm : Option it.F
  pub confidence : String
  pub event_count : Option ℤ
  pub deduplication_key : String

-- `":".join(parts)`
unfoldable pub join_colons : List String → String
join_colons [] = ""
join_colons (s ∷ []) = s
join_colons (s ∷ t ∷ ss) = append s (append ":" (join_colons (t ∷ ss)))

abbrev pub severity_of : String → String
severity_of raw_severity =
    if is_one_of ("critical" ∷ "crit" ∷ "5" ∷ []) raw_severity
    then "critical"
    else if is_one_of ("error" ∷ "err" ∷ "high" ∷ "4" ∷ []) raw_severity
    then "error"
    else if is_one_of ("warning" ∷ "warn" ∷ "medium" ∷ "3" ∷ "2" ∷ []) raw_severity
    then "warning"
    else "info"

module _ (it : Interpreter) where
  open it use {py, F, D, str_of}

  unfoldable pub frame_type_of : Option String → Option String
  frame_type_of none = none
  frame_type_of (some text) =
      find_alias (strip_underscore (underscored false (py.lower (py.strip text))))
        management_frame_type_aliases

  unfoldable pub normalize_wifi_management_frame_type : Json F → Option String
  normalize_wifi_management_frame_type value = frame_type_of (kismet_text it value)

  -- `str(reason_code or "")`
  abbrev pub reason_text : Option ℤ → String
  reason_text none = str_of (str "")
  reason_text (some n) = if eqb_ℤ n (pos 0) then str_of (str "") else str_of (int n)

  abbrev pub alert_row :
      D
      → String
      → String
      → String
      → Option String
      → Option String
      → Option String
      → Option String
      → Option ℤ
      → Option ℤ
      → Option ℤ
      → Option ℤ
      → Row F
      → AlertRow it
  alert_row observed_at severity alert_type message source_mac destination_mac bssid frame_type
        reason_code channel frequency_hz event_count flattened =
      record {
        observed_at = observed_at;
        alert_type = alert_type;
        severity = severity;
        message = message;
        suspected_transmitter_mac = source_mac;
        destination_mac = destination_mac;
        bssid = bssid;
        ssid =
            kismet_text it (row_get it flattened ("ssid" ∷ "network" ∷ "kismet.alert.ssid" ∷ []));
        frame_type = frame_type;
        reason_code = reason_code;
        channel = channel;
        frequency_hz = frequency_hz;
        rssi_dbm =
            parse_kismet_dbm it
              (row_get it flattened ("rssi_dbm" ∷ "signal_dbm" ∷ "signal" ∷ "rssi" ∷ []));
        confidence =
            text_or
              (kismet_text it
                (row_get it flattened ("confidence" ∷ "kismet.alert.confidence" ∷ [])))
              "low";
        event_count = event_count;
        deduplication_key = join_colons (
            "kismet_alert"
            ∷ alert_type
            ∷ text_or source_mac ""
            ∷ text_or destination_mac ""
            ∷ text_or bssid ""
            ∷ text_or frame_type ""
            ∷ reason_text reason_code
            ∷ []);
      }

  unfoldable pub normalize_kismet_alert_row : Fields F → D → Result PyError (AlertRow it)
  normalize_kismet_alert_row row fallback_time = do
    let flattened = flatten_kismet_row row
    seen ← parse_datetime_value it (
        row_get it flattened (
          "timestamp" ∷ "time" ∷ "first_time" ∷ "last_time" ∷ "kismet.alert.timestamp"
          ∷ "kismet.alert.time" ∷ "kismet.alert.last_time" ∷ []))
    reason_code ← parse_int it (row_get it flattened ("reason_code" ∷ "reason" ∷ []))
    channel ← parse_int it (row_get it flattened ("channel" ∷ "chan" ∷ []))
    frequency_hz ←
        parse_kismet_frequency_hz it
          (row_get it flattened ("frequency_hz" ∷ "frequency" ∷ "freq" ∷ []))
    event_count ←
        parse_int it (row_get it flattened ("count" ∷ "event_count" ∷ "kismet.alert.count" ∷ []))
    let alert_type =
        text_or
          (kismet_text it (
            row_get it flattened (
              "alert_type" ∷ "type" ∷ "class" ∷ "code" ∷ "kismet.alert.class" ∷ "kismet.alert.alert"
              ∷ [])))
          "kismet_alert"
    ok (
        alert_row (with_zone it (date_or seen fallback_time))
          (severity_of (
            py.lower (
              str_of (
                or_else it
                  (row_get it flattened ("severity" ∷ "priority" ∷ "kismet.alert.severity" ∷ []))
                  (str "")))))
          alert_type
          (text_or
            (kismet_text it (
              row_get it flattened (
                "message" ∷ "description" ∷ "text" ∷ "kismet.alert.text" ∷ "kismet.alert.message"
                ∷ [])))
            alert_type)
          (parse_mac it (
            row_get it flattened
              ("source_mac" ∷ "src_mac" ∷ "transmitter_mac" ∷ "kismet.alert.source_mac" ∷ [])))
          (parse_mac it (
            row_get it flattened
              ("destination_mac" ∷ "dst_mac" ∷ "victim_mac" ∷ "kismet.alert.dest_mac" ∷ [])))
          (parse_mac it (row_get it flattened ("bssid" ∷ "kismet.alert.bssid" ∷ [])))
          (kismet_text it
            (row_get it flattened ("frame_type" ∷ "management_frame_type" ∷ "subtype" ∷ [])))
          reason_code channel frequency_hz event_count flattened)
