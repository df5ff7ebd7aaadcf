-- ===== src/Parsing/WifiNormal.antt =====
-- What every normalised Wi-Fi row of utils/parsing.py satisfies.
use mathlib.Core.Path.{subst}
use diploma_munka.Prelude.{
  ◌≡◌, refl, inl, inr, Bool, true, false, ◌||◌, Option, none, some, List, [], ◌∷◌, String,
  if◌then◌else◌, Bool-cases,
}
use diploma_munka.Prelude.Results.{ok, bind_ok, ok_injective}
use diploma_munka.Ingest.Json.{Json, Fields}
use diploma_munka.Parsing.Interpreter.{Interpreter}
use diploma_munka.Parsing.Text.{empty_text, is_one_of, contains_any}
use diploma_munka.Parsing.Rows.{Row, row_get, truthy}
use diploma_munka.Parsing.Numbers.{map_zone, parse_float, parse_kismet_dbm}
use diploma_munka.Parsing.Mac.{Octet, canonical}
use diploma_munka.Parsing.Spelling.{AreOctets, parse_mac-octets}
use diploma_munka.Parsing.Flatten.{flatten_kismet_row}
use diploma_munka.Parsing.Identity.{wifi_identity_metadata}
use diploma_munka.Parsing.Normal.{
  KeepsZones, IsIdentity, date_or-zone, date_or_again, map_zone-IsZoned,
}
use diploma_munka.Parsing.Wifi.{
  WifiRow, has_word_ap, type_of_text, type_of_ssids, join_spaces, lower_texts, typed_values,
  normalize_wifi_device_type, wifi_first_seen, wifi_last_seen, wifi_bssid, wifi_channel,
  wifi_frequency, wifi_packets, normalize_kismet_row,
}

abbrev pub device_types : List String
device_types = "bridge/mesh" ∷ "ad-hoc" ∷ "AP" ∷ "client" ∷ "unknown" ∷ []

module _ (it : Interpreter) where
  open it use {F, D, has_zone, lt_int}

  abbrev pub IsType : String → Type 0
  IsType t = is_one_of device_types t ≡ true

  tests-IsType :
      (mesh ad_hoc access client : Bool) (t : String)
      → (if mesh
          then some "bridge/mesh"
          else if ad_hoc
          then some "ad-hoc"
          else if access
          then some "AP"
          else if client
          then some "client"
          else none)
        ≡ some t
      → IsType t
  tests-IsType true b c d t h = let e : "bridge/mesh" ≡ t = cc h in subst IsType e refl
  tests-IsType false true c d t h = let e : "ad-hoc" ≡ t = cc h in subst IsType e refl
  tests-IsType false false true d t h = let e : "AP" ≡ t = cc h in subst IsType e refl
  tests-IsType false false false true t h = let e : "client" ≡ t = cc h in subst IsType e refl
  tests-IsType false false false false t h = absurd (cc h)

  type_of_ssids-IsType : (flattened : Row F) → IsType (type_of_ssids it flattened)
  type_of_ssids-IsType flattened =
      elim (Bool-cases
        (truthy it (row_get it flattened ("dot11.device.last_beaconed_ssid" ∷ [])))) [
          | inl a ↦ rw a refl
          | inr a ↦
              elim (Bool-cases
                (truthy it (row_get it flattened ("dot11.device.last_probed_ssid" ∷ [])))) [
                  | inl b ↦ rw (a, b) refl
                  | inr b ↦ rw (a, b) refl
                ]
        ]

  type_of_text-IsType : (text t : String) → type_of_text it text ≡ some t → IsType t
  type_of_text-IsType text t h =
      tests-IsType (contains_any ("mesh" ∷ "bridge" ∷ "wds" ∷ []) text)
        (contains_any ("ad-hoc" ∷ "adhoc" ∷ "ibss" ∷ []) text)
        (contains_any ("access point" ∷ "base station" ∷ "infrastructure" ∷ []) text
          || has_word_ap it false text)
        (contains_any ("client" ∷ "station" ∷ " sta" ∷ "probe" ∷ []) text) t h

  device_or_ssids-IsType :
      (found : Option String) (flattened : Row F)
      → ((t : String) → found ≡ some t → IsType t)
      → IsType (elim found [ some t ↦ t | none ↦ type_of_ssids it flattened ])
  device_or_ssids-IsType (some t) flattened h = h t refl
  device_or_ssids-IsType none flattened h = type_of_ssids-IsType flattened

  normalize_wifi_device_type-IsType : (row : Fields F) → IsType (normalize_wifi_device_type it row)
  unfolding normalize_wifi_device_type
  normalize_wifi_device_type-IsType row =
      let flattened = flatten_kismet_row row in
      let text = join_spaces (
        lower_texts it (
          row_get it flattened (
            "device_type" ∷ "type" ∷ "role" ∷ "kismet.device.base.type"
            ∷ "kismet.device.base.basic_type_set" ∷ "dot11.device.type" ∷ "dot11.device.role"
            ∷ "dot11.device/dot11.device.type" ∷ "dot11.device/dot11.device.role" ∷ [])
          ∷ typed_values it flattened)) in
      device_or_ssids-IsType (type_of_text it text) flattened (type_of_text-IsType text)

  -- A level is below zero, if there is one.
  abbrev pub IsBelowZero : Option F → Type 0
  IsBelowZero level = (x : F) → level ≡ some x → lt_int x 0 ≡ true

  parse_kismet_dbm-IsBelowZero : (value : Json F) → IsBelowZero (parse_kismet_dbm it value)
  unfolding parse_kismet_dbm
  parse_kismet_dbm-IsBelowZero value x h = go (parse_float it value) h
    where
      go :
          (parsed : Option F)
          → elim parsed [ none ↦ none | some y ↦ if lt_int y 0 then some y else none ] ≡ some x
          → lt_int x 0 ≡ true
      go none h = absurd (cc h)
      go (some y) h = elim (Bool-cases (lt_int y 0)) [
        | inl e ↦ let q : y ≡ x = cc (h, e) in subst (λ z. lt_int z 0 ≡ true) q e
        | inr e ↦ absurd (cc (h, e))
      ]

  abbrev pub IsAddress : Option String → Type 0
  IsAddress none = Unit
  IsAddress (some mac) = (os : List Octet) × AreOctets 6 os × (canonical os ≡ mac)

  pub record IsNormalWifi (row : WifiRow it) : Type 0 where
    pub address : IsAddress row.bssid
    pub same_level : row.rssi_dbm ≡ row.signal_dbm
    pub signal : IsBelowZero row.signal_dbm
    pub noise : IsBelowZero row.noise_dbm
    pub device_type_known : IsType row.device_type
    pub identity : IsIdentity it row.bssid row.stable_identity
    pub first_zone : has_zone row.first_seen ≡ true
    pub observed_zone : has_zone row.observed_at ≡ true
    pub observed_last : row.last_seen ≡ row.observed_at

  wifi-IsIdentity :
      (mac device_type : Option String)
      → IsIdentity it mac (wifi_identity_metadata it mac device_type).stable_identity
  unfolding wifi_identity_metadata
  wifi-IsIdentity none device_type = refl
  wifi-IsIdentity (some mac) device_type = elim (Bool-cases (empty_text mac)) [
    | inl e ↦ inl e
    | inr e ↦ rw e (inr (mac, refl))
  ]

  IsAddress-found :
      (m : Option String) → ((t : String) → m ≡ some t → IsAddress (some t)) → IsAddress m
  IsAddress-found none h = tt
  IsAddress-found (some t) h = h t refl

  -- A normalised Wi-Fi row has a BSSID of six octets or none, one level as RSSI and signal that is
  -- below zero like the noise, one of five device types, an identity for a BSSID that is not empty
  -- and none without a BSSID, dates with a zone if the fallback has one and dates keep their zones,
  -- and was last seen when it was observed.
  pub normalize_kismet_row-IsNormalWifi :
      KeepsZones it
      → (row : Fields F) (fallback_time : D) (r : WifiRow it) → has_zone fallback_time ≡ true
      → normalize_kismet_row it row fallback_time ≡ ok r
      → IsNormalWifi r
  unfolding normalize_kismet_row
  normalize_kismet_row-IsNormalWifi zones row fallback_time r fallback h =
      let flattened = flatten_kismet_row row in
      let (first, _, h₁) = bind_ok (wifi_first_seen it flattened) _ h in
      let (last, _, h₂) = bind_ok (wifi_last_seen it flattened) _ h₁ in
      let (channel, _, h₃) = bind_ok (wifi_channel it flattened) _ h₂ in
      let (frequency, _, h₄) = bind_ok (wifi_frequency it flattened) _ h₃ in
      let (packets, _, h₅) = bind_ok (wifi_packets it flattened) _ h₄ in
      let observed = date_or-zone it zones (map_zone it last) _ (map_zone-IsZoned it zones last) (
        date_or-zone it zones (map_zone it first) fallback_time (map_zone-IsZoned it zones first)
          fallback) in
      subst IsNormalWifi (ok_injective _ _ h₅) (record {
        address = IsAddress-found (wifi_bssid it flattened) (λ t e. parse_mac-octets it _ t e);
        same_level = refl;
        signal = parse_kismet_dbm-IsBelowZero _;
        noise = parse_kismet_dbm-IsBelowZero _;
        device_type_known = normalize_wifi_device_type-IsType row;
        identity = wifi-IsIdentity (wifi_bssid it flattened) _;
        first_zone =
            date_or-zone it zones (map_zone it first) _ (map_zone-IsZoned it zones first) observed;
        observed_zone = observed;
        observed_last = date_or_again it zones (map_zone it last) _;
      })
