-- ===== src/Passive/Known.antt =====
-- The Wi-Fi detector of services/anomaly/passive.py on a device that was seen before.
use mathlib.Core.Path.{subst}
use diploma_munka.Prelude.{
  ◌≡◌, sym, ap, ◌∙◌, inl, inr, Bool, true, false, not, ◌&&◌, Option, List, [], ◌++◌, append-nil,
  String, str_eq, eq_iff, Bool-cases,
}
use diploma_munka.Prelude.Int.{ℤ}
use diploma_munka.Prelude.Python.{PyText}
use diploma_munka.Prelude.Floats.{Floats}
use diploma_munka.Prelude.Values.{Values, Dict, get}
use diploma_munka.Prelude.Results.{Result, ok, bind_ok, ok_injective}
use diploma_munka.Parsing.Interpreter.{PyError}
use diploma_munka.Passive.Rules.{
  Detection, is_in, is_empty_set, is_no_text, text_of, norm, location_of, set_of, only,
  locations_of, rssis_of, check_rssi,
}
use diploma_munka.Passive.Repeated.{
  IsRow, any-IsRow, KeepsTexts, only-IsRow, is_in-set_of, only-never, when-false, norm-of_text,
  text_of-none, norm-none, last_fails, middle_fails, second_fails, first_of_three,
}
use diploma_munka.Passive.Wifi.{
  bssid_of, normed, has, ssid_of, ssid_key, same_place, same_bssid, same_ssid, is_news, new_bssid,
  previous, encryption_changed, hidden_ssid, multiple_ssids, unusual_channel, vendor_mismatch,
  multiple_locations, detect_wifi_anomalies,
}

-- A row of the history that tells of the present one the same BSSID, SSID, encryption, vendor and
-- place, whatever else it holds.
pub record IsLike (py : PyText) (vs : Values) (fl : Floats) (to_float : vs.V → Result PyError fl.F)
    (channel_of : vs.V → Option (Result PyError ℤ)) (current known : Dict vs) : Type 0 where
  pub bssid :
      bssid_of py vs fl to_float channel_of known ≡ bssid_of py vs fl to_float channel_of current
  pub ssid :
      ssid_of py vs fl to_float channel_of known ≡ ssid_of py vs fl to_float channel_of current
  pub encryption :
      normed py vs fl to_float channel_of "encryption" known
      ≡ normed py vs fl to_float channel_of "encryption" current
  pub vendor :
      normed py vs fl to_float channel_of "vendor" known
      ≡ normed py vs fl to_float channel_of "vendor" current
  pub place : location_of py vs fl to_float known ≡ location_of py vs fl to_float current

module _ (py : PyText) (vs : Values) (fl : Floats) (to_float : vs.V → Result PyError fl.F)
    (channel_of : vs.V → Option (Result PyError ℤ)) (texts : KeepsTexts py vs fl to_float)
    (current known : Dict vs) (rows : List (Dict vs)) (seen : IsRow known rows)
    (like : IsLike py vs fl to_float channel_of current known) where
  open py use {strip, casefold}
  open vs use {V, of_text, truthy}

  abbrev news : String → List String → Bool
  news now before = is_news py vs fl to_float channel_of now before

  news-blank :
      (now : String) (before : List String) → is_no_text now ≡ true → news now before ≡ false
  news-blank now before h =
      middle_fails (not (is_empty_set before)) (is_no_text now) (not (is_in now before)) h

  news-known :
      (now : String) (before : List String) → is_in now before ≡ true → news now before ≡ false
  news-known now before h =
      last_fails (not (is_empty_set before)) (not (is_no_text now)) (is_in now before) h

  news-empty :
      (now : String) (before : List String) → is_empty_set before ≡ true → news now before ≡ false
  news-empty now before h =
      first_of_three (is_empty_set before) (not (is_no_text now)) (not (is_in now before)) h

  both_true : (a b : Bool) → a ≡ true → b ≡ true → (a && b) ≡ true
  both_true true b ha hb = hb
  both_true false b ha hb = ha

  abbrev among : (Dict vs → Bool) → List (Dict vs)
  among p = only py vs fl to_float p rows

  ssid_key-normed :
      normed py vs fl to_float channel_of "ssid" known
      ≡ ssid_key py vs fl to_float channel_of current
  unfolding norm
  ssid_key-normed =
      sym (ap casefold (texts.strip_again (text_of py vs fl to_float (get vs known "ssid"))))
      ∙ sym (norm-of_text py vs fl to_float texts (ssid_of py vs fl to_float channel_of known))
      ∙ ap (λ t. norm py vs fl to_float (of_text t)) like.ssid

  -- What the known row holds is among the previous values.
  previous-is_in :
      (key : String) (p : Dict vs → Bool)
      → p known ≡ true
      → truthy (get vs known key) ≡ true
      → is_in
          (normed py vs fl to_float channel_of key known)
          (previous py vs fl to_float channel_of key p rows)
        ≡ true
  previous-is_in key p counted some_value =
      is_in-set_of py vs fl to_float (has py vs fl to_float channel_of key)
        (normed py vs fl to_float channel_of key) known (among p) some_value
        (only-IsRow py vs fl to_float p known rows counted seen)

  one_bssid : same_bssid py vs fl to_float channel_of current known ≡ true
  one_bssid = (eq_iff _ _).1 like.bssid

  no_news :
      (key : String) (p : Dict vs → Bool)
      → p known ≡ true
      → normed py vs fl to_float channel_of key known
        ≡ normed py vs fl to_float channel_of key current
      → news
          (normed py vs fl to_float channel_of key current)
          (previous py vs fl to_float channel_of key p rows)
        ≡ false
  no_news key p counted same =
      let now = normed py vs fl to_float channel_of key current in
      let before = previous py vs fl to_float channel_of key p rows in
      elim (Bool-cases (truthy (get vs known key))) [
        | inl e ↦
            news-known now before
              (subst (λ t. is_in t before ≡ true) same (previous-is_in key p counted e))
        | inr e ↦
            news-blank now before
              (ap is_no_text (sym same ∙ norm-none py vs fl to_float texts (get vs known key) e))
      ]

  new_bssid-nil : new_bssid py vs fl to_float channel_of current rows ≡ []
  unfolding new_bssid
  new_bssid-nil = when-false py vs fl to_float _ _ (
      second_fails _ _ (
        any-IsRow (same_bssid py vs fl to_float channel_of current) known
          (among (same_place py vs fl to_float channel_of current)) one_bssid
          (only-IsRow py vs fl to_float (same_place py vs fl to_float channel_of current) known rows
            ((eq_iff _ _).1 like.place) seen)))

  vendor_mismatch-nil : vendor_mismatch py vs fl to_float channel_of current rows ≡ []
  unfolding vendor_mismatch
  vendor_mismatch-nil =
      when-false py vs fl to_float _ _
        (no_news "vendor" (same_bssid py vs fl to_float channel_of current) one_bssid like.vendor)

  abbrev encryptions : List String
  encryptions =
      previous py vs fl to_float channel_of "encryption"
        (same_ssid py vs fl to_float channel_of current) rows

  -- Without an SSID no row counts as one of the same.
  encryptions-empty :
      is_no_text (ssid_of py vs fl to_float channel_of current) ≡ true
      → is_empty_set encryptions ≡ true
  unfolding set_of
  encryptions-empty e =
      ap
        (λ l. is_empty_set (
          set_of py vs fl to_float (has py vs fl to_float channel_of "encryption")
            (normed py vs fl to_float channel_of "encryption") l))
        (only-never py vs fl to_float (same_ssid py vs fl to_float channel_of current) rows (λ r.
          second_fails
            (str_eq (normed py vs fl to_float channel_of "ssid" r)
              (ssid_key py vs fl to_float channel_of current))
            (is_no_text (ssid_of py vs fl to_float channel_of current)) e))

  no_new_encryption :
      news (normed py vs fl to_float channel_of "encryption" current) encryptions ≡ false
  no_new_encryption =
      elim (Bool-cases (is_no_text (ssid_of py vs fl to_float channel_of current))) [
        | inl e ↦
            news-empty (normed py vs fl to_float channel_of "encryption" current) encryptions
              (encryptions-empty e)
        | inr e ↦
            no_news "encryption" (same_ssid py vs fl to_float channel_of current)
              (both_true
                (str_eq (normed py vs fl to_float channel_of "ssid" known)
                  (ssid_key py vs fl to_float channel_of current))
                (not (is_no_text (ssid_of py vs fl to_float channel_of current)))
                ((eq_iff _ _).1 ssid_key-normed) (ap not e))
              like.encryption
      ]

  encryption_changed-nil : encryption_changed py vs fl to_float channel_of current rows ≡ []
  unfolding encryption_changed
  encryption_changed-nil = when-false py vs fl to_float _ _ no_new_encryption

  abbrev ssids : List String
  ssids =
      previous py vs fl to_float channel_of "ssid" (same_bssid py vs fl to_float channel_of current)
        rows

  no_new_ssid :
      (not (is_no_text (ssid_of py vs fl to_float channel_of current))
        && not (is_empty_set ssids)
        && not (is_in (ssid_key py vs fl to_float channel_of current) ssids))
      ≡ false
  no_new_ssid =
      let name = ssid_of py vs fl to_float channel_of current in
      let key = ssid_key py vs fl to_float channel_of current in
      elim (Bool-cases (truthy (get vs known "ssid"))) [
        | inl e ↦ last_fails (not (is_no_text name)) (not (is_empty_set ssids)) (is_in key ssids) (
            subst (λ t. is_in t ssids ≡ true) ssid_key-normed
              (previous-is_in "ssid" (same_bssid py vs fl to_float channel_of current) one_bssid e))
        | inr e ↦
            first_of_three (is_no_text name) (not (is_empty_set ssids)) (not (is_in key ssids)) (
              ap is_no_text (
                sym like.ssid
                ∙ ap strip (text_of-none py vs fl to_float texts (get vs known "ssid") e)
                ∙ texts.strip_empty))
      ]

  multiple_ssids-nil : multiple_ssids py vs fl to_float channel_of current rows ≡ []
  unfolding multiple_ssids
  multiple_ssids-nil = when-false py vs fl to_float _ _ no_new_ssid

  abbrev places : List String
  places = locations_of py vs fl to_float (among (same_bssid py vs fl to_float channel_of current))

  no_new_place : news (location_of py vs fl to_float current) places ≡ false
  unfolding locations_of
  no_new_place =
      let now = location_of py vs fl to_float current in
      elim (Bool-cases (is_no_text now)) [
        | inl e ↦ news-blank now places e
        | inr e ↦ news-known now places (
            subst (λ t. is_in t places ≡ true) like.place
              (is_in-set_of py vs fl to_float
                (λ row. not (is_no_text (location_of py vs fl to_float row)))
                (location_of py vs fl to_float) known
                (among (same_bssid py vs fl to_float channel_of current))
                (ap (λ t. not (is_no_text t)) like.place ∙ ap not e)
                (only-IsRow py vs fl to_float (same_bssid py vs fl to_float channel_of current)
                  known rows one_bssid seen)))
      ]

  multiple_locations-nil : multiple_locations py vs fl to_float channel_of current rows ≡ []
  unfolding multiple_locations
  multiple_locations-nil = when-false py vs fl to_float _ _ no_new_place

  only_three :
      (channel rssi : List (Detection V fl.F))
      → (new_bssid py vs fl to_float channel_of current rows
          ++ encryption_changed py vs fl to_float channel_of current rows
          ++ hidden_ssid py vs fl to_float channel_of current
          ++ multiple_ssids py vs fl to_float channel_of current rows
          ++ channel
          ++ rssi
          ++ vendor_mismatch py vs fl to_float channel_of current rows
          ++ multiple_locations py vs fl to_float channel_of current rows)
        ≡ hidden_ssid py vs fl to_float channel_of current ++ channel ++ rssi
  only_three channel rssi =
      rw
        (
          new_bssid-nil,
          encryption_changed-nil,
          multiple_ssids-nil,
          vendor_mismatch-nil,
          multiple_locations-nil,
          append-nil (hidden_ssid py vs fl to_float channel_of current),
          append-nil (hidden_ssid py vs fl to_float channel_of current ++ channel ++ rssi),
        )
        (append-nil (hidden_ssid py vs fl to_float channel_of current ++ channel ++ rssi))

  -- A Wi-Fi device of which the history has a row with the same BSSID, SSID, encryption, vendor and
  -- location, whatever its level and time, is reported, if at all, for a hidden SSID, for its channel
  -- and for its level, and for nothing else. Texts are taken to behave as Python's do (`KeepsTexts`).
  pub detect_wifi_anomalies-seen :
      (found : List (Detection V fl.F))
      → detect_wifi_anomalies py vs fl to_float channel_of current rows ≡ ok found
      → (channel : List (Detection V fl.F)) × (rssis : List fl.F) × (rssi : List (Detection V fl.F))
        × (unusual_channel py vs fl to_float channel_of current ≡ ok channel)
        × (rssis_of py vs fl to_float
              (only py vs fl to_float (same_bssid py vs fl to_float channel_of current) rows)
            ≡ ok rssis)
        × (check_rssi py vs fl to_float "wifi" "rssi_behavior_changed" 72 current rssis ≡ ok rssi)
        × (found ≡ hidden_ssid py vs fl to_float channel_of current ++ channel ++ rssi)
  unfolding detect_wifi_anomalies
  detect_wifi_anomalies-seen found h =
      let (channel, e, h₁) = bind_ok (unusual_channel py vs fl to_float channel_of current) _ h in
      let (rssis, g, h₂) =
        bind_ok
          (rssis_of py vs fl to_float (among (same_bssid py vs fl to_float channel_of current))) _
          h₁ in
      let (rssi, f, h₃) =
        bind_ok (check_rssi py vs fl to_float "wifi" "rssi_behavior_changed" 72 current rssis) _
          h₂ in
      (channel, rssis, rssi, e, g, f, sym (ok_injective _ _ h₃) ∙ only_three channel rssi)
