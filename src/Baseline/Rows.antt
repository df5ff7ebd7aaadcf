-- ===== src/Baseline/Rows.antt =====
-- The rows that a save of services/baseline.py leaves, one by one: those of the table and those of
-- the snapshot.
use diploma_munka.Prelude.{
  ℕ, ◌≡◌, refl, ◌⊎◌, inl, inr, Bool, true, false, ◌&&◌, some, List, [], ◌∷◌, String, if◌then◌else◌,
  Bool-cases,
}
use diploma_munka.Prelude.Python.{PyText}
use diploma_munka.Prelude.Values.{Values, Dict, get}
use diploma_munka.Reference.Candidate.{first_of, service_uuid_fingerprint}
use diploma_munka.Reference.Annotate.{text_or_null}
use diploma_munka.Baseline.Table.{Protocol, wifi, bluetooth, Baseline, is_at, deactivate}
use diploma_munka.Baseline.Save.{Request, confidence_of, new_row, dict_of, taken_columns, inserted}

module _ (py : PyText) (vs : Values) (sql_lower : String → String) where
  open vs use {truthy}

  -- The rows of a table after those of a place were deactivated: an active row of the place is
  -- no longer active and otherwise the same, and every other row is what it was.
  pub data AreDeactivated (l : String) (p : Protocol)
      : List (Baseline vs) → List (Baseline vs) → Type 0 where
    no_row : AreDeactivated l p [] []
    ended :
        (b : Baseline vs) (before after : List (Baseline vs))
        → is_at sql_lower l p b ≡ true
        → b.is_active ≡ true
        → AreDeactivated l p before after
        → AreDeactivated l p (b ∷ before) (record b { is_active = false } ∷ after)
    stays :
        (b : Baseline vs) (before after : List (Baseline vs))
        → (is_at sql_lower l p b ≡ false) ⊎ (b.is_active ≡ false)
        → AreDeactivated l p before after
        → AreDeactivated l p (b ∷ before) (b ∷ after)

  AreDeactivated-first :
      (l : String) (p : Protocol) (b : Baseline vs) (before after : List (Baseline vs))
      (there active : Bool)
      → is_at sql_lower l p b ≡ there
      → b.is_active ≡ active
      → AreDeactivated l p before after
      → AreDeactivated l p
          (b ∷ before)
          ((if there && active then record b { is_active = false } else b) ∷ after)
  AreDeactivated-first l p b before after true true e f rest = ended b before after e f rest
  AreDeactivated-first l p b before after true false e f rest = stays b before after (inr f) rest
  AreDeactivated-first l p b before after false active e f rest = stays b before after (inl e) rest

  pub deactivate-AreDeactivated :
      (l : String) (p : Protocol) (table : List (Baseline vs))
      → AreDeactivated l p table (deactivate sql_lower l p table)
  unfolding deactivate
  deactivate-AreDeactivated l p [] = no_row
  deactivate-AreDeactivated l p (b ∷ table) =
      AreDeactivated-first l p b table (deactivate sql_lower l p table) (is_at sql_lower l p b)
        b.is_active refl refl (deactivate-AreDeactivated l p table)

  module _ (l : String) (p : Protocol) (n : ℕ) (r : Request vs) where
    -- The column of the row has the device's value of the key.
    abbrev pub Takes : Baseline vs → Dict vs → String → String → Type 0
    Takes b device column key = b.columns column ≡ some (get vs device key)

    abbrev pub TakesShared : Baseline vs → Dict vs → Type 0
    TakesShared b device =
        Takes b device "mac_address" "mac_address"
        × Takes b device "vendor" "vendor"
        × Takes b device "typical_rssi_min_dbm" "rssi_min_dbm"
        × Takes b device "typical_rssi_max_dbm" "rssi_max_dbm"
        × Takes b device "first_seen" "first_seen"
        × Takes b device "last_seen" "last_seen"

    abbrev pub TakesOwn : Protocol → Baseline vs → Dict vs → Type 0
    TakesOwn wifi b device =
        Takes b device "device_type" "device_type"
        × Takes b device "ssid" "ssid"
        × Takes b device "encryption" "encryption"
        × Takes b device "typical_channel" "latest_channel"
        × Takes b device "typical_frequency_hz" "latest_frequency_hz"
    TakesOwn bluetooth b device =
        Takes b device "device_name" "device_name"
        × Takes b device "bluetooth_company_id" "bluetooth_company_id"
        × Takes b device "manufacturer_data_hash" "manufacturer_data_hash"
        × Takes b device "device_type" "bluetooth_type"
        × (b.columns "service_uuid_fingerprint"
            ≡ some (
                text_or_null py vs
                  (service_uuid_fingerprint py vs (get vs device "latest_service_uuids"))))

    -- The row of a device: its place, version and state, and where its columns come from.
    pub record IsRowOf (device : Dict vs) (b : Baseline vs) : Type 0 where
      pub identity : b.stable_identity ≡ first_of py vs device "stable_identity" "mac_address"
      pub located : b.location_name ≡ l
      pub of_protocol : b.protocol ≡ p
      pub numbered : b.version ≡ n
      pub active : b.is_active ≡ true
      pub expected : b.expected_state ≡ "expected"
      pub shared : TakesShared b device
      pub own : TakesOwn p b device
      pub confidence : b.columns "identity_confidence" ≡ some (confidence_of py vs device)
      pub asked :
          (b.columns "location_id" ≡ some r.location_id)
          × (b.columns "notes" ≡ some r.notes)
          × (b.columns "created_by" ≡ some r.operator)
          × (b.columns "reference_set_id" ≡ some r.reference_set_id)
          × (b.columns "source_measurement_session_id" ≡ some r.session_id)

    -- The rows of a snapshot: one for each device with an identity, in the order of the devices.
    pub data AreRowsOf : List (Dict vs) → List (Baseline vs) → Type 0 where
      no_device : AreRowsOf [] []
      skipped :
          (device : Dict vs) (devices : List (Dict vs)) (rows : List (Baseline vs))
          → truthy (first_of py vs device "stable_identity" "mac_address") ≡ false
          → AreRowsOf devices rows
          → AreRowsOf (device ∷ devices) rows
      saved :
          (device : Dict vs) (b : Baseline vs) (devices : List (Dict vs))
          (rows : List (Baseline vs))
          → truthy (first_of py vs device "stable_identity" "mac_address") ≡ true
          → IsRowOf device b
          → AreRowsOf devices rows
          → AreRowsOf (device ∷ devices) (b ∷ rows)

    new_row-shared :
        (q : Protocol) (v : vs.V) (device : Dict vs)
        → TakesShared (new_row py vs q l n r v device) device
          × TakesOwn q (new_row py vs q l n r v device) device
    unfolding new_row dict_of taken_columns
    new_row-shared wifi v device =
        ((refl, refl, refl, refl, refl, refl), (refl, refl, refl, refl, refl))
    new_row-shared bluetooth v device =
        ((refl, refl, refl, refl, refl, refl), (refl, refl, refl, refl, refl))

    new_row-IsRowOf :
        (device : Dict vs)
        → IsRowOf device
            (new_row py vs p l n r (first_of py vs device "stable_identity" "mac_address") device)
    unfolding new_row dict_of
    new_row-IsRowOf device =
        let identity = first_of py vs device "stable_identity" "mac_address" in
        record {
          identity = refl;
          located = refl;
          of_protocol = refl;
          numbered = refl;
          active = refl;
          expected = refl;
          shared = (new_row-shared p identity device).0;
          own = (new_row-shared p identity device).1;
          confidence = refl;
          asked = (refl, refl, refl, refl, refl);
        }

    pub inserted-AreRowsOf :
        (devices : List (Dict vs)) → AreRowsOf devices (inserted py vs p l n r devices)
    unfolding inserted
    inserted-AreRowsOf [] = no_device
    inserted-AreRowsOf (device ∷ devices) =
        let rest = inserted-AreRowsOf devices in
        elim (Bool-cases (truthy (first_of py vs device "stable_identity" "mac_address"))) [
          | inl e ↦ rw e (saved device _ devices _ e (new_row-IsRowOf device) rest)
          | inr e ↦ rw e (skipped device devices _ e rest)
        ]
