-- ===== src/Parsing/Normal.antt =====
-- What every normalised row of utils/parsing.py satisfies.
use mathlib.Core.Path.{subst}
use diploma_munka.Prelude.{
  ℕ, ◌≡◌, refl, ap, ◌∙◌, ◌⊎◌, inl, inr, arith, true, Option, none, some, List, String,
  if◌then◌else◌, Bool-cases,
}
use diploma_munka.Prelude.Int.{ℤ, pos, negsuc, ◌≤ℤ◌}
use diploma_munka.Prelude.Results.{Result, ok, raise, ◌>>=◌, bind_ok, ok_injective}
use diploma_munka.Ingest.Json.{Json, null, bool, int, float, str, arr, obj, Fields}
use diploma_munka.Parsing.Interpreter.{Interpreter, PyError}
use diploma_munka.Parsing.Text.{empty_text}
use diploma_munka.Parsing.Numbers.{
  parse_datetime_value, with_zone, map_zone, timestamp_seconds, datetime_of_number,
  parse_bettercap_datetime,
}
use diploma_munka.Parsing.Flatten.{flatten_kismet_row, flatten_bettercap_row}
use diploma_munka.Parsing.Identity.{
  lacks, may_change, bluetooth_identity_metadata, bluetooth_vendor_metadata,
}
use diploma_munka.Parsing.Bluetooth.{
  date_or, at_least_one, BluetoothRow, bluetooth_row, bettercap_first_seen, bettercap_last_seen,
  bettercap_services, bettercap_company, bettercap_count, kismet_first_seen, kismet_last_seen,
  kismet_services, kismet_company, kismet_count, normalize_bettercap_row,
  normalize_kismet_bluetooth_row,
}
use diploma_munka.Parsing.Company.{IsCompany, parse_bluetooth_company_id-IsCompany}

at_least_one_bound : (n : Option ℤ) → pos 1 ≤ℤ at_least_one n
unfolding at_least_one
at_least_one_bound none = omega arith
at_least_one_bound (some (pos n)) = ground arith
at_least_one_bound (some (negsuc n)) = omega arith

module _ (it : Interpreter) where
  open it use {F, D, has_zone, set_utc, from_timestamp_float, float_of_int, lt_int}

  -- `d.replace(tzinfo=timezone.utc)` and `datetime.fromtimestamp(x, tz=timezone.utc)` have a zone.
  pub record KeepsZones : Type 0 where
    pub set_utc_zone : (d : D) → has_zone (set_utc d) ≡ true
    pub from_timestamp_zone : (x : F) (d : D) → from_timestamp_float x ≡ some d → has_zone d ≡ true

  abbrev pub IsZoned : Option D → Type 0
  IsZoned d = (e : D) → d ≡ some e → has_zone e ≡ true

  -- The company of a row, if it has one, is in bounds and has decided on the vendor.
  abbrev pub IsVendor : Option ℤ → String → String → Type 0
  IsVendor none method confidence = Unit
  IsVendor (some n) method confidence =
      IsCompany n × (method ≡ "bluetooth_company_id") × (confidence ≡ "high")

  abbrev pub IsIdentity : Option String → Option String → Type 0
  IsIdentity none identity = identity ≡ none
  IsIdentity (some mac) identity = (empty_text mac ≡ true) ⊎ ((t : String) × (identity ≡ some t))

  pub record IsNormal (row : BluetoothRow it) : Type 0 where
    pub counted : pos 1 ≤ℤ row.observation_count
    pub first_zone : has_zone row.first_seen ≡ true
    pub observed_zone : has_zone row.observed_at ≡ true
    pub observed_last : row.last_seen ≡ row.observed_at
    pub company :
        IsVendor row.bluetooth_company_id row.vendor_resolution_method row.vendor_confidence
    pub identity : IsIdentity row.mac row.stable_identity

  module _ (zones : KeepsZones) where
    pub date_or-zone :
        (d : Option D) (e : D) → IsZoned d → has_zone e ≡ true → has_zone (date_or d e) ≡ true
    date_or-zone none e hd he = he
    date_or-zone (some d) e hd he = hd d refl

    pub date_or_again : (last : Option D) (e : D) → date_or last (date_or last e) ≡ date_or last e
    date_or_again none e = refl
    date_or_again (some d) e = refl

    with_zone-zone : (d : D) → has_zone (with_zone it d) ≡ true
    unfolding with_zone
    with_zone-zone d = elim (Bool-cases (has_zone d)) [
      | inl e ↦ rw e e
      | inr e ↦ rw e (zones.set_utc_zone d)
    ]

    pub map_zone-IsZoned : (d : Option D) → IsZoned (map_zone it d)
    map_zone-IsZoned none e h = absurd (cc h)
    map_zone-IsZoned (some d) e h =
        let q : with_zone it d ≡ e = cc h in subst (λ x. has_zone x ≡ true) q (with_zone-zone d)

    bind-IsZoned :
        {A : Type 0} (m : Result PyError A) (f : A → Option D) (d : Option D)
        → ((a : A) → IsZoned (f a))
        → (m >>= λ a. ok (f a)) ≡ ok d
        → IsZoned d
    bind-IsZoned (ok a) f d zoned h = subst IsZoned (ok_injective _ _ h) (zoned a)
    bind-IsZoned (raise e) f d zoned h = absurd (cc h)

    number-IsZoned : (x : F) → IsZoned (datetime_of_number it x)
    number-IsZoned x = zones.from_timestamp_zone (timestamp_seconds it x)

    bettercap_dates :
        (value : Json F) (d : Option D) → parse_bettercap_datetime it value ≡ ok d → IsZoned d
    unfolding parse_bettercap_datetime
    bettercap_dates (float x) d h = subst IsZoned (ok_injective _ _ h) (number-IsZoned x)
    bettercap_dates (int n) d h =
        bind-IsZoned (float_of_int n) (datetime_of_number it) d number-IsZoned h
    bettercap_dates (bool b) d h =
        bind-IsZoned (float_of_int (if b then pos 1 else pos 0)) (datetime_of_number it) d
          number-IsZoned h
    bettercap_dates null d h =
        bind-IsZoned (parse_datetime_value it null) (map_zone it) d map_zone-IsZoned h
    bettercap_dates (str s) d h =
        bind-IsZoned (parse_datetime_value it (str s)) (map_zone it) d map_zone-IsZoned h
    bettercap_dates (arr vs) d h =
        bind-IsZoned (parse_datetime_value it (arr vs)) (map_zone it) d map_zone-IsZoned h
    bettercap_dates (obj fs) d h =
        bind-IsZoned (parse_datetime_value it (obj fs)) (map_zone it) d map_zone-IsZoned h

    bluetooth_vendor_metadata-IsVendor :
        (vendor : Option String) (source : String) (address_type : Option String)
        (company_id : Option ℤ) (data_hash : Option String)
        → ((n : ℤ) → company_id ≡ some n → IsCompany n)
        → IsVendor
            (bluetooth_vendor_metadata it vendor source address_type company_id
              data_hash).bluetooth_company_id
            (bluetooth_vendor_metadata it vendor source address_type company_id
              data_hash).vendor_resolution_method
            (bluetooth_vendor_metadata it vendor source address_type company_id
              data_hash).vendor_confidence
    unfolding bluetooth_vendor_metadata
    bluetooth_vendor_metadata-IsVendor vendor source address_type (some n) data_hash h =
        (h n refl, refl, refl)
    bluetooth_vendor_metadata-IsVendor vendor source address_type none data_hash h =
        elim (Bool-cases (lacks vendor)) [ inl e ↦ rw e tt | inr e ↦ rw e tt ]

    bluetooth_identity_metadata-IsIdentity :
        (mac device_name address_type : Option String) (bluetooth_type : String)
        (company_id : Option ℤ) (uuids : List String) (data_hash : Option String)
        → IsIdentity mac
            (bluetooth_identity_metadata it mac device_name address_type bluetooth_type company_id
              uuids data_hash).stable_identity
    unfolding bluetooth_identity_metadata
    bluetooth_identity_metadata-IsIdentity none device_name address_type bluetooth_type company_id
          uuids data_hash =
        refl
    bluetooth_identity_metadata-IsIdentity (some mac) device_name address_type bluetooth_type
          company_id uuids data_hash =
        elim (Bool-cases (empty_text mac)) [
          | inl e ↦ inl e
          | inr e ↦ elim (Bool-cases (may_change it mac address_type)) [
            | inl f ↦ rw (e, f) (inr (_, refl))
            | inr f ↦ rw (e, f) (inr (_, refl))
          ]
        ]

    bluetooth_row-IsNormal :
        (source : String) (first_seen last_seen : Option D) (fallback_time : D)
        (services : List String) (bluetooth_type : String) (address_type vendor : Option String)
        (company_id : Option ℤ) (data_hash mac device_name : Option String) (rssi_dbm : Option F)
        (count : Option ℤ)
        → IsZoned first_seen
        → IsZoned last_seen
        → has_zone fallback_time ≡ true
        → ((n : ℤ) → company_id ≡ some n → IsCompany n)
        → IsNormal (
            bluetooth_row it source first_seen last_seen fallback_time services bluetooth_type
              address_type vendor company_id data_hash mac device_name rssi_dbm
              (at_least_one count))
    bluetooth_row-IsNormal source first_seen last_seen fallback_time services bluetooth_type
          address_type vendor company_id data_hash mac device_name rssi_dbm count first last
          fallback bounded =
        let observed =
          date_or-zone last_seen _ last (date_or-zone first_seen fallback_time first fallback) in
        record {
          counted = at_least_one_bound count;
          first_zone = date_or-zone first_seen _ first observed;
          observed_zone = observed;
          observed_last = date_or_again last_seen (date_or first_seen fallback_time);
          company =
              bluetooth_vendor_metadata-IsVendor vendor source address_type company_id data_hash
                bounded;
          identity =
              bluetooth_identity_metadata-IsIdentity mac device_name address_type bluetooth_type _
                services _;
        }

    -- A normalised Bettercap row has at least one observation, dates with a zone if the fallback has
    -- one and dates keep their zones, and was last seen when it was observed. It has an identity for
    -- an address that is not empty and none without an address. A company's number has 16 bits and
    -- makes the vendor certain.
    pub normalize_bettercap_row-IsNormal :
        (calls : ℕ) (row : Fields F) (fallback_time : D) (r : BluetoothRow it)
        → has_zone fallback_time ≡ true
        → normalize_bettercap_row it calls row fallback_time ≡ ok r
        → IsNormal r
    unfolding normalize_bettercap_row
    normalize_bettercap_row-IsNormal calls row fallback_time r fallback h =
        let flattened = flatten_bettercap_row row in
        let (first, e, h₁) = bind_ok (bettercap_first_seen it flattened) _ h in
        let (last, f, h₂) = bind_ok (bettercap_last_seen it flattened) _ h₁ in
        let (services, _, h₃) = bind_ok (bettercap_services it calls flattened) _ h₂ in
        let (company, g, h₄) = bind_ok (bettercap_company it flattened) _ h₃ in
        let (count, _, h₅) = bind_ok (bettercap_count it flattened) _ h₄ in
        subst IsNormal (ok_injective _ _ h₅) (
          bluetooth_row-IsNormal "bettercap" first last fallback_time services _ _ _ company _ _ _ _
            count (bettercap_dates _ first e) (bettercap_dates _ last f) fallback
            (λ n q. parse_bluetooth_company_id-IsCompany it _ n (g ∙ ap ok q)))

    -- The same of a normalised Bluetooth row of Kismet: its count, its dates, its identity and its
    -- company.
    pub normalize_kismet_bluetooth_row-IsNormal :
        (calls : ℕ) (row : Fields F) (fallback_time : D) (r : BluetoothRow it)
        → has_zone fallback_time ≡ true
        → normalize_kismet_bluetooth_row it calls row fallback_time ≡ ok r
        → IsNormal r
    unfolding normalize_kismet_bluetooth_row
    normalize_kismet_bluetooth_row-IsNormal calls row fallback_time r fallback h =
        let flattened = flatten_kismet_row row in
        let (first, _, h₁) = bind_ok (kismet_first_seen it flattened) _ h in
        let (last, _, h₂) = bind_ok (kismet_last_seen it flattened) _ h₁ in
        let (company, g, h₃) = bind_ok (kismet_company it flattened) _ h₂ in
        let (services, _, h₄) = bind_ok (kismet_services it calls flattened) _ h₃ in
        let (count, _, h₅) = bind_ok (kismet_count it flattened) _ h₄ in
        subst IsNormal (ok_injective _ _ h₅) (
          bluetooth_row-IsNormal "kismet" (map_zone it first) (map_zone it last) fallback_time
            services _ _ _ company _ _ _ _ count (map_zone-IsZoned first) (map_zone-IsZoned last)
            fallback (λ n q. parse_bluetooth_company_id-IsCompany it _ n (g ∙ ap ok q)))
