-- ===== src/Reference/Candidate.antt =====
-- How well a measured device fits a reference row, in services/reference_match.py.
use Prim.Native.String
use Prim.Native.Nat.{Ordering}
use diploma_munka.Prelude.{
  ℕ, Bool, true, false, not, ◌&&◌, ◌||◌, Option, none, some, List, [], ◌∷◌, String, str_eq,
  if◌then◌else◌,
}
use diploma_munka.Prelude.Python.{PyText}
use diploma_munka.Prelude.Values.{Values, Dict, get}

pub data Confidence : Type 0 where
  low medium high certain : Confidence

pub data Method : Type 0 where
  by_stable_identity by_public_mac by_manufacturer by_service_uuids by_name_vendor : Method

-- `_CONFIDENCE_RANK`
abbrev pub rank : Confidence → ℕ
rank low = 1
rank medium = 2
rank high = 3
rank certain = 4

-- `confidence in _PROMOTABLE_CONFIDENCE`
abbrev pub promotable : Confidence → Bool
promotable low = false
promotable medium = true
promotable high = true
promotable certain = true

abbrev pub is_certain : Confidence → Bool
is_certain certain = true
is_certain other = false

-- `sorted(set(...))`, one text at a time.
unfoldable pub insert_text : String → List String → List String
insert_text s [] = s ∷ []
insert_text s (t ∷ ts) =
    let later = insert_text s ts in
    elim (String.compare s t) [
      | Ordering.lt ↦ s ∷ t ∷ ts
      | Ordering.eq ↦ t ∷ ts
      | Ordering.gt ↦ t ∷ later
    ]

-- `",".join(values)`
unfoldable pub join_commas : List String → String
join_commas [] = ""
join_commas (s ∷ []) = s
join_commas (s ∷ t ∷ ts) = String.◌++◌ s (String.◌++◌ "," (join_commas (t ∷ ts)))

module _ (py : PyText) (vs : Values) where
  open py use {strip, lower, upper}
  open vs use {V, null, is_none, of_text, truthy, eq, str, elements}

  -- A row of `device_baselines`; its columns besides `stable_identity` are nullable.
  pub record Row : Type 0 where
    pub stable_identity : V
    pub columns : Dict vs

  -- `_normalize`
  unfoldable pub normalize : V → String
  normalize v = if is_none v || eq v (of_text "") then "" else lower (strip (str v))

  unfoldable pub sorted_set : List V → List String
  sorted_set [] = []
  sorted_set (v ∷ us) =
      let rest = sorted_set us in
      if truthy v then insert_text (lower (strip (str v))) rest else rest

  abbrev pub joined : List String → Option String
  joined [] = none
  joined (s ∷ ss) = some (join_commas (s ∷ ss))

  -- `_service_uuid_fingerprint`
  unfoldable pub service_uuid_fingerprint : V → Option String
  service_uuid_fingerprint service_uuids =
      if truthy service_uuids then joined (sorted_set (elements service_uuids)) else none

  -- `current.get(a) or current.get(b)`
  abbrev pub first_of : Dict vs → String → String → V
  first_of d a b = if truthy (get vs d a) then get vs d a else get vs d b

  abbrev pub same_identity : V → Row → Bool
  same_identity identity b = truthy identity && eq b.stable_identity identity

  abbrev pub mac_text : V → String
  mac_text v = upper (strip (str v))

  abbrev pub has_fixed_address : Dict vs → Bool
  has_fixed_address current =
      str_eq (normalize (get vs current "address_type")) "public"
      || str_eq (normalize (get vs current "address_type")) "static"

  abbrev pub same_mac : Dict vs → Row → Bool
  same_mac current b =
      has_fixed_address current
      && truthy (get vs current "mac")
      && truthy (get vs b.columns "mac_address")
      && str_eq (mac_text (get vs current "mac")) (mac_text (get vs b.columns "mac_address"))

  abbrev pub same_manufacturer : Dict vs → Row → Bool
  same_manufacturer current b =
      not (is_none (get vs current "bluetooth_company_id"))
      && truthy (get vs current "manufacturer_data_hash")
      && eq (get vs current "bluetooth_company_id") (get vs b.columns "bluetooth_company_id")
      && eq (get vs current "manufacturer_data_hash") (get vs b.columns "manufacturer_data_hash")

  abbrev pub same_services : Option String → Row → Bool
  same_services none b = false
  same_services (some f) b =
      not (str_eq f "") && eq (of_text f) (get vs b.columns "service_uuid_fingerprint")

  abbrev pub same_name : Dict vs → Row → Bool
  same_name current b =
      truthy (get vs current "device_name")
      && truthy (get vs current "vendor")
      && str_eq (normalize (get vs current "device_name"))
          (normalize (get vs b.columns "device_name"))
      && str_eq (normalize (get vs current "vendor")) (normalize (get vs b.columns "vendor"))

  -- `_bluetooth_match_candidate`
  unfoldable pub bluetooth_match_candidate : Dict vs → Row → Option (Method × Confidence)
  bluetooth_match_candidate current b =
      if same_identity (first_of current "stable_identity" "mac") b
      then some (by_stable_identity, certain)
      else if same_mac current b
      then some (by_public_mac, high)
      else if same_manufacturer current b
      then some (by_manufacturer, medium)
      else if same_services (service_uuid_fingerprint (get vs current "service_uuids")) b
      then some (by_service_uuids, medium)
      else if same_name current b
      then some (by_name_vendor, low)
      else none
