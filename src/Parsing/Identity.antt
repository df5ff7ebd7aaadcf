-- ===== src/Parsing/Identity.antt =====
-- The identity of a device and the origin of its vendor, in utils/parsing.py.
use Prim.Native.Char.{code}
use Prim.Native.String.{compare}
use text.Mathlib.Text.{is_le}
use diploma_munka.Prelude.{
  ◌/◌, ◌%◌, Bool, true, false, not, ◌||◌, Option, none, some, List, [], ◌∷◌, String, str_eq, ◌==◌,
  if◌then◌else◌,
}
use diploma_munka.Prelude.Int.{ℤ, pos, negsuc, eqb_ℤ}
use diploma_munka.Ingest.Json.{Json, null, int, str, arr, obj, Items, nil, item, end, field}
use diploma_munka.Parsing.Interpreter.{Interpreter}
use diploma_munka.Parsing.Text.{empty_text, contains_any}
use Prim.Native.String.{◌++◌ as append}

-- `s or t` of texts
abbrev pub text_or : Option String → String → String
text_or none t = t
text_or (some s) t = if empty_text s then t else s

-- `not s`
abbrev pub lacks : Option String → Bool
lacks none = true
lacks (some s) = empty_text s

-- `mac.split(":", 1)[0]`
unfoldable pub before_colon : String → String
before_colon String.[] = ""
before_colon (String.◌∷◌ c s) =
    let rest = before_colon s in if code c == b':' then "" else String.◌∷◌ c rest

-- `bool(n & 0b00000010)`
abbrev pub second_bit : ℤ → Bool
second_bit (pos n) = n / 2 % 2 == 1
second_bit (negsuc n) = n / 2 % 2 == 0

pub record Identity : Type 0 where
  pub stable_identity : Option String
  pub identity_confidence : String

pub record VendorMetadata : Type 0 where
  pub vendor : Option String
  pub vendor_resolution_method : String
  pub vendor_confidence : String
  pub bluetooth_company_id : Option ℤ
  pub manufacturer_data_hash : Option String

-- `sorted`, by code points
unfoldable pub insert_text : String → List String → List String
insert_text s [] = s ∷ []
insert_text s (t ∷ ts) =
    let rest = insert_text s ts in if is_le (compare s t) then s ∷ t ∷ ts else t ∷ rest

unfoldable pub sorted : List String → List String
sorted [] = []
sorted (s ∷ ss) = insert_text s (sorted ss)

unfoldable pub non_empty_texts : List String → List String
non_empty_texts [] = []
non_empty_texts (s ∷ ss) = let rest = non_empty_texts ss in if empty_text s then rest else s ∷ rest

module _ (it : Interpreter) where
  open it use {py, F, int_of_hex, dumps_sorted, sha256_hex}

  unfoldable pub mac_is_locally_administered : String → Bool
  mac_is_locally_administered mac =
      if empty_text mac
      then false
      else elim (int_of_hex (before_colon mac)) [ none ↦ false | some n ↦ second_bit n ]

  abbrev pub wifi_confidence : String → String → String
  wifi_confidence mac normalized_type =
      if str_eq normalized_type "ap"
      then if mac_is_locally_administered mac then "medium" else "high"
      else if mac_is_locally_administered mac
      then "low"
      else "medium"

  unfoldable pub wifi_identity_metadata : Option String → Option String → Identity
  wifi_identity_metadata none device_type = record {
    stable_identity = none;
    identity_confidence = "unknown";
  }
  wifi_identity_metadata (some mac) device_type =
      if empty_text mac
      then record { stable_identity = none; identity_confidence = "unknown" }
      else record {
        stable_identity = some mac;
        identity_confidence = wifi_confidence mac (py.lower (text_or device_type "unknown"));
      }

  -- What `json.dumps` is given for the identity of an address that changes.
  abbrev pub json_of_company : Option ℤ → Json F
  json_of_company none = null
  json_of_company (some n) = int n

  unfoldable pub items_of_texts : List String → Items F
  items_of_texts [] = nil
  items_of_texts (s ∷ ss) = item (str s) (items_of_texts ss)

  unfoldable pub fingerprint_parts :
      Option String → Option String → String → Option ℤ → List String → Option String → Json F
  fingerprint_parts device_name address_type bluetooth_type company_id uuids manufacturer_hash =
      obj (
        field "name" (str (text_or device_name "")) (
          field "company_id" (json_of_company company_id) (
            field "service_uuids" (arr (items_of_texts uuids)) (
              field "manufacturer_data_hash" (str (text_or manufacturer_hash "")) (
                field "address_type" (str (text_or address_type ""))
                  (field "bluetooth_type" (str bluetooth_type) end))))))

  abbrev pub has_company : Option ℤ → Bool
  has_company none = false
  has_company (some n) = not (eqb_ℤ n (pos 0))

  abbrev pub is_empty : List String → Bool
  is_empty [] = true
  is_empty (s ∷ ss) = false

  abbrev pub private_tokens : List String
  private_tokens = "random" ∷ "private" ∷ "resolvable" ∷ "non-resolvable" ∷ []

  -- A private address, or one that its first octet says was made up.
  abbrev pub may_change : String → Option String → Bool
  may_change mac address_type =
      contains_any private_tokens (py.lower (text_or address_type ""))
      || mac_is_locally_administered mac

  abbrev pub digest_of :
      Option String → Option String → String → Option ℤ → List String → Option String → String
  digest_of device_name address_type bluetooth_type company_id uuids manufacturer_hash =
      sha256_hex (
        dumps_sorted (
          fingerprint_parts device_name address_type bluetooth_type company_id uuids
            manufacturer_hash))

  abbrev pub fingerprint_confidence : Option ℤ → List String → Option String → String
  fingerprint_confidence company_id uuids manufacturer_hash =
      if has_company company_id || not (lacks manufacturer_hash) || not (is_empty uuids)
      then "low"
      else "unknown"

  unfoldable pub bluetooth_identity_metadata :
      Option String
      → Option String
      → Option String
      → String
      → Option ℤ
      → List String
      → Option String
      → Identity
  bluetooth_identity_metadata none device_name address_type bluetooth_type company_id service_uuids
        manufacturer_hash =
      record { stable_identity = none; identity_confidence = "unknown" }
  bluetooth_identity_metadata (some mac) device_name address_type bluetooth_type company_id
        service_uuids manufacturer_hash =
      let uuids = sorted (non_empty_texts service_uuids) in
      if empty_text mac
      then record { stable_identity = none; identity_confidence = "unknown" }
      else if may_change mac address_type
      then record {
        stable_identity = some (
            append "blefp:" (
              digest_of device_name address_type bluetooth_type company_id uuids
                manufacturer_hash));
        identity_confidence = fingerprint_confidence company_id uuids manufacturer_hash;
      }
      else record { stable_identity = some mac; identity_confidence = "high" }

  abbrev pub vendor_confidence_of : Option String → String
  vendor_confidence_of address_type =
      if contains_any ("random" ∷ "private" ∷ "resolvable" ∷ [])
        (py.lower (text_or address_type ""))
      then "low"
      else "medium"

  unfoldable pub bluetooth_vendor_metadata :
      Option String → String → Option String → Option ℤ → Option String → VendorMetadata
  bluetooth_vendor_metadata vendor source address_type (some company_id) manufacturer_hash =
      record {
        vendor = vendor;
        vendor_resolution_method = "bluetooth_company_id";
        vendor_confidence = "high";
        bluetooth_company_id = some company_id;
        manufacturer_data_hash = manufacturer_hash;
      }
  bluetooth_vendor_metadata vendor source address_type none manufacturer_hash =
      if lacks vendor
      then record {
        vendor = none;
        vendor_resolution_method = "unknown";
        vendor_confidence = "unknown";
        bluetooth_company_id = none;
        manufacturer_data_hash = manufacturer_hash;
      }
      else record {
        vendor = vendor;
        vendor_resolution_method = source;
        vendor_confidence = vendor_confidence_of address_type;
        bluetooth_company_id = none;
        manufacturer_data_hash = manufacturer_hash;
      }
