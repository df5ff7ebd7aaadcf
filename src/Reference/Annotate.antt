-- ===== src/Reference/Annotate.antt =====
-- The comparison of a session's devices with a reference, in services/reference_match.py.
use diploma_munka.Prelude.{
  ℕ, ◌+◌, Bool, true, false, not, ◌&&◌, Option, none, some, List, [], ◌∷◌, String, str_eq,
  if◌then◌else◌, length, is_some,
}
use diploma_munka.Prelude.Python.{PyText}
use diploma_munka.Prelude.Values.{Values, Dict, get}
use diploma_munka.Reference.Candidate.{Row, Confidence, Method, normalize, service_uuid_fingerprint}
use diploma_munka.Reference.Match.{
  MatchResult, is_matched, match_wifi_identity, match_bluetooth_identity,
}

pub data ReferenceStatus : Type 0 where
  not_compared in_reference new : ReferenceStatus

abbrev pub no_confident_match_detail : String
no_confident_match_detail = "Nem találtunk megfelelően biztos referencia-egyezést."

abbrev pub wifi_diff_fields : List String
wifi_diff_fields = "ssid" ∷ "encryption" ∷ "device_type" ∷ "channel" ∷ "frequency" ∷ "vendor" ∷ []

abbrev pub bluetooth_diff_fields : List String
bluetooth_diff_fields =
    "device_name" ∷ "vendor" ∷ "address_type" ∷ "bluetooth_type" ∷ "company_id"
    ∷ "service_uuid_fingerprint" ∷ "manufacturer_data_hash" ∷ []

module _ (py : PyText) (vs : Values) where
  open vs use {V, null, of_text, eq}

  pub record Difference : Type 0 where
    pub field : String
    pub reference_value : V
    pub current_value : V

  -- `source.get(a) if a in source else source.get(b)`
  abbrev pub get_present : Dict vs → String → String → V
  get_present source a b = if is_some (source a) then get vs source a else get vs source b

  unfoldable pub wifi_value : Dict vs → String → V
  wifi_value source field =
      if str_eq field "channel"
      then get_present source "channel" "typical_channel"
      else if str_eq field "frequency"
      then get_present source "frequency_hz" "typical_frequency_hz"
      else get vs source field

  abbrev pub text_or_null : Option String → V
  text_or_null none = null
  text_or_null (some s) = of_text s

  unfoldable pub bluetooth_value : Dict vs → String → V
  bluetooth_value source field =
      if str_eq field "company_id"
      then get vs source "bluetooth_company_id"
      else if str_eq field "service_uuid_fingerprint"
      then (if is_some (source "service_uuid_fingerprint")
          then get vs source "service_uuid_fingerprint"
          else text_or_null (service_uuid_fingerprint py vs (get vs source "service_uuids")))
      else get vs source field

  -- The loop of `wifi_differences` and `bluetooth_differences`.
  unfoldable pub differences_in :
      (Dict vs → String → V) → List String → Dict vs → Dict vs → List Difference
  differences_in value [] baseline current = []
  differences_in value (f ∷ fs) baseline current =
      let rest = differences_in value fs baseline current in
      if str_eq (normalize py vs (value baseline f)) (normalize py vs (value current f))
      then rest
      else record { field = f; reference_value = value baseline f; current_value = value current f }
        ∷ rest

  unfoldable pub differences : Bool → Dict vs → Dict vs → List Difference
  differences true = differences_in wifi_value wifi_diff_fields
  differences false = differences_in bluetooth_value bluetooth_diff_fields

  -- What the loop writes into an item.
  pub record Annotation : Type 0 where
    pub reference_status : ReferenceStatus
    pub has_differences : Bool
    pub differences : List Difference
    pub match_method : Option Method
    pub match_confidence : Option Confidence
    pub match_detail : Option String
    pub reference_values : Option (Row py vs)
    pub current_values : Option (Dict vs)

  pub record Tally : Type 0 where
    pub matched_ids : List V
    pub in_reference_count : ℕ
    pub new_count : ℕ

  abbrev pub some_difference : List Difference → Bool
  some_difference [] = false
  some_difference (d ∷ ds) = true

  unfoldable pub annotate_item : Bool → Dict vs → MatchResult py vs → Tally → Annotation × Tally
  annotate_item wifi item (some (b, method, confidence)) t =
      let found = differences wifi b.columns item in
      (
        record {
          reference_status = in_reference;
          has_differences = some_difference found;
          differences = found;
          match_method = some method;
          match_confidence = some confidence;
          match_detail = none;
          reference_values = some b;
          current_values = some item;
        },
        record {
          matched_ids = b.stable_identity ∷ t.matched_ids;
          in_reference_count = t.in_reference_count + 1;
          new_count = t.new_count;
        },
      )
  annotate_item wifi item none t = (
    record {
      reference_status = new;
      has_differences = false;
      differences = [];
      match_method = none;
      match_confidence = none;
      match_detail = if wifi then none else some no_confident_match_detail;
      reference_values = none;
      current_values = some item;
    },
    record t { new_count = t.new_count + 1 },
  )

  -- `matcher`, for `protocol == "wifi"` or else Bluetooth.
  abbrev pub matcher : Bool → Dict vs → List (Row py vs) → List V → MatchResult py vs
  matcher true = match_wifi_identity py vs
  matcher false = match_bluetooth_identity py vs

  unfoldable pub annotate_all :
      Bool → List (Row py vs) → List (Dict vs) → Tally → List Annotation × Tally
  annotate_all wifi rows [] t = ([], t)
  annotate_all wifi rows (item ∷ items) t =
      let (a, t') = annotate_item wifi item (matcher wifi item rows t.matched_ids) t in
      let (others, last) = annotate_all wifi rows items t' in (a ∷ others, last)

  -- `baseline.get("expected_state") != "ignored"`
  abbrev pub is_ignored : Row py vs → Bool
  is_ignored b = eq (get vs b.columns "expected_state") (of_text "ignored")

  unfoldable pub missing_rows : List V → List (Row py vs) → List (Row py vs)
  missing_rows matched_ids [] = []
  missing_rows matched_ids (b ∷ bs) =
      let rest = missing_rows matched_ids bs in
      if not (is_matched py vs matched_ids b) && not (is_ignored b) then b ∷ rest else rest

  -- The rows of the reference: those of the set, else those of its place, else those of its session.
  -- The lists are what the three queries return, and `ref_set` whether the set is there and has a
  -- session.
  unfoldable pub choose_rows :
      List (Row py vs) → Option Bool → List (Row py vs) → List (Row py vs) → List (Row py vs)
  choose_rows (b ∷ bs) ref_set by_location by_session = b ∷ bs
  choose_rows [] none by_location by_session = []
  choose_rows [] (some has_session) (b ∷ bs) by_session = b ∷ bs
  choose_rows [] (some true) [] by_session = by_session
  choose_rows [] (some false) [] by_session = []

  pub record Summary : Type 0 where
    pub in_reference_total : ℕ
    pub new_total : ℕ
    pub missing_reference_total : ℕ
    pub total_active : ℕ
    pub reference_missing : List (Row py vs)
    pub items : List Annotation

  unfoldable pub annotate_devices : Bool → List (Row py vs) → List (Dict vs) → Summary
  annotate_devices wifi rows items =
      let start : Tally = record { matched_ids = []; in_reference_count = 0; new_count = 0 } in
      let (annotated, t) = annotate_all wifi rows items start in
      let missing = missing_rows t.matched_ids rows in
      record {
        in_reference_total = t.in_reference_count;
        new_total = t.new_count;
        missing_reference_total = length missing;
        total_active = length items;
        reference_missing = missing;
        items = annotated;
      }

  abbrev pub uncompared : Annotation
  uncompared = record {
    reference_status = not_compared;
    has_differences = false;
    differences = [];
    match_method = none;
    match_confidence = none;
    match_detail = none;
    reference_values = none;
    current_values = none;
  }

  unfoldable pub uncompared_all : List (Dict vs) → List Annotation
  uncompared_all [] = []
  uncompared_all (item ∷ items) = uncompared ∷ uncompared_all items

  unfoldable pub stamp_not_compared : List (Dict vs) → Summary
  stamp_not_compared items = record {
    in_reference_total = 0;
    new_total = 0;
    missing_reference_total = 0;
    total_active = length items;
    reference_missing = [];
    items = uncompared_all items;
  }
