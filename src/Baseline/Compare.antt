-- ===== src/Baseline/Compare.antt =====
-- `compute_baseline_comparison` of services/baseline.py.
use diploma_munka.Prelude.{
  ℕ, ◌+◌, Bool, true, false, not, ◌&&◌, ◌||◌, Option, none, some, List, [], ◌∷◌, ◌++◌, String,
  str_eq, if◌then◌else◌, length, any,
}
use diploma_munka.Prelude.Python.{PyText}
use diploma_munka.Prelude.Values.{Values, Dict, get}
use diploma_munka.Prelude.Results.{Result, ok, ◌>>=◌}
use diploma_munka.Reference.Candidate.{first_of}
use diploma_munka.Baseline.Table.{
  Protocol, wifi, bluetooth, BaselineError, Baseline, normalize_protocol, clean_location,
}

pub data State : Type 0 where
  known new changed missing uncertain_match ignored : State

abbrev pub same_state : State → State → Bool
same_state known known = true
same_state new new = true
same_state changed changed = true
same_state missing missing = true
same_state uncertain_match uncertain_match = true
same_state ignored ignored = true
same_state other another = false

-- A device of the session, or a row of the baseline that no device matched.
pub record Item (vs : Values) : Type 0 where
  pub identity : vs.V
  pub status : State
  pub current_values : Option (Dict vs)
  pub reference_values : Option (Baseline vs)

-- `summary`, which counts the states of COMPARISON_STATES.
pub record Counts : Type 0 where
  pub known_count : ℕ
  pub new_count : ℕ
  pub changed_count : ℕ
  pub missing_count : ℕ
  pub uncertain_match_count : ℕ
  pub ignored_count : ℕ
  pub total_active_devices : ℕ

pub record Comparison (vs : Values) : Type 0 where
  pub protocol : Protocol
  pub location_name : String
  pub active_baseline_version : Option ℕ
  pub items : List (Item vs)
  pub missing_items : List (Item vs)
  pub summary : Counts

module _ (py : PyText) (vs : Values) where
  open py use {strip, lower}
  open vs use {V, of_text, truthy, eq, str, is_none}

  -- `baseline_by_identity`: a later row with the same identity takes the place of the earlier one.
  unfoldable pub put_row : Baseline vs → List (Baseline vs) → List (Baseline vs)
  put_row b [] = b ∷ []
  put_row b (r ∷ rows) =
      let rest = put_row b rows in
      if eq r.stable_identity b.stable_identity then b ∷ rows else r ∷ rest

  unfoldable pub index_rows : List (Baseline vs) → List (Baseline vs) → List (Baseline vs)
  index_rows [] index = index
  index_rows (b ∷ rows) index = index_rows rows (put_row b index)

  unfoldable pub find_row : V → List (Baseline vs) → Option (Baseline vs)
  find_row identity [] = none
  find_row identity (r ∷ rows) =
      let rest = find_row identity rows in if eq r.stable_identity identity then some r else rest

  -- `identity in matched_identities`
  abbrev pub is_matched : List V → V → Bool
  is_matched matched identity = any (λ m. eq m identity) matched

  -- `d.get(key) or ""`
  abbrev pub text_or_empty : Dict vs → String → V
  text_or_empty d key = if truthy (get vs d key) then get vs d key else of_text ""

  abbrev pub differs : String → Baseline vs → Dict vs → Bool
  differs key b device = not (eq (text_or_empty b.columns key) (text_or_empty device key))

  abbrev pub is_changed : Protocol → Baseline vs → Dict vs → Bool
  is_changed wifi b device = differs "ssid" b device || differs "encryption" b device
  is_changed bluetooth b device = differs "vendor" b device

  abbrev pub known_state : Protocol → Baseline vs → Dict vs → State
  known_state protocol b device =
      if str_eq b.expected_state "ignored"
      then ignored
      else if is_changed protocol b device
      then changed
      else known

  abbrev pub folded : V → String
  folded v = lower (strip (str v))

  abbrev pub is_weak : Dict vs → Bool
  is_weak device =
      eq (get vs device "identity_confidence") (of_text "low")
      || eq (get vs device "identity_confidence") (of_text "unknown")

  abbrev pub is_soft_match : Protocol → List V → Dict vs → Baseline vs → Bool
  is_soft_match protocol matched device c =
      not (is_matched matched c.stable_identity)
      && truthy (get vs device "vendor")
      && truthy (get vs c.columns "vendor")
      && str_eq (folded (get vs device "vendor")) (folded (get vs c.columns "vendor"))
      && (elim protocol [ wifi ↦ true | bluetooth ↦ is_weak device ])

  -- The item of a device and the identities that are matched after it, by what the index has.
  abbrev pub classified :
      Protocol → List (Baseline vs) → List V → Dict vs → V → Option (Baseline vs) → Item vs × List V
  classified protocol rows matched device identity (some b) = (
    record {
      identity = identity;
      status = known_state protocol b device;
      current_values = some device;
      reference_values = some b;
    },
    identity ∷ matched,
  )
  classified protocol rows matched device identity none = (
    record {
      identity = identity;
      status = if any (is_soft_match protocol matched device) rows then uncertain_match else new;
      current_values = some device;
      reference_values = none;
    },
    matched,
  )

  abbrev pub classify :
      Protocol → List (Baseline vs) → List (Baseline vs) → List V → Dict vs → Item vs × List V
  classify protocol rows index matched device =
      let identity = first_of py vs device "stable_identity" "mac_address" in
      classified protocol rows matched device identity (find_row identity index)

  unfoldable pub classify_all :
      Protocol
      → List (Baseline vs)
      → List (Baseline vs)
      → List V
      → List (Dict vs)
      → List (Item vs) × List V
  classify_all protocol rows index matched [] = ([], matched)
  classify_all protocol rows index matched (device ∷ devices) =
      let (item, matched') = classify protocol rows index matched device in
      let (items, last) = classify_all protocol rows index matched' devices in (item ∷ items, last)

  -- `recent` is `age_seconds is not None and age_seconds < grace_seconds`, of the row's `last_seen`.
  module _ (recent : V → Bool) where
    abbrev pub absent_item : State → Baseline vs → Item vs
    absent_item state b = record {
      identity = b.stable_identity;
      status = state;
      current_values = none;
      reference_values = some b;
    }

    -- The loop over `baseline_by_identity`.
    unfoldable pub missing_of : List V → List (Baseline vs) → List (Item vs)
    missing_of matched [] = []
    missing_of matched (b ∷ index) =
        let rest = missing_of matched index in
        if is_matched matched b.stable_identity
        then rest
        else if str_eq b.expected_state "ignored"
        then absent_item ignored b ∷ rest
        else if recent (get vs b.columns "last_seen")
        then rest
        else absent_item missing b ∷ rest

    unfoldable pub count_state : State → List (Item vs) → ℕ
    count_state s [] = 0
    count_state s (i ∷ items) =
        let rest = count_state s items in if same_state i.status s then rest + 1 else rest

    -- The loop over `items + missing_items`.
    abbrev pub counts_of : List (Item vs) → ℕ → Counts
    counts_of all active = record {
      known_count = count_state known all;
      new_count = count_state new all;
      changed_count = count_state changed all;
      missing_count = count_state missing all;
      uncertain_match_count = count_state uncertain_match all;
      ignored_count = count_state ignored all;
      total_active_devices = active;
    }

    abbrev pub version_of : List (Baseline vs) → Option ℕ
    version_of [] = none
    version_of (b ∷ rows) = some b.version

    unfoldable pub compare_rows :
        Protocol → String → List (Baseline vs) → List (Dict vs) → Comparison vs
    compare_rows protocol location rows current =
        let index = index_rows rows [] in
        let (items, matched) = classify_all protocol rows index [] current in
        let absent = missing_of matched index in
        record {
          protocol = protocol;
          location_name = location;
          active_baseline_version = version_of rows;
          items = items;
          missing_items = absent;
          summary = counts_of (items ++ absent) (length items);
        }

    -- `select_rows` is the query of the baseline's rows, `fetch_snapshot` that of the devices.
    unfoldable pub compute_baseline_comparison :
        (Protocol → String → List (Baseline vs))
        → (Protocol → String → List (Dict vs))
        → String
        → String
        → Result BaselineError (Comparison vs)
    compute_baseline_comparison select_rows fetch_snapshot protocol_text location_text = do
      protocol ← normalize_protocol py protocol_text
      location ← clean_location py location_text
      ok (
          compare_rows protocol location (select_rows protocol location)
            (fetch_snapshot protocol location))
