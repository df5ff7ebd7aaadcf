-- ===== src/Baseline/Refused.antt =====
-- When the calls of services/baseline.py raise an HTTPException.
use diploma_munka.Prelude.{
  ◌≡◌, refl, inl, inr, Bool, true, false, ◌||◌, Option, none, some, List, [], ◌∷◌, String, str_eq,
  if◌then◌else◌, Bool-cases,
}
use diploma_munka.Prelude.Python.{PyText}
use diploma_munka.Prelude.Values.{Values, Dict}
use diploma_munka.Prelude.Results.{Result, ok, raise, ◌>>=◌}
use diploma_munka.Baseline.Table.{
  Protocol, wifi, bluetooth, BaselineError, invalid_baseline_protocol, location_name_required,
  no_current_devices_for_location, Baseline, normalize_protocol, clean_location,
}
use diploma_munka.Baseline.Save.{Request, save_rows, save_baseline, deactivate_baseline}
use diploma_munka.Baseline.Compare.{compute_baseline_comparison}

abbrev pub error_of : {E : Type 0} {A : Type 0} → Result E A → Option E
error_of (ok a) = none
error_of (raise e) = some e

abbrev pub is_empty : {A : Type 0} → List A → Bool
is_empty [] = true
is_empty (x ∷ xs) = false

module _ (py : PyText) (vs : Values) (sql_lower : String → String) where
  -- The first complaint about a call: its protocol, its location, then the devices there, if the call
  -- needs any.
  abbrev pub refusal_of : (Protocol → String → Bool) → String → String → Option BaselineError
  refusal_of lacks_devices protocol_text location_text =
      let word = py.lower (py.strip protocol_text) in
      let protocol = if str_eq word "wifi" then wifi else bluetooth in
      let location = py.strip location_text in
      if str_eq word "wifi" || str_eq word "bluetooth"
      then if str_eq location ""
        then some location_name_required
        else if lacks_devices protocol location
        then some no_current_devices_for_location
        else none
      else some invalid_baseline_protocol

  error_of-save_rows :
      (p : Protocol) (l : String) (r : Request vs) (devices : List (Dict vs))
      (table : List (Baseline vs))
      → error_of (save_rows py vs sql_lower p l r devices table)
        ≡ (if is_empty devices then some no_current_devices_for_location else none)
  unfolding save_rows
  error_of-save_rows p l r [] table = refl
  error_of-save_rows p l r (d ∷ devices) table = refl

  -- The protocol and the location of a call, before anything else is done with them.
  error_of-start :
      {A : Type 0} (f : Protocol → String → Result BaselineError A)
      (lacks : Protocol → String → Bool) (protocol_text location_text : String)
      → ((p : Protocol) (l : String)
          → error_of (f p l) ≡ (if lacks p l then some no_current_devices_for_location else none))
      → error_of (
          normalize_protocol py protocol_text >>= λ p.
          clean_location py location_text >>= λ l. f p l)
        ≡ refusal_of lacks protocol_text location_text
  unfolding normalize_protocol clean_location
  error_of-start f lacks protocol_text location_text h =
      elim (Bool-cases (str_eq (py.strip location_text) "")) [
        | inl e ↦ elim (Bool-cases (str_eq (py.lower (py.strip protocol_text)) "wifi")) [
          | inl w ↦ rw (w, e) refl
          | inr w ↦ elim (Bool-cases (str_eq (py.lower (py.strip protocol_text)) "bluetooth")) [
            | inl b ↦ rw (w, b, e) refl
            | inr b ↦ rw (w, b) refl
          ]
        ]
        | inr e ↦ elim (Bool-cases (str_eq (py.lower (py.strip protocol_text)) "wifi")) [
          | inl w ↦ rw (w, e) (h wifi _)
          | inr w ↦ elim (Bool-cases (str_eq (py.lower (py.strip protocol_text)) "bluetooth")) [
            | inl b ↦ rw (w, b, e) (h bluetooth _)
            | inr b ↦ rw (w, b) refl
          ]
        ]
      ]

  -- Saving raises exactly the first complaint there is: an unknown protocol, an empty location or a
  -- location without devices. Deactivating and comparing raise the first of the former two.
  pub error_of-save_baseline :
      (recent : vs.V → Bool) (fetch_snapshot : Protocol → String → List (Dict vs))
      (select_rows : Protocol → String → List (Baseline vs)) (protocol_text location_text : String)
      (r : Request vs) (table : List (Baseline vs))
      → (error_of (save_baseline py vs sql_lower fetch_snapshot protocol_text location_text r table)
          ≡ refusal_of (λ p l. is_empty (fetch_snapshot p l)) protocol_text location_text)
        × (error_of (deactivate_baseline py vs sql_lower protocol_text location_text table)
            ≡ refusal_of (λ p l. false) protocol_text location_text)
        × (error_of (
              compute_baseline_comparison py vs recent select_rows fetch_snapshot protocol_text
                location_text)
            ≡ refusal_of (λ p l. false) protocol_text location_text)
  unfolding save_baseline deactivate_baseline compute_baseline_comparison
  error_of-save_baseline recent fetch_snapshot select_rows protocol_text location_text r table = (
    error_of-start _ _ protocol_text location_text
        (λ p l. error_of-save_rows p l r (fetch_snapshot p l) table),
    error_of-start _ (λ p l. false) protocol_text location_text (λ p l. refl),
    error_of-start _ (λ p l. false) protocol_text location_text (λ p l. refl),
  )
