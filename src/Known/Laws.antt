-- ===== src/Known/Laws.antt =====
-- What the verdict of services/known_signals/matching.py says of a profile and a measurement.
use mathlib.Core.Path.{subst}
use diploma_munka.Prelude.{
  ℕ, ◌+◌, ◌≡◌, ◌<◌, refl, ap, if◌then◌else◌, ◌∙◌, ◌⊎◌, inl, inr, ◌↔◌, Bool, true, false, ◌&&◌, List,
  [], ◌∷◌, ◌++◌, String, arith, All, length, Bool-cases,
}
use diploma_munka.Prelude.Int.{ℤ, pos, ◌-ℤ◌, ◌≤ℤ◌, leb_ℤ, nat_abs}
use diploma_munka.Prelude.Python.{PyText}
use diploma_munka.Prelude.Values.{Values, Dict, get}
use diploma_munka.Prelude.Results.{ok, bind_ok, ok_injective}
use diploma_munka.Known.Match.{
  Verdict, checks, check_all, int_field, is_empty, frequency_entry, verdict, evaluate_at,
  evaluate_known_signal,
}
use diploma_munka.Known.Report.{
  all_agreed, all_failing, IsMet, fixed, check_all-IsMet, check_all-count, report, standings,
  check_all-standings,
}

module _ (py : PyText) (vs : Values) (profile measurement : Dict vs) where
  open py use {casefold}
  open vs use {V, is_none, truthy, eq, str, of_text, of_int, lt, le, sub, absolute, quarter}

  -- What a verdict must say, for the three frequencies that were read.
  pub record Judged (v : Verdict) : Type 0 where
    pub center : ℤ
    pub expected : ℤ
    pub tolerance : ℤ
    pub measured : int_field py vs measurement "center_frequency_hz" ≡ ok center
    pub profiled : int_field py vs profile "center_frequency_hz" ≡ ok expected
    pub tolerated : int_field py vs profile "frequency_tolerance_hz" ≡ ok tolerance
    pub delta : v.frequency_delta_hz ≡ nat_abs (center -ℤ expected)
    pub matched : (v.matched ≡ true) ↔ (
        (pos v.frequency_delta_hz ≤ℤ tolerance)
        × All (IsMet py vs profile measurement) (checks py vs tolerance))
    pub suppressed :
        (v.suppress_alert ≡ false)
        ⊎ ((v.matched ≡ true)
            × (truthy (get vs profile "suppress_alerts") ≡ true)
            × (eq (get vs profile "status") (of_text "active") ≡ true))
    pub reported :
        length v.matched_attributes + length v.mismatches
        ≡ 1 + fixed py vs profile measurement (checks py vs tolerance)
    pub agreeing :
        v.matched_attributes
        ≡ (if leb_ℤ (pos v.frequency_delta_hz) tolerance then "frequency" ∷ [] else [])
          ++ all_agreed (report py vs profile measurement tolerance)
    pub failing_ones :
        v.mismatches
        ≡ (if leb_ℤ (pos v.frequency_delta_hz) tolerance then [] else "frequency" ∷ [])
          ++ all_failing (report py vs profile measurement tolerance)

  frequency_entry-lists :
      (b : Bool)
      → frequency_entry py vs b
        ≡ ((if b then "frequency" ∷ [] else []), (if b then [] else "frequency" ∷ []))
  frequency_entry-lists true = refl
  frequency_entry-lists false = refl

  frequency_entry-met :
      (delta : ℕ) (tolerance : ℤ)
      → (is_empty py vs (frequency_entry py vs (leb_ℤ (pos delta) tolerance)).1 ≡ true)
        ↔ (pos delta ≤ℤ tolerance)
  frequency_entry-met delta tolerance = ground arith

  frequency_entry-count :
      (b : Bool) → length (frequency_entry py vs b).0 + length (frequency_entry py vs b).1 ≡ 1
  frequency_entry-count true = refl
  frequency_entry-count false = refl

  suppress_only : (a b c : Bool) → ((a && b && c) ≡ false) ⊎ ((a ≡ true) × (b ≡ true) × (c ≡ true))
  suppress_only a b c = ground arith

  judge :
      (center expected tolerance : ℤ)
      → int_field py vs measurement "center_frequency_hz" ≡ ok center
      → int_field py vs profile "center_frequency_hz" ≡ ok expected
      → int_field py vs profile "frequency_tolerance_hz" ≡ ok tolerance
      → Judged (evaluate_at py vs profile measurement center expected tolerance)
  unfolding evaluate_at verdict standings
  judge center expected tolerance m p t =
      let delta = nat_abs (center -ℤ expected) in
      let b = leb_ℤ (pos delta) tolerance in
      let met =
        check_all-IsMet py vs profile measurement (checks py vs tolerance)
          (frequency_entry py vs b) in
      let count =
        check_all-count py vs profile measurement (checks py vs tolerance)
          (frequency_entry py vs b) in
      let first = frequency_entry-met delta tolerance in
      let lists =
        ap (check_all py vs profile measurement (checks py vs tolerance)) (frequency_entry-lists b)
        ∙ check_all-standings py vs profile measurement (checks py vs tolerance)
            (if b then "frequency" ∷ [] else []) (if b then [] else "frequency" ∷ []) in
      record {
        center = center;
        expected = expected;
        tolerance = tolerance;
        measured = m;
        profiled = p;
        tolerated = t;
        delta = refl;
        matched = (λ h. (first.0 (met.0 h).0, (met.0 h).1), λ h. met.1 (first.1 h.0, h.1));
        suppressed = suppress_only _ _ _;
        reported =
            count
            ∙ ap (λ n. n + fixed py vs profile measurement (checks py vs tolerance))
                (frequency_entry-count b);
        agreeing = ap (λ (x : List String × List String). x.0) lists;
        failing_ones = ap (λ (x : List String × List String). x.1) lists;
      }

  -- Every verdict rests on three integers that were read. It matches exactly when the distance of
  -- the frequencies is within the tolerance and every attribute that the profile fixes is in the
  -- measurement and agrees, and suppresses only what matches, for an active profile that asks for
  -- it. Its two lists are the frequency and the attributes that the profile fixes, by their names
  -- and in order: those that agree, and those that differ or are missing.
  pub evaluate_known_signal_lem :
      (v : Verdict) → evaluate_known_signal py vs profile measurement ≡ ok v → Judged v
  unfolding evaluate_known_signal
  evaluate_known_signal_lem v h =
      let (center, m, h') = bind_ok (int_field py vs measurement "center_frequency_hz") _ h in
      let (expected, p, h'') = bind_ok (int_field py vs profile "center_frequency_hz") _ h' in
      let (tolerance, t, e) = bind_ok (int_field py vs profile "frequency_tolerance_hz") _ h'' in
      subst Judged (ok_injective _ _ e) (judge center expected tolerance m p t)

  -- How the three answers of a verdict hang together.
  abbrev IsConsistent : Verdict → Type 0
  IsConsistent v = v.suppress_alert ≡ (
      is_empty py vs v.mismatches
      && truthy (get vs profile "suppress_alerts")
      && eq (get vs profile "status") (of_text "active"))

  evaluate_known_signal-IsConsistent :
      (v : Verdict) → evaluate_known_signal py vs profile measurement ≡ ok v → IsConsistent v
  unfolding evaluate_known_signal evaluate_at verdict
  evaluate_known_signal-IsConsistent v h =
      let (center, m, h') = bind_ok (int_field py vs measurement "center_frequency_hz") _ h in
      let (expected, p, h'') = bind_ok (int_field py vs profile "center_frequency_hz") _ h' in
      let (tolerance, t, e) = bind_ok (int_field py vs profile "frequency_tolerance_hz") _ h'' in
      subst IsConsistent (ok_injective _ _ e) refl

  suppress_iff :
      (agreements failures : List String) (wanted active : Bool) (n : ℕ)
      → length agreements + length failures ≡ 1 + n
      → 0 < n
      → ((is_empty py vs failures && wanted && active) ≡ true)
        ↔ ((wanted ≡ true) × (active ≡ true) × (failures ≡ []) × (1 < length agreements))
  suppress_iff agreements [] wanted active n count some_fixed = elim (Bool-cases wanted) [
    | inl e ↦ elim (Bool-cases active) [
      | inl f ↦ rw (e, f) (λ h. (refl, refl, refl, omega (arith, count, some_fixed)), λ h. refl)
      | inr f ↦ rw (e, f) (λ h. absurd (cc h), λ h. absurd (cc h.1))
    ]
    | inr e ↦ rw e (λ h. absurd (cc h), λ h. absurd (cc h.0))
  ]
  suppress_iff agreements (x ∷ xs) wanted active n count some_fixed =
      (λ h. absurd (cc h), λ h. absurd (cc h.2))

  -- If the profile fixes an attribute, an alert is suppressed exactly when the profile asks for it
  -- and is active, nothing is a mismatch, and more than the frequency has been matched.
  pub suppression_rests_on_more :
      (v : Verdict)
      → evaluate_known_signal py vs profile measurement ≡ ok v
      → 0 < fixed py vs profile measurement (checks py vs (pos 0))
      → (v.suppress_alert ≡ true) ↔ (
          (truthy (get vs profile "suppress_alerts") ≡ true)
          × (eq (get vs profile "status") (of_text "active") ≡ true)
          × (v.mismatches ≡ [])
          × (1 < length v.matched_attributes))
  suppression_rests_on_more v h some_fixed =
      let j = evaluate_known_signal_lem v h in
      let exactly =
        suppress_iff v.matched_attributes v.mismatches (truthy (get vs profile "suppress_alerts"))
          (eq (get vs profile "status") (of_text "active"))
          (fixed py vs profile measurement (checks py vs j.tolerance)) j.reported some_fixed in
      rw (evaluate_known_signal-IsConsistent v h) exactly
