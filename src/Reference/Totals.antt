-- ===== src/Reference/Totals.antt =====
-- That the totals of services/reference_match.py add up: every device is counted once, and every
-- reference row is matched at most once.
use diploma_munka.Prelude.{
  ℕ, suc, ◌+◌, ◌≡◌, ◌≢◌, ◌↔◌, refl, sym, ap, ◌∙◌, inl, inr, Bool, true, false, none, some, List, [],
  ◌∷◌, ◌++◌, arith, All, Bool-cases, bool_ℕ, length,
}
use mathlib.Core.Path.{subst}
use diploma_munka.Prelude.Python.{PyText}
use diploma_munka.Prelude.Values.{Values, Dict}
use diploma_munka.Reference.Candidate.{Row}
use diploma_munka.Reference.Match.{MatchResult, is_matched}
use diploma_munka.Reference.Annotate.{
  Annotation, Tally, annotate_item, annotate_all, annotate_devices, matcher, Summary,
}
use diploma_munka.Reference.Free.{
  Distinct, taken, spared, count_in_reference, missing_rows-count, IsFreeMatch, matcher-IsFreeMatch,
}

module _ (py : PyText) (vs : Values) where
  open vs use {V, eq}

  -- Python's `==` on identities is equality.
  abbrev pub IsEquality : (V → V → Bool) → Type 0
  IsEquality same = (v w : V) → (same v w ≡ true) ↔ (v ≡ w)

  module _ (lawful : IsEquality eq) where
    differs : (v w : V) → v ≢ w → eq v w ≡ false
    differs v w n = elim (Bool-cases (eq v w)) [ inl e ↦ absurd (n ((lawful v w).0 e)) | inr e ↦ e ]

    taken_others :
        (x : V) (ms : List V) (rs : List (Row py vs))
        → All (λ r. r.stable_identity ≢ x) rs
        → taken py vs (x ∷ ms) rs ≡ taken py vs ms rs
    taken_others x ms [] h = refl
    taken_others x ms (r ∷ rs) h =
        rw (differs r.stable_identity x h.0)
          (ap (λ n. bool_ℕ (is_matched py vs ms r) + n) (taken_others x ms rs h.1))

    at_split :
        (P : Row py vs → Type 0) (before : List (Row py vs)) (b : Row py vs)
        (after : List (Row py vs))
        → All P (before ++ b ∷ after)
        → P b
    at_split P [] b after h = h.0
    at_split P (r ∷ before) b after h = at_split P before b after h.1

    taken_split :
        (ms : List V) (before : List (Row py vs)) (b : Row py vs) (after : List (Row py vs))
        → Distinct py vs (before ++ b ∷ after)
        → is_matched py vs ms b ≡ false
        → taken py vs (b.stable_identity ∷ ms) (before ++ b ∷ after)
          ≡ taken py vs ms (before ++ b ∷ after) + 1
    taken_split ms [] b after d free =
        let same : eq b.stable_identity b.stable_identity ≡ true = (lawful _ _).1 refl in
        rw (same, free) (omega (arith, taken_others b.stable_identity ms after d.0))
    taken_split ms (r ∷ before) b after d free =
        let other = at_split (λ s. s.stable_identity ≢ r.stable_identity) before b after d.0 in
        let rest = taken_split ms before b after d.1 free in
        rw (differs r.stable_identity b.stable_identity (λ e. other (sym e))) (omega (arith, rest))

    -- What holds of the totals after the devices `items`.
    record Totals (rows : List (Row py vs)) (count : ℕ) (t : Tally py vs)
        (result : List (Annotation py vs) × Tally py vs) : Type 0 where
      pub devices :
          result.1.in_reference_count + result.1.new_count
          ≡ t.in_reference_count + t.new_count + count
      pub statuses :
          result.1.in_reference_count ≡ t.in_reference_count + count_in_reference py vs result.0
      pub annotated : length result.0 ≡ count
      pub rows_taken : taken py vs result.1.matched_ids rows ≡ result.1.in_reference_count

    annotate_all-Totals :
        (wifi : Bool) (rows : List (Row py vs)) (items : List (Dict vs)) (t : Tally py vs)
        → Distinct py vs rows
        → taken py vs t.matched_ids rows ≡ t.in_reference_count
        → Totals rows (length items) t (annotate_all py vs wifi rows items t)
    unfolding annotate_all annotate_item
    annotate_all-Totals wifi rows [] t d h = record {
      devices = omega arith;
      statuses = omega arith;
      annotated = refl;
      rows_taken = h;
    }
    annotate_all-Totals wifi rows (item ∷ items) t d h =
        go (matcher py vs wifi item rows t.matched_ids)
          (matcher-IsFreeMatch py vs wifi item rows t.matched_ids)
          (λ t' h'. annotate_all-Totals wifi rows items t' d h')
      where
        after : MatchResult py vs → Annotation py vs × Tally py vs
        after r = annotate_item py vs wifi item r t

        go :
            (r : MatchResult py vs)
            → IsFreeMatch py vs t.matched_ids rows r
            → ((t' : Tally py vs)
                → taken py vs t'.matched_ids rows ≡ t'.in_reference_count
                → Totals rows (length items) t' (annotate_all py vs wifi rows items t'))
            → Totals rows (suc (length items)) t (
              (after r).0 ∷ (annotate_all py vs wifi rows items (after r).1).0,
              (annotate_all py vs wifi rows items (after r).1).1,
            )
        go none f again =
            let rest = again (after none).1 h in
            record {
              devices = omega (arith, rest.devices);
              statuses = omega (arith, rest.statuses);
              annotated = ap suc rest.annotated;
              rows_taken = rest.rows_taken;
            }
        go (some (b, m, c)) f again =
            let grown : taken py vs (b.stable_identity ∷ t.matched_ids) rows
                ≡ t.in_reference_count + 1 =
              rw f.split (
                taken_split t.matched_ids f.before b f.after (subst (Distinct py vs) f.split d)
                  f.unmatched
                ∙ ap (λ n. n + 1) (ap (taken py vs t.matched_ids) (sym f.split) ∙ h)) in
            let rest = again (after (some (b, m, c))).1 grown in
            record {
              devices = omega (arith, rest.devices);
              statuses = omega (arith, rest.statuses);
              annotated = ap suc rest.annotated;
              rows_taken = rest.rows_taken;
            }

    -- What the summary of a comparison must satisfy.
    pub record Reconciled (rows : List (Row py vs)) (count : ℕ) (s : Summary py vs) : Type 0 where
      pub devices : s.in_reference_total + s.new_total ≡ count
      pub active : s.total_active ≡ count
      pub annotated : length s.items ≡ count
      pub statuses : count_in_reference py vs s.items ≡ s.in_reference_total
      pub missing : s.missing_reference_total ≡ length s.reference_missing
      pub matched_ids : List V
      pub rows_taken : taken py vs matched_ids rows ≡ s.in_reference_total
      pub rows_covered :
          s.in_reference_total + s.missing_reference_total + spared py vs matched_ids rows
          ≡ length rows

    -- The totals of a comparison add up, for Wi-Fi and for Bluetooth: every device is annotated and
    -- counted once, as in the reference or as new; and if no two rows of the reference share an
    -- identity, as many rows are matched as devices are in the reference, and every row is matched,
    -- missing or ignored. Python's `==` on identities is taken to be equality.
    pub annotate_devices_lem :
        (wifi : Bool) (rows : List (Row py vs)) (items : List (Dict vs))
        → Distinct py vs rows
        → Reconciled rows (length items) (annotate_devices py vs wifi rows items)
    unfolding annotate_devices
    annotate_devices_lem wifi rows items d =
        let start : Tally py vs = record {
          matched_ids = [];
          in_reference_count = 0;
          new_count = 0;
        } in
        let t = annotate_all-Totals wifi rows items start d (none_taken rows) in
        let last = (annotate_all py vs wifi rows items start).1.matched_ids in
        record {
          devices = omega (arith, t.devices);
          active = refl;
          annotated = t.annotated;
          statuses = omega (arith, t.statuses);
          missing = refl;
          matched_ids = last;
          rows_taken = t.rows_taken;
          rows_covered = omega (arith, missing_rows-count py vs last rows, t.rows_taken);
        }
      where
        none_taken : (rs : List (Row py vs)) → taken py vs [] rs ≡ 0
        none_taken [] = refl
        none_taken (r ∷ rs) = omega (arith, none_taken rs)
