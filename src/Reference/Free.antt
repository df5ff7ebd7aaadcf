-- ===== src/Reference/Free.antt =====
-- Which rows of a reference are still free to be matched in services/reference_match.py, and that
-- only such rows are.
use diploma_munka.Prelude.{
  ℕ, ◌+◌, ◌≡◌, ◌≢◌, refl, ap, inl, inr, Bool, true, false, not, ◌&&◌, none, some, List, [], ◌∷◌,
  ◌++◌, arith, All, Bool-cases, bool_ℕ, length,
}
use diploma_munka.Prelude.Python.{PyText}
use diploma_munka.Prelude.Values.{Values, Dict}
use diploma_munka.Reference.Candidate.{Row, first_of}
use diploma_munka.Reference.Match.{MatchResult, is_matched, find_identity, match_wifi_identity}
use diploma_munka.Reference.Best.{match_bluetooth_identity_lem, chosen, nothing}
use diploma_munka.Reference.Annotate.{
  Annotation, ReferenceStatus, not_compared, in_reference, new, matcher, missing_rows, is_ignored,
}

module _ (py : PyText) (vs : Values) where
  open vs use {V, eq}

  -- No two rows share an identity.
  abbrev pub Distinct : List (Row py vs) → Type 0
  Distinct [] = Unit
  Distinct (b ∷ bs) = All (λ r. r.stable_identity ≢ b.stable_identity) bs × Distinct bs

  -- How many rows are matched.
  abbrev pub taken : List V → List (Row py vs) → ℕ
  taken ms [] = 0
  taken ms (b ∷ bs) = bool_ℕ (is_matched py vs ms b) + taken ms bs

  -- How many rows are not matched and not missed either, being marked as ignored.
  abbrev pub spared : List V → List (Row py vs) → ℕ
  spared ms [] = 0
  spared ms (b ∷ bs) = bool_ℕ (not (is_matched py vs ms b) && is_ignored py vs b) + spared ms bs

  abbrev pub is_in_reference : ReferenceStatus → Bool
  is_in_reference in_reference = true
  is_in_reference new = false
  is_in_reference not_compared = false

  abbrev pub count_in_reference : List (Annotation py vs) → ℕ
  count_in_reference [] = 0
  count_in_reference (a ∷ others) =
      bool_ℕ (is_in_reference a.reference_status) + count_in_reference others

  pub missing_rows-count :
      (ms : List V) (rows : List (Row py vs))
      → taken ms rows + length (missing_rows py vs ms rows) + spared ms rows ≡ length rows
  unfolding missing_rows
  missing_rows-count ms [] = refl
  missing_rows-count ms (b ∷ bs) =
      let rest = missing_rows-count ms bs in
      elim (Bool-cases (is_matched py vs ms b)) [
        | inl m ↦ rw m (omega (arith, rest))
        | inr m ↦ elim (Bool-cases (is_ignored py vs b)) [
          | inl i ↦ rw (m, i) (omega (arith, rest))
          | inr i ↦ rw (m, i) (omega (arith, rest))
        ]
      ]

  -- A row of the reference that is not matched yet.
  pub record IsFree (ms : List V) (rows : List (Row py vs)) (b : Row py vs) : Type 0 where
    pub before : List (Row py vs)
    pub after : List (Row py vs)
    pub split : rows ≡ before ++ b ∷ after
    pub unmatched : is_matched py vs ms b ≡ false

  IsFree-later :
      (ms : List V) (rows : List (Row py vs)) (a b : Row py vs)
      → IsFree ms rows b
      → IsFree ms (a ∷ rows) b
  IsFree-later ms rows a b f = record {
    before = a ∷ f.before;
    after = f.after;
    split = ap (◌∷◌ a) f.split;
    unmatched = f.unmatched;
  }

  -- A match is a free row.
  abbrev pub IsFreeMatch : List V → List (Row py vs) → MatchResult py vs → Type 0
  IsFreeMatch ms rows none = Unit
  IsFreeMatch ms rows (some (b, m, c)) = IsFree ms rows b

  IsFreeMatch-later :
      (ms : List V) (rows : List (Row py vs)) (a : Row py vs) (r : MatchResult py vs)
      → IsFreeMatch ms rows r
      → IsFreeMatch ms (a ∷ rows) r
  IsFreeMatch-later ms rows a none f = tt
  IsFreeMatch-later ms rows a (some (b, m, c)) f = IsFree-later ms rows a b f

  find_identity-IsFreeMatch :
      (identity : V) (rows : List (Row py vs)) (ms : List V)
      → IsFreeMatch ms rows (find_identity py vs identity rows ms)
  unfolding find_identity
  find_identity-IsFreeMatch identity [] ms = tt
  find_identity-IsFreeMatch identity (b ∷ bs) ms =
      let rest = find_identity-IsFreeMatch identity bs ms in
      elim (Bool-cases (not (is_matched py vs ms b) && eq b.stable_identity identity)) [
        | inl e ↦ rw e (record { before = []; after = bs; split = refl; unmatched = ground arith })
        | inr e ↦ rw e (IsFreeMatch-later ms bs b (find_identity py vs identity bs ms) rest)
      ]

  match_wifi_identity-IsFreeMatch :
      (item : Dict vs) (rows : List (Row py vs)) (ms : List V)
      → IsFreeMatch ms rows (match_wifi_identity py vs item rows ms)
  unfolding match_wifi_identity
  match_wifi_identity-IsFreeMatch item rows ms =
      let identity = first_of py vs item "stable_identity" "bssid" in
      elim (Bool-cases (vs.truthy identity)) [
        | inl e ↦ rw e (find_identity-IsFreeMatch identity rows ms)
        | inr e ↦ rw e tt
      ]

  pub matcher-IsFreeMatch :
      (wifi : Bool) (item : Dict vs) (rows : List (Row py vs)) (ms : List V)
      → IsFreeMatch ms rows (matcher py vs wifi item rows ms)
  matcher-IsFreeMatch true item rows ms = match_wifi_identity-IsFreeMatch item rows ms
  matcher-IsFreeMatch false item rows ms = elim (match_bluetooth_identity_lem py vs item ms rows) [
    | chosen b m c e h l ↦
        rw e (record { before = l.before; after = l.after; split = l.split; unmatched = l.fits.1 })
    | nothing e h ↦ rw e tt
  ]
