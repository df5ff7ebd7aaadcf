-- ===== src/Reference/Best.antt =====
-- That services/reference_match.py takes the first of the best rows of a reference.
use mathlib.Core.Path.{subst}
use diploma_munka.Prelude.{
  ℕ, ◌≤◌, ◌<◌, ◌≡◌, refl, sym, ap, inl, inr, Bool, true, false, Option, none, some, List, [], ◌∷◌,
  ◌++◌, if◌then◌else◌, arith, All, Bool-cases, Option-cases,
}
use diploma_munka.Prelude.Python.{PyText}
use diploma_munka.Prelude.Values.{Values, Dict}
use diploma_munka.Reference.Candidate.{
  Row, Confidence, Method, rank, promotable, is_certain, bluetooth_match_candidate,
}
use diploma_munka.Reference.Match.{
  MatchResult, is_matched, improves, consider, best_match, match_bluetooth_identity,
}

rank_bound : (c : Confidence) → rank c ≤ 4
rank_bound c = ground arith

promotable-rank : (c : Confidence) → promotable c ≡ true → 2 ≤ rank c
promotable-rank c h = ground arith

not_promotable-rank : (c : Confidence) → promotable c ≡ false → rank c ≤ 1
not_promotable-rank c h = ground arith

certain_rank : (c : Confidence) → is_certain c ≡ true → rank c ≡ 4
certain_rank c h = ground arith

module _ (py : PyText) (vs : Values) (current : Dict vs) (matched_ids : List vs.V) where
  abbrev pub rank_of : Option (Method × Confidence) → ℕ
  rank_of none = 0
  rank_of (some (m, c)) = rank c

  -- How well a row fits: 0 for one that is taken or does not fit, else the rank of its confidence.
  abbrev pub score : Row py vs → ℕ
  score b =
      if is_matched py vs matched_ids b
      then 0
      else rank_of (bluetooth_match_candidate py vs current b)

  abbrev pub best_rank : MatchResult py vs → ℕ
  best_rank none = 0
  best_rank (some (b, m, c)) = rank c

  -- A row that fits with the method `m` and the confidence `c`, and is not taken.
  abbrev pub Fits : Row py vs → Method → Confidence → Type 0
  Fits b m c =
      (bluetooth_match_candidate py vs current b ≡ some (m, c))
      × (is_matched py vs matched_ids b ≡ false)

  score_of_fit : (b : Row py vs) (m : Method) (c : Confidence) → Fits b m c → score b ≡ rank c
  score_of_fit b m c (e, f) = rw (f, e) refl

  score_bound : (b : Row py vs) → score b ≤ 4
  score_bound b = elim (Bool-cases (is_matched py vs matched_ids b)) [
    | inl e ↦ rw e (omega arith)
    | inr e ↦ elim (Option-cases (bluetooth_match_candidate py vs current b)) [
      | inl f ↦ rw (e, f) (omega arith)
      | inr ((m, c), f) ↦ rw (e, f) (rank_bound c)
    ]
  ]

  scores_bound : (bs : List (Row py vs)) → All (λ r. score r ≤ 4) bs
  scores_bound [] = tt
  scores_bound (b ∷ bs) = (score_bound b, scores_bound bs)

  -- One turn of the loop.
  data Turn (b : Row py vs) (best : MatchResult py vs) (result : MatchResult py vs × Bool)
      : Type 0 where
    passed : result ≡ (best, false) → score b ≤ best_rank best → Turn b best result
    took :
        (m : Method) (c : Confidence)
        → result ≡ (some (b, m, c), is_certain c)
        → Fits b m c
        → best_rank best < rank c
        → Turn b best result

  improves-rank :
      (c : Confidence) (best : MatchResult py vs)
      → improves py vs c best ≡ true
      → best_rank best < rank c
  improves-rank c best h = ground arith

  not_improves-rank :
      (c : Confidence) (best : MatchResult py vs)
      → improves py vs c best ≡ false
      → rank c ≤ best_rank best
  not_improves-rank c best h = ground arith

  consider_lem :
      (b : Row py vs) (best : MatchResult py vs)
      → Turn b best (consider py vs current matched_ids b best)
  consider_lem b best = elim (Bool-cases (is_matched py vs matched_ids b)) [
    | inl e ↦ rw e (passed refl (rw e (omega arith)))
    | inr e ↦ elim (Option-cases (bluetooth_match_candidate py vs current b)) [
      | inl f ↦ rw (e, f) (passed refl (rw (e, f) (omega arith)))
      | inr ((m, c), f) ↦ elim (Bool-cases (improves py vs c best)) [
        | inl g ↦ rw (e, f, g) (took m c refl (f, e) (improves-rank c best g))
        | inr g ↦ rw (e, f, g) (passed refl (rw (e, f) (not_improves-rank c best g)))
      ]
    ]
  ]

  -- `b` fits, beats every row before it and is not beaten by any row after it.
  pub record Leads (rows : List (Row py vs)) (b : Row py vs) (m : Method) (c : Confidence)
      : Type 0 where
    pub before : List (Row py vs)
    pub after : List (Row py vs)
    pub split : rows ≡ before ++ b ∷ after
    pub fits : Fits b m c
    pub first : All (λ r. score r < rank c) before
    pub best : All (λ r. score r ≤ rank c) after

  -- What the rest of the loop makes of the best row so far.
  data Rest (rows : List (Row py vs)) (best : MatchResult py vs) (result : MatchResult py vs)
      : Type 0 where
    kept : result ≡ best → All (λ r. score r ≤ best_rank best) rows → Rest rows best result
    replaced :
        (b : Row py vs) (m : Method) (c : Confidence)
        → result ≡ some (b, m, c)
        → Leads rows b m c
        → best_rank best < rank c
        → Rest rows best result

  Leads-later :
      (a b : Row py vs) (rows : List (Row py vs)) (m : Method) (c : Confidence)
      → score a < rank c
      → Leads rows b m c
      → Leads (a ∷ rows) b m c
  Leads-later a b rows m c h l = record {
    before = a ∷ l.before;
    after = l.after;
    split = ap (◌∷◌ a) l.split;
    fits = l.fits;
    first = (h, l.first);
    best = l.best;
  }

  Leads-now :
      (b : Row py vs) (rows : List (Row py vs)) (m : Method) (c : Confidence)
      → Fits b m c
      → All (λ r. score r ≤ rank c) rows
      → Leads (b ∷ rows) b m c
  Leads-now b rows m c f h = record {
    before = [];
    after = rows;
    split = refl;
    fits = f;
    first = tt;
    best = h;
  }

  turn :
      (b : Row py vs) (rows : List (Row py vs)) (best : MatchResult py vs)
      {result : MatchResult py vs × Bool}
      → consider py vs current matched_ids b best ≡ result
      → best_match py vs current matched_ids (b ∷ rows) best ≡ elim result.1 [
        | true ↦ result.0
        | false ↦ best_match py vs current matched_ids rows result.0
      ]
  unfolding best_match
  turn b rows best e =
      ap
        (λ (r : MatchResult py vs × Bool). elim r.1 as (λ _. MatchResult py vs) [
          | true ↦ r.0
          | false ↦ best_match py vs current matched_ids rows r.0
        ])
        e

  best_match_lem :
      (rows : List (Row py vs)) (best : MatchResult py vs)
      → Rest rows best (best_match py vs current matched_ids rows best)
  unfolding best_match
  best_match_lem [] best = kept refl tt
  best_match_lem (b ∷ rows) best = elim (consider_lem b best) [
    | passed e worse ↦ rw (turn b rows best e) (elim (best_match_lem rows best) [
      | kept same all ↦ kept same (worse, all)
      | replaced r m c e' l higher ↦
          replaced r m c e' (Leads-later b r rows m c (omega arith) l) higher
    ])
    | took m c e f higher ↦ elim (Bool-cases (is_certain c)) [
      | inl top ↦
          rw (turn b rows best e, top)
            (replaced b m c refl
              (Leads-now b rows m c f (rw (certain_rank c top) (scores_bound rows))) higher)
      | inr more ↦
          rw (turn b rows best e, more)
            (elim (best_match_lem rows (some (b, m, c))) [
              | kept same all ↦ replaced b m c same (Leads-now b rows m c f all) higher
              | replaced r m' c' e' l more_still ↦
                  replaced r m' c' e'
                    (Leads-later b r rows m' c' (rw (score_of_fit b m c f) more_still) l)
                    (omega arith)
            ])
    ]
  ]

  -- What a choice must be.
  pub data Choice (rows : List (Row py vs)) (result : MatchResult py vs) : Type 0 where
    chosen :
        (b : Row py vs) (m : Method) (c : Confidence)
        → result ≡ some (b, m, c)
        → 2 ≤ rank c
        → Leads rows b m c
        → Choice rows result
    nothing : result ≡ none → All (λ r. score r ≤ 1) rows → Choice rows result

  Leads-all :
      (rows : List (Row py vs)) (b : Row py vs) (m : Method) (c : Confidence)
      → Leads rows b m c
      → All (λ r. score r ≤ rank c) rows
  Leads-all rows b m c l =
      subst (λ rs. All (λ r. score r ≤ rank c) rs) (sym l.split) (go l.before l.first)
    where
      fit : score b ≤ rank c
      fit = rw (score_of_fit b m c l.fits) (omega arith)

      go :
          (rs : List (Row py vs))
          → All (λ r. score r < rank c) rs
          → All (λ r. score r ≤ rank c) (rs ++ b ∷ l.after)
      go [] h = (fit, l.best)
      go (r ∷ rs) h = (omega (arith, h.0), go rs h.1)

  weaken :
      (rows : List (Row py vs)) {n k : ℕ}
      → n ≤ k
      → All (λ r. score r ≤ n) rows
      → All (λ r. score r ≤ k) rows
  weaken [] h all = tt
  weaken (r ∷ rows) h all = (omega (arith, all.0, h), weaken rows h all.1)

  -- The match of a Bluetooth device is the first of the free reference rows that fit it with the
  -- highest confidence; without a free row that fits with at least medium confidence there is none.
  pub match_bluetooth_identity_lem :
      (rows : List (Row py vs))
      → Choice rows (match_bluetooth_identity py vs current rows matched_ids)
  unfolding match_bluetooth_identity
  match_bluetooth_identity_lem rows = elim (best_match_lem rows none) [
    | kept e all ↦ rw e (nothing refl (weaken rows (omega arith) all))
    | replaced b m c e l h ↦ elim (Bool-cases (promotable c)) [
      | inl p ↦ rw (e, p) (chosen b m c refl (promotable-rank c p) l)
      | inr p ↦
          rw (e, p) (nothing refl (weaken rows (not_promotable-rank c p) (Leads-all rows b m c l)))
    ]
  ]
