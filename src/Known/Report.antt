-- ===== src/Known/Report.antt =====
-- What the checks of services/known_signals/matching.py put into their two lists.
use Prim.Native.String
use diploma_munka.Prelude.{
  ℕ, ◌+◌, ◌≡◌, refl, ap, ap₂, append-nil, append_assoc, str_eq, if◌then◌else◌, ◌∙◌, ◌⊎◌, inl, inr,
  ◌↔◌, Bool, true, false, List, [], ◌∷◌, ◌++◌, String, arith, All, length, length-append, bool_ℕ,
  not, Bool-cases,
}
use diploma_munka.Prelude.Int.{ℤ}
use diploma_munka.Prelude.Python.{PyText}
use diploma_munka.Prelude.Values.{Values, Dict, get}
use diploma_munka.Known.Match.{Check, check_one, check_all, is_empty}

pub data Standing : Type 0 where
  open_attribute agrees missing differs : Standing

-- What an attribute adds to `matched_attributes` and to `mismatches`.
abbrev pub agreed : String → Standing → List String
agreed name agrees = name ∷ []
agreed name other = []

abbrev pub failing : String → Standing → List String
failing name missing = String.◌++◌ name "_missing" ∷ []
failing name differs = name ∷ []
failing name other = []

abbrev pub all_agreed : List (String × Standing) → List String
all_agreed [] = []
all_agreed ((name, s) ∷ rest) = agreed name s ++ all_agreed rest

abbrev pub all_failing : List (String × Standing) → List String
all_failing [] = []
all_failing ((name, s) ∷ rest) = failing name s ++ all_failing rest

module _ (py : PyText) (vs : Values) (profile measurement : Dict vs) where
  open py use {casefold}
  open vs use {V, is_none, truthy, eq, str, of_text, of_int, lt, le, sub, absolute, quarter}

  -- The profile leaves the attribute open, or the measurement has it and it agrees.
  abbrev pub IsMet : Check py vs → Type 0
  IsMet c =
      (is_none (get vs profile c.profile_key) ≡ true)
      ⊎ ((is_none (get vs measurement c.measurement_key) ≡ false)
          × (c.compare (get vs measurement c.measurement_key) (get vs profile c.profile_key)
              ≡ true))

  -- How many attributes the profile fixes.
  abbrev pub fixed : List (Check py vs) → ℕ
  fixed [] = 0
  fixed (c ∷ cs) = bool_ℕ (not (is_none (get vs profile c.profile_key))) + fixed cs

  is_empty_append : (ms : List String) (x : String) → is_empty py vs (ms ++ x ∷ []) ≡ false
  is_empty_append [] x = refl
  is_empty_append (m ∷ ms) x = refl

  check_one-IsMet :
      (c : Check py vs) (rs ms : List String)
      → (is_empty py vs (check_one py vs profile measurement c (rs, ms)).1 ≡ true)
        ↔ ((is_empty py vs ms ≡ true) × IsMet c)
  unfolding check_one
  check_one-IsMet c rs ms = elim (Bool-cases (is_none (get vs profile c.profile_key))) [
    | inl e ↦ rw e (ground arith)
    | inr e ↦ elim (Bool-cases (is_none (get vs measurement c.measurement_key))) [
      | inl e' ↦ rw (e, e', is_empty_append) (ground arith)
      | inr e' ↦
          elim (Bool-cases
            (c.compare (get vs measurement c.measurement_key) (get vs profile c.profile_key))) [
              | inl f ↦ rw (e, e', f) (ground arith)
              | inr f ↦ rw (e, e', f, is_empty_append) (ground arith)
            ]
    ]
  ]

  check_one-count :
      (c : Check py vs) (rs ms : List String)
      → length (check_one py vs profile measurement c (rs, ms)).0
          + length (check_one py vs profile measurement c (rs, ms)).1
        ≡ length rs + length ms + bool_ℕ (not (is_none (get vs profile c.profile_key)))
  unfolding check_one
  check_one-count c rs ms = ground (
    arith,
    length-append rs (c.reason ∷ []),
    length-append ms (c.reason ∷ []),
    length-append ms (String.◌++◌ c.reason "_missing" ∷ []),
  )

  pub check_all-IsMet :
      (cs : List (Check py vs)) (acc : List String × List String)
      → (is_empty py vs (check_all py vs profile measurement cs acc).1 ≡ true)
        ↔ ((is_empty py vs acc.1 ≡ true) × All IsMet cs)
  unfolding check_all
  check_all-IsMet [] acc = (λ h. (h, tt), λ h. h.0)
  check_all-IsMet (c ∷ cs) acc =
      let one = check_one-IsMet c acc.0 acc.1 in
      let rest = check_all-IsMet cs (check_one py vs profile measurement c acc) in
      (
        λ h. let (a, b) = rest.0 h in let (d, e) = one.0 a in (d, (e, b)),
        λ h. rest.1 (one.1 (h.0, h.1.0), h.1.1),
      )

  pub check_all-count :
      (cs : List (Check py vs)) (acc : List String × List String)
      → length (check_all py vs profile measurement cs acc).0
          + length (check_all py vs profile measurement cs acc).1
        ≡ length acc.0 + length acc.1 + fixed cs
  unfolding check_all
  check_all-count [] acc = omega arith
  check_all-count (c ∷ cs) acc = omega (
    arith,
    check_one-count c acc.0 acc.1,
    check_all-count cs (check_one py vs profile measurement c acc),
  )

  -- How an attribute stands: the profile leaves it open, or fixes it and the measurement agrees,
  -- lacks it or differs.
  abbrev pub standing : String → String → (V → V → Bool) → Standing
  standing profile_key measurement_key compare =
      if is_none (get vs profile profile_key)
      then open_attribute
      else if is_none (get vs measurement measurement_key)
      then missing
      else if compare (get vs measurement measurement_key) (get vs profile profile_key)
      then agrees
      else differs

  -- The seven attributes, in the order of the report, by the names that it uses.
  abbrev pub report : ℤ → List (String × Standing)
  report tolerance =
      (
        "bandwidth",
        standing "bandwidth_hz" "bandwidth_hz" (λ value target.
            le (absolute (sub value target)) (
              if lt (quarter target) (of_int tolerance) then of_int tolerance else quarter target)),
      )
      ∷ (
        "power_min",
        standing "expected_power_min_dbm" "power_dbm" (λ value target. le target value),
      )
      ∷ (
        "power_max",
        standing "expected_power_max_dbm" "power_dbm" (λ value target. le value target),
      )
      ∷ ("modulation", standing "modulation" "modulation" same_case_folded)
      ∷ ("protocol", standing "protocol" "protocol" same_case_folded)
      ∷ ("source_type", standing "source_type" "source_type" same_case_folded)
      ∷ (
        "location",
        standing "location_id" "location_id" (λ value target. str_eq (str value) (str target)),
      )
      ∷ []
    where
      same_case_folded : V → V → Bool
      same_case_folded value target = str_eq (casefold (str value)) (casefold (str target))

  unfoldable pub standings : List (Check py vs) → List (String × Standing)
  standings [] = []
  standings (c ∷ cs) = (c.reason, standing c.profile_key c.measurement_key c.compare) ∷ standings cs

  check_one-standing :
      (c : Check py vs) (rs ms : List String)
      → check_one py vs profile measurement c (rs, ms) ≡ (
        rs ++ agreed c.reason (standing c.profile_key c.measurement_key c.compare),
        ms ++ failing c.reason (standing c.profile_key c.measurement_key c.compare),
      )
  unfolding check_one
  check_one-standing c rs ms = elim (Bool-cases (is_none (get vs profile c.profile_key))) [
    | inl e ↦ rw (e, append-nil rs, append-nil ms) refl
    | inr e ↦ elim (Bool-cases (is_none (get vs measurement c.measurement_key))) [
      | inl e' ↦ rw (e, e', append-nil rs) refl
      | inr e' ↦
          elim (Bool-cases
            (c.compare (get vs measurement c.measurement_key) (get vs profile c.profile_key))) [
              | inl f ↦ rw (e, e', f, append-nil ms) refl
              | inr f ↦ rw (e, e', f, append-nil rs) refl
            ]
    ]
  ]

  pub check_all-standings :
      (cs : List (Check py vs)) (rs ms : List String)
      → check_all py vs profile measurement cs (rs, ms)
        ≡ (rs ++ all_agreed (standings cs), ms ++ all_failing (standings cs))
  unfolding check_all standings
  check_all-standings [] rs ms = rw (append-nil rs, append-nil ms) refl
  check_all-standings (c ∷ cs) rs ms =
      let now = standing c.profile_key c.measurement_key c.compare in
      ap (check_all py vs profile measurement cs) (check_one-standing c rs ms)
      ∙ check_all-standings cs (rs ++ agreed c.reason now) (ms ++ failing c.reason now)
      ∙ ap₂ (λ x y. (x, y)) (append_assoc rs (agreed c.reason now) (all_agreed (standings cs)))
          (append_assoc ms (failing c.reason now) (all_failing (standings cs)))
