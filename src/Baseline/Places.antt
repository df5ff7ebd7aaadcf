-- ===== src/Baseline/Places.antt =====
-- What the statements of services/baseline.py do at one place, a location with a protocol, and that
-- they leave every other place alone.
use diploma_munka.Prelude.{
  ℕ, suc, ◌≡◌, refl, sym, ap, ap₂, ◌∙◌, ◌⊎◌, inl, inr, Bool, true, false, ◌&&◌, List, [], ◌∷◌, ◌++◌,
  String, str_eq, eq_iff, max, arith, length, All, Bool-cases,
}
use diploma_munka.Prelude.Python.{PyText}
use diploma_munka.Prelude.Values.{Values, Dict}
use diploma_munka.Reference.Candidate.{first_of}
use diploma_munka.Baseline.Table.{
  Protocol, wifi, bluetooth, same_protocol, Baseline, is_at, max_version, deactivated, deactivate,
  select_active,
}
use diploma_munka.Baseline.Save.{Request, new_row, inserted}

same_protocol_iff_true : (p q : Protocol) → same_protocol p q ≡ true → p ≡ q
same_protocol_iff_true wifi wifi h = refl
same_protocol_iff_true bluetooth bluetooth h = refl
same_protocol_iff_true wifi bluetooth h = absurd (cc h)
same_protocol_iff_true bluetooth wifi h = absurd (cc h)

pub same_protocol_refl : (p : Protocol) → same_protocol p p ≡ true
same_protocol_refl wifi = refl
same_protocol_refl bluetooth = refl

both : (a b : Bool) → (a && b) ≡ true → (a ≡ true) × (b ≡ true)
both true true h = (refl, refl)
both true false h = absurd (cc h)
both false b h = absurd (cc h)

and_false : (a : Bool) → (a && false) ≡ false
and_false true = refl
and_false false = refl

-- Two pairs of a location and a protocol that the statements do not tell apart.
abbrev pub same_place : (String → String) → String → Protocol → String → Protocol → Bool
same_place sql_lower l p l' p' = str_eq (sql_lower l) (sql_lower l') && same_protocol p p'

same_place_back :
    (sql_lower : String → String) (l l' : String) (p p' : Protocol)
    → same_place sql_lower l' p' l p ≡ true
    → same_place sql_lower l p l' p' ≡ true
same_place_back sql_lower l l' p p' h =
    let (a, c) = both (str_eq (sql_lower l') (sql_lower l)) _ h in
    rw
      (
        (eq_iff (sql_lower l') (sql_lower l)).0 a,
        same_protocol_iff_true p' p c,
        (eq_iff (sql_lower l) (sql_lower l)).1 refl,
      )
      (same_protocol_refl p)

pub same_place_apart :
    (sql_lower : String → String) (l l' : String) (p p' : Protocol)
    → same_place sql_lower l p l' p' ≡ false
    → same_place sql_lower l' p' l p ≡ false
same_place_apart sql_lower l l' p p' h = elim (Bool-cases (same_place sql_lower l' p' l p)) [
  | inl e ↦ absurd (cc (h, same_place_back sql_lower l l' p p' e))
  | inr e ↦ e
]

module _ {vs : Values} (sql_lower : String → String) where
  -- A row stands at one place only.
  is_at-both :
      (l l' : String) (p p' : Protocol) (b : Baseline vs)
      → is_at sql_lower l p b ≡ true
      → is_at sql_lower l' p' b ≡ true
      → same_place sql_lower l p l' p' ≡ true
  is_at-both l l' p p' b h k =
      let (a, c) = both (str_eq (sql_lower b.location_name) (sql_lower l)) _ h in
      let (a', c') = both (str_eq (sql_lower b.location_name) (sql_lower l')) _ k in
      let e : sql_lower l ≡ sql_lower l' = sym ((eq_iff _ _).0 a) ∙ (eq_iff _ _).0 a' in
      let f : p ≡ p' =
        sym (same_protocol_iff_true b.protocol p c) ∙ same_protocol_iff_true b.protocol p' c' in
      rw (e, f, (eq_iff (sql_lower l') (sql_lower l')).1 refl) (same_protocol_refl p')

  is_at-same :
      (l l' : String) (p p' : Protocol) (b : Baseline vs)
      → same_place sql_lower l p l' p' ≡ true
      → is_at sql_lower l p b ≡ is_at sql_lower l' p' b
  is_at-same l l' p p' b h =
      let (a, c) = both (str_eq (sql_lower l) (sql_lower l')) _ h in
      ap₂ (λ s q. str_eq (sql_lower b.location_name) s && same_protocol b.protocol q)
        ((eq_iff _ _).0 a) (same_protocol_iff_true p p' c)

  pub select_active-append :
      (l : String) (p : Protocol) (xs ys : List (Baseline vs))
      → select_active sql_lower l p (xs ++ ys)
        ≡ select_active sql_lower l p xs ++ select_active sql_lower l p ys
  unfolding select_active
  select_active-append l p [] ys = refl
  select_active-append l p (b ∷ xs) ys = elim (Bool-cases (is_at sql_lower l p b && b.is_active)) [
    | inl e ↦ rw e (ap (◌∷◌ b) (select_active-append l p xs ys))
    | inr e ↦ rw e (select_active-append l p xs ys)
  ]

  -- The rows that are selected at a place.
  abbrev pub shown : String → Protocol → Baseline vs → Bool
  shown l p b = is_at sql_lower l p b && b.is_active

  shown-deactivated_same :
      (l l' : String) (p p' : Protocol) (b : Baseline vs)
      → same_place sql_lower l p l' p' ≡ true
      → shown l p (deactivated sql_lower l' p' b) ≡ false
  shown-deactivated_same l l' p p' b h =
      let same = is_at-same l l' p p' b h in
      elim (Bool-cases (is_at sql_lower l' p' b)) [
        | inl e ↦ elim (Bool-cases b.is_active) [
          | inl f ↦ rw (e, f) (ground (arith, same, e))
          | inr f ↦ rw (e, f) (ground (arith, same, e, f))
        ]
        | inr e ↦ rw e (ground (arith, same, e))
      ]

  shown-deactivated_other :
      (l l' : String) (p p' : Protocol) (b : Baseline vs)
      → same_place sql_lower l p l' p' ≡ false
      → (shown l p b ≡ true) × (deactivated sql_lower l' p' b ≡ b)
        ⊎ (shown l p b ≡ false) × (shown l p (deactivated sql_lower l' p' b) ≡ false)
  shown-deactivated_other l l' p p' b h = elim (Bool-cases (shown l p b)) [
    | inl e ↦ elim (Bool-cases (is_at sql_lower l' p' b)) [
      | inl f ↦
          absurd (cc (h, is_at-both l l' p p' b (both (is_at sql_lower l p b) b.is_active e).0 f))
      | inr f ↦ inl (e, rw f refl)
    ]
    | inr e ↦ elim (Bool-cases (is_at sql_lower l' p' b && b.is_active)) [
      | inl f ↦ inr (e, rw f (and_false (is_at sql_lower l p b)))
      | inr f ↦ inr (e, rw f e)
    ]
  ]

  -- The place is empty after its rows are deactivated.
  pub select_active-deactivate_same :
      (l l' : String) (p p' : Protocol) (table : List (Baseline vs))
      → same_place sql_lower l p l' p' ≡ true
      → select_active sql_lower l p (deactivate sql_lower l' p' table) ≡ []
  unfolding select_active deactivate
  select_active-deactivate_same l l' p p' [] h = refl
  select_active-deactivate_same l l' p p' (b ∷ table) h =
      rw (shown-deactivated_same l l' p p' b h) (select_active-deactivate_same l l' p p' table h)

  pub select_active-deactivate_other :
      (l l' : String) (p p' : Protocol) (table : List (Baseline vs))
      → same_place sql_lower l p l' p' ≡ false
      → select_active sql_lower l p (deactivate sql_lower l' p' table)
        ≡ select_active sql_lower l p table
  unfolding select_active deactivate
  select_active-deactivate_other l l' p p' [] h = refl
  select_active-deactivate_other l l' p p' (b ∷ table) h =
      let rest = select_active-deactivate_other l l' p p' table h in
      elim (shown-deactivated_other l l' p p' b h) [
        | inl (e, same) ↦ rw (same, e) (ap (◌∷◌ b) rest)
        | inr (e, f) ↦ rw (e, f) rest
      ]

  pub max_version-append :
      (l : String) (p : Protocol) (xs ys : List (Baseline vs))
      → max_version sql_lower l p (xs ++ ys)
        ≡ max (max_version sql_lower l p xs) (max_version sql_lower l p ys)
  unfolding max_version
  max_version-append l p [] ys = omega arith
  max_version-append l p (b ∷ xs) ys = elim (Bool-cases (is_at sql_lower l p b)) [
    | inl e ↦ rw e (omega (arith, max_version-append l p xs ys))
    | inr e ↦ rw e (max_version-append l p xs ys)
  ]

  is_at-deactivated :
      (l l' : String) (p p' : Protocol) (b : Baseline vs)
      → (is_at sql_lower l p (deactivated sql_lower l' p' b) ≡ is_at sql_lower l p b)
        × ((deactivated sql_lower l' p' b).version ≡ b.version)
  is_at-deactivated l l' p p' b = elim (Bool-cases (is_at sql_lower l' p' b && b.is_active)) [
    | inl e ↦ rw e (refl, refl)
    | inr e ↦ rw e (refl, refl)
  ]

  pub max_version-deactivate :
      (l l' : String) (p p' : Protocol) (table : List (Baseline vs))
      → max_version sql_lower l p (deactivate sql_lower l' p' table)
        ≡ max_version sql_lower l p table
  unfolding max_version deactivate
  max_version-deactivate l l' p p' [] = refl
  max_version-deactivate l l' p p' (b ∷ table) =
      let (place, version) = is_at-deactivated l l' p p' b in
      rw (place, version, max_version-deactivate l l' p p' table) refl

  pub length-deactivate :
      (l : String) (p : Protocol) (table : List (Baseline vs))
      → length (deactivate sql_lower l p table) ≡ length table
  unfolding deactivate
  length-deactivate l p [] = refl
  length-deactivate l p (b ∷ table) = ap suc (length-deactivate l p table)

-- Every row of the list is at the place, active and of the version.
pub record IsNew {vs : Values} (l : String) (p : Protocol) (version : ℕ) (b : Baseline vs)
    : Type 0 where
  pub location : b.location_name ≡ l
  pub protocol : b.protocol ≡ p
  pub numbered : b.version ≡ version
  pub active : b.is_active ≡ true

module _ (py : PyText) (vs : Values) (sql_lower : String → String) where
  pub inserted-IsNew :
      (p : Protocol) (l : String) (version : ℕ) (r : Request vs) (devices : List (Dict vs))
      → All (IsNew l p version) (inserted py vs p l version r devices)
  unfolding inserted new_row
  inserted-IsNew p l version r [] = tt
  inserted-IsNew p l version r (device ∷ devices) =
      let rest = inserted-IsNew p l version r devices in
      elim (Bool-cases (vs.truthy (first_of py vs device "stable_identity" "mac_address"))) [
        | inl e ↦
            rw e (record { location = refl; protocol = refl; numbered = refl; active = refl }, rest)
        | inr e ↦ rw e rest
      ]

  new_is_at :
      (l l' : String) (p p' : Protocol) (version : ℕ) (b : Baseline vs)
      → IsNew l p version b
      → is_at sql_lower l' p' b ≡ same_place sql_lower l p l' p'
  new_is_at l l' p p' version b n = rw (n.location, n.protocol) refl

  shown-new :
      (l : String) (p : Protocol) (version : ℕ) (b : Baseline vs)
      → IsNew l p version b
      → shown sql_lower l p b ≡ true
  shown-new l p version b n =
      rw
        (
          n.location,
          n.protocol,
          n.active,
          (eq_iff (sql_lower l) (sql_lower l)).1 refl,
          same_protocol_refl p,
        )
        refl

  pub select_active-new_same :
      (l : String) (p : Protocol) (version : ℕ) (rows : List (Baseline vs))
      → All (IsNew l p version) rows
      → select_active sql_lower l p rows ≡ rows
  unfolding select_active
  select_active-new_same l p version [] h = refl
  select_active-new_same l p version (b ∷ rows) h =
      rw (shown-new l p version b h.0) (ap (◌∷◌ b) (select_active-new_same l p version rows h.1))

  pub select_active-new_other :
      (l l' : String) (p p' : Protocol) (version : ℕ) (rows : List (Baseline vs))
      → same_place sql_lower l p l' p' ≡ false
      → All (IsNew l p version) rows
      → (select_active sql_lower l' p' rows ≡ []) × (max_version sql_lower l' p' rows ≡ 0)
  unfolding select_active max_version
  select_active-new_other l l' p p' version [] h n = (refl, refl)
  select_active-new_other l l' p p' version (b ∷ rows) h n =
      let apart = new_is_at l l' p p' version b n.0 ∙ h in
      rw apart (select_active-new_other l l' p p' version rows h n.1)

  pub IsNew-is_at :
      (l : String) (p : Protocol) (version : ℕ) (b : Baseline vs)
      → IsNew l p version b
      → is_at sql_lower l p b ≡ true
  IsNew-is_at l p version b n =
      rw (n.location, n.protocol, (eq_iff (sql_lower l) (sql_lower l)).1 refl)
        (same_protocol_refl p)

  -- Places that are the same select the same rows.
  pub select_active-place :
      (l l' : String) (p p' : Protocol) (table : List (Baseline vs))
      → same_place sql_lower l p l' p' ≡ true
      → (select_active sql_lower l' p' table ≡ select_active sql_lower l p table)
        × (max_version sql_lower l' p' table ≡ max_version sql_lower l p table)
  unfolding select_active max_version
  select_active-place l l' p p' [] h = (refl, refl)
  select_active-place l l' p p' (b ∷ table) h =
      let (rows, version) = select_active-place l l' p p' table h in
      rw (is_at-same sql_lower l l' p p' b h, rows, version) (refl, refl)
