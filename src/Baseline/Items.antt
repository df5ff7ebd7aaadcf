-- ===== src/Baseline/Items.antt =====
-- What a comparison of services/baseline.py says of each device, in terms of the rows as they were
-- read.
use mathlib.Core.Path.{subst}
use diploma_munka.Prelude.{
  ◌≡◌, refl, ◌⊎◌, inl, inr, Bool, true, false, not, ◌&&◌, ◌||◌, ◌↔◌, Option, none, some, List, [],
  ◌∷◌, String, str_eq, eq_iff, any, arith, All, Bool-cases,
}
use diploma_munka.Prelude.Python.{PyText}
use diploma_munka.Prelude.Values.{Values, Dict, get}
use diploma_munka.Baseline.Index.{last_with, find_row-index}
use diploma_munka.Reference.Candidate.{first_of}
use diploma_munka.Baseline.Table.{Protocol, wifi, bluetooth, Baseline}
use diploma_munka.Baseline.Compare.{
  State, known, new, changed, uncertain_match, ignored, Item, index_rows, find_row, is_matched,
  text_or_empty, is_changed, known_state, folded, is_weak, is_soft_match, classified, classify,
  classify_all,
}

five_iff :
    (a b c d e : Bool)
    → ((not a && b && c && d && e) ≡ true)
      ↔ ((a ≡ false) × (b ≡ true) × (c ≡ true) × (d ≡ true) × (e ≡ true))
five_iff a b c d e = ground arith

neither_iff : (a b : Bool) → ((not a || not b) ≡ false) ↔ ((a ≡ true) × (b ≡ true))
neither_iff a b = ground arith

not_iff : (a : Bool) → (not a ≡ false) ↔ (a ≡ true)
not_iff a = ground arith

weak_enough :
    (q : Protocol) (weak : Bool)
    → ((elim q [ wifi ↦ true | bluetooth ↦ weak ]) ≡ true) ↔ ((q ≡ wifi) ⊎ (weak ≡ true))
weak_enough wifi weak = (λ h. inl refl, λ h. refl)
weak_enough bluetooth weak = (λ h. inr h, λ s. elim s [ inl e ↦ absurd (cc e) | inr h ↦ h ])

module _ (py : PyText) (vs : Values) where
  open vs use {V, truthy, eq}

  abbrev pub HasAny : (Baseline vs → Type 0) → List (Baseline vs) → Type 0
  HasAny P [] = ⊥
  HasAny P (b ∷ rows) = P b ⊎ HasAny P rows

  -- The item has the identity of the device, the device, and the last row with that identity.
  module _ (p : Protocol) (rows : List (Baseline vs)) where
    abbrev pub Agrees : Baseline vs → Dict vs → String → Type 0
    Agrees b device key =
        eq (text_or_empty py vs b.columns key) (text_or_empty py vs device key) ≡ true

    -- What must agree for a device to be known.
    abbrev pub IsUnchanged : Protocol → Baseline vs → Dict vs → Type 0
    IsUnchanged wifi b device = Agrees b device "ssid" × Agrees b device "encryption"
    IsUnchanged bluetooth b device = Agrees b device "vendor"

    -- A row of no matched identity with the vendor of the device, which for Bluetooth must have a
    -- weak identity.
    abbrev pub IsSoft : List V → Dict vs → Baseline vs → Type 0
    IsSoft matched device c =
        (is_matched py vs matched c.stable_identity ≡ false)
        × (truthy (get vs device "vendor") ≡ true)
        × (truthy (get vs c.columns "vendor") ≡ true)
        × (folded py vs (get vs device "vendor") ≡ folded py vs (get vs c.columns "vendor"))
        × ((p ≡ wifi) ⊎ (is_weak py vs device ≡ true))

    abbrev pub IsStatus : List V → Dict vs → Option (Baseline vs) → State → Type 0
    IsStatus matched device (some b) status =
        ((status ≡ ignored) × (b.expected_state ≡ "ignored"))
        ⊎ ((status ≡ known) × ¬ (b.expected_state ≡ "ignored") × IsUnchanged p b device)
        ⊎ ((status ≡ changed) × ¬ (b.expected_state ≡ "ignored") × ¬ (IsUnchanged p b device))
    IsStatus matched device none status =
        ((status ≡ uncertain_match) × HasAny (IsSoft matched device) rows)
        ⊎ ((status ≡ new) × All (λ c. ¬ (IsSoft matched device c)) rows)

    pub record IsItemOf (matched : List V) (device : Dict vs) (i : Item vs) : Type 0 where
      pub identity : i.identity ≡ first_of py vs device "stable_identity" "mac_address"
      pub current : i.current_values ≡ some device
      pub reference : i.reference_values ≡ last_with py vs i.identity rows
      pub status : IsStatus matched device i.reference_values i.status

    -- The identities that are matched after an item.
    abbrev pub with_item : Item vs → List V → List V
    with_item i matched = elim i.reference_values [ none ↦ matched | some b ↦ i.identity ∷ matched ]

    -- One item for each device, in their order.
    pub data AreItemsOf : List V → List (Dict vs) → List (Item vs) → Type 0 where
      no_item : (matched : List V) → AreItemsOf matched [] []
      item_of :
          (matched : List V) (device : Dict vs) (i : Item vs) (devices : List (Dict vs))
          (items : List (Item vs))
          → IsItemOf matched device i
          → AreItemsOf (with_item i matched) devices items
          → AreItemsOf matched (device ∷ devices) (i ∷ items)

    is_soft_match_iff :
        (matched : List V) (device : Dict vs) (c : Baseline vs)
        → (is_soft_match py vs p matched device c ≡ true) ↔ IsSoft matched device c
    is_soft_match_iff matched device c =
        let five =
          five_iff (is_matched py vs matched c.stable_identity) (truthy (get vs device "vendor"))
            (truthy (get vs c.columns "vendor"))
            (str_eq (folded py vs (get vs device "vendor"))
              (folded py vs (get vs c.columns "vendor")))
            (elim p [ wifi ↦ true | bluetooth ↦ is_weak py vs device ]) in
        let same =
          eq_iff (folded py vs (get vs device "vendor"))
            (folded py vs (get vs c.columns "vendor")) in
        let weak = weak_enough p (is_weak py vs device) in
        (
          λ h. let (x, y, z, u, w) = five.0 h in (x, y, z, same.0 u, weak.0 w),
          λ s. let (x, y, z, u, w) = s in five.1 (x, y, z, same.1 u, weak.1 w),
        )

    is_changed_iff :
        (q : Protocol) (b : Baseline vs) (device : Dict vs)
        → (is_changed py vs q b device ≡ false) ↔ IsUnchanged q b device
    is_changed_iff wifi b device = neither_iff _ _
    is_changed_iff bluetooth b device = not_iff _

    any-IsSoft :
        (matched : List V) (device : Dict vs) (cs : List (Baseline vs))
        → ((any (is_soft_match py vs p matched device) cs ≡ true)
            × HasAny (IsSoft matched device) cs)
          ⊎ ((any (is_soft_match py vs p matched device) cs ≡ false)
              × All (λ c. ¬ (IsSoft matched device c)) cs)
    any-IsSoft matched device [] = inr (refl, tt)
    any-IsSoft matched device (c ∷ cs) =
        elim (Bool-cases (is_soft_match py vs p matched device c)) [
          | inl e ↦ rw e (inl (refl, inl ((is_soft_match_iff matched device c).0 e)))
          | inr e ↦ elim (any-IsSoft matched device cs) [
            | inl (f, h) ↦ rw (e, f) (inl (refl, inr h))
            | inr (f, h) ↦
                rw (e, f)
                  (inr
                    (refl, ((λ s. absurd (cc (e, (is_soft_match_iff matched device c).1 s))), h)))
          ]
        ]

    known_state-IsStatus :
        (matched : List V) (device : Dict vs) (b : Baseline vs)
        → IsStatus matched device (some b) (known_state py vs p b device)
    known_state-IsStatus matched device b = elim (Bool-cases (str_eq b.expected_state "ignored")) [
      | inl e ↦ rw e (inl (refl, (eq_iff b.expected_state "ignored").0 e))
      | inr e ↦
          let unlike : ¬ (b.expected_state ≡ "ignored") =
            λ h. absurd (cc (e, (eq_iff b.expected_state "ignored").1 h)) in
          elim (Bool-cases (is_changed py vs p b device)) [
            | inl f ↦
                rw (e, f)
                  (inr (inr (refl, unlike, λ h. absurd (cc (f, (is_changed_iff p b device).1 h)))))
            | inr f ↦ rw (e, f) (inr (inl (refl, unlike, (is_changed_iff p b device).0 f)))
          ]
    ]

    classified-IsItemOf :
        (matched : List V) (device : Dict vs) (v : V) (found : Option (Baseline vs))
        → found ≡ last_with py vs v rows
        → v ≡ first_of py vs device "stable_identity" "mac_address"
        → IsItemOf matched device (classified py vs p rows matched device v found).0
    classified-IsItemOf matched device v (some b) e f = record {
      identity = f;
      current = refl;
      reference = e;
      status = known_state-IsStatus matched device b;
    }
    classified-IsItemOf matched device v none e f = record {
      identity = f;
      current = refl;
      reference = e;
      status = elim (any-IsSoft matched device rows) [
        | inl (g, h) ↦ rw g (inl (refl, h))
        | inr (g, h) ↦ rw g (inr (refl, h))
      ];
    }

    matched_after :
        (matched : List V) (device : Dict vs) (v : V) (found : Option (Baseline vs))
        → (classified py vs p rows matched device v found).1
          ≡ with_item (classified py vs p rows matched device v found).0 matched
    matched_after matched device v (some b) = refl
    matched_after matched device v none = refl

    module _ (lawful : (v w : V) → (eq v w ≡ true) ↔ (v ≡ w)) where
      pub classify_all-AreItemsOf :
          (matched : List V) (devices : List (Dict vs))
          → AreItemsOf matched devices
              (classify_all py vs p rows (index_rows py vs rows []) matched devices).0
      unfolding classify_all
      classify_all-AreItemsOf matched [] = no_item matched
      classify_all-AreItemsOf matched (device ∷ devices) =
          let index = index_rows py vs rows [] in
          let v = first_of py vs device "stable_identity" "mac_address" in
          let now = classify py vs p rows index matched device in
          item_of matched device now.0 devices _
            (classified-IsItemOf matched device v (find_row py vs v index)
              (find_row-index py vs lawful v rows) refl)
            (subst (λ m. AreItemsOf m devices (classify_all py vs p rows index now.1 devices).0)
              (matched_after matched device v (find_row py vs v index))
              (classify_all-AreItemsOf now.1 devices))
