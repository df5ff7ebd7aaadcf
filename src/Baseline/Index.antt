-- ===== src/Baseline/Index.antt =====
-- The index of services/baseline.py over the rows of a baseline, by their identities.
use mathlib.Core.Path.{subst}
use diploma_munka.Prelude.{
  ◌≡◌, refl, sym, ap, ◌∙◌, inl, inr, Bool, true, false, ◌↔◌, Option, none, some, List, [], ◌∷◌,
  if◌then◌else◌, Bool-cases,
}
use diploma_munka.Prelude.Python.{PyText}
use diploma_munka.Prelude.Values.{Values}
use diploma_munka.Baseline.Table.{Baseline}
use diploma_munka.Baseline.Compare.{put_row, index_rows, find_row}

module _ (py : PyText) (vs : Values) where
  open vs use {V, truthy, eq}

  abbrev pub first_found : Option (Baseline vs) → Option (Baseline vs) → Option (Baseline vs)
  first_found (some c) other = some c
  first_found none other = other

  first_found_if :
      (a : Option (Baseline vs)) (test : Bool) (b : Baseline vs) (c : Option (Baseline vs))
      → first_found a (if test then some b else c)
        ≡ first_found (first_found a (if test then some b else none)) c
  first_found_if (some a) test b c = refl
  first_found_if none true b c = refl
  first_found_if none false b c = refl

  -- The last of the rows that have this identity.
  unfoldable pub last_with : V → List (Baseline vs) → Option (Baseline vs)
  last_with v [] = none
  last_with v (b ∷ rows) =
      first_found (last_with v rows) (if eq b.stable_identity v then some b else none)

  -- No two rows have the same identity.
  abbrev pub AreDistinct : List (Baseline vs) → Type 0
  AreDistinct [] = Unit
  AreDistinct (b ∷ index) = (find_row py vs b.stable_identity index ≡ none) × AreDistinct index

  module _ (lawful : (v w : V) → (eq v w ≡ true) ↔ (v ≡ w)) where
    eq_apart : (r b v : V) → eq r b ≡ false → eq r v ≡ true → eq b v ≡ false
    eq_apart r b v e g = elim (Bool-cases (eq b v)) [
      | inl f ↦ absurd (cc (e, (lawful r b).1 ((lawful r v).0 g ∙ sym ((lawful b v).0 f))))
      | inr f ↦ f
    ]

    eq_flipped : (v w : V) → eq v w ≡ false → eq w v ≡ false
    eq_flipped v w e = elim (Bool-cases (eq w v)) [
      | inl f ↦ absurd (cc (e, (lawful v w).1 (sym ((lawful w v).0 f))))
      | inr f ↦ f
    ]

    find_row-put_row :
        (v : V) (b : Baseline vs) (index : List (Baseline vs))
        → find_row py vs v (put_row py vs b index)
          ≡ (if eq b.stable_identity v then some b else find_row py vs v index)
    unfolding find_row put_row
    find_row-put_row v b [] = refl
    find_row-put_row v b (r ∷ rows) = elim (Bool-cases (eq r.stable_identity b.stable_identity)) [
      | inl e ↦ elim (Bool-cases (eq b.stable_identity v)) [
        | inl f ↦ rw (e, f) refl
        | inr f ↦
            rw (e, f, ap (λ x. eq x v) ((lawful r.stable_identity b.stable_identity).0 e) ∙ f) refl
      ]
      | inr e ↦ elim (Bool-cases (eq r.stable_identity v)) [
        | inl g ↦ rw (e, g, eq_apart r.stable_identity b.stable_identity v e g) refl
        | inr g ↦ rw (e, g) (find_row-put_row v b rows)
      ]
    ]

    find_row-index_rows :
        (v : V) (rows index : List (Baseline vs))
        → find_row py vs v (index_rows py vs rows index)
          ≡ first_found (last_with v rows) (find_row py vs v index)
    unfolding index_rows last_with
    find_row-index_rows v [] index = refl
    find_row-index_rows v (b ∷ rows) index =
        find_row-index_rows v rows (put_row py vs b index)
        ∙ ap (first_found (last_with v rows)) (find_row-put_row v b index)
        ∙ first_found_if (last_with v rows) (eq b.stable_identity v) b (find_row py vs v index)

    put_row-AreDistinct :
        (b : Baseline vs) (index : List (Baseline vs))
        → AreDistinct index
        → AreDistinct (put_row py vs b index)
    unfolding put_row find_row
    put_row-AreDistinct b [] h = (refl, tt)
    put_row-AreDistinct b (r ∷ rows) h =
        elim (Bool-cases (eq r.stable_identity b.stable_identity)) [
          | inl e ↦ rw e (
            subst (λ v. find_row py vs v rows ≡ none)
                ((lawful r.stable_identity b.stable_identity).0 e) h.0,
            h.1,
          )
          | inr e ↦ rw e (
            find_row-put_row r.stable_identity b rows
                ∙ rw (eq_flipped r.stable_identity b.stable_identity e) h.0,
            put_row-AreDistinct b rows h.1,
          )
        ]

    pub index_rows-AreDistinct :
        (rows index : List (Baseline vs))
        → AreDistinct index
        → AreDistinct (index_rows py vs rows index)
    unfolding index_rows
    index_rows-AreDistinct [] index h = h
    index_rows-AreDistinct (b ∷ rows) index h =
        index_rows-AreDistinct rows (put_row py vs b index) (put_row-AreDistinct b index h)

    first_found-none : (a : Option (Baseline vs)) → first_found a none ≡ a
    first_found-none (some a) = refl
    first_found-none none = refl

    -- The index has, for each identity, the last of the rows with it.
    pub find_row-index :
        (v : V) (rows : List (Baseline vs))
        → find_row py vs v (index_rows py vs rows []) ≡ last_with v rows
    find_row-index v rows =
        find_row-index_rows v rows [] ∙ unfold find_row in (first_found-none (last_with v rows))
