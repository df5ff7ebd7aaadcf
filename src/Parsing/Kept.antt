-- ===== src/Parsing/Kept.antt =====
-- What the flattened rows of utils/parsing.py hold.
use mathlib.Core.Path.{subst}
use diploma_munka.Prelude.{
  eq_iff, ◌≡◌, refl, sym, inl, inr, Bool, true, false, not, ◌&&◌, some, [], ◌∷◌, ◌++◌, String,
  str_eq, Bool-cases,
}
use diploma_munka.Ingest.Json.{Json, null, bool, int, float, str, arr, obj, Fields, end, field}
use diploma_munka.Parsing.Text.{empty_text, contains}
use diploma_munka.Parsing.Rows.{Row, to_row, add_new, has_key}
use diploma_munka.Parsing.Found.{
  find_key, Extends, Has, Extends-trans, add_new-Extends, add_new-Has, Has-more,
  find_key-append_one,
}
use diploma_munka.Parsing.Flatten.{
  path_of, add_dotted, visit, visit_fields, flatten_kismet_row, flatten_bettercap_row,
}

module _ {F : Type 0} where
  -- The value of a key of a flattened row: the one at the end of a path of keys, or, where `dotted`
  -- asks for it, the one of a nested key that has a point.
  pub data IsSource (dotted : Bool) : String → String → Json F → Fields F → Type 0 where
    here :
        (prefix k : String) (v : Json F) (rest : Fields F)
        → IsSource dotted prefix (path_of prefix k) v (field k v rest)
    bare :
        (prefix k : String) (v : Json F) (rest : Fields F)
        → (dotted && not (empty_text prefix) && contains k ".") ≡ true
        → IsSource dotted prefix k v (field k v rest)
    later :
        (prefix k key : String) (v w : Json F) (rest : Fields F)
        → IsSource dotted prefix key v rest
        → IsSource dotted prefix key v (field k w rest)
    inside :
        (prefix k key : String) (v : Json F) (fs rest : Fields F)
        → IsSource dotted (path_of prefix k) key v fs
        → IsSource dotted prefix key v (field k (obj fs) rest)

  add_dotted-Extends :
      (dotted : Bool) (prefix key : String) (v : Json F) (row : Row F)
      → Extends row (add_dotted dotted prefix key v row)
  add_dotted-Extends dotted prefix key v row =
      elim (Bool-cases (dotted && not (empty_text prefix) && contains key ".")) [
        | inl e ↦ rw e (add_new-Extends key v row)
        | inr e ↦ rw e (λ k w h. h)
      ]

  -- The row before what `visit` does for a value that is itself a dict.
  abbrev added : Bool → String → String → Json F → Row F → Row F
  added dotted prefix key v row =
      add_dotted dotted prefix key v (add_new (path_of prefix key) v row)

  added-Extends :
      (dotted : Bool) (prefix key : String) (v : Json F) (row : Row F)
      → Extends row (added dotted prefix key v row)
  added-Extends dotted prefix key v row =
      Extends-trans row (add_new (path_of prefix key) v row) _
        (add_new-Extends (path_of prefix key) v row)
        (add_dotted-Extends dotted prefix key v (add_new (path_of prefix key) v row))

  mutual
    unfolding visit visit_fields

    visit-Extends :
        (dotted : Bool) (v : Json F) (prefix : String) (row : Row F)
        → Extends row (visit dotted v prefix row)
    visit-Extends dotted (obj fs) prefix row = visit_fields-Extends dotted fs prefix row
    visit-Extends dotted null prefix row = λ k w h. h
    visit-Extends dotted (bool b) prefix row = λ k w h. h
    visit-Extends dotted (int n) prefix row = λ k w h. h
    visit-Extends dotted (float x) prefix row = λ k w h. h
    visit-Extends dotted (str s) prefix row = λ k w h. h
    visit-Extends dotted (arr vs) prefix row = λ k w h. h

    visit_fields-Extends :
        (dotted : Bool) (fs : Fields F) (prefix : String) (row : Row F)
        → Extends row (visit_fields dotted fs prefix row)
    visit_fields-Extends dotted end prefix row = λ k w h. h
    visit_fields-Extends dotted (field key v rest) prefix row =
        let start = added dotted prefix key v row in
        let inner = visit dotted v (path_of prefix key) start in
        Extends-trans row start _ (added-Extends dotted prefix key v row) (
          Extends-trans start inner _ (visit-Extends dotted v (path_of prefix key) start)
            (visit_fields-Extends dotted rest prefix inner))

  add_dotted-Has :
      (dotted : Bool) (prefix key : String) (v : Json F) (row : Row F)
      → (dotted && not (empty_text prefix) && contains key ".") ≡ true
      → Has key (add_dotted dotted prefix key v row)
  add_dotted-Has dotted prefix key v row e = rw e (add_new-Has key v row)

  -- What the row has once the value of the first key is in it, it has in the end.
  visit_fields-Has_later :
      (dotted : Bool) (prefix k key : String) (v : Json F) (rest : Fields F) (row : Row F)
      → Has key (added dotted prefix k v row)
      → Has key (visit_fields dotted (field k v rest) prefix row)
  unfolding visit_fields
  visit_fields-Has_later dotted prefix k key v rest row h =
      let start = added dotted prefix k v row in
      let inner = visit dotted v (path_of prefix k) start in
      Has-more key inner _ (visit_fields-Extends dotted rest prefix inner)
        (Has-more key start inner (visit-Extends dotted v (path_of prefix k) start) h)

  visit_fields-Has :
      (dotted : Bool) (fs : Fields F) (prefix key : String) (v : Json F) (row : Row F)
      → IsSource dotted prefix key v fs
      → Has key (visit_fields dotted fs prefix row)
  unfolding visit visit_fields
  visit_fields-Has dotted _ _ _ _ row (here prefix k v rest) =
      visit_fields-Has_later dotted prefix k (path_of prefix k) v rest row (
        Has-more (path_of prefix k) (add_new (path_of prefix k) v row) _
          (add_dotted-Extends dotted prefix k v (add_new (path_of prefix k) v row))
          (add_new-Has (path_of prefix k) v row))
  visit_fields-Has dotted _ _ _ _ row (bare prefix k v rest e) =
      visit_fields-Has_later dotted prefix k k v rest row
        (add_dotted-Has dotted prefix k v (add_new (path_of prefix k) v row) e)
  visit_fields-Has dotted _ _ _ _ row (later prefix k key v w rest at) =
      visit_fields-Has dotted rest prefix key v
        (visit dotted w (path_of prefix k) (added dotted prefix k w row)) at
  visit_fields-Has dotted _ _ _ _ row (inside prefix k key v fs' rest at) =
      let start = added dotted prefix k (obj fs') row in
      let inner = visit_fields dotted fs' (path_of prefix k) start in
      Has-more key inner _ (visit_fields-Extends dotted rest prefix inner)
        (visit_fields-Has dotted fs' (path_of prefix k) key v start at)

  module _ (P : String → Json F → Type 0) where
    abbrev AllAre : Row F → Type 0
    AllAre row = (key : String) (v : Json F) → find_key key row ≡ some v → P key v

    append-AllAre :
        (key : String) (v : Json F) (row : Row F)
        → P key v
        → AllAre row
        → AllAre (row ++ (key, v) ∷ [])
    append-AllAre key v row one all k w h = elim (find_key-append_one key v k w row h) [
      | inl found ↦ all k w found
      | inr (same_key, same) ↦ subst (λ x. P k x) same (subst (λ x. P x v) same_key one)
    ]

    add_new-AllAre :
        (key : String) (v : Json F) (row : Row F)
        → P key v
        → AllAre row
        → AllAre (add_new key v row)
    add_new-AllAre key v row one all = elim (Bool-cases (has_key key row)) [
      | inl e ↦ rw e all
      | inr e ↦ rw e (append-AllAre key v row one all)
    ]

    add_dotted-AllAre :
        (dotted : Bool) (prefix key : String) (v : Json F) (row : Row F)
        → ((dotted && not (empty_text prefix) && contains key ".") ≡ true → P key v)
        → AllAre row
        → AllAre (add_dotted dotted prefix key v row)
    add_dotted-AllAre dotted prefix key v row one all =
        elim (Bool-cases (dotted && not (empty_text prefix) && contains key ".")) [
          | inl e ↦ rw e (add_new-AllAre key v row (one e) all)
          | inr e ↦ rw e all
        ]

    mutual
      unfolding visit visit_fields

      visit-AllAre :
          (dotted : Bool) (v : Json F) (prefix : String) (row : Row F)
          → ((fs : Fields F) (key : String) (w : Json F)
              → v ≡ obj fs
              → IsSource dotted prefix key w fs
              → P key w)
          → AllAre row
          → AllAre (visit dotted v prefix row)
      visit-AllAre dotted (obj fs) prefix row from all =
          visit_fields-AllAre dotted fs prefix row (λ key w s. from fs key w refl s) all
      visit-AllAre dotted null prefix row from all = all
      visit-AllAre dotted (bool b) prefix row from all = all
      visit-AllAre dotted (int n) prefix row from all = all
      visit-AllAre dotted (float x) prefix row from all = all
      visit-AllAre dotted (str s) prefix row from all = all
      visit-AllAre dotted (arr vs) prefix row from all = all

      visit_fields-AllAre :
          (dotted : Bool) (fs : Fields F) (prefix : String) (row : Row F)
          → ((key : String) (w : Json F) → IsSource dotted prefix key w fs → P key w)
          → AllAre row
          → AllAre (visit_fields dotted fs prefix row)
      visit_fields-AllAre dotted end prefix row from all = all
      visit_fields-AllAre dotted (field k v rest) prefix row from all =
          visit_fields-AllAre dotted rest prefix _
            (λ key w s. from key w (later prefix k key w v rest s))
            (visit-AllAre dotted v (path_of prefix k) (added dotted prefix k v row)
              (λ fs key w e s. from key w (
                subst (λ x. IsSource dotted prefix key w (field k x rest)) (sym e)
                  (inside prefix k key w fs rest s)))
              (add_dotted-AllAre dotted prefix k v (add_new (path_of prefix k) v row)
                (λ e. from k v (bare prefix k v rest e))
                (add_new-AllAre (path_of prefix k) v row
                  (from (path_of prefix k) v (here prefix k v rest)) all)))

  to_row-IsSource :
      (dotted : Bool) (fs : Fields F) (key : String) (v : Json F)
      → find_key key (to_row fs) ≡ some v
      → IsSource dotted "" key v fs
  unfolding find_key to_row
  to_row-IsSource dotted end key v h = absurd (cc h)
  to_row-IsSource dotted (field k w rest) key v h = elim (Bool-cases (str_eq k key)) [
    | inl e ↦
        subst (λ x. IsSource dotted "" x v (field k w rest)) ((eq_iff k key).0 e)
          (subst (λ x. IsSource dotted "" k x (field k w rest)) (cc (h, e)) (here "" k w rest))
    | inr e ↦ later "" k key v w rest (to_row-IsSource dotted rest key v (cc (h, e)))
  ]

  -- A flattened row: it has the keys of the row with their values, a value for each path of keys
  -- through the nested objects, and no value but that of a source of its key.
  pub record IsComplete (dotted : Bool) (row : Fields F) (flat : Row F) : Type 0 where
    pub kept : Extends (to_row row) flat
    pub complete : (key : String) (v : Json F) → IsSource dotted "" key v row → Has key flat
    pub sound :
        (key : String) (v : Json F) → find_key key flat ≡ some v → IsSource dotted "" key v row

  visit_fields-IsComplete :
      (dotted : Bool) (row : Fields F)
      → IsComplete dotted row (visit_fields dotted row "" (to_row row))
  visit_fields-IsComplete dotted row = record {
    kept = visit_fields-Extends dotted row "" (to_row row);
    complete = λ key v s. visit_fields-Has dotted row "" key v (to_row row) s;
    sound =
        visit_fields-AllAre (λ key v. IsSource dotted "" key v row) dotted row "" (to_row row)
          (λ key w s. s) (to_row-IsSource dotted row);
  }

  -- Both ways of flattening a row keep the value of each of its keys, and have a value for each path
  -- of keys through the nested objects, the one of Kismet for nested keys with a point too. No key
  -- has a value but one that stands in the row at that path, or under that nested key.
  pub flatten_kismet_row-IsComplete :
      (row : Fields F)
      → IsComplete true row (flatten_kismet_row row)
        × IsComplete false row (flatten_bettercap_row row)
  unfolding flatten_kismet_row flatten_bettercap_row
  flatten_kismet_row-IsComplete row =
      (visit_fields-IsComplete true row, visit_fields-IsComplete false row)
