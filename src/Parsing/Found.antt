-- ===== src/Parsing/Found.antt =====
-- What the first entry of a key in a row of utils/parsing.py is, as entries are added.

use diploma_munka.Prelude.{
  eq_iff, ◌≡◌, ◌⊎◌, refl, inl, inr, true, Option, none, some, [], ◌∷◌, ◌++◌, String, str_eq,
  if◌then◌else◌, Bool-cases,
}
use diploma_munka.Ingest.Json.{Json}
use diploma_munka.Parsing.Rows.{Row, add_new, has_key}

module _ {F : Type 0} where
  -- `row.get(key)`
  unfoldable pub find_key : String → Row F → Option (Json F)
  find_key key [] = none
  find_key key ((k, v) ∷ row) = let rest = find_key key row in if str_eq k key then some v else rest

  abbrev pub Extends : Row F → Row F → Type 0
  Extends row row' =
      (key : String) (v : Json F) → find_key key row ≡ some v → find_key key row' ≡ some v

  pub Extends-trans : (a b c : Row F) → Extends a b → Extends b c → Extends a c
  Extends-trans a b c f g key v h = g key v (f key v h)

  find_key-append : (row more : Row F) → Extends row (row ++ more)
  unfolding find_key
  find_key-append [] more key v h = absurd (cc h)
  find_key-append ((k, w) ∷ row) more key v h = elim (Bool-cases (str_eq k key)) [
    | inl e ↦ rw e (cc (h, e))
    | inr e ↦ rw e (find_key-append row more key v (cc (h, e)))
  ]

  pub add_new-Extends : (key : String) (v : Json F) (row : Row F) → Extends row (add_new key v row)
  add_new-Extends key v row = elim (Bool-cases (has_key key row)) [
    | inl e ↦ rw e (λ k w h. h)
    | inr e ↦ rw e (find_key-append row ((key, v) ∷ []))
  ]

  abbrev pub Has : String → Row F → Type 0
  Has key row = (v : Json F) × (find_key key row ≡ some v)

  has_key-Has : (key : String) (row : Row F) → has_key key row ≡ true → Has key row
  unfolding has_key find_key
  has_key-Has key [] h = absurd (cc h)
  has_key-Has key ((k, v) ∷ row) h = elim (Bool-cases (str_eq k key)) [
    | inl e ↦ rw e (v, refl)
    | inr e ↦ rw e (has_key-Has key row (cc (h, e)))
  ]

  find_key-last : (key : String) (v : Json F) (row : Row F) → Has key (row ++ (key, v) ∷ [])
  unfolding find_key
  find_key-last key v [] = rw ((eq_iff key key).1 refl) (v, refl)
  find_key-last key v ((k, w) ∷ row) = elim (Bool-cases (str_eq k key)) [
    | inl e ↦ rw e (w, refl)
    | inr e ↦ rw e (find_key-last key v row)
  ]

  pub add_new-Has : (key : String) (v : Json F) (row : Row F) → Has key (add_new key v row)
  add_new-Has key v row = elim (Bool-cases (has_key key row)) [
    | inl e ↦ rw e (has_key-Has key row e)
    | inr e ↦ rw e (find_key-last key v row)
  ]

  pub Has-more : (key : String) (row row' : Row F) → Extends row row' → Has key row → Has key row'
  Has-more key row row' more (v, h) = (v, more key v h)

  pub find_key-append_one :
      (key : String) (v : Json F) (k : String) (w : Json F) (row : Row F)
      → find_key k (row ++ (key, v) ∷ []) ≡ some w
      → (find_key k row ≡ some w) ⊎ ((key ≡ k) × (v ≡ w))
  unfolding find_key
  find_key-append_one key v k w [] h = elim (Bool-cases (str_eq key k)) [
    | inl e ↦ inr ((eq_iff key k).0 e, cc (h, e))
    | inr e ↦ absurd (cc (h, e))
  ]
  find_key-append_one key v k w ((k', v') ∷ row) h = elim (Bool-cases (str_eq k' k)) [
    | inl e ↦ inl (cc (h, e))
    | inr e ↦ rw e (find_key-append_one key v k w row (cc (h, e)))
  ]
