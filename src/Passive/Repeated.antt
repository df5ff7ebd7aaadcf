-- ===== src/Passive/Repeated.antt =====
-- That a device which is seen as before raises no alarm of services/anomaly/passive.py.

use diploma_munka.Prelude.{
  ◌≡◌, refl, sym, ap, ◌∙◌, inl, inr, Bool, true, false, not, ◌&&◌, List, [], ◌∷◌, String, str_eq,
  eq_iff, any, if◌then◌else◌, Bool-cases,
}
use diploma_munka.Prelude.Python.{PyText}
use diploma_munka.Prelude.Floats.{Floats}
use diploma_munka.Prelude.Values.{Values, Dict}
use diploma_munka.Prelude.Results.{Result}
use diploma_munka.Parsing.Interpreter.{PyError}
use diploma_munka.Passive.Rules.{
  Detection, is_in, add_to_set, is_no_text, text_of, norm, set_of, only, when,
}

-- Membership of a row.
pub data IsRow {R : Type 0} (c : R) : List R → Type 0 where
  here : (rows : List R) → IsRow c (c ∷ rows)
  there : (r : R) (rows : List R) → IsRow c rows → IsRow c (r ∷ rows)

pub any-IsRow :
    {R : Type 0} (p : R → Bool) (c : R) (rows : List R)
    → p c ≡ true
    → IsRow c rows
    → any p rows ≡ true
any-IsRow p c _ h (here rows) = rw h refl
any-IsRow p c _ h (there r rows m) = elim (Bool-cases (p r)) [
  | inl e ↦ rw e refl
  | inr e ↦ rw e (any-IsRow p c rows h m)
]

pub str_eq_refl : (s : String) → str_eq s s ≡ true
str_eq_refl s = (eq_iff s s).1 refl

add_to_set-is_in : (s : String) (set : List String) → is_in s (add_to_set s set) ≡ true
unfolding add_to_set
add_to_set-is_in s set = elim (Bool-cases (is_in s set)) [
  | inl e ↦ rw e e
  | inr e ↦ rw (e, str_eq_refl s) refl
]

add_to_set-keeps :
    (s t : String) (set : List String) → is_in t set ≡ true → is_in t (add_to_set s set) ≡ true
unfolding add_to_set
add_to_set-keeps s t set h = elim (Bool-cases (is_in s set)) [
  | inl e ↦ rw e h
  | inr e ↦ elim (Bool-cases (str_eq t s)) [ inl f ↦ rw (e, f) refl | inr f ↦ rw (e, f) h ]
]

if-true : {A : Type 0} (b : Bool) (x y : A) → b ≡ true → (if b then x else y) ≡ x
if-true true x y h = refl
if-true false x y h = absurd (cc h)

if-false : {A : Type 0} (b : Bool) (x y : A) → b ≡ false → (if b then x else y) ≡ y
if-false false x y h = refl
if-false true x y h = absurd (cc h)

module _ (py : PyText) (vs : Values) (fl : Floats) (to_float : vs.V → Result PyError fl.F) where
  open py use {strip, casefold}
  open vs use {V, of_text, truthy, str}

  -- What Python does with texts: `str(s)` is `s`, which is false if it is empty. Nothing is left to
  -- strip in what has been stripped, and nothing is in the empty text.
  pub record KeepsTexts : Type 0 where
    pub str_text : (s : String) → str (of_text s) ≡ s
    pub truthy_text : (s : String) → truthy (of_text s) ≡ not (is_no_text s)
    pub strip_again : (s : String) → strip (strip s) ≡ strip s
    pub strip_empty : strip "" ≡ ""
    pub casefold_empty : casefold "" ≡ ""

  pub only-IsRow :
      (p : Dict vs → Bool) (c : Dict vs) (rows : List (Dict vs))
      → p c ≡ true
      → IsRow c rows
      → IsRow c (only py vs fl to_float p rows)
  unfolding only
  only-IsRow p c _ h (here rows) = rw h (here (only py vs fl to_float p rows))
  only-IsRow p c _ h (there r rows m) = elim (Bool-cases (p r)) [
    | inl e ↦ rw e (there r (only py vs fl to_float p rows) (only-IsRow p c rows h m))
    | inr e ↦ rw e (only-IsRow p c rows h m)
  ]

  pub is_in-set_of :
      (p : Dict vs → Bool) (f : Dict vs → String) (c : Dict vs) (rows : List (Dict vs))
      → p c ≡ true
      → IsRow c rows
      → is_in (f c) (set_of py vs fl to_float p f rows) ≡ true
  unfolding set_of
  is_in-set_of p f c _ h (here rows) =
      rw h (add_to_set-is_in (f c) (set_of py vs fl to_float p f rows))
  is_in-set_of p f c _ h (there r rows m) = elim (Bool-cases (p r)) [
    | inl e ↦ rw e (
        add_to_set-keeps (f r) (f c) (set_of py vs fl to_float p f rows)
          (is_in-set_of p f c rows h m))
    | inr e ↦ rw e (is_in-set_of p f c rows h m)
  ]

  pub only-never :
      (p : Dict vs → Bool) (rows : List (Dict vs))
      → ((r : Dict vs) → p r ≡ false)
      → only py vs fl to_float p rows ≡ []
  unfolding only
  only-never p [] h = refl
  only-never p (r ∷ rows) h = rw (h r) (only-never p rows h)

  pub when-false :
      (test : Bool) (d : Detection V fl.F) → test ≡ false → when py vs fl to_float test d ≡ []
  unfolding when
  when-false test d h = rw h refl

  module _ (texts : KeepsTexts) where
    pub text_of-none : (v : V) → truthy v ≡ false → text_of py vs fl to_float v ≡ ""
    text_of-none v h = ap str (if-false (truthy v) v (of_text "") h) ∙ texts.str_text ""

    pub text_of-of_text : (s : String) → text_of py vs fl to_float (of_text s) ≡ s
    text_of-of_text s = elim (Bool-cases (is_no_text s)) [
      | inl e ↦ text_of-none (of_text s) (texts.truthy_text s ∙ ap not e) ∙ sym ((eq_iff s "").0 e)
      | inr e ↦
          ap str
            (if-true (truthy (of_text s)) (of_text s) (of_text "") (texts.truthy_text s ∙ ap not e))
          ∙ texts.str_text s
    ]

    pub norm-of_text : (s : String) → norm py vs fl to_float (of_text s) ≡ casefold (strip s)
    unfolding norm
    norm-of_text s = ap (λ t. casefold (strip t)) (text_of-of_text s)

    pub norm-none : (v : V) → truthy v ≡ false → norm py vs fl to_float v ≡ ""
    unfolding norm
    norm-none v h =
        ap (λ t. casefold (strip t)) (text_of-none v h)
        ∙ ap casefold texts.strip_empty
        ∙ texts.casefold_empty

-- Three tests of which one fails.
pub last_fails : (a b c : Bool) → c ≡ true → (a && b && not c) ≡ false
last_fails true true c h = rw h refl
last_fails true false c h = refl
last_fails false b c h = refl

pub middle_fails : (a b c : Bool) → b ≡ true → (a && not b && c) ≡ false
middle_fails true b c h = rw h refl
middle_fails false b c h = refl

pub second_fails : (a b : Bool) → b ≡ true → (a && not b) ≡ false
second_fails true b h = rw h refl
second_fails false b h = refl

pub first_of_three : (a b c : Bool) → a ≡ true → (not a && b && c) ≡ false
first_of_three a b c h = rw h refl
