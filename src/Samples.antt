-- ===== src/Samples.antt =====
-- Small stand-ins for Python's text functions and untyped values, for the tests.
use diploma_munka.Prelude.{
  ℕ, ◌+◌, ◌-◌, ◌/◌, ◌≡◌, refl, ap, ◌↔◌, Bool, true, false, not, Option, none, some, [], String,
  str_eq, eq_iff, ltb, leb, ◌==◌, ==_iff,
}
use diploma_munka.Prelude.Int.{ℤ, pos, nat_abs}
use diploma_munka.Prelude.Python.{PyText}
use diploma_munka.Prelude.Values.{Values}

abbrev pub plain_text : PyText
plain_text = record {
  strip = λ s. s;
  lower = λ s. s;
  upper = λ s. s;
  casefold = λ s. s;
  int_of = λ s. none;
}

-- Values are numbers and texts.
pub data Value : Type 0 where
  nothing : Value
  number : ℕ → Value
  word : String → Value

abbrev pub amount : Value → ℕ
amount (number n) = n
amount other = 0

abbrev pub is_nothing : Value → Bool
is_nothing nothing = true
is_nothing other = false

abbrev pub same_value : Value → Value → Bool
same_value nothing nothing = true
same_value (number m) (number n) = m == n
same_value (word s) (word t) = str_eq s t
same_value v w = false

abbrev pub as_number : Value → Option ℤ
as_number (number n) = some (pos n)
as_number other = none

abbrev pub as_word : Value → String
as_word (word s) = s
as_word other = ""

abbrev pub values : Values
values = record {
  V = Value;
  null = nothing;
  is_none = is_nothing;
  of_text = word;
  of_int = λ n. number (nat_abs n);
  truthy = λ v. not (is_nothing v);
  eq = same_value;
  str = as_word;
  to_int = as_number;
  lt = λ v w. ltb (amount v) (amount w);
  le = λ v w. leb (amount v) (amount w);
  sub = λ v w. number (amount v - amount w + (amount w - amount v));
  absolute = λ v. v;
  quarter = λ v. number (amount v / 4);
  elements = λ v. [];
}

pub same_value_iff : (v w : Value) → (same_value v w ≡ true) ↔ (v ≡ w)
same_value_iff nothing nothing = (λ h. refl, λ h. refl)
same_value_iff nothing (number n) = (λ h. absurd (cc h), λ h. absurd (cc h))
same_value_iff nothing (word s) = (λ h. absurd (cc h), λ h. absurd (cc h))
same_value_iff (number m) nothing = (λ h. absurd (cc h), λ h. absurd (cc h))
same_value_iff (number m) (number n) =
    (λ h. ap number ((==_iff m n).0 h), λ h. (==_iff m n).1 (ap amount h))
same_value_iff (number m) (word s) = (λ h. absurd (cc h), λ h. absurd (cc h))
same_value_iff (word s) nothing = (λ h. absurd (cc h), λ h. absurd (cc h))
same_value_iff (word s) (number n) = (λ h. absurd (cc h), λ h. absurd (cc h))
same_value_iff (word s) (word t) =
    (λ h. ap word ((eq_iff s t).0 h), λ h. (eq_iff s t).1 (ap as_word h))
