-- ===== src/Prelude/Results.antt =====
-- Exceptions as values: what a call returns, or what it raises.
use mathlib.Core.Path.{◌≡◌, refl}
use mathlib.Core.Logic.{◌⊎◌, inl, inr}
use mathlib.Core.Bool.{Bool, true, false}
use mathlib.Core.List.{List, [], ◌∷◌}
use diploma_munka.Prelude.Lists.{All}

pub data Result {ℓ} (E : Type 0) (A : Type ℓ) : Type ℓ where
  ok : A → Result E A
  raise : E → Result E A

infixl 5 ◌>>=◌ ◌>>◌
abbrev pub ◌>>=◌ {ℓ κ} :
    {E : Type 0} {A : Type ℓ} {B : Type κ} → Result E A → (A → Result E B) → Result E B
ok a >>= f = f a
raise e >>= f = raise e

abbrev pub ◌>>◌ {ℓ} : {E : Type 0} {B : Type ℓ} → Result E (Unit {0}) → Result E B → Result E B
m >> k = m >>= λ _. k

-- `if bad: raise e`
abbrev pub raise_if : {E : Type 0} → Bool → E → Result E (Unit {0})
raise_if true e = raise e
raise_if false e = ok tt

-- A row of `if bad: raise e`, in the order of the source.
unfoldable pub raise_first : {E : Type 0} → List (Bool × E) → Result E (Unit {0})
raise_first [] = ok tt
raise_first ((bad, e) ∷ checks) = elim bad [ true ↦ raise e | false ↦ raise_first checks ]

module _ {E : Type 0} where
  -- A row of checks returns if none of them fires.
  pub raise_first_sound :
      (cs : List (Bool × E)) → raise_first cs ≡ ok tt → All (λ c. c.0 ≡ false) cs
  unfolding raise_first
  raise_first_sound [] h = tt
  raise_first_sound ((true, e) ∷ cs) h = absurd (cc)
  raise_first_sound ((false, e) ∷ cs) h = (refl, raise_first_sound cs h)

  pub raise_first_complete :
      (cs : List (Bool × E)) → All (λ c. c.0 ≡ false) cs → raise_first cs ≡ ok tt
  unfolding raise_first
  raise_first_complete [] h = refl
  raise_first_complete ((true, e) ∷ cs) h = absurd (cc h.0)
  raise_first_complete ((false, e) ∷ cs) h = raise_first_complete cs h.1

module _ {ℓ κ} {E : Type 0} {A : Type ℓ} {B : Type κ} where
  -- A chain that returns has returned at its first link.
  pub bind_ok :
      (m : Result E A) (f : A → Result E B) {b : B}
      → (m >>= f) ≡ ok b
      → (a : A) × (m ≡ ok a) × (f a ≡ ok b)
  bind_ok (ok a) f h = (a, refl, h)
  bind_ok (raise e) f h = absurd (cc h)

module _ {ℓ} {E : Type 0} {A : Type ℓ} where
  pub ok_injective : (a b : A) → ◌≡◌ {A = Result E A} (ok a) (ok b) → a ≡ b
  ok_injective a b h = cc h

pub Result-cases {ℓ} :
    {E : Type 0} {A : Type ℓ} (r : Result E A) → ((a : A) × (r ≡ ok a)) ⊎ ((e : E) × (r ≡ raise e))
Result-cases (ok a) = inl (a, refl)
Result-cases (raise e) = inr (e, refl)
