-- ===== src/Parsing/Spelling.antt =====
-- That `parse_mac` of utils/parsing.py finds an address however it is spelled, and keeps its own
-- results.
use Prim.Native.Char.{Char}
use mathlib.Core.Path.{subst}
use text.Mathlib.TextLemmas.{cons-ne-nil}
use text.Mathlib.TextEquality.{eq_iff}
use diploma_munka.Parsing.Text.{empty_text}
use diploma_munka.Prelude.{
  ℕ, zero, suc, ◌<◌, ◌≡◌, refl, ap, ◌∙◌, inl, inr, arith, Bool, true, false, Option, none, some,
  List, [], ◌∷◌, String, if◌then◌else◌, All, length, Bool-cases,
}
use diploma_munka.Ingest.Json.{Json, str}
use diploma_munka.Parsing.Interpreter.{Interpreter}
use diploma_munka.Parsing.Rows.{is_blank}
use diploma_munka.Parsing.Mac.{
  hex_value, Octet, pair_of, hex_pair, with_octet, go_on, whole_match, first_match, print_match,
  is_colon_or_dash, is_word, more_octets, ends_word, mac_at, search_mac, upper_digit, spell_more,
  spell, canonical, parse_mac,
}

-- A way to write the digits that reads back.
abbrev pub IsDigit : (ℕ → Char) → Type 0
IsDigit digit = (n : ℕ) → n < 16 → hex_value (digit n) ≡ some n

pub upper_digit-IsDigit : IsDigit upper_digit
unfolding hex_value
upper_digit-IsDigit zero h = refl
upper_digit-IsDigit (suc zero) h = refl
upper_digit-IsDigit (suc (suc zero)) h = refl
upper_digit-IsDigit (suc (suc (suc zero))) h = refl
upper_digit-IsDigit (suc (suc (suc (suc zero)))) h = refl
upper_digit-IsDigit (suc (suc (suc (suc (suc zero))))) h = refl
upper_digit-IsDigit (suc (suc (suc (suc (suc (suc zero)))))) h = refl
upper_digit-IsDigit (suc (suc (suc (suc (suc (suc (suc zero))))))) h = refl
upper_digit-IsDigit (suc (suc (suc (suc (suc (suc (suc (suc zero)))))))) h = refl
upper_digit-IsDigit (suc (suc (suc (suc (suc (suc (suc (suc (suc zero))))))))) h = refl
upper_digit-IsDigit (suc (suc (suc (suc (suc (suc (suc (suc (suc (suc zero)))))))))) h = refl
upper_digit-IsDigit (suc (suc (suc (suc (suc (suc (suc (suc (suc (suc (suc zero))))))))))) h = refl
upper_digit-IsDigit (suc (suc (suc (suc (suc (suc (suc (suc (suc (suc (suc (suc zero)))))))))))) h =
    refl
upper_digit-IsDigit
      (suc (suc (suc (suc (suc (suc (suc (suc (suc (suc (suc (suc (suc zero))))))))))))) h =
    refl
upper_digit-IsDigit
      (suc (suc (suc (suc (suc (suc (suc (suc (suc (suc (suc (suc (suc (suc zero)))))))))))))) h =
    refl
upper_digit-IsDigit
      (suc (suc (suc (suc (suc (suc (suc (suc (suc (suc (suc (suc (suc (suc (suc zero)))))))))))))))
      h =
    refl
upper_digit-IsDigit
      (suc
        (suc (suc (suc (suc (suc (suc (suc (suc (suc (suc (suc (suc (suc (suc (suc n))))))))))))))))
      h =
    absurd (omega arith)

abbrev pub IsOctet : Octet → Type 0
IsOctet o = (o.0 < 16) × (o.1 < 16)

hex_value_bound : (c : Char) (n : ℕ) → hex_value c ≡ some n → n < 16
unfolding hex_value
hex_value_bound c n h = ground arith

pair_of-parts :
    (x y : Option ℕ) (s : String) (o : Octet) (rest : String)
    → pair_of x y s ≡ some (o, rest)
    → (x ≡ some o.0) × (y ≡ some o.1)
pair_of-parts (some a) (some b) s o rest h = (cc h, cc h)
pair_of-parts (some a) none s o rest h = absurd (cc h)
pair_of-parts none y s o rest h = absurd (cc h)

hex_pair-IsOctet :
    (s : String) (o : Octet) (rest : String) → hex_pair s ≡ some (o, rest) → IsOctet o
unfolding hex_pair
hex_pair-IsOctet String.[] o rest h = absurd (cc h)
hex_pair-IsOctet (String.◌∷◌ a String.[]) o rest h = absurd (cc h)
hex_pair-IsOctet (String.◌∷◌ a (String.◌∷◌ b s)) o rest h =
    let (high, low) = pair_of-parts (hex_value a) (hex_value b) s o rest h in
    (hex_value_bound a o.0 high, hex_value_bound b o.1 low)

hex_pair-spell :
    (digit : ℕ → Char)
    → IsDigit digit
    → (o : Octet) (s : String) → IsOctet o
    → hex_pair (String.◌∷◌ (digit o.0) (String.◌∷◌ (digit o.1) s)) ≡ some (o, s)
unfolding hex_pair
hex_pair-spell digit good (a, b) s (ha, hb) = rw (good a ha, good b hb, hex_pair) refl

-- What a guarded search that finds something has found.
then_of :
    {A : Type 0} (b : Bool) (x : Option A) (v : A) → (if b then x else none) ≡ some v → x ≡ some v
then_of true x v h = h
then_of false x v h = absurd (cc h)

with_octet-parts :
    (o : Octet) (found : Option (List Octet × String)) (os : List Octet) (rest : String)
    → with_octet o found ≡ some (os, rest)
    → (os' : List Octet) × (found ≡ some (os', rest)) × (o ∷ os' ≡ os)
with_octet-parts o none os rest h = absurd (cc h)
with_octet-parts o (some (os', rest')) os rest h = (os', cc h, cc h)

go_on-parts :
    (next : String → Option (List Octet × String)) (found : Option (Octet × String))
    (os : List Octet) (rest : String)
    → go_on next found ≡ some (os, rest)
    → (o : Octet) × (s : String) × (os' : List Octet) × (found ≡ some (o, s))
      × (next s ≡ some (os', rest))
      × (o ∷ os' ≡ os)
go_on-parts next none os rest h = absurd (cc h)
go_on-parts next (some (o, s)) os rest h =
    let (os', e, e') = with_octet-parts o (next s) os rest h in (o, s, os', refl, e, e')

abbrev pub AreOctets : ℕ → List Octet → Type 0
AreOctets n os = (length os ≡ n) × All IsOctet os

more_octets-AreOctets :
    (n : ℕ) (s : String) (os : List Octet) (rest : String)
    → more_octets n s ≡ some (os, rest)
    → AreOctets n os
unfolding more_octets
more_octets-AreOctets zero s os rest h = let e : [] ≡ os = cc h in subst (AreOctets 0) e (refl, tt)
more_octets-AreOctets (suc n) String.[] os rest h = absurd (cc h)
more_octets-AreOctets (suc n) (String.◌∷◌ c s) os rest h =
    let (o, s', os', first, others, whole) =
      go_on-parts (more_octets n) (hex_pair s) os rest (then_of (is_colon_or_dash c) _ _ h) in
    let (count, digits) = more_octets-AreOctets n s' os' rest others in
    subst (AreOctets (suc n)) whole (ap suc count, (hex_pair-IsOctet s o s' first, digits))

more_octets-spell :
    (digit : ℕ → Char)
    → IsDigit digit
    → (separator : Char) → is_colon_or_dash separator ≡ true
    → (os : List Octet) → All IsOctet os
    → more_octets (length os) (spell_more digit separator os) ≡ some (os, "")
unfolding more_octets spell_more
more_octets-spell digit good separator sep [] h = refl
more_octets-spell digit good separator sep ((a, b) ∷ os) (o, h) =
    rw
      (
        sep,
        hex_pair-spell digit good (a, b) (spell_more digit separator os) o,
        more_octets-spell digit good separator sep os h,
        more_octets,
      )
      refl

-- A match has six octets.
whole_match-parts :
    (is_other_word : Char → Bool) (found : Option (List Octet × String)) (os : List Octet)
    → whole_match is_other_word found ≡ some os
    → (rest : String) × (found ≡ some (os, rest))
whole_match-parts is_other_word none os h = absurd (cc h)
whole_match-parts is_other_word (some (os', rest)) os h =
    let e : os' ≡ os = cc (then_of (ends_word is_other_word rest) _ _ h) in
    (rest, ap (λ l. some (l, rest)) e)

mac_at-AreOctets :
    (is_other_word : Char → Bool) (s : String) (os : List Octet)
    → mac_at is_other_word s ≡ some os
    → AreOctets 6 os
unfolding mac_at
mac_at-AreOctets is_other_word s os h =
    let (rest, e) = whole_match-parts is_other_word (go_on (more_octets 5) (hex_pair s)) os h in
    let (o, s', os', first, others, whole) = go_on-parts (more_octets 5) (hex_pair s) os rest e in
    let (count, digits) = more_octets-AreOctets 5 s' os' rest others in
    subst (AreOctets 6) whole (ap suc count, (hex_pair-IsOctet s o s' first, digits))

search_mac-AreOctets :
    (is_other_word : Char → Bool) (after_word : Bool) (s : String) (os : List Octet)
    → search_mac is_other_word after_word s ≡ some os
    → AreOctets 6 os
unfolding search_mac
search_mac-AreOctets is_other_word after_word String.[] os h = absurd (cc h)
search_mac-AreOctets is_other_word true (String.◌∷◌ c s) os h =
    search_mac-AreOctets is_other_word (is_word is_other_word c) s os h
search_mac-AreOctets is_other_word false (String.◌∷◌ c s) os h =
    go (mac_at is_other_word (String.◌∷◌ c s))
      (search_mac-AreOctets is_other_word (is_word is_other_word c) s os) refl h
  where
    go :
        (found : Option (List Octet))
        → (search_mac is_other_word (is_word is_other_word c) s ≡ some os → AreOctets 6 os)
        → mac_at is_other_word (String.◌∷◌ c s) ≡ found
        → first_match found (search_mac is_other_word (is_word is_other_word c) s) ≡ some os
        → AreOctets 6 os
    go (some os') later e h = mac_at-AreOctets is_other_word (String.◌∷◌ c s) os (e ∙ h)
    go none later e h = later h

-- A spelled address is found in whole.
mac_at-spell :
    (is_other_word : Char → Bool) (digit : ℕ → Char)
    → IsDigit digit
    → (separator : Char) → is_colon_or_dash separator ≡ true
    → (os : List Octet) → AreOctets 6 os
    → mac_at is_other_word (spell digit separator os) ≡ some os
unfolding mac_at spell
mac_at-spell is_other_word digit good separator sep [] (n, h) = absurd (omega (arith, n))
mac_at-spell is_other_word digit good separator sep ((a, b) ∷ os) (n, (o, h)) =
    let five : length os ≡ 5 = omega (arith, n) in
    let others =
      subst (λ k. more_octets k (spell_more digit separator os) ≡ some (os, "")) five
        (more_octets-spell digit good separator sep os h) in
    rw (hex_pair-spell digit good (a, b) (spell_more digit separator os) o, others) refl

search_mac-spell :
    (is_other_word : Char → Bool) (digit : ℕ → Char)
    → IsDigit digit
    → (separator : Char) → is_colon_or_dash separator ≡ true
    → (os : List Octet) → AreOctets 6 os
    → search_mac is_other_word false (spell digit separator os) ≡ some os
unfolding search_mac spell
search_mac-spell is_other_word digit good separator sep [] (n, h) = absurd (omega (arith, n))
search_mac-spell is_other_word digit good separator sep ((a, b) ∷ os) h =
    let text = String.◌∷◌ (digit a) (String.◌∷◌ (digit b) (spell_more digit separator os)) in
    let e : mac_at is_other_word text ≡ some ((a, b) ∷ os) =
      mac_at-spell is_other_word digit good separator sep ((a, b) ∷ os) h in
    rw (e) refl

spell-empty_text :
    (digit : ℕ → Char) (separator : Char) (os : List Octet)
    → AreOctets 6 os
    → empty_text (spell digit separator os) ≡ false
unfolding spell
spell-empty_text digit separator [] (n, h) = absurd (omega (arith, n))
spell-empty_text digit separator ((a, b) ∷ os) h =
    let text = String.◌∷◌ (digit b) (spell_more digit separator os) in
    elim (Bool-cases (empty_text (String.◌∷◌ (digit a) text))) [
      | inr e ↦ e
      | inl e ↦ absurd (cons-ne-nil (digit a) text ((eq_iff (String.◌∷◌ (digit a) text) "").0 e))
    ]

else_of :
    {A : Type 0} (b : Bool) (x : Option A) (v : A) → (if b then none else x) ≡ some v → x ≡ some v
else_of true x v h = absurd (cc h)
else_of false x v h = h

print_match-parts :
    (found : Option (List Octet)) (m : String)
    → print_match found ≡ some m
    → (os : List Octet) × (found ≡ some os) × (canonical os ≡ m)
print_match-parts none m h = absurd (cc h)
print_match-parts (some os) m h = (os, refl, cc h)

module _ (it : Interpreter) where
  open it use {F, is_other_word, str_of}

  -- `str(s)` is `s`.
  abbrev pub IsPlain : Type 0
  IsPlain = (s : String) → str_of (str s) ≡ s

  -- An address of six octets is found, whichever of the two separators and whatever case of digits it
  -- is spelled with, and given with capital digits and colons.
  pub parse_mac-spell :
      IsPlain
      → (digit : ℕ → Char) → IsDigit digit
      → (separator : Char) → is_colon_or_dash separator ≡ true
      → (os : List Octet) → AreOctets 6 os
      → parse_mac it (str (spell digit separator os)) ≡ some (canonical os)
  unfolding parse_mac
  parse_mac-spell plain digit good separator sep os h =
      rw
        (
          spell-empty_text digit separator os h,
          plain (spell digit separator os),
          search_mac-spell is_other_word digit good separator sep os h,
        )
        refl

  pub parse_mac-octets :
      (value : Json F) (m : String)
      → parse_mac it value ≡ some m
      → (os : List Octet) × AreOctets 6 os × (canonical os ≡ m)
  unfolding parse_mac
  parse_mac-octets value m h =
      let found = search_mac is_other_word false (str_of value) in
      let (os, e, e') = print_match-parts found m (else_of (is_blank value) _ _ h) in
      (os, search_mac-AreOctets is_other_word false (str_of value) os e, e')

  -- What is found in a value is found again in itself.
  pub parse_mac_again :
      IsPlain
      → (value : Json F) (m : String) → parse_mac it value ≡ some m
      → parse_mac it (str m) ≡ some m
  parse_mac_again plain value m h =
      let (os, six, e) = parse_mac-octets value m h in
      subst (λ t. parse_mac it (str t) ≡ some t) e
        (parse_mac-spell plain upper_digit upper_digit-IsDigit ":" refl os six)
