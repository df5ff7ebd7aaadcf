-- ===== src/Parsing/Mac.antt =====
-- The first MAC address of a text, `MAC_RE` and `parse_mac` of utils/parsing.py.
use Prim.Native.Char.{Char, code}
use diploma_munka.Prelude.{
  ℕ, zero, suc, ◌+◌, ◌-◌, Bool, true, false, not, ◌&&◌, ◌||◌, Option, none, some, List, [], ◌∷◌,
  String, leb, ◌==◌, if◌then◌else◌,
}
use diploma_munka.Ingest.Json.{Json}
use diploma_munka.Parsing.Interpreter.{Interpreter}
use diploma_munka.Parsing.Rows.{is_blank}

-- The value of `[0-9a-f]`, in either case.
unfoldable pub hex_value : Char → Option ℕ
hex_value c =
    if leb b'0' (code c) && leb (code c) b'9'
    then some (code c - b'0')
    else if leb b'a' (code c) && leb (code c) b'f'
    then some (code c - b'a' + 10)
    else if leb b'A' (code c) && leb (code c) b'F'
    then some (code c - b'A' + 10)
    else none

-- The two digits of an octet.
abbrev pub Octet : Type 0
Octet = ℕ × ℕ

abbrev pub pair_of : Option ℕ → Option ℕ → String → Option (Octet × String)
pair_of (some h) (some l) s = some ((h, l), s)
pair_of (some h) none s = none
pair_of none l s = none

unfoldable pub hex_pair : String → Option (Octet × String)
hex_pair String.[] = none
hex_pair (String.◌∷◌ a String.[]) = none
hex_pair (String.◌∷◌ a (String.◌∷◌ b s)) = pair_of (hex_value a) (hex_value b) s

-- `[:-]`
abbrev pub is_colon_or_dash : Char → Bool
is_colon_or_dash c = (code c == b':') || (code c == b'-')

-- A match that goes on behind an octet.
abbrev pub with_octet : Octet → Option (List Octet × String) → Option (List Octet × String)
with_octet o none = none
with_octet o (some (os, rest)) = some (o ∷ os, rest)

abbrev pub go_on :
    (String → Option (List Octet × String)) → Option (Octet × String) → Option (List Octet × String)
go_on next none = none
go_on next (some (o, rest)) = with_octet o (next rest)

-- A number of octets, each after a separator.
unfoldable pub more_octets : ℕ → String → Option (List Octet × String)
more_octets zero s = some ([], s)
more_octets (suc n) String.[] = none
more_octets (suc n) (String.◌∷◌ c s) =
    if is_colon_or_dash c then go_on (more_octets n) (hex_pair s) else none

-- `\w`
abbrev pub is_word : (Char → Bool) → Char → Bool
is_word is_other_word c =
    (leb b'0' (code c) && leb (code c) b'9')
    || (leb b'a' (code c) && leb (code c) b'z')
    || (leb b'A' (code c) && leb (code c) b'Z')
    || (code c == b'_')
    || is_other_word c

-- `\b` behind a digit
abbrev pub ends_word : (Char → Bool) → String → Bool
ends_word is_other_word String.[] = true
ends_word is_other_word (String.◌∷◌ c s) = not (is_word is_other_word c)

abbrev pub whole_match : (Char → Bool) → Option (List Octet × String) → Option (List Octet)
whole_match is_other_word none = none
whole_match is_other_word (some (os, rest)) = if ends_word is_other_word rest then some os else none

-- A match where the text begins, as its six octets.
unfoldable pub mac_at : (Char → Bool) → String → Option (List Octet)
mac_at is_other_word s = whole_match is_other_word (go_on (more_octets 5) (hex_pair s))

abbrev pub first_match : Option (List Octet) → Option (List Octet) → Option (List Octet)
first_match (some os) rest = some os
first_match none rest = rest

-- The first match. A digit is a word character, so that `\b` in front of it asks that none precedes.
unfoldable pub search_mac : (Char → Bool) → Bool → String → Option (List Octet)
search_mac is_other_word after_word String.[] = none
search_mac is_other_word after_word (String.◌∷◌ c s) =
    let rest = search_mac is_other_word (is_word is_other_word c) s in
    if after_word then rest else first_match (mac_at is_other_word (String.◌∷◌ c s)) rest

abbrev pub upper_digit : ℕ → Char
upper_digit n =
    if n == 0
    then "0"
    else if n == 1
    then "1"
    else if n == 2
    then "2"
    else if n == 3
    then "3"
    else if n == 4
    then "4"
    else if n == 5
    then "5"
    else if n == 6
    then "6"
    else if n == 7
    then "7"
    else if n == 8
    then "8"
    else if n == 9
    then "9"
    else if n == 10
    then "A"
    else if n == 11
    then "B"
    else if n == 12
    then "C"
    else if n == 13
    then "D"
    else if n == 14
    then "E"
    else "F"

-- Octets as a text, by how a digit and the separator are written.
unfoldable pub spell_more : (ℕ → Char) → Char → List Octet → String
spell_more digit separator [] = ""
spell_more digit separator ((h, l) ∷ os) =
    String.◌∷◌ separator
      (String.◌∷◌ (digit h) (String.◌∷◌ (digit l) (spell_more digit separator os)))

unfoldable pub spell : (ℕ → Char) → Char → List Octet → String
spell digit separator [] = ""
spell digit separator ((h, l) ∷ os) =
    String.◌∷◌ (digit h) (String.◌∷◌ (digit l) (spell_more digit separator os))

-- `match.group(0).upper().replace("-", ":")`
abbrev pub canonical : List Octet → String
canonical os = spell upper_digit ":" os

abbrev pub print_match : Option (List Octet) → Option String
print_match none = none
print_match (some os) = some (canonical os)

module _ (it : Interpreter) where
  open it use {F, is_other_word, str_of}

  unfoldable pub parse_mac : Json F → Option String
  parse_mac value =
      if is_blank value then none else print_match (search_mac is_other_word false (str_of value))
