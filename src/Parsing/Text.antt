-- ===== src/Parsing/Text.antt =====
-- The operations on texts that utils/parsing.py uses: searches, substitutions and splits.
use Prim.Native.Char.{Char, code}
use Prim.Native.String.{◌++◌ as append}
use diploma_munka.Prelude.{
  ℕ, Bool, true, false, ◌&&◌, ◌||◌, List, [], ◌∷◌, String, str_eq, leb, ◌==◌, any, if◌then◌else◌,
  ◌≡◌, refl,
}

abbrev pub empty_text : String → Bool
empty_text s = str_eq s ""

-- `s.startswith(t)`
unfoldable pub starts_with : String → String → Bool
starts_with s String.[] = true
starts_with String.[] (String.◌∷◌ d t) = false
starts_with (String.◌∷◌ c s) (String.◌∷◌ d t) = (code c == code d) && starts_with s t

-- `t in s`
unfoldable pub contains : String → String → Bool
contains String.[] t = empty_text t
contains (String.◌∷◌ c s) t = starts_with (String.◌∷◌ c s) t || contains s t

-- `any(token in s for token in tokens)`
abbrev pub contains_any : List String → String → Bool
contains_any tokens s = any (contains s) tokens

-- `s in {…}`
abbrev pub is_one_of : List String → String → Bool
is_one_of words s = any (str_eq s) words

-- `s.replace(c, t)` for one character
unfoldable pub replace : ℕ → String → String → String
replace n t String.[] = ""
replace n t (String.◌∷◌ c s) =
    let rest = replace n t s in if code c == n then append t rest else String.◌∷◌ c rest

-- `[a-z0-9]`
abbrev pub is_key_char : Char → Bool
is_key_char c = (leb b'a' (code c) && leb (code c) b'z') || (leb b'0' (code c) && leb (code c) b'9')

unfoldable pub keep_key_chars : String → String
keep_key_chars String.[] = ""
keep_key_chars (String.◌∷◌ c s) =
    let rest = keep_key_chars s in if is_key_char c then String.◌∷◌ c rest else rest

-- `re.sub(r"[^a-z0-9]+", "_", s)`: each run of other characters is one underscore. The flag says
-- that the last character was such.
unfoldable pub underscored : Bool → String → String
underscored inside String.[] = ""
underscored inside (String.◌∷◌ c s) =
    let good = underscored false s in
    let bad = underscored true s in
    if is_key_char c then String.◌∷◌ c good else if inside then bad else append "_" bad

-- `s.strip("_")`
unfoldable pub lstrip_underscore : String → String
lstrip_underscore String.[] = ""
lstrip_underscore (String.◌∷◌ c s) =
    let rest = lstrip_underscore s in if code c == b'_' then rest else String.◌∷◌ c s

unfoldable pub rstrip_underscore : String → String
rstrip_underscore String.[] = ""
rstrip_underscore (String.◌∷◌ c s) =
    let rest = rstrip_underscore s in
    if (code c == b'_') && empty_text rest then "" else String.◌∷◌ c rest

abbrev pub strip_underscore : String → String
strip_underscore s = rstrip_underscore (lstrip_underscore s)

-- `re.split(r"[,;\s]+", s)`: the pieces between the runs of separators.
module _ (is_space : Char → Bool) where
  abbrev pub is_separator : Char → Bool
  is_separator c = (code c == b',') || (code c == b';') || is_space c

  -- `piece` is what stands before the next separator, `inside` says that one was read last.
  unfoldable pub split_from : Bool → String → String → List String
  split_from inside piece String.[] = piece ∷ []
  split_from inside piece (String.◌∷◌ c s) =
      let next = split_from true "" s in
      let longer = split_from false (append piece (String.◌∷◌ c "")) s in
      if is_separator c then if inside then next else piece ∷ next else longer

  abbrev pub split_list : String → List String
  split_list s = split_from false "" s

splits : split_list (λ c. code c == b' ') ",a; b" ≡ "" ∷ "a" ∷ "b" ∷ []
unfolding split_from
splits = refl
