-- ===== src/Parsing/Company.antt =====
-- The bounds of a company's number and the names of frame types, in utils/parsing.py.
use Prim.Native.Char.{Char}
use mathlib.Core.Path.{subst}
use diploma_munka.Prelude.{
  ℕ, zero, suc, ◌+◌, ◌*◌, ◌≤◌, ◌≡◌, refl, ◌⊎◌, inl, inr, arith, Bool, true, false, ◌&&◌, Option,
  none, some, List, [], ◌∷◌, String, str_eq, leb, all, Bool-cases,
}
use diploma_munka.Prelude.Int.{ℤ, pos, negsuc}
use diploma_munka.Prelude.Results.{Result, ok, raise}
use diploma_munka.Ingest.Json.{
  Json, null, bool, int, float, str, arr, obj, Items, nil, item, Fields, end, field,
}
use diploma_munka.Parsing.Interpreter.{Interpreter, PyError}
use diploma_munka.Parsing.Text.{empty_text, is_one_of}
use diploma_munka.Parsing.Mac.{ends_word}
use diploma_munka.Parsing.Numbers.{parse_int, kismet_text}
use diploma_munka.Parsing.Services.{
  small_hex_value, next_digit, hex_run, four_digits, past_0x, or_next, prefixed, search_company,
  in_range, company_or_number, company_of_text, or_else_company, company_at,
  parse_bluetooth_company_id, companies_of_fields, company_of_items,
}
use diploma_munka.Parsing.Alerts.{
  wifi_management_frame_types, management_frame_type_aliases, find_alias, frame_type_of,
  normalize_wifi_management_frame_type,
}

small_hex_value_bound : (c : Char) (d : ℕ) → small_hex_value c ≡ some d → d ≤ 15
unfolding small_hex_value
small_hex_value_bound c d h = ground arith

-- The greatest number with so many digits more.
abbrev top : ℕ → ℕ → ℕ
top zero b = b
top (suc k) b = top k (16 * b + 15)

hex_run-none : (w : Char → Bool) (k : ℕ) (s : String) (r : ℕ) → ¬ (hex_run w k none s ≡ some r)
unfolding hex_run
hex_run-none w zero s r h = elim (Bool-cases (ends_word w s)) [
  | inl e ↦ cc (h, e)
  | inr e ↦ cc (h, e)
]
hex_run-none w (suc k) String.[] r h = cc h
hex_run-none w (suc k) (String.◌∷◌ c s) r h = hex_run-none w k s r h

hex_run_bound :
    (w : Char → Bool) (k n b : ℕ) (s : String) (r : ℕ)
    → n ≤ b
    → hex_run w k (some n) s ≡ some r
    → r ≤ top k b
unfolding hex_run
hex_run_bound w zero n b s r le h = elim (Bool-cases (ends_word w s)) [
  | inl e ↦ let q : n ≡ r = cc (h, e) in omega (arith, q)
  | inr e ↦ absurd (cc (h, e))
]
hex_run_bound w (suc k) n b String.[] r le h = absurd (cc h)
hex_run_bound w (suc k) n b (String.◌∷◌ c s) r le h =
    go (small_hex_value c) (λ m. hex_run_bound w k m (16 * b + 15) s r) refl h
  where
    go :
        (d : Option ℕ)
        → ((m : ℕ) → m ≤ 16 * b + 15 → hex_run w k (some m) s ≡ some r → r ≤ top k (16 * b + 15))
        → small_hex_value c ≡ d
        → hex_run w k (next_digit (some n) d) s ≡ some r
        → r ≤ top k (16 * b + 15)
    go none rest e h = absurd (hex_run-none w k s r h)
    go (some d) rest e h = rest (16 * n + d) (omega (arith, le, small_hex_value_bound c d e)) h

or_next-cases : (x y : Option ℕ) (r : ℕ) → or_next x y ≡ some r → (x ≡ some r) ⊎ (y ≡ some r)
or_next-cases (some n) y r h = inl h
or_next-cases none y r h = inr h

four_digits_bound : (w : Char → Bool) (s : String) (r : ℕ) → four_digits w s ≡ some r → r ≤ 65_535
four_digits_bound w s r h = hex_run_bound w 4 0 0 s r (omega arith) h

prefixed_bound : (w : Char → Bool) (s : Option String) (r : ℕ) → prefixed w s ≡ some r → r ≤ 65_535
prefixed_bound w none r h = absurd (cc h)
prefixed_bound w (some s) r h = four_digits_bound w s r h

search_company_bound :
    (w : Char → Bool) (s : String) (r : ℕ) → search_company w s ≡ some r → r ≤ 65_535
unfolding search_company
search_company_bound w String.[] r h = absurd (cc h)
search_company_bound w (String.◌∷◌ c s) r h =
    elim (or_next-cases (prefixed w (past_0x (String.◌∷◌ c s))) _ r h) [
      | inl e ↦ prefixed_bound w (past_0x (String.◌∷◌ c s)) r e
      | inr e ↦ elim (or_next-cases (four_digits w (String.◌∷◌ c s)) (search_company w s) r e) [
        | inl f ↦ four_digits_bound w (String.◌∷◌ c s) r f
        | inr f ↦ search_company_bound w s r f
      ]
    ]

-- A company's number has 16 bits.
abbrev pub IsCompany : ℤ → Type 0
IsCompany n = (m : ℕ) × (n ≡ pos m) × (m ≤ 65_535)

in_range-IsCompany : (x : Option ℤ) (n : ℤ) → in_range x ≡ some n → IsCompany n
unfolding in_range
in_range-IsCompany none n h = absurd (cc h)
in_range-IsCompany (some (pos m)) n h = elim (Bool-cases (leb m 65_535)) [
  | inl e ↦ (m, cc (h, e), ground arith)
  | inr e ↦ absurd (cc (h, e))
]
in_range-IsCompany (some (negsuc m)) n h = absurd (cc h)

module _ (it : Interpreter) where
  open it use {py, F, is_other_word, str_of}

  AreCompanies : Result PyError (Option ℤ) → Type 0
  AreCompanies r = (n : ℤ) → r ≡ ok (some n) → IsCompany n

  AreCompanies-none : AreCompanies (ok none)
  unfolding AreCompanies
  AreCompanies-none n h = absurd (cc h)

  company_or_number-AreCompanies :
      (x : Option ℕ) (parsed : Result PyError (Option ℤ))
      → ((r : ℕ) → x ≡ some r → r ≤ 65_535)
      → AreCompanies (company_or_number it x parsed)
  unfolding AreCompanies
  company_or_number-AreCompanies (some m) parsed bound n h = (m, cc h, bound m refl)
  company_or_number-AreCompanies none (ok parsed) bound n h = in_range-IsCompany parsed n (cc h)
  company_or_number-AreCompanies none (raise e) bound n h = absurd (cc h)

  company_of_text-AreCompanies : (text : String) → AreCompanies (company_of_text it text)
  unfolding company_of_text
  company_of_text-AreCompanies text =
      company_or_number-AreCompanies (search_company is_other_word text) (parse_int it (str text))
        (search_company_bound is_other_word text)

  or_else_company-AreCompanies :
      (a b : Result PyError (Option ℤ))
      → AreCompanies a
      → AreCompanies b
      → AreCompanies (or_else_company it a b)
  or_else_company-AreCompanies (ok (some n)) b ha hb = ha
  or_else_company-AreCompanies (ok none) b ha hb = hb
  or_else_company-AreCompanies (raise e) b ha hb = ha

  mutual
    unfolding parse_bluetooth_company_id companies_of_fields company_of_items company_at

    parse_bluetooth_company_id-AreCompanies :
        (value : Json F) → AreCompanies (parse_bluetooth_company_id it value)
    parse_bluetooth_company_id-AreCompanies null = AreCompanies-none
    parse_bluetooth_company_id-AreCompanies (obj fs) =
        or_else_company-AreCompanies _ _ (companies_of_fields-AreCompanies fs "company_id") (
          or_else_company-AreCompanies _ _ (companies_of_fields-AreCompanies fs "company") (
            or_else_company-AreCompanies _ _ (companies_of_fields-AreCompanies fs "id")
              (companies_of_fields-AreCompanies fs "uuid")))
    parse_bluetooth_company_id-AreCompanies (arr vs) = company_of_items-AreCompanies vs
    parse_bluetooth_company_id-AreCompanies (str s) = elim (Bool-cases (empty_text s)) [
      | inl e ↦ rw e AreCompanies-none
      | inr e ↦ rw e (company_of_text-AreCompanies _)
    ]
    parse_bluetooth_company_id-AreCompanies (bool b) = company_of_text-AreCompanies _
    parse_bluetooth_company_id-AreCompanies (int n) = company_of_text-AreCompanies _
    parse_bluetooth_company_id-AreCompanies (float x) = company_of_text-AreCompanies _

    companies_of_fields-AreCompanies :
        (fs : Fields F) (key : String)
        → AreCompanies (company_at it key (companies_of_fields it fs))
    companies_of_fields-AreCompanies end key = AreCompanies-none
    companies_of_fields-AreCompanies (field k v rest) key = elim (Bool-cases (str_eq k key)) [
      | inl e ↦ rw e (parse_bluetooth_company_id-AreCompanies v)
      | inr e ↦ rw e (companies_of_fields-AreCompanies rest key)
    ]

    company_of_items-AreCompanies : (vs : Items F) → AreCompanies (company_of_items it vs)
    company_of_items-AreCompanies nil = AreCompanies-none
    company_of_items-AreCompanies (item v vs) =
        or_else_company-AreCompanies _ _ (parse_bluetooth_company_id-AreCompanies v)
          (company_of_items-AreCompanies vs)

  -- A company that is read from a value of any kind, however nested, has a number of 16 bits.
  pub parse_bluetooth_company_id-IsCompany :
      (value : Json F) (n : ℤ) → parse_bluetooth_company_id it value ≡ ok (some n) → IsCompany n
  unfolding AreCompanies
  parse_bluetooth_company_id-IsCompany value n h = parse_bluetooth_company_id-AreCompanies value n h

abbrev leads_to_type : String × String → Bool
leads_to_type alias = is_one_of wifi_management_frame_types alias.1

both : (a b : Bool) → (a && b) ≡ true → (a ≡ true) × (b ≡ true)
both true b h = (refl, h)
both false b h = absurd (cc h)

find_alias-IsType :
    (key : String) (aliases : List (String × String)) (v : String)
    → all leads_to_type aliases ≡ true
    → find_alias key aliases ≡ some v
    → is_one_of wifi_management_frame_types v ≡ true
unfolding find_alias
find_alias-IsType key [] v h f = absurd (cc f)
find_alias-IsType key ((k, w) ∷ aliases) v h f =
    let (here, others) = both (leads_to_type (k, w)) (all leads_to_type aliases) h in
    elim (Bool-cases (str_eq k key)) [
      | inl e ↦
          let found : w ≡ v = cc (f, e) in
          subst (λ t. is_one_of wifi_management_frame_types t ≡ true) found here
      | inr e ↦ find_alias-IsType key aliases v others (cc (f, e))
    ]

module _ (it : Interpreter) where
  open it use {F}

  -- A frame type that a label is given is one of the ten that there are.
  pub normalize_wifi_management_frame_type-IsType :
      (value : Json F) (t : String)
      → normalize_wifi_management_frame_type it value ≡ some t
      → is_one_of wifi_management_frame_types t ≡ true
  unfolding normalize_wifi_management_frame_type frame_type_of
  normalize_wifi_management_frame_type-IsType value t h = go (kismet_text it value) h
    where
      go :
          (text : Option String)
          → frame_type_of it text ≡ some t
          → is_one_of wifi_management_frame_types t ≡ true
      go none h = absurd (cc h)
      go (some text) h = find_alias-IsType _ management_frame_type_aliases t refl h
