-- ===== src/Uploads/Bounds.antt =====
-- That `read_bounded_upload` of utils/uploads.py gives a whole file or nothing.
use diploma_munka.Prelude.{
  ℕ, zero, suc, ◌+◌, ◌≤◌, ◌<◌, ◌≡◌, refl, sym, ap, ◌∙◌, ◌↔◌, inl, inr, arith, true, false, List, [],
  ◌∷◌, ltb, length, take, length-take, if◌then◌else◌, Bool-cases,
}
use diploma_munka.Prelude.Int.{ℤ, pos, negsuc, ◌<ℤ◌, leb_ℤ, nat_abs}
use diploma_munka.Prelude.Results.{ok, raise}
use diploma_munka.Uploads.{upload_too_large, check_payload, read_bounded_upload}

take-all : {A : Type 0} (n : ℕ) (xs : List A) → length xs ≤ n → take n xs ≡ xs
take-all zero [] h = refl
take-all zero (x ∷ xs) h = absurd (omega (arith, h))
take-all (suc n) [] h = refl
take-all (suc n) (x ∷ xs) h = ap (◌∷◌ x) (take-all n xs (omega (arith, h)))

-- A file with at least one byte and no more than the limit.
abbrev pub IsAllowed : ℤ → List ℕ → Type 0
IsAllowed max_bytes file = (0 < length file) × (length file ≤ nat_abs max_bytes)

taken :
    (n : ℕ) (b : ℕ) (file p : List ℕ)
    → (if ltb (suc n) (length (b ∷ take (suc n) file))
        then raise upload_too_large
        else ok (b ∷ take (suc n) file))
      ≡ ok p
    → (p ≡ b ∷ file) × (length file ≤ n)
taken n b file p h = elim (Bool-cases (ltb (suc n) (length (b ∷ take (suc n) file)))) [
  | inl e ↦ absurd (cc (h, e))
  | inr e ↦
      let short : length file ≤ n = ground (arith, length-take (suc n) file) in
      let q : b ∷ take (suc n) file ≡ p = cc (h, e) in
      (sym q ∙ ap (◌∷◌ b) (take-all (suc n) file (omega (arith, short))), short)
]

limit_positive : (n : ℕ) → leb_ℤ (pos (suc n)) (pos 0) ≡ false
limit_positive n = ground arith

limit_negative : (n : ℕ) → leb_ℤ (negsuc n) (pos 0) ≡ true
limit_negative n = ground arith

one_more : (n : ℕ) → suc n + 1 ≡ suc (suc n)
one_more n = omega arith

read_bounded_upload-positive :
    (n : ℕ) (file : List ℕ)
    → read_bounded_upload (pos (suc n)) file ≡ check_payload (suc n) (take (suc (suc n)) file)
unfolding read_bounded_upload
read_bounded_upload-positive n file =
    rw (limit_positive n) (ap (λ k. check_payload (suc n) (take k file)) (one_more n))

check_payload_sound :
    (n : ℕ) (file p : List ℕ)
    → check_payload (suc n) (take (suc (suc n)) file) ≡ ok p
    → (p ≡ file) × IsAllowed (pos (suc n)) file
check_payload_sound n [] p h = absurd (cc h)
check_payload_sound n (b ∷ file) p h =
    let (whole, short) = taken n b file p h in (whole, (omega arith, omega (arith, short)))

read_bounded_sound :
    (max_bytes : ℤ) (file p : List ℕ)
    → read_bounded_upload max_bytes file ≡ ok p
    → (pos 0 <ℤ max_bytes) × (p ≡ file) × IsAllowed max_bytes file
unfolding read_bounded_upload
read_bounded_sound (negsuc n) file p h = absurd (cc (h, limit_negative n))
read_bounded_sound (pos zero) file p h = absurd (cc h)
read_bounded_sound (pos (suc n)) file p h =
    let (whole, allowed) =
      check_payload_sound n file p (sym (read_bounded_upload-positive n file) ∙ h) in
    (omega arith, whole, allowed)

within_limit : (n m : ℕ) → m ≤ n → ltb (suc n) (suc m) ≡ false
within_limit n m h = ground arith

check_payload_complete :
    (n : ℕ) (file : List ℕ)
    → IsAllowed (pos (suc n)) file
    → check_payload (suc n) (take (suc (suc n)) file) ≡ ok file
check_payload_complete n [] h = absurd (omega (arith, h.0))
check_payload_complete n (b ∷ file) (some_byte, short) =
    ap (check_payload (suc n)) (ap (◌∷◌ b) (take-all (suc n) file (omega (arith, short))))
    ∙ rw (within_limit n (length file) (omega (arith, short))) refl

read_bounded_complete :
    (max_bytes : ℤ) (file : List ℕ)
    → pos 0 <ℤ max_bytes
    → IsAllowed max_bytes file
    → read_bounded_upload max_bytes file ≡ ok file
read_bounded_complete (negsuc n) file positive h = absurd (omega (arith, positive))
read_bounded_complete (pos zero) file positive h = absurd (omega (arith, positive))
read_bounded_complete (pos (suc n)) file positive h =
    read_bounded_upload-positive n file ∙ check_payload_complete n file h

-- An upload is returned just if the limit is positive and the file has at least one byte and at most
-- as many as the limit, and what is returned is the whole file.
pub read_bounded_upload_iff :
    (max_bytes : ℤ) (file p : List ℕ)
    → (read_bounded_upload max_bytes file ≡ ok p)
      ↔ ((pos 0 <ℤ max_bytes) × (p ≡ file) × IsAllowed max_bytes file)
read_bounded_upload_iff max_bytes file p = (
  read_bounded_sound max_bytes file p,
  λ h. read_bounded_complete max_bytes file h.0 h.2 ∙ ap ok (sym h.1),
)
