-- ===== src/Rag/Cover.antt =====
-- That the chunks of rag.py cover the document, and that the loop ends.
use mathlib.Core.Path.{subst}
use diploma_munka.Prelude.{
  ℕ, zero, suc, ◌+◌, ◌-◌, ◌/◌, ◌≤◌, ◌<◌, ◌≡◌, sym, ◌⊎◌, inl, inr, true, false, ◌&&◌, Option, none,
  some, List, [], ◌∷◌, if◌then◌else◌, ltb, leb, ◌==◌, length, min, max, arith, Bool-cases, lt→ltb,
  leb→le,
}
use diploma_munka.Rag.Chunk.{rfind_from, rfind, max_position, at_boundary, chunk_end, spans}

-- A position below the limit, if there is one.
abbrev pub IsBelow : ℕ → Option ℕ → Type 0
IsBelow high none = Unit
IsBelow high (some i) = i < high

rfind_from-IsBelow :
    (c low high i : ℕ) (xs : List ℕ) (best : Option ℕ)
    → IsBelow high best
    → IsBelow high (rfind_from c low high i xs best)
unfolding rfind_from
rfind_from-IsBelow c low high i [] best h = h
rfind_from-IsBelow c low high i (x ∷ xs) best h =
    rfind_from-IsBelow c low high (suc i) xs _
      (next (Bool-cases (x == c && leb low i && ltb i high)))
  where
    next :
        ((x == c && leb low i && ltb i high) ≡ true) ⊎ ((x == c && leb low i && ltb i high) ≡ false)
        → IsBelow high (if x == c && leb low i && ltb i high then some i else best)
    next (inl e) = rw e (ground arith)
    next (inr e) = rw e h

max_position-IsBelow :
    (high : ℕ) (p q : Option ℕ) → IsBelow high p → IsBelow high q → IsBelow high (max_position p q)
max_position-IsBelow high none q h k = k
max_position-IsBelow high (some a) none h k = h
max_position-IsBelow high (some a) (some b) h k = omega (arith, h, k)

at_boundary-bounds :
    (start end : ℕ) (p : Option ℕ)
    → start < end
    → IsBelow end p
    → (start < at_boundary start end p) × (at_boundary start end p ≤ end)
at_boundary-bounds start end none h k = (h, omega arith)
at_boundary-bounds start end (some b) h k = ground arith

chunk_end-bounds :
    (n : ℕ) (text : List ℕ) (start : ℕ)
    → 0 < n
    → start < length text
    → (start < chunk_end n text start)
      × (chunk_end n text start ≤ length text)
      × (chunk_end n text start ≤ start + n)
unfolding chunk_end
chunk_end-bounds n text start h k =
    elim (Bool-cases (ltb (min (length text) (start + n)) (length text))) [
      | inl e ↦
          let end = min (length text) (start + n) in
          let low = start + n / 2 in
          let found =
            max_position-IsBelow end (rfind 10 low end text) (rfind 32 low end text)
              (rfind_from-IsBelow 10 low end 0 text none tt)
              (rfind_from-IsBelow 32 low end 0 text none tt) in
          let (a, b) = at_boundary-bounds start end _ (omega (arith, h, k)) found in
          rw e (a, omega (arith, b), omega (arith, b))
      | inr e ↦ rw e (omega (arith, h, k), omega arith, omega arith)
    ]

not_leb : (a b : ℕ) → leb a b ≡ false → b < a
not_leb a b h = ground arith

-- Spans from `start` to the length `n`: each is not empty and at most `width` long, each begins
-- inside the one before or at its end, and the last one ends at `n`.
pub data Covers (n width : ℕ) : ℕ → List (ℕ × ℕ) → Type 0 where
  last : (start : ℕ) → start < n → n ≤ start + width → Covers n width start ((start, n) ∷ [])
  more :
      (start end next : ℕ) (rest : List (ℕ × ℕ))
      → start < end
      → end ≤ start + width
      → start < next
      → next ≤ end
      → Covers n width next rest
      → Covers n width start ((start, end) ∷ rest)

spans-Covers :
    (width overlap : ℕ) (text : List ℕ) (fuel start : ℕ)
    → 0 < width
    → start < length text
    → length text ≤ start + fuel
    → Covers (length text) width start (spans width overlap text fuel start)
unfolding spans
spans-Covers width overlap text zero start w h f = absurd (omega (arith, h, f))
spans-Covers width overlap text (suc fuel) start w h f =
    let end = chunk_end width text start in
    let bounds = chunk_end-bounds width text start w h in
    let started = lt→ltb start (length text) h in
    elim (Bool-cases (leb (length text) end)) [
      | inl e ↦
          let at_end : end ≡ length text = omega (arith, bounds.1, leb→le (length text) end e) in
          rw (started, e)
            (subst (λ k. Covers (length text) width start ((start, k) ∷ [])) (sym at_end)
              (last start h (omega (arith, bounds.2, at_end))))
      | inr e ↦
          let next = max (start + 1) (end - overlap) in
          let inside = not_leb (length text) end e in
          rw (started, e)
            (more start end next _ bounds.0 bounds.2 (omega arith) (omega (arith, bounds.0)) (
              spans-Covers width overlap text fuel next w (omega (arith, bounds.0, inside))
                (omega (arith, f))))
    ]

-- The chunks of a text that is not empty cover it: with a positive width, the loop that starts at 0
-- ends within as many turns as the text has characters, and its bounds follow one another without a
-- gap, each not empty and no wider than allowed, up to the end of the text.
pub spans_lem :
    (width overlap : ℕ) (text : List ℕ)
    → 0 < width
    → 0 < length text
    → Covers (length text) width 0 (spans width overlap text (length text) 0)
spans_lem width overlap text w h = spans-Covers width overlap text (length text) 0 w h (omega arith)
