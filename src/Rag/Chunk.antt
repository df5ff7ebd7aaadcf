-- ===== src/Rag/Chunk.antt =====
-- `chunk_text` of rag.py, on texts as lists of code points.
use diploma_munka.Prelude.{
  ℕ, zero, suc, ◌+◌, ◌-◌, ◌/◌, ◌&&◌, ◌||◌, Option, none, some, List, [], ◌∷◌, String, if◌then◌else◌,
  ltb, leb, ◌==◌, length, take, drop, min, max,
}
use diploma_munka.Prelude.Int.{ℤ, pos, ltb_ℤ, leb_ℤ, nat_abs}
use diploma_munka.Prelude.Results.{Result, ok, raise}

-- `text.rfind(c, low, high)`, from the position `i` on, with the last hit so far; `none` is -1.
unfoldable pub rfind_from : ℕ → ℕ → ℕ → ℕ → List ℕ → Option ℕ → Option ℕ
rfind_from c low high i [] best = best
rfind_from c low high i (x ∷ xs) best =
    rfind_from c low high (suc i) xs (if x == c && leb low i && ltb i high then some i else best)

abbrev pub rfind : ℕ → ℕ → ℕ → List ℕ → Option ℕ
rfind c low high text = rfind_from c low high 0 text none

abbrev pub max_position : Option ℕ → Option ℕ → Option ℕ
max_position none q = q
max_position (some a) none = some a
max_position (some a) (some b) = some (max a b)

-- `if boundary > start: end = boundary`
abbrev pub at_boundary : ℕ → ℕ → Option ℕ → ℕ
at_boundary start end none = end
at_boundary start end (some boundary) = if ltb start boundary then boundary else end

-- Where the chunk that begins at `start` ends; 10 is a new line and 32 a space.
unfoldable pub chunk_end : ℕ → List ℕ → ℕ → ℕ
chunk_end max_characters text start =
    let end = min (length text) (start + max_characters) in
    let low = start + max_characters / 2 in
    if ltb end (length text)
    then at_boundary start end (max_position (rfind 10 low end text) (rfind 32 low end text))
    else end

-- The loop on fuel: the bounds of the chunks.
unfoldable pub spans : ℕ → ℕ → List ℕ → ℕ → ℕ → List (ℕ × ℕ)
spans max_characters overlap text zero start = []
spans max_characters overlap text (suc fuel) start =
    let end = chunk_end max_characters text start in
    let rest = spans max_characters overlap text fuel (max (start + 1) (end - overlap)) in
    if ltb start (length text)
    then (start, end) ∷ (if leb (length text) end then [] else rest)
    else []

-- `strip` is `str.strip`; an empty chunk is left out.
unfoldable pub chunks_of : (List ℕ → List ℕ) → List ℕ → List (ℕ × ℕ) → List (List ℕ)
chunks_of strip text [] = []
chunks_of strip text ((start, end) ∷ others) =
    let chunk = strip (take (end - start) (drop start text)) in
    let rest = chunks_of strip text others in if length chunk == 0 then rest else chunk ∷ rest

-- `unify_lines` is the `re.sub` of the line ends.
unfoldable pub chunk_text :
    (List ℕ → List ℕ) → (List ℕ → List ℕ) → List ℕ → ℤ → ℤ → Result String (List (List ℕ))
chunk_text unify_lines strip content max_characters overlap =
    let text = strip (unify_lines content) in
    if length text == 0
    then raise "document content is empty"
    else if ltb_ℤ max_characters (pos 64) || ltb_ℤ overlap (pos 0) || leb_ℤ max_characters overlap
    then raise "invalid chunk configuration"
    else ok (
        chunks_of strip text
          (spans (nat_abs max_characters) (nat_abs overlap) text (length text) 0))
