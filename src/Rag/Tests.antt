-- ===== src/Rag/Tests.antt =====
-- A short document in chunks of four characters.
use diploma_munka.Prelude.{ℕ, ◌≡◌, refl, List, [], ◌∷◌, arith, length}
use diploma_munka.Rag.Chunk.{spans, chunk_end, rfind_from}
use diploma_munka.Rag.Cover.{Covers, spans_lem}

-- "abc de"
abbrev document : List ℕ
document = 97 ∷ 98 ∷ 99 ∷ 32 ∷ 100 ∷ 101 ∷ []

at_the_space : spans 4 1 document 6 0 ≡ (0, 3) ∷ (2, 6) ∷ []
unfolding spans chunk_end rfind_from
at_the_space = refl

spans_lem_example : Covers (length document) 4 0 (spans 4 1 document (length document) 0)
spans_lem_example = spans_lem 4 1 document (omega arith) (omega arith)
