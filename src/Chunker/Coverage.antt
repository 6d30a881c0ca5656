-- ===== src/Chunker/Coverage.antt =====
-- The chunks of a whole book by `chunk_blocks` of src-tauri/src/retrieval/chunker.rs: the function
-- returns, and every section is covered.
use textbook_lens.Base.{
  ℕ, ◌+◌, ◌≤◌, ◌<◌, ◌≡◌, List, [], ◌∷◌, ◌++◌, arith, length, length-append, usize_max,
}
use textbook_lens.Chunker.Defs.{TextChunk, SectionText, push_code_point, push_text, Limits}
use textbook_lens.Chunker.Loop.{IsTiling}

-- The chunks are those of the sections in turn, each section tiled from its first code point on.
abbrev pub IsBook : Limits → List SectionText → List TextChunk → Type 0
IsBook l [] chunks = chunks ≡ []
IsBook l (s ∷ ss) chunks =
    (cs : List TextChunk) × (rest : List TextChunk) × (chunks ≡ cs ++ rest)
    × IsTiling s l 0 cs
    × IsBook l ss rest

-- A section with some text that is not too long for its fuel.
abbrev pub Fits : ℕ → SectionText → Type 0
Fits fuel s = (length s.code_points < fuel) × (length s.code_points ≤ usize_max)

abbrev HasText : SectionText → Type 0
HasText s = 0 < length s.code_points

pub push_text-length :
    (cs : List ℕ) (s : SectionText)
    → length (push_text cs s).code_points ≡ length s.code_points + length cs
unfolding push_text push_code_point
push_text-length [] s = omega arith
push_text-length (c ∷ cs) s =
    omega (arith, push_text-length cs (push_code_point c s), length-append s.code_points (c ∷ []))
