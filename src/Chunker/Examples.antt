-- ===== src/Chunker/Examples.antt =====
-- Runs of the chunker on short texts, with decimals in place of the floats.
use textbook_lens.Base.{◌≡◌, ◌≢◌, length, All, List, [], ◌∷◌, arith, none, some}
use textbook_lens.Chunker.Floats.{decimals, decimals-FloatLaws}
use textbook_lens.Chunker.Defs.{
  ChunkBlock, TextChunk, SectionText, new_section, push_block, push_text, push_code_point,
  is_sentence_terminator, closest_boundary, Limits, chunk_end, choose_end, next_start, chunk_loop,
}
use textbook_lens.Chunker.Book.{gather, empty_gathered, corrected, corrected_overlap, chunk_blocks}
use textbook_lens.Chunker.Boundaries.{IsClosest, closest_boundary-IsClosest}
use textbook_lens.Chunker.Progress.{IsRising, chunk_loop-IsRising}
use textbook_lens.Chunker.Stalls.{resorted, chunk_blocks-stalls}

closest_boundary-IsClosest_example :
    IsClosest 4 1 6 (2 ∷ 5 ∷ 3 ∷ []) (closest_boundary (2 ∷ 5 ∷ 3 ∷ []) 4 1 6)
closest_boundary-IsClosest_example =
    closest_boundary-IsClosest (2 ∷ 5 ∷ 3 ∷ []) 4 1 6
      (omega arith, (omega arith, (omega arith, tt)))

-- Three sentences of two letters.
abbrev sentences : ChunkBlock
sentences = record {
  section_id = 7;
  ordinal = 0;
  text = b'a' ∷ b'.' ∷ b'b' ∷ b'.' ∷ b'c' ∷ b'.' ∷ [];
  locator_json = [];
}

abbrev book : SectionText
book = push_block (new_section 7) sentences

abbrev small : Limits
small = record { target = 3; least = 2; most = 4 }

chunk_loop-IsRising_example :
    (cs : List TextChunk) × (chunk_loop decimals 9 book small 0 0 0 ≡ some cs)
    × IsRising 0 cs
    × (cs ≢ [])
unfolding push_block push_text push_code_point is_sentence_terminator chunk_end choose_end
    closest_boundary
chunk_loop-IsRising_example =
    chunk_loop-IsRising decimals decimals-FloatLaws 9 book small 0 0 0 0 (omega arith) (omega arith)
      (omega arith) (omega arith) (omega arith) (omega arith) (omega arith)

chunk_blocks-stalls_example :
    let sections = (gather (sentences ∷ []) empty_gathered).sections in
    let o = corrected_overlap decimals 0 in
    (chunk_blocks decimals 1000 (sentences ∷ []) 1 1 1 0 ≡ none)
    × (length sections ≡ 1)
    × All
        (λ s.
          (chunk_end (resorted s) (corrected 1 1 1) 0 ≡ 1)
          × (next_start decimals (resorted s) o 0 1 ≡ 0))
        sections
chunk_blocks-stalls_example =
    chunk_blocks-stalls decimals decimals-FloatLaws 1000 sentences 1 1 0 (omega arith) (omega arith)
