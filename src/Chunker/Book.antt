-- ===== src/Chunker/Book.antt =====
-- `chunk_blocks` and `chunk_blocks_default` of src-tauri/src/retrieval/chunker.rs: blocks are
-- gathered by section, in the order in which the sections first appear, and each section is cut.
use textbook_lens.Base.{
  ℕ, zero, suc, ◌||◌, Option, none, some, List, [], ◌∷◌, ◌++◌, ◌==◌, if◌then◌else◌, length,
  is_empty, min, max,
}
use mathlib.Core.Option
use textbook_lens.Chunker.Floats.{Float64}
use textbook_lens.Chunker.Defs.{
  ChunkBlock, TextChunk, SectionText, new_section, push_block, Limits, into_chunks,
}

-- `sections` and `section_indexes`.
pub record Gathered : Type 0 where
  pub sections : List SectionText
  pub section_indexes : List (ℕ × ℕ)

abbrev pub index_of : ℕ → List (ℕ × ℕ) → Option ℕ
index_of id [] = none
index_of id ((key, index) ∷ rest) = if key == id then some index else index_of id rest

-- `sections[index].push(block)`
abbrev pub push_at : ℕ → ChunkBlock → List SectionText → List SectionText
push_at index block [] = []
push_at zero block (s ∷ ss) = push_block s block ∷ ss
push_at (suc index) block (s ∷ ss) = s ∷ push_at index block ss

abbrev pub push_known : Option ℕ → ChunkBlock → Gathered → Gathered
push_known (some index) block g = record g { sections = push_at index block g.sections }
push_known none block g =
    let index = length g.sections in
    record {
      sections = push_at index block (g.sections ++ new_section block.section_id ∷ []);
      section_indexes = (block.section_id, index) ∷ g.section_indexes;
    }

unfoldable pub gather : List ChunkBlock → Gathered → Gathered
gather [] g = g
gather (b ∷ bs) g =
    gather bs
      (if is_empty b.text then g else push_known (index_of b.section_id g.section_indexes) b g)

abbrev pub empty_gathered : Gathered
empty_gathered = record { sections = []; section_indexes = [] }

-- `min`, `target` and `max` as `chunk_blocks` corrects them.
unfoldable pub corrected : ℕ → ℕ → ℕ → Limits
corrected target least most =
    let least' = min least most in
    record { target = min (max target (max least' 1)) most; least = least'; most = most }

module _ (f : Float64) where
  -- The correction of the overlap.
  unfoldable pub corrected_overlap : f.F → f.F
  corrected_overlap overlap =
      if f.is_finite overlap then f.clamp overlap f.none_at_all f.nine_tenths else f.none_at_all

  -- The `flat_map` over the sections.
  unfoldable pub chunk_sections : ℕ → List SectionText → Limits → f.F → Option (List TextChunk)
  chunk_sections fuel [] l overlap = some []
  chunk_sections fuel (s ∷ ss) l overlap = elim (into_chunks f fuel s l overlap) [
    | none ↦ none
    | some cs ↦ Option.map (λ rest. cs ++ rest) (chunk_sections fuel ss l overlap)
  ]

  unfoldable pub chunk_blocks : ℕ → List ChunkBlock → ℕ → ℕ → ℕ → f.F → Option (List TextChunk)
  chunk_blocks fuel blocks target least most overlap =
      if is_empty blocks || most == 0
      then some []
      else chunk_sections fuel (gather blocks empty_gathered).sections (corrected target least most)
          (corrected_overlap overlap)

  -- The default overlap is a literal of the source, 0.10, and is passed in.
  unfoldable pub chunk_blocks_default : ℕ → List ChunkBlock → f.F → Option (List TextChunk)
  chunk_blocks_default fuel blocks ten_hundredths =
      chunk_blocks fuel blocks 1000 800 1200 ten_hundredths
