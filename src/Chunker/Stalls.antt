-- ===== src/Chunker/Stalls.antt =====
-- An argument on which `chunk_blocks` of src-tauri/src/retrieval/chunker.rs never returns: a most
-- size of one.
use textbook_lens.Base.{
  ℕ, zero, suc, ◌+◌, ◌-◌, ◌≤◌, ◌≡◌, refl, Option, none, some, List, [], ◌∷◌, ◌++◌, arith, le→leb,
  length, max, All, ap, ◌∙◌,
}
use mathlib.Core.Option
use textbook_lens.Chunker.Floats.{Float64, FloatLaws}
use textbook_lens.Chunker.Defs.{
  ChunkBlock, SectionText, Limits, closest_boundary, closest_from, make_chunk, chunk_end,
  next_start, chunk_loop, into_chunks, new_section, push_code_point, push_text, push_block,
  sort_unstable, dedup, insert_sorted,
}
use textbook_lens.Chunker.Loop.{choose_end-range, chunk_loop_more}
use textbook_lens.Chunker.Coverage.{push_text-length}
use textbook_lens.Chunker.Book.{
  gather, empty_gathered, corrected, corrected_overlap, chunk_sections, chunk_blocks,
}

abbrev HeadsZero : List ℕ → Type 0
HeadsZero [] = ⊥
HeadsZero (b ∷ bs) = b ≡ 0

head-append : (bs cs : List ℕ) → HeadsZero bs → HeadsZero (bs ++ cs)
head-append [] cs h = absurd h
head-append (b ∷ bs) cs h = h

push_code_point-HeadsZero :
    (c : ℕ) (s : SectionText)
    → HeadsZero s.safe_boundaries
    → HeadsZero (push_code_point c s).safe_boundaries
unfolding push_code_point
push_code_point-HeadsZero c s h = ground (arith, head-append s.safe_boundaries)

-- The section's first boundary stays 0 however it is filled, and through the sort.
push_text-HeadsZero :
    (cs : List ℕ) (s : SectionText)
    → HeadsZero s.safe_boundaries
    → HeadsZero (push_text cs s).safe_boundaries
unfolding push_text
push_text-HeadsZero [] s h = h
push_text-HeadsZero (c ∷ cs) s h =
    push_text-HeadsZero cs (push_code_point c s) (push_code_point-HeadsZero c s h)

insert_sorted-HeadsZero : (a : ℕ) (bs : List ℕ) → a ≡ 0 → HeadsZero (dedup (insert_sorted a bs))
insert_sorted-HeadsZero a [] h = h
insert_sorted-HeadsZero a (b ∷ bs) h = rw (le→leb a b (omega arith)) h

dedup_sort-HeadsZero : (bs : List ℕ) → HeadsZero bs → HeadsZero (dedup (sort_unstable bs))
dedup_sort-HeadsZero [] h = h
dedup_sort-HeadsZero (b ∷ bs) h = insert_sorted-HeadsZero b (sort_unstable bs) h

-- Zero, once picked from the range from 0 to 0, stays.
closest_stays :
    (bs : List ℕ) (desired : ℕ) (o : Option ℕ) → o ≡ some 0 → closest_from desired 0 0 o bs ≡ some 0
closest_stays [] desired o h = h
closest_stays (b ∷ bs) desired none h = cc
closest_stays (b ∷ bs) desired (some x) h = closest_stays bs desired _ (ground arith)

closest_at_zero :
    (bs : List ℕ) (desired : ℕ) → HeadsZero bs → closest_boundary bs desired 0 0 ≡ some 0
unfolding closest_boundary
closest_at_zero [] desired h = absurd h
closest_at_zero (b ∷ bs) desired h = closest_stays bs desired _ (ground arith)

-- The section that one block makes.
block_section : (b : ChunkBlock) → SectionText
block_section b = push_block (new_section b.section_id) b

block_section-HeadsZero : (b : ChunkBlock) → HeadsZero (block_section b).safe_boundaries
unfolding block_section push_block
block_section-HeadsZero b =
    head-append (push_text b.text (new_section b.section_id)).safe_boundaries _
      (push_text-HeadsZero b.text (new_section b.section_id) refl)

abbrev single : Limits
single = record { target = 1; least = 1; most = 1 }

chunk_end_one : (s : SectionText) → 2 ≤ length s.code_points → chunk_end s single 0 ≡ 1
unfolding chunk_end
chunk_end_one s two =
    ground (arith, choose_end-range s.safe_boundaries 0 single (omega arith) (omega arith))

corrected-single : (target least : ℕ) → 1 ≤ least → corrected target least 1 ≡ single
unfolding corrected
corrected-single target least h = ground arith

block_section-length : (b : ChunkBlock) → length (block_section b).code_points ≡ length b.text
unfolding block_section push_block
block_section-length b = omega (arith, push_text-length b.text (new_section b.section_id))

gather_block :
    (b : ChunkBlock)
    → 2 ≤ length b.text
    → (gather (b ∷ []) empty_gathered).sections ≡ block_section b ∷ []
unfolding gather block_section
gather_block b two = ground arith

-- The section with its boundaries as `into_chunks` sorts them.
abbrev pub resorted : SectionText → SectionText
resorted s = record s { safe_boundaries = dedup (sort_unstable s.safe_boundaries) }

module _ (f : Float64) (laws : FloatLaws f) where
  next_start_stuck :
      (s : SectionText) (overlap : f.F) (last : ℕ)
      → HeadsZero s.safe_boundaries
      → last ≡ 1
      → next_start f s overlap 0 last ≡ 0
  unfolding next_start
  next_start_stuck s overlap last h one =
      let size = f.of_usize 1 in
      let low : 1 - f.ceil (f.mul size f.fifteen_hundredths) ≡ 0 =
        omega (arith, laws.fifteen_of_one) in
      let high : 1 - max (f.floor (f.mul size f.five_hundredths)) 1 ≡ 0 =
        omega (arith, laws.five_of_one) in
      rw (one, low, high)
        (rw (closest_at_zero s.safe_boundaries (1 - f.round (f.mul size overlap)) h))

  chunk_loop_stuck :
      (fuel : ℕ) (s : SectionText) (overlap : f.F) (n : ℕ)
      → HeadsZero s.safe_boundaries
      → 2 ≤ length s.code_points
      → chunk_loop f fuel s single overlap 0 n ≡ none
  chunk_loop_stuck zero s overlap n h two = unfold chunk_loop in refl
  chunk_loop_stuck (suc fuel) s overlap n h two =
      let one = chunk_end_one s two in
      let again = chunk_loop_stuck fuel s overlap (n + 1) h two in
      let round : chunk_loop f fuel s single overlap
            (next_start f s overlap 0 (chunk_end s single 0)) (n + 1)
          ≡ none =
        rw (next_start_stuck s overlap _ h one) again in
      chunk_loop_more f laws fuel s single overlap 0 n (omega arith) (omega arith)
      ∙ ap (Option.map (λ cs. make_chunk s 0 (chunk_end s single 0) n ∷ cs)) round

  blocks_stuck :
      (fuel : ℕ) (b : ChunkBlock) (target least : ℕ) (overlap : f.F)
      → 2 ≤ length b.text
      → 1 ≤ least
      → chunk_blocks f fuel (b ∷ []) target least 1 overlap ≡ none
  unfolding chunk_blocks
  blocks_stuck fuel b target least overlap two one =
      rw (gather_block b two, corrected-single target least one)
        (unfold chunk_sections into_chunks in
          rw (
            chunk_loop_stuck fuel
                (record (block_section b) {
                  safe_boundaries = dedup (sort_unstable (block_section b).safe_boundaries);
                })
                (corrected_overlap f overlap) 0 (dedup_sort-HeadsZero _ (block_section-HeadsZero b))
                (omega (arith, block_section-length b)),
            chunk_sections,
          ))

  -- With a most size of one and a least size of at least one, `chunk_blocks` never returns on a
  -- block of two code points or more: no fuel is enough. In the block's one section the first chunk
  -- ends at the second code point, and the next one starts at the first code point again.
  pub chunk_blocks-stalls :
      (fuel : ℕ) (b : ChunkBlock) (target least : ℕ) (overlap : f.F)
      → 2 ≤ length b.text
      → 1 ≤ least
      → let sections = (gather (b ∷ []) empty_gathered).sections in
        let o = corrected_overlap f overlap in
        (chunk_blocks f fuel (b ∷ []) target least 1 overlap ≡ none)
        × (length sections ≡ 1)
        × All
            (λ s.
              (chunk_end (resorted s) (corrected target least 1) 0 ≡ 1)
              × (next_start f (resorted s) o 0 1 ≡ 0))
            sections
  chunk_blocks-stalls fuel b target least overlap two one =
      let s = resorted (block_section b) in
      let at_zero = dedup_sort-HeadsZero _ (block_section-HeadsZero b) in
      let long : 2 ≤ length s.code_points = omega (arith, block_section-length b) in
      rw (gather_block b two, corrected-single target least one)
        (
          blocks_stuck fuel b target least overlap two one,
          refl,
          (
            (chunk_end_one s long, next_start_stuck s (corrected_overlap f overlap) 1 at_zero refl),
            tt,
          ),
        )
