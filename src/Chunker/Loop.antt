-- ===== src/Chunker/Loop.antt =====
-- The loop of `into_chunks` of src-tauri/src/retrieval/chunker.rs: it ends, and its chunks cover
-- the section.
use textbook_lens.Base.{
  ℕ, zero, suc, ◌+◌, ◌-◌, ◌≤◌, ◌<◌, ◌≡◌, refl, ◌⊎◌, inl, inr, some, List, [], ◌∷◌, arith, leb,
  length, length-take, length-drop, take, drop, usize_max, Bool-cases, ap, ◌∙◌,
}
use mathlib.Core.Option
use textbook_lens.Chunker.Floats.{Float64, FloatLaws}
use textbook_lens.Chunker.Defs.{
  TextChunk, SectionText, Limits, choose_end, make_chunk, chunk_end, next_start, chunk_loop,
}
use textbook_lens.Chunker.Boundaries.{closest_boundary-RangeOf, unwrap_or-range}

-- The chunk is the cut of the section's text from its start to its end, and says its size.
pub record IsCut (s : SectionText) (c : TextChunk) : Type 0 where
  pub is_slice :
      c.text ≡ take (c.end_code_point - c.start_code_point) (drop c.start_code_point s.code_points)
  pub counts : c.code_point_count ≡ length c.text
  pub spans : c.start_code_point + c.code_point_count ≡ c.end_code_point

-- Chunks from `start` to the end of the section: each is a cut of at most `most` code points, each
-- but the last has at least `least` and ends inside, and the next begins behind its start and not
-- behind its end, so that no code point is left out.
abbrev pub IsTiling : SectionText → Limits → ℕ → List TextChunk → Type 0
IsTiling s l start [] = ⊥
IsTiling s l start (c ∷ []) =
    (c.start_code_point ≡ start)
    × IsCut s c
    × (c.code_point_count ≤ l.most)
    × (c.end_code_point ≡ length s.code_points)
IsTiling s l start (c ∷ d ∷ r) =
    (c.start_code_point ≡ start)
    × IsCut s c
    × (c.code_point_count ≤ l.most)
    × (l.least ≤ c.code_point_count)
    × (c.end_code_point < length s.code_points)
    × (start < d.start_code_point)
    × (d.start_code_point ≤ c.end_code_point)
    × IsTiling s l d.start_code_point (d ∷ r)

pub make_chunk-IsCut :
    (s : SectionText) (start last n : ℕ)
    → start < last
    → last ≤ length s.code_points
    → IsCut s (make_chunk s start last n)
unfolding make_chunk
make_chunk-IsCut s start last n h k = record {
  is_slice = refl;
  counts = omega (
    arith,
    length-take (last - start) (drop start s.code_points),
    length-drop start s.code_points,
  );
  spans = omega arith;
}

-- Where a chunk ends that is not the last.
pub choose_end-range :
    (bs : List ℕ) (start : ℕ) (l : Limits)
    → l.least ≤ l.most
    → start + l.most ≤ usize_max
    → (start + l.least ≤ choose_end bs start l.target l.least l.most)
      × (choose_end bs start l.target l.least l.most ≤ start + l.most)
unfolding choose_end
choose_end-range bs start l h k =
    unwrap_or-range _ _ _ _ (start + l.least) (start + l.most) (closest_boundary-RangeOf bs _ _ _)
      (omega arith) (omega arith)

-- The two ways in which `chunk_end` finds its answer.
pub chunk_end_cases :
    (s : SectionText) (l : Limits) (start : ℕ)
    → l.least ≤ l.most
    → length s.code_points ≤ usize_max
    → ((length s.code_points - start ≤ l.most) × (chunk_end s l start ≡ length s.code_points))
      ⊎ ((start + l.most < length s.code_points)
          × (start + l.least ≤ chunk_end s l start)
          × (chunk_end s l start ≤ start + l.most))
unfolding chunk_end
chunk_end_cases s l start h k = elim (Bool-cases (leb (length s.code_points - start) l.most)) [
  | inl short ↦ inl (ground arith, rw short)
  | inr long ↦ inr (
    ground arith,
    rw long ((choose_end-range s.safe_boundaries start l h (ground arith)).0),
    rw long ((choose_end-range s.safe_boundaries start l h (ground arith)).1),
  )
]

tile_last :
    (s : SectionText) (l : Limits) (start last n : ℕ)
    → start < length s.code_points
    → last ≡ length s.code_points
    → length s.code_points - start ≤ l.most
    → IsTiling s l start (make_chunk s start last n ∷ [])
unfolding make_chunk
tile_last s l start last n h e k =
    (refl, make_chunk-IsCut s start last n (omega arith) (omega arith), omega arith, e)

module _ (f : Float64) (laws : FloatLaws f) where
  -- A chunk of two code points or more is followed by a start behind its own.
  pub next_start-range :
      (s : SectionText) (overlap : f.F) (start last : ℕ)
      → start + 2 ≤ last
      → (start < next_start f s overlap start last) × (next_start f s overlap start last ≤ last)
  unfolding next_start
  next_start-range s overlap start last h =
      unwrap_or-range _ _ _ last (suc start) last (closest_boundary-RangeOf s.safe_boundaries _ _ _)
        (omega (arith, laws.fifteen_above (last - start))) (omega arith)

  pub chunk_loop_last :
      (fuel : ℕ) (s : SectionText) (l : Limits) (overlap : f.F) (start n : ℕ)
      → start < length s.code_points
      → chunk_end s l start ≡ length s.code_points
      → chunk_loop f (suc fuel) s l overlap start n
        ≡ some (make_chunk s start (chunk_end s l start) n ∷ [])
  unfolding chunk_loop
  chunk_loop_last fuel s l overlap start n h e = ground arith

  pub chunk_loop_more :
      (fuel : ℕ) (s : SectionText) (l : Limits) (overlap : f.F) (start n : ℕ)
      → start < chunk_end s l start
      → chunk_end s l start < length s.code_points
      → chunk_loop f (suc fuel) s l overlap start n
        ≡ Option.map
            (λ cs. make_chunk s start (chunk_end s l start) n ∷ cs)
            (chunk_loop f fuel s l overlap
              (next_start f s overlap start (chunk_end s l start))
              (n + 1))
  unfolding chunk_loop
  chunk_loop_more fuel s l overlap start n h e = ground arith

  tile_more :
      (s : SectionText) (l : Limits) (start last n next : ℕ) (cs : List TextChunk)
      → last < length s.code_points
      → l.least ≤ last - start
      → last - start ≤ l.most
      → start < next
      → next ≤ last
      → IsTiling s l next cs
      → IsTiling s l start (make_chunk s start last n ∷ cs)
  unfolding make_chunk
  tile_more s l start last n next [] a b c d e t = absurd t
  tile_more s l start last n next (x ∷ []) a b c d e t = (
    refl,
    make_chunk-IsCut s start last n (omega arith) (omega arith),
    c,
    b,
    a,
    rw t.0 d,
    rw t.0 e,
    (refl, t.1, t.2, t.3),
  )
  tile_more s l start last n next (x ∷ y ∷ cs) a b c d e t = (
    refl,
    make_chunk-IsCut s start last n (omega arith) (omega arith),
    c,
    b,
    a,
    rw t.0 d,
    rw t.0 e,
    (refl, t.1, t.2, t.3, t.4, rw t.0 t.5, t.6, t.7),
  )

  -- Enough fuel for the rest of the section gives chunks that tile it.
  pub chunk_loop-IsTiling :
      (fuel : ℕ) (s : SectionText) (l : Limits) (overlap : f.F) (start n : ℕ)
      → 2 ≤ l.least
      → l.least ≤ l.most
      → length s.code_points ≤ usize_max
      → start < length s.code_points
      → length s.code_points < start + fuel
      → (cs : List TextChunk) × (chunk_loop f fuel s l overlap start n ≡ some cs)
        × IsTiling s l start cs
  chunk_loop-IsTiling zero s l overlap start n two le fits h enough = absurd (omega arith)
  chunk_loop-IsTiling (suc fuel) s l overlap start n two le fits h enough =
      elim (chunk_end_cases s l start le fits) [
        | inl (short, e) ↦ (
          make_chunk s start (chunk_end s l start) n ∷ [],
          chunk_loop_last fuel s l overlap start n h e,
          tile_last s l start (chunk_end s l start) n h e short,
        )
        | inr (inside, low, high) ↦
            let last = chunk_end s l start in
            let (behind, upto) = next_start-range s overlap start last (omega arith) in
            let next = next_start f s overlap start last in
            let (cs, e, t) =
              chunk_loop-IsTiling fuel s l overlap next (n + 1) two le fits (omega arith)
                (omega arith) in
            (
              make_chunk s start last n ∷ cs,
              chunk_loop_more fuel s l overlap start n (omega arith) (omega arith)
                  ∙ ap (Option.map (λ cs. make_chunk s start last n ∷ cs)) e,
              tile_more s l start last n next cs (omega arith) (omega arith) (omega arith) behind
                  upto t,
            )
      ]
