-- ===== src/Chunker/Progress.antt =====
-- How the chunks of src-tauri/src/retrieval/chunker.rs advance, and where they do not.
use textbook_lens.Base.{
  ℕ, zero, suc, ◌+◌, ◌-◌, ◌/◌, ◌≤◌, ◌<◌, ◌≡◌, ◌≢◌, sym, inl, inr, Option, none, some, List, [], ◌∷◌,
  arith, length, usize_max, Option-cases, some_cancel, ap, ◌∙◌, subst,
}
use mathlib.Core.Option
use textbook_lens.Chunker.Floats.{Float64, FloatLaws}
use textbook_lens.Chunker.Defs.{
  TextChunk, SectionText, Limits, make_chunk, chunk_end, next_start, chunk_loop,
}
use textbook_lens.Chunker.Boundaries.{closest_boundary-RangeOf, unwrap_or-range}
use textbook_lens.Chunker.Loop.{
  IsTiling, chunk_loop-IsTiling, chunk_end_cases, chunk_loop_last, chunk_loop_more,
}

map-none :
    (c : TextChunk) (o : Option (List TextChunk)) (cs : List TextChunk)
    → o ≡ none
    → ¬ (Option.map (λ r. c ∷ r) o ≡ some cs)
map-none c none cs e h = cc
map-none c (some r) cs e h = cc

map-some :
    (c : TextChunk) (r cs : List TextChunk) (o : Option (List TextChunk))
    → o ≡ some r
    → Option.map (λ r. c ∷ r) o ≡ some cs
    → c ∷ r ≡ cs
map-some c r cs none e h = cc
map-some c r cs (some q) e h = ap (λ t. c ∷ t) (sym (some_cancel q r e)) ∙ some_cancel _ cs h

-- Each chunk ends behind the one before it.
abbrev pub IsRising : ℕ → List TextChunk → Type 0
IsRising prior [] = Unit
IsRising prior (c ∷ cs) = (prior < c.end_code_point) × IsRising c.end_code_point cs

IsRising-cons :
    (s : SectionText) (prior start last n : ℕ) (cs : List TextChunk)
    → prior < last
    → IsRising last cs
    → IsRising prior (make_chunk s start last n ∷ cs)
unfolding make_chunk
IsRising-cons s prior start last n cs p r = (p, r)

tiling_nonempty :
    (s : SectionText) (l : Limits) (start : ℕ) (cs : List TextChunk)
    → IsTiling s l start cs
    → cs ≢ []
tiling_nonempty s l start [] t e = t
tiling_nonempty s l start (c ∷ cs) t e = cc

module _ (f : Float64) (laws : FloatLaws f) where
  -- The overlap with the next chunk is at most a fifth of the chunk and one.
  next_start-low :
      (s : SectionText) (overlap : f.F) (start last : ℕ)
      → (last - ((last - start) / 5 + 1) ≤ next_start f s overlap start last)
        × (next_start f s overlap start last ≤ last)
  unfolding next_start
  next_start-low s overlap start last =
      unwrap_or-range _ _ _ last (last - ((last - start) / 5 + 1)) last
        (closest_boundary-RangeOf s.safe_boundaries _ _ _)
        (omega (arith, laws.fifteen_above (last - start))) (omega arith)

  no_fuel :
      (s : SectionText) (l : Limits) (overlap : f.F) (start n : ℕ) (cs : List TextChunk)
      → ¬ (chunk_loop f 0 s l overlap start n ≡ some cs)
  unfolding chunk_loop
  no_fuel s l overlap start n cs e = cc

  -- The end of the next chunk.
  next_end :
      (s : SectionText) (l : Limits) (start last next : ℕ)
      → l.most / 5 + 1 < l.least
      → l.least ≤ l.most
      → length s.code_points ≤ usize_max
      → last < length s.code_points
      → last ≤ start + l.most
      → last - ((last - start) / 5 + 1) ≤ next
      → last < chunk_end s l next
  next_end s l start last next big le fits h k low = elim (chunk_end_cases s l next le fits) [
    | inl (_, full) ↦ rw full h
    | inr (_, after, _) ↦ omega arith
  ]

  -- The chunks, once the loop has returned them.
  each_behind :
      (fuel : ℕ) (s : SectionText) (l : Limits) (overlap : f.F) (start n prior : ℕ)
      (cs : List TextChunk)
      → 2 ≤ l.least
      → l.most / 5 + 1 < l.least
      → l.least ≤ l.most
      → length s.code_points ≤ usize_max
      → start < length s.code_points
      → prior < chunk_end s l start
      → chunk_loop f fuel s l overlap start n ≡ some cs
      → IsRising prior cs
  each_behind zero s l overlap start n prior cs two big le fits h p e =
      absurd (no_fuel s l overlap start n cs e)
  each_behind (suc fuel) s l overlap start n prior cs two big le fits h p e =
      elim (chunk_end_cases s l start le fits) [
        | inl (_, full) ↦
            let whole = sym (chunk_loop_last f laws fuel s l overlap start n h full) ∙ e in
            subst (IsRising prior) (some_cancel _ cs whole)
              (IsRising-cons s prior start (chunk_end s l start) n [] p tt)
        | inr (inside, low, high) ↦
            let last = chunk_end s l start in
            let next = next_start f s overlap start last in
            let range = next_start-low s overlap start last in
            let split =
              sym (chunk_loop_more f laws fuel s l overlap start n (omega arith) (omega arith))
              ∙ e in
            elim (Option-cases (chunk_loop f fuel s l overlap next (n + 1))) [
              | inl stuck ↦ absurd (map-none _ _ cs stuck split)
              | inr (rest, er) ↦ subst (IsRising prior) (map-some _ rest cs _ er split) (
                  IsRising-cons s prior start last n rest p (
                    each_behind fuel s l overlap next (n + 1) last rest two big le fits
                      (omega arith)
                      (next_end s l start last next big le fits (omega arith) high range.0) er))
            ]
      ]

  -- The loop returns, and no chunk repeats: when the least size is at least two and above a fifth of
  -- the most size and one, as the defaults are, and not above the most size, then for a section that
  -- usize can hold, and fuel above what remains of it, the loop returns chunks of which the first ends
  -- behind a given place before the first end, and each ends behind the one before it.
  pub chunk_loop-IsRising :
      (fuel : ℕ) (s : SectionText) (l : Limits) (overlap : f.F) (start n prior : ℕ)
      → 2 ≤ l.least
      → l.most / 5 + 1 < l.least
      → l.least ≤ l.most
      → length s.code_points ≤ usize_max
      → start < length s.code_points
      → length s.code_points < start + fuel
      → prior < chunk_end s l start
      → (cs : List TextChunk) × (chunk_loop f fuel s l overlap start n ≡ some cs)
        × IsRising prior cs
        × (cs ≢ [])
  chunk_loop-IsRising fuel s l overlap start n prior two big le fits h enough p =
      let (cs, e, t) = chunk_loop-IsTiling f laws fuel s l overlap start n two le fits h enough in
      (
        cs,
        e,
        each_behind fuel s l overlap start n prior cs two big le fits h p e,
        tiling_nonempty s l start cs t,
      )
