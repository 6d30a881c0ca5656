-- ===== src/Chunker/Defs.antt =====
-- src-tauri/src/retrieval/chunker.rs. A text is the list of its code points; identifiers are
-- numbers. The loop of `into_chunks` takes fuel: `none` means that it has not returned.
use textbook_lens.Base.{
  ℕ, zero, suc, ◌+◌, ◌-◌, ◌%◌, Bool, not, ◌&&◌, ◌||◌, Option, none, some, List, [], ◌∷◌, ◌++◌, map,
  ltb, leb, ◌==◌, if◌then◌else◌, length, is_empty, take, drop, keep, max, usize_max, saturating_add,
}
use mathlib.Core.Option
use textbook_lens.Chunker.Floats.{Float64}

pub record ChunkBlock : Type 0 where
  pub section_id : ℕ
  pub ordinal : ℕ
  pub text : List ℕ
  pub locator_json : List ℕ

pub record TextChunk : Type 0 where
  pub section_id : ℕ
  pub ordinal : ℕ
  pub text : List ℕ
  pub locator_json : List ℕ
  pub code_point_count : ℕ
  pub start_code_point : ℕ
  pub end_code_point : ℕ
  pub source_block_ordinals : List ℕ

pub record BlockRange : Type 0 where
  pub first : ℕ
  pub last : ℕ
  pub ordinal : ℕ
  pub locator_json : List ℕ

pub record SectionText : Type 0 where
  pub section_id : ℕ
  pub code_points : List ℕ
  pub safe_boundaries : List ℕ
  pub blocks : List BlockRange

-- `SectionText::new`
abbrev pub new_section : ℕ → SectionText
new_section id = record { section_id = id; code_points = []; safe_boundaries = 0 ∷ []; blocks = [] }

-- . ? ! ; and their full-width forms
unfoldable pub is_sentence_terminator : ℕ → Bool
is_sentence_terminator c =
    c == b'.'
    || c == b'?'
    || c == b'!'
    || c == b';'
    || c == 0x3002
    || c == 0xff1f
    || c == 0xff01
    || c == 0xff1b

unfoldable pub push_code_point : ℕ → SectionText → SectionText
push_code_point c s =
    let points = s.code_points ++ c ∷ [] in
    record s {
      code_points = points;
      safe_boundaries =
          if is_sentence_terminator c
          then s.safe_boundaries ++ length points ∷ []
          else s.safe_boundaries;
    }

unfoldable pub push_text : List ℕ → SectionText → SectionText
push_text [] s = s
push_text (c ∷ cs) s = push_text cs (push_code_point c s)

-- `SectionText::push`
unfoldable pub push_block : SectionText → ChunkBlock → SectionText
push_block s block =
    let separated =
      (if is_empty s.code_points
        then s
        else record s { code_points = s.code_points ++ b'\n' ∷ [] }) in
    let filled = push_text block.text separated in
    let last = length filled.code_points in
    record filled {
      safe_boundaries = filled.safe_boundaries ++ last ∷ [];
      blocks =
          filled.blocks
          ++ record {
            first = length separated.code_points;
            last = last;
            ordinal = block.ordinal;
            locator_json = block.locator_json;
          }
            ∷ [];
    }

abbrev pub abs_diff : ℕ → ℕ → ℕ
abs_diff a b = (a - b) + (b - a)

-- The key of `y` is below the key of `x`; the key of a boundary is the pair of its distance from
-- `desired` and of `usize::MAX - boundary`.
abbrev pub is_closer : ℕ → ℕ → ℕ → Bool
is_closer desired y x =
    ltb (abs_diff y desired) (abs_diff x desired)
    || abs_diff y desired == abs_diff x desired && ltb (usize_max - y) (usize_max - x)

-- `min_by_key` over the boundaries in the range, from the best so far on: the first of the least.
abbrev pub closest_from : ℕ → ℕ → ℕ → Option ℕ → List ℕ → Option ℕ
closest_from desired lower upper best [] = best
closest_from desired lower upper none (b ∷ bs) =
    closest_from desired lower upper (if leb lower b && leb b upper then some b else none) bs
closest_from desired lower upper (some x) (b ∷ bs) =
    closest_from desired lower upper
      (if (leb lower b && leb b upper) && is_closer desired b x then some b else some x) bs

unfoldable pub closest_boundary : List ℕ → ℕ → ℕ → ℕ → Option ℕ
closest_boundary boundaries desired lower upper = closest_from desired lower upper none boundaries

-- `unwrap_or`
abbrev pub unwrap_or {ℓ} : {A : Type ℓ} → Option A → A → A
unwrap_or none d = d
unwrap_or (some a) d = a

unfoldable pub choose_end : List ℕ → ℕ → ℕ → ℕ → ℕ → ℕ
choose_end boundaries start target lo hi =
    let lower = saturating_add usize_max start lo in
    let upper = saturating_add usize_max start hi in
    unwrap_or (closest_boundary boundaries (saturating_add usize_max start target) lower upper)
      upper

-- `sort_unstable` and `dedup`
abbrev pub insert_sorted : ℕ → List ℕ → List ℕ
insert_sorted a [] = a ∷ []
insert_sorted a (x ∷ xs) = let rest = insert_sorted a xs in if leb a x then a ∷ x ∷ xs else x ∷ rest

abbrev pub sort_unstable : List ℕ → List ℕ
sort_unstable [] = []
sort_unstable (x ∷ xs) = insert_sorted x (sort_unstable xs)

abbrev pub dedup_from : ℕ → List ℕ → List ℕ
dedup_from a [] = []
dedup_from a (x ∷ xs) = let rest = dedup_from x xs in if x == a then rest else x ∷ rest

abbrev pub dedup : List ℕ → List ℕ
dedup [] = []
dedup (x ∷ xs) = x ∷ dedup_from x xs

-- `"null"`
abbrev pub null_locator : List ℕ
null_locator = b'n' ∷ b'u' ∷ b'l' ∷ b'l' ∷ []

abbrev pub first_locator : List BlockRange → List ℕ
first_locator [] = null_locator
first_locator (b ∷ bs) = b.locator_json

abbrev pub intersecting : ℕ → ℕ → List BlockRange → List BlockRange
intersecting start last = keep (λ b. ltb b.first last && ltb start b.last)

-- The chunk from `start` to `last`, with `n` chunks before it.
unfoldable pub make_chunk : SectionText → ℕ → ℕ → ℕ → TextChunk
make_chunk s start last n = record {
  section_id = s.section_id;
  ordinal = n % 4294967296;
  text = take (last - start) (drop start s.code_points);
  locator_json = first_locator (intersecting start last s.blocks);
  code_point_count = last - start;
  start_code_point = start;
  end_code_point = last;
  source_block_ordinals = map (λ b. b.ordinal) (intersecting start last s.blocks);
}

-- The arguments of `into_chunks` but for the overlap.
pub record Limits : Type 0 where
  pub target : ℕ
  pub least : ℕ
  pub most : ℕ

-- The end of the chunk that begins at `start`.
unfoldable pub chunk_end : SectionText → Limits → ℕ → ℕ
chunk_end s l start =
    if leb (length s.code_points - start) l.most
    then length s.code_points
    else choose_end s.safe_boundaries start l.target l.least l.most

module _ (f : Float64) where
  -- The start of the chunk behind the one from `start` to `last`.
  unfoldable pub next_start : SectionText → f.F → ℕ → ℕ → ℕ
  next_start s overlap start last =
      let size = f.of_usize (last - start) in
      let desired_overlap = f.round (f.mul size overlap) in
      let minimum_overlap = f.floor (f.mul size f.five_hundredths) in
      let maximum_overlap = f.ceil (f.mul size f.fifteen_hundredths) in
      unwrap_or
        (closest_boundary s.safe_boundaries (last - desired_overlap) (last - maximum_overlap)
          (last - max minimum_overlap 1))
        last

  -- The loop of `into_chunks`, with `n` chunks made so far.
  unfoldable pub chunk_loop : ℕ → SectionText → Limits → f.F → ℕ → ℕ → Option (List TextChunk)
  chunk_loop zero s l overlap start n = none
  chunk_loop (suc fuel) s l overlap start n =
      let last = chunk_end s l start in
      let rest = chunk_loop fuel s l overlap (next_start s overlap start last) (n + 1) in
      if not (ltb start (length s.code_points))
      then some []
      else if leb last start
      then some []
      else if last == length s.code_points
      then some (make_chunk s start last n ∷ [])
      else Option.map (λ cs. make_chunk s start last n ∷ cs) rest

  unfoldable pub into_chunks : ℕ → SectionText → Limits → f.F → Option (List TextChunk)
  into_chunks fuel s l overlap =
      chunk_loop fuel (record s { safe_boundaries = dedup (sort_unstable s.safe_boundaries) }) l
        overlap 0 0
