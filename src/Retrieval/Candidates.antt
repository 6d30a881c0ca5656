-- ===== src/Retrieval/Candidates.antt =====
-- The data of src-tauri/src/retrieval/context.rs and citations.rs: candidates for the context of a
-- question, segments and citations, and the order of the candidates. A text is its code points, whose
-- order is that of its bytes; an identifier is a number.
use Prim.Native.Nat.{compare, Ordering}
use textbook_lens.Base.{ℕ, Bool, true, false, Option, List, [], ◌∷◌}

pub data ContextSourceKind : Type 0 where
  selection region neighbor heading definition textbook_search user_note history_summary directory :
      ContextSourceKind

pub data ContextSource : Type 0 where
  local_text ai_transcribed ai_description user_corrected user_note history_summary directory :
      ContextSource

pub data ContentSource : Type 0 where
  local_text ai_transcribed ai_description user_corrected : ContentSource

pub data CitationReviewStatus : Type 0 where
  not_required indexed needs_review user_corrected : CitationReviewStatus

-- The rectangles on the pages are only compared: their coordinates as numbers.
pub data DocumentLocator : Type 0 where
  pdf : (start_page end_page : ℕ) (rects_by_page : List ℕ) → DocumentLocator
  epub : (cfi : List ℕ) (section_id : ℕ) → DocumentLocator
  docx : (start_block_id start_offset end_block_id end_offset : ℕ) → DocumentLocator
  extracted_text :
      (char_start char_end paragraph_start paragraph_end : ℕ) (text_fingerprint : List ℕ)
      → DocumentLocator

pub record CitationSeed : Type 0 where
  pub book_id : ℕ
  pub section_id : Option ℕ
  pub locator : DocumentLocator
  pub label : List ℕ
  pub source : ContentSource
  pub review_status : CitationReviewStatus

pub record Citation : Type 0 where
  pub id : List ℕ
  pub label : List ℕ
  pub book_id : ℕ
  pub section_id : Option ℕ
  pub locator : DocumentLocator
  pub source : ContentSource
  pub review_status : CitationReviewStatus
  pub quoteable : Bool

pub record ContextCandidate : Type 0 where
  pub stable_id : List ℕ
  pub book_id : ℕ
  pub section_id : Option ℕ
  pub source_kind : ContextSourceKind
  pub source : ContextSource
  pub same_section : Bool
  pub relevance_micros : ℕ
  pub ordinal : ℕ
  pub text : List ℕ
  pub locator_label : List ℕ
  pub locator : Option DocumentLocator
  pub review_status : CitationReviewStatus
  pub provenance_key : List ℕ
  pub citation_seed : Option CitationSeed

pub record ContextSegment : Type 0 where
  pub stable_id : List ℕ
  pub book_id : ℕ
  pub source_kind : ContextSourceKind
  pub source : ContextSource
  pub locator_label : List ℕ
  pub review_status : CitationReviewStatus
  pub content : List ℕ
  pub citation_seed : Option CitationSeed
  pub citation : Option Citation

pub record PackedContext : Type 0 where
  pub segments : List ContextSegment
  pub citations : List Citation
  pub estimated_input_tokens : ℕ
  pub omitted_segment_count : ℕ

abbrev pub is_mandatory : ContextSourceKind → Bool
is_mandatory ContextSourceKind.selection = true
is_mandatory ContextSourceKind.region = true
is_mandatory _ = false

abbrev pub packing_order : ContextSourceKind → ℕ
packing_order ContextSourceKind.selection = 0
packing_order ContextSourceKind.region = 0
packing_order ContextSourceKind.neighbor = 1
packing_order ContextSourceKind.heading = 2
packing_order ContextSourceKind.definition = 2
packing_order ContextSourceKind.textbook_search = 3
packing_order ContextSourceKind.user_note = 4
packing_order ContextSourceKind.history_summary = 5
packing_order ContextSourceKind.directory = 6

abbrev pub source_order : ContextSource → ℕ
source_order ContextSource.user_corrected = 0
source_order ContextSource.local_text = 1
source_order ContextSource.ai_transcribed = 2
source_order ContextSource.ai_description = 3
source_order ContextSource.user_note = 4
source_order ContextSource.history_summary = 5
source_order ContextSource.directory = 6

-- `then_with`
abbrev pub then_with : Ordering → Ordering → Ordering
then_with Ordering.lt next = Ordering.lt
then_with Ordering.eq next = next
then_with Ordering.gt next = Ordering.gt

abbrev pub compare_text : List ℕ → List ℕ → Ordering
compare_text [] [] = Ordering.eq
compare_text [] (y ∷ ys) = Ordering.lt
compare_text (x ∷ xs) [] = Ordering.gt
compare_text (x ∷ xs) (y ∷ ys) = then_with (compare x y) (compare_text xs ys)

abbrev pub rank : Bool → ℕ
rank false = 0
rank true = 1

abbrev pub is_at_most : Ordering → Bool
is_at_most Ordering.gt = false
is_at_most _ = true

abbrev is_equal : Ordering → Bool
is_equal Ordering.eq = true
is_equal _ = false

abbrev pub same_text : List ℕ → List ℕ → Bool
same_text a b = is_equal (compare_text a b)

-- `reverse` is the comparison with its sides exchanged.
unfoldable pub compare_candidates : ContextCandidate → ContextCandidate → Ordering
compare_candidates left right =
    then_with
      (compare (rank (is_mandatory right.source_kind)) (rank (is_mandatory left.source_kind)))
      (then_with (compare (packing_order left.source_kind) (packing_order right.source_kind)) (
        then_with (compare (rank right.same_section) (rank left.same_section)) (
          then_with (compare right.relevance_micros left.relevance_micros) (
            then_with (compare left.ordinal right.ordinal) (
              then_with (compare (source_order left.source) (source_order right.source)) (
                then_with (compare_text left.provenance_key right.provenance_key)
                  (compare_text left.stable_id right.stable_id)))))))

-- The order that `sort_by(compare_candidates)` sorts by.
unfoldable pub is_before_candidate : ContextCandidate → ContextCandidate → Bool
unfolding compare_candidates
is_before_candidate left right = is_at_most (compare_candidates left right)
