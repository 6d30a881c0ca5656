-- ===== src/Retrieval/PackingExamples.antt =====
-- A packed context: a selection, a search result and its copy, for a budget of one or of both texts.
use textbook_lens.Base.{
  ℕ, ◌+◌, ◌<◌, ◌≡◌, refl, ap, true, false, none, some, List, [], ◌∷◌, map, arith, length, take,
  drop, All, Memb, is_ok, Result, ok, err,
}
use textbook_lens.Errors.{AppErrorCode}
use textbook_lens.Retrieval.Budget.{InputBudget, require_fits}
use textbook_lens.Retrieval.Candidates.{
  Citation, ContextSourceKind, ContextSource, CitationReviewStatus, ContentSource, pdf,
  CitationSeed, ContextCandidate, ContextSegment, PackedContext, compare_candidates,
  is_before_candidate,
}
use textbook_lens.Retrieval.Overlap.{
  is_duplicate_of, same_provenance_scope, locators_overlap, overlap_percent,
  canonical_comparison_text, scalar_shingles,
}
use textbook_lens.Retrieval.Citations.{
  assign_request_local_citations, finalize, new_citation, request_local_citation_id,
  is_request_local_citation_id,
}
use textbook_lens.Retrieval.Packing.{
  deduplicate_candidates, finalize_segments, try_candidates, pack_context, pack_book_context,
  leading_mandatory, mandatory_count,
}
use textbook_lens.Retrieval.Validation.{validate_candidate_values}
use textbook_lens.Retrieval.Prefixes.{IsLongest, IsTooLarge}
use textbook_lens.Retrieval.Success.{pack_context-succeeds}
use textbook_lens.Retrieval.Promises.{pack_context-IsLongest}
use textbook_lens.Retrieval.Duplicates.{IsReduced, IsCovered, deduplicate_candidates-IsReduced}

abbrev seed : CitationSeed
seed = record {
  book_id = 1;
  section_id = none;
  locator = pdf 3 3 [];
  label = b'p' ∷ b'3' ∷ [];
  source = ContentSource.local_text;
  review_status = CitationReviewStatus.not_required;
}

abbrev hit : ContextCandidate
hit = record {
  stable_id = b'h' ∷ [];
  book_id = 1;
  section_id = none;
  source_kind = ContextSourceKind.textbook_search;
  source = ContextSource.local_text;
  same_section = false;
  relevance_micros = 10;
  ordinal = 0;
  text = b'a' ∷ b'b' ∷ b'c' ∷ b'd' ∷ [];
  locator_label = b'p' ∷ b'3' ∷ [];
  locator = some (pdf 3 3 []);
  review_status = CitationReviewStatus.not_required;
  provenance_key = b'k' ∷ [];
  citation_seed = some seed;
}

-- The same text, found again, with less relevance.
abbrev copy : ContextCandidate
copy = record hit { stable_id = b'i' ∷ []; relevance_micros = 5 }

abbrev chosen : ContextCandidate
chosen = record hit {
  stable_id = b's' ∷ [];
  source_kind = ContextSourceKind.selection;
  provenance_key = b's' ∷ [];
  text = b'x' ∷ b'y' ∷ [];
}

abbrev candidates : List ContextCandidate
candidates = copy ∷ hit ∷ chosen ∷ []

abbrev size : List ContextSegment → ℕ
size [] = 0
size (s ∷ ss) = length s.content + size ss

abbrev estimate : List ContextSegment → Result AppErrorCode ℕ
estimate segments = ok (size segments)

abbrev budget_of : ℕ → InputBudget
budget_of n = record {
  effective_window = 8192;
  output_reserve = 100;
  protocol_reserve = 512;
  usable_input = n;
}

-- All definitions of the packing, for runs.
runs : ℕ
unfolding require_fits compare_candidates is_before_candidate is_duplicate_of same_provenance_scope
    locators_overlap overlap_percent canonical_comparison_text scalar_shingles
    assign_request_local_citations finalize new_citation request_local_citation_id
    is_request_local_citation_id validate_candidate_values deduplicate_candidates finalize_segments
    try_candidates pack_context pack_book_context
runs = 0

-- The copy is dropped, and the most relevant hit kept behind the selection.
deduplicated : deduplicate_candidates candidates ≡ chosen ∷ hit ∷ []
unfolding runs
deduplicated = refl

abbrev packed : ℕ → Result AppErrorCode PackedContext
packed n = pack_context estimate 1 (budget_of n) candidates

abbrev packed_all : PackedContext
packed_all = elim (packed 6) [
  | ok p ↦ p
  | err e ↦ record {
    segments = [];
    citations = [];
    estimated_input_tokens = 0;
    omitted_segment_count = 0;
  }
]

-- With six tokens both texts fit, and their citations are numbered from one.
six_tokens :
    (packed 6 ≡ ok packed_all)
    × (packed_all.estimated_input_tokens ≡ 6)
    × (packed_all.omitted_segment_count ≡ 1)
    × (map (λ c. c.id) packed_all.citations
        ≡ (b'T' ∷ b'L' ∷ b'-' ∷ b'C' ∷ b'1' ∷ []) ∷ (b'T' ∷ b'L' ∷ b'-' ∷ b'C' ∷ b'2' ∷ []) ∷ [])
unfolding runs
six_tokens = (refl, refl, refl, refl)

-- With five the selection alone, with one nothing.
few_tokens : (is_ok (packed 5) ≡ true) × (is_ok (packed 1) ≡ false)
unfolding runs
few_tokens = (refl, refl)

pack_context-IsLongest_example :
    (0 < leading_mandatory (deduplicate_candidates candidates))
    × (mandatory_count candidates ≡ 1)
    × IsLongest estimate
        (budget_of 6)
        3
        (take
          (leading_mandatory (deduplicate_candidates candidates))
          (deduplicate_candidates candidates))
        (drop
          (leading_mandatory (deduplicate_candidates candidates))
          (deduplicate_candidates candidates))
        (length (
          drop
            (leading_mandatory (deduplicate_candidates candidates))
            (deduplicate_candidates candidates)))
        packed_all
unfolding runs
pack_context-IsLongest_example =
    pack_context-IsLongest estimate (budget_of 6) 1 candidates packed_all (omega arith) refl

abbrev found : List ContextCandidate
found = copy ∷ hit ∷ []

abbrev packed_book : PackedContext
packed_book = elim (pack_book_context estimate 1 (budget_of 5) found) [
  | ok p ↦ p
  | err e ↦ record {
    segments = [];
    citations = [];
    estimated_input_tokens = 0;
    omitted_segment_count = 0;
  }
]

deduplicate_candidates-IsReduced_example :
    IsReduced (deduplicate_candidates candidates)
    × All (λ c. Memb c candidates) (deduplicate_candidates candidates)
    × All (IsCovered (deduplicate_candidates candidates)) candidates
deduplicate_candidates-IsReduced_example = deduplicate_candidates-IsReduced candidates

abbrev size_of : Result AppErrorCode (List ContextSegment × List Citation) → ℕ
size_of (ok (segments, citations)) = size segments
size_of (err e) = 0

abbrev value_of : Result AppErrorCode ℕ → ℕ
value_of (ok n) = n
value_of (err e) = 0

abbrev mandatory_part : List ContextCandidate
mandatory_part =
    take (leading_mandatory (deduplicate_candidates candidates)) (deduplicate_candidates candidates)

mandatory_part_fits : ¬ (IsTooLarge estimate (budget_of 3) mandatory_part)
unfolding runs
mandatory_part_fits (segments, (citations, (tokens, (q, q'), lt))) =
    omega (arith, lt, ap size_of q, ap value_of q')

pack_context-succeeds_example : is_ok (pack_context estimate 1 (budget_of 3) candidates) ≡ true
unfolding runs
pack_context-succeeds_example =
    pack_context-succeeds estimate (budget_of 3) 1 candidates (omega arith) (omega arith)
      (λ segments. refl) refl refl (refl, (refl, (refl, tt))) mandatory_part_fits
