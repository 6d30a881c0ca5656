-- ===== src/Retrieval/Packing.antt =====
-- The packing of context in src-tauri/src/retrieval/context.rs. The estimator of a request is a
-- parameter, `estimate`.
use Prim.Native.Nat.{compare}
use textbook_lens.Base.{
  ℕ, zero, suc, ◌+◌, ◌-◌, Bool, not, ◌||◌, Option, none, some, List, [], ◌∷◌, ◌++◌, leb, ◌==◌,
  if◌then◌else◌, length, take, drop, any, keep, map, u32_max, sort_by, Result, ok, err,
}
use textbook_lens.Errors.{AppErrorCode, invalid_input, context_too_large}
use textbook_lens.Retrieval.Budget.{InputBudget, require_fits}
use textbook_lens.Retrieval.Candidates.{
  Citation, ContextCandidate, ContextSegment, PackedContext, is_mandatory, packing_order,
  compare_text, then_with, is_at_most, is_before_candidate,
}
use textbook_lens.Retrieval.Overlap.{is_duplicate_of}
use textbook_lens.Retrieval.Citations.{assign_request_local_citations}
use textbook_lens.Retrieval.Validation.{
  is_history, is_directory, is_search, validate_candidate_values,
}

-- The loop of `deduplicate_candidates`, with what is retained so far.
abbrev pub retain_from : List ContextCandidate → List ContextCandidate → List ContextCandidate
retain_from retained [] = retained
retain_from retained (c ∷ cs) =
    let dropped = retain_from retained cs in
    let kept = retain_from (retained ++ c ∷ []) cs in
    if any (λ prior. is_duplicate_of prior c) retained then dropped else kept

unfoldable pub deduplicate_candidates : List ContextCandidate → List ContextCandidate
deduplicate_candidates candidates = retain_from [] (sort_by is_before_candidate candidates)

abbrev pub to_segment : ContextCandidate → ContextSegment
to_segment c = record {
  stable_id = c.stable_id;
  book_id = c.book_id;
  source_kind = c.source_kind;
  source = c.source;
  locator_label = c.locator_label;
  review_status = c.review_status;
  content = c.text;
  citation_seed = c.citation_seed;
  citation = none;
}

unfoldable pub finalize_segments :
    List ContextCandidate → Result AppErrorCode (List ContextSegment × List Citation)
finalize_segments candidates = assign_request_local_citations (map to_segment candidates)

abbrev pub mandatory_count : List ContextCandidate → ℕ
mandatory_count [] = 0
mandatory_count (c ∷ cs) = (if is_mandatory c.source_kind then 1 else 0) + mandatory_count cs

-- `take_while`
abbrev pub leading_mandatory : List ContextCandidate → ℕ
leading_mandatory [] = 0
leading_mandatory (c ∷ cs) =
    let rest = leading_mandatory cs in if is_mandatory c.source_kind then 1 + rest else 0

-- What a turn answers, or else the next turn.
abbrev pub or_next :
    Result AppErrorCode (Option PackedContext)
    → Result AppErrorCode PackedContext
    → Result AppErrorCode PackedContext
or_next (err e) next = err e
or_next (ok (some p)) next = ok p
or_next (ok none) next = next

abbrev pub is_no_book_kind : ContextCandidate → Bool
is_no_book_kind c =
    is_mandatory c.source_kind
    || not (is_search c.source_kind || is_history c.source_kind || is_directory c.source_kind)

-- The comparison of `required.sort_by`.
abbrev is_before_required : ContextCandidate → ContextCandidate → Bool
is_before_required left right = is_at_most (
    then_with (compare (packing_order left.source_kind) (packing_order right.source_kind)) (
      then_with (compare left.ordinal right.ordinal) (compare_text left.stable_id right.stable_id)))

-- The two parts of `pack_book_context`, from the candidates without duplicates.
abbrev pub required_of_book : List ContextCandidate → List ContextCandidate
required_of_book deduplicated =
    sort_by is_before_required
      (keep (λ c. is_directory c.source_kind || is_history c.source_kind) deduplicated)

abbrev pub optional_of_book : List ContextCandidate → List ContextCandidate
optional_of_book deduplicated =
    sort_by is_before_candidate (keep (λ c. is_search c.source_kind) deduplicated)

module _ (estimate : List ContextSegment → Result AppErrorCode ℕ) where
  -- One turn of the loop: the context of these candidates, if it fits.
  unfoldable pub try_candidates :
      InputBudget → ℕ → List ContextCandidate → Result AppErrorCode (Option PackedContext)
  try_candidates budget omitted candidates = elim (finalize_segments candidates) [
    | err e ↦ err e
    | ok (segments, citations) ↦ elim (estimate segments) [
      | err e ↦ err e
      | ok estimated ↦ elim (require_fits budget estimated) [
        | err e ↦ ok none
        | ok tokens ↦
            if leb omitted u32_max
            then ok (
                some (record {
                  segments = segments;
                  citations = citations;
                  estimated_input_tokens = tokens;
                  omitted_segment_count = omitted;
                }))
            else err context_too_large
      ]
    ]
  ]

  abbrev pub try_retained :
      InputBudget → ℕ → List ContextCandidate → Result AppErrorCode (Option PackedContext)
  try_retained budget original retained =
      try_candidates budget (original - length retained) retained

  -- `required`, and `extra` of the `optional` candidates or fewer, from the most on.
  abbrev pub pack_down :
      InputBudget
      → ℕ
      → List ContextCandidate
      → List ContextCandidate
      → ℕ
      → Result AppErrorCode PackedContext
  pack_down budget original required optional zero =
      or_next (try_retained budget original (required ++ take 0 optional)) (err context_too_large)
  pack_down budget original required optional (suc extra) =
      let next = pack_down budget original required optional extra in
      or_next (try_retained budget original (required ++ take (suc extra) optional)) next

  -- The check that what is required fits, then the loop.
  abbrev pub pack_required :
      InputBudget
      → ℕ
      → List ContextCandidate
      → List ContextCandidate
      → Result AppErrorCode PackedContext
  pack_required budget original required optional = elim (finalize_segments required) [
    | err e ↦ err e
    | ok (segments, citations) ↦ elim (estimate segments) [
      | err e ↦ err e
      | ok tokens ↦ elim (require_fits budget tokens) [
        | err e ↦ err e
        | ok _ ↦ pack_down budget original required optional (length optional)
      ]
    ]
  ]

  unfoldable pub pack_context :
      ℕ → InputBudget → List ContextCandidate → Result AppErrorCode PackedContext
  pack_context book_id budget candidates =
      let ordered = deduplicate_candidates candidates in
      let mandatory = leading_mandatory ordered in
      if not (validate_candidate_values book_id candidates)
      then err invalid_input
      else if not (mandatory_count candidates == 1)
      then err invalid_input
      else if mandatory == 0
      then err invalid_input
      else pack_required budget (length candidates) (take mandatory ordered)
          (drop mandatory ordered)

  unfoldable pub pack_book_context :
      ℕ → InputBudget → List ContextCandidate → Result AppErrorCode PackedContext
  pack_book_context book_id budget candidates =
      let deduplicated = deduplicate_candidates candidates in
      if not (validate_candidate_values book_id candidates)
      then err invalid_input
      else if any is_no_book_kind candidates
      then err invalid_input
      else pack_required budget (length candidates) (required_of_book deduplicated)
          (optional_of_book deduplicated)
