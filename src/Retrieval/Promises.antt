-- ===== src/Retrieval/Promises.antt =====
-- What the packing of src-tauri/src/retrieval/context.rs promises its callers.
use textbook_lens.Base.{
  ℕ, ◌≤◌, ◌<◌, ◌≡◌, inl, inr, List, arith, ◌==◌, length, take, drop, u32_max, Result, ok,
  Bool-cases,
}
use textbook_lens.Errors.{AppErrorCode, invalid_input}
use textbook_lens.Retrieval.Budget.{InputBudget}
use textbook_lens.Retrieval.Candidates.{ContextCandidate, ContextSegment, PackedContext}
use textbook_lens.Retrieval.Packing.{
  pack_context, deduplicate_candidates, leading_mandatory, mandatory_count,
}
use textbook_lens.Retrieval.Validation.{validate_candidate_values}
use textbook_lens.Retrieval.Prefixes.{IsLongest, pack_required-IsLongest, err-ne-ok}

-- Context that is packed for a selection is the context of the candidates that remain without
-- duplicates, in their order, up to some place: it has the selection, it fits the budget by the
-- estimate that the result carries, the result counts the candidates that were left out, and the
-- context up to any later place is too large. The budget's input is a u32.
pub pack_context-IsLongest :
    (estimate : List ContextSegment → Result AppErrorCode ℕ) (budget : InputBudget) (book_id : ℕ)
    (candidates : List ContextCandidate) (p : PackedContext)
    → budget.usable_input ≤ u32_max
    → pack_context estimate book_id budget candidates ≡ ok p
    → let ordered = deduplicate_candidates candidates in
      let m = leading_mandatory ordered in
      (0 < m)
      × (mandatory_count candidates ≡ 1)
      × IsLongest estimate budget
          (length candidates)
          (take m ordered)
          (drop m ordered)
          (length (drop m ordered))
          p
unfolding pack_context
pack_context-IsLongest estimate budget book_id candidates p narrow h =
    elim (Bool-cases (validate_candidate_values book_id candidates)) [
      | inr bad ↦ absurd (err-ne-ok invalid_input p (rw bad at h))
      | inl good ↦ elim (Bool-cases (mandatory_count candidates == 1)) [
        | inr bad ↦ absurd (err-ne-ok invalid_input p (rw (good, bad) at h))
        | inl one ↦ elim (Bool-cases (leading_mandatory (deduplicate_candidates candidates) == 0)) [
          | inl bad ↦ absurd (err-ne-ok invalid_input p (rw (good, one, bad) at h))
          | inr some_mandatory ↦ (
            ground (arith, some_mandatory),
            ground (arith, one),
            pack_required-IsLongest estimate budget narrow _ _ _ p
                (rw (good, one, some_mandatory) at h),
          )
        ]
      ]
    ]
