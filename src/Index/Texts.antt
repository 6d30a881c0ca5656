-- ===== src/Index/Texts.antt =====
-- Reading back the texts of the states of src-tauri/src/domain/indexing.rs.
use Prim.Native.String.{String}
use text.Mathlib.Text.{◌==◌}
use text.Mathlib.TextEquality.{eq_iff}
use textbook_lens.Base.{
  ◌≡◌, refl, inl, inr, Bool-cases, Option, some, List, [], ◌∷◌, All, arith, ◌↔◌, ◌∙◌, ap,
  some_cancel,
}
use textbook_lens.Index.Status.{
  IndexRunStatus, IndexPageStatus, IndexQualityReason, IndexFailureCode, IndexReviewReason, running,
  paused, cancelling, completed, not_required, queued, rendering, sending, parsing, validating,
  indexed, needs_review, failed, reliable_text, no_text, very_low_text_coverage,
  high_replacement_or_control_ratio, extreme_duplicate_glyphs, layout_contradiction,
  index_render_failed, index_provider_failed, index_response_invalid, index_validation_failed,
  index_attempt_interrupted, index_scratch_missing, index_attempt_expired, incomplete_content,
  invalid_bounds, severe_overlap, text_contradiction, malformed_table, malformed_latex,
}
use textbook_lens.Index.Codes.{
  match_str, run_status_as_str, run_status_arms, run_status_from_database, page_status_as_str,
  page_status_arms, page_status_from_database, quality_reason_as_str, quality_reason_arms,
  quality_reason_from_database, failure_code_as_str, failure_code_arms, failure_code_from_database,
  review_reason_as_str, review_reason_arms, review_reason_from_database,
}

-- The reader gives a value on the text that is written for it, and on no other text.
abbrev pub ReadsBack : {A : Type 0} → (A → String) → (String → Option A) → Type 0
ReadsBack {A = A} as_str from_database =
    (x : A) (value : String) → (from_database value ≡ some x) ↔ (value ≡ as_str x)

module _ {A : Type 0} (as_str : A → String) where
  match_sound :
      (arms : List (String × A))
      → All (λ arm. arm.0 ≡ as_str arm.1) arms
      → (x : A) (value : String) → match_str arms value ≡ some x
      → value ≡ as_str x
  match_sound [] w x value e = cc
  match_sound (arm ∷ arms) w x value e = elim (Bool-cases (value == arm.0)) [
    | inl hit ↦
        (eq_iff value arm.0).0 hit ∙ w.0 ∙ ap as_str (some_cancel arm.1 x (ground (arith, hit, e)))
    | inr miss ↦ match_sound arms w.1 x value (ground (arith, miss, e))
  ]

  reads_back :
      (arms : List (String × A))
      → All (λ arm. arm.0 ≡ as_str arm.1) arms
      → ((x : A) → match_str arms (as_str x) ≡ some x)
      → ReadsBack as_str (match_str arms)
  reads_back arms w found x value = (match_sound arms w x value, λ e. rw e (found x))

run_status_found : (x : IndexRunStatus) → match_str run_status_arms (run_status_as_str x) ≡ some x
unfolding run_status_as_str
run_status_found running = refl
run_status_found paused = refl
run_status_found cancelling = refl
run_status_found IndexRunStatus.cancelled = refl
run_status_found completed = refl

run_status-ReadsBack : ReadsBack run_status_as_str run_status_from_database
unfolding run_status_from_database run_status_as_str
run_status-ReadsBack =
    reads_back run_status_as_str run_status_arms (refl, (refl, (refl, (refl, (refl, tt)))))
      run_status_found

page_status_found :
    (x : IndexPageStatus) → match_str page_status_arms (page_status_as_str x) ≡ some x
unfolding page_status_as_str
page_status_found not_required = refl
page_status_found queued = refl
page_status_found rendering = refl
page_status_found sending = refl
page_status_found parsing = refl
page_status_found validating = refl
page_status_found indexed = refl
page_status_found needs_review = refl
page_status_found failed = refl
page_status_found IndexPageStatus.cancelled = refl

page_status-ReadsBack : ReadsBack page_status_as_str page_status_from_database
unfolding page_status_from_database page_status_as_str
page_status-ReadsBack =
    reads_back page_status_as_str page_status_arms
      (refl, (refl, (refl, (refl, (refl, (refl, (refl, (refl, (refl, (refl, tt))))))))))
      page_status_found

quality_reason_found :
    (x : IndexQualityReason) → match_str quality_reason_arms (quality_reason_as_str x) ≡ some x
unfolding quality_reason_as_str
quality_reason_found reliable_text = refl
quality_reason_found no_text = refl
quality_reason_found very_low_text_coverage = refl
quality_reason_found high_replacement_or_control_ratio = refl
quality_reason_found extreme_duplicate_glyphs = refl
quality_reason_found layout_contradiction = refl

quality_reason-ReadsBack : ReadsBack quality_reason_as_str quality_reason_from_database
unfolding quality_reason_from_database quality_reason_as_str
quality_reason-ReadsBack =
    reads_back quality_reason_as_str quality_reason_arms
      (refl, (refl, (refl, (refl, (refl, (refl, tt)))))) quality_reason_found

failure_code_found :
    (x : IndexFailureCode) → match_str failure_code_arms (failure_code_as_str x) ≡ some x
unfolding failure_code_as_str
failure_code_found index_render_failed = refl
failure_code_found index_provider_failed = refl
failure_code_found index_response_invalid = refl
failure_code_found index_validation_failed = refl
failure_code_found index_attempt_interrupted = refl
failure_code_found index_scratch_missing = refl
failure_code_found index_attempt_expired = refl

failure_code-ReadsBack : ReadsBack failure_code_as_str failure_code_from_database
unfolding failure_code_from_database failure_code_as_str
failure_code-ReadsBack =
    reads_back failure_code_as_str failure_code_arms
      (refl, (refl, (refl, (refl, (refl, (refl, (refl, tt))))))) failure_code_found

review_reason_found :
    (x : IndexReviewReason) → match_str review_reason_arms (review_reason_as_str x) ≡ some x
unfolding review_reason_as_str
review_reason_found incomplete_content = refl
review_reason_found invalid_bounds = refl
review_reason_found severe_overlap = refl
review_reason_found text_contradiction = refl
review_reason_found malformed_table = refl
review_reason_found malformed_latex = refl

review_reason-ReadsBack : ReadsBack review_reason_as_str review_reason_from_database
unfolding review_reason_from_database review_reason_as_str
review_reason-ReadsBack =
    reads_back review_reason_as_str review_reason_arms
      (refl, (refl, (refl, (refl, (refl, (refl, tt)))))) review_reason_found

-- For each of the five enumerations that the database holds as text, `from_database` gives a value
-- on the text that `as_str` writes for it, and on no other text.
pub from_database-ReadsBack :
    ReadsBack run_status_as_str run_status_from_database
    × ReadsBack page_status_as_str page_status_from_database
    × ReadsBack quality_reason_as_str quality_reason_from_database
    × ReadsBack failure_code_as_str failure_code_from_database
    × ReadsBack review_reason_as_str review_reason_from_database
from_database-ReadsBack = (
  run_status-ReadsBack, page_status-ReadsBack, quality_reason-ReadsBack, failure_code-ReadsBack,
  review_reason-ReadsBack,
)
