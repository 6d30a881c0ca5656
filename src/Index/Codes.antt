-- ===== src/Index/Codes.antt =====
-- The texts of the states in src-tauri/src/domain/indexing.rs, as the database holds them.
use Prim.Native.String.{String}
use text.Mathlib.Text.{◌==◌}
use textbook_lens.Base.{Option, none, some, List, [], ◌∷◌, if◌then◌else◌}
use textbook_lens.Index.Status.{
  IndexRunStatus, IndexPageStatus, IndexQualityReason, IndexFailureCode, IndexReviewReason, running,
  paused, cancelling, completed, not_required, queued, rendering, sending, parsing, validating,
  indexed, needs_review, failed, reliable_text, no_text, very_low_text_coverage,
  high_replacement_or_control_ratio, extreme_duplicate_glyphs, layout_contradiction,
  index_render_failed, index_provider_failed, index_response_invalid, index_validation_failed,
  index_attempt_interrupted, index_scratch_missing, index_attempt_expired, incomplete_content,
  invalid_bounds, severe_overlap, text_contradiction, malformed_table, malformed_latex,
}

-- A `match` on a text: the first arm with the text gives the value.
abbrev pub match_str : {A : Type 0} → List (String × A) → String → Option A
match_str [] value = none
match_str (arm ∷ arms) value =
    let rest = match_str arms value in if value == arm.0 then some arm.1 else rest

unfoldable pub run_status_as_str : IndexRunStatus → String
run_status_as_str running = "running"
run_status_as_str paused = "paused"
run_status_as_str cancelling = "cancelling"
run_status_as_str IndexRunStatus.cancelled = "cancelled"
run_status_as_str completed = "completed"

abbrev pub run_status_arms : List (String × IndexRunStatus)
run_status_arms =
    ("running", running)
    ∷ ("paused", paused)
    ∷ ("cancelling", cancelling)
    ∷ ("cancelled", IndexRunStatus.cancelled)
    ∷ ("completed", completed)
    ∷ []

unfoldable pub run_status_from_database : String → Option IndexRunStatus
run_status_from_database = match_str run_status_arms

unfoldable pub page_status_as_str : IndexPageStatus → String
page_status_as_str not_required = "not_required"
page_status_as_str queued = "queued"
page_status_as_str rendering = "rendering"
page_status_as_str sending = "sending"
page_status_as_str parsing = "parsing"
page_status_as_str validating = "validating"
page_status_as_str indexed = "indexed"
page_status_as_str needs_review = "needs_review"
page_status_as_str failed = "failed"
page_status_as_str IndexPageStatus.cancelled = "cancelled"

abbrev pub page_status_arms : List (String × IndexPageStatus)
page_status_arms =
    ("not_required", not_required)
    ∷ ("queued", queued)
    ∷ ("rendering", rendering)
    ∷ ("sending", sending)
    ∷ ("parsing", parsing)
    ∷ ("validating", validating)
    ∷ ("indexed", indexed)
    ∷ ("needs_review", needs_review)
    ∷ ("failed", failed)
    ∷ ("cancelled", IndexPageStatus.cancelled)
    ∷ []

unfoldable pub page_status_from_database : String → Option IndexPageStatus
page_status_from_database = match_str page_status_arms

unfoldable pub quality_reason_as_str : IndexQualityReason → String
quality_reason_as_str reliable_text = "reliable_text"
quality_reason_as_str no_text = "no_text"
quality_reason_as_str very_low_text_coverage = "very_low_text_coverage"
quality_reason_as_str high_replacement_or_control_ratio = "high_replacement_or_control_ratio"
quality_reason_as_str extreme_duplicate_glyphs = "extreme_duplicate_glyphs"
quality_reason_as_str layout_contradiction = "layout_contradiction"

abbrev pub quality_reason_arms : List (String × IndexQualityReason)
quality_reason_arms =
    ("reliable_text", reliable_text)
    ∷ ("no_text", no_text)
    ∷ ("very_low_text_coverage", very_low_text_coverage)
    ∷ ("high_replacement_or_control_ratio", high_replacement_or_control_ratio)
    ∷ ("extreme_duplicate_glyphs", extreme_duplicate_glyphs)
    ∷ ("layout_contradiction", layout_contradiction)
    ∷ []

unfoldable pub quality_reason_from_database : String → Option IndexQualityReason
quality_reason_from_database = match_str quality_reason_arms

unfoldable pub failure_code_as_str : IndexFailureCode → String
failure_code_as_str index_render_failed = "INDEX_RENDER_FAILED"
failure_code_as_str index_provider_failed = "INDEX_PROVIDER_FAILED"
failure_code_as_str index_response_invalid = "INDEX_RESPONSE_INVALID"
failure_code_as_str index_validation_failed = "INDEX_VALIDATION_FAILED"
failure_code_as_str index_attempt_interrupted = "INDEX_ATTEMPT_INTERRUPTED"
failure_code_as_str index_scratch_missing = "INDEX_SCRATCH_MISSING"
failure_code_as_str index_attempt_expired = "INDEX_ATTEMPT_EXPIRED"

abbrev pub failure_code_arms : List (String × IndexFailureCode)
failure_code_arms =
    ("INDEX_RENDER_FAILED", index_render_failed)
    ∷ ("INDEX_PROVIDER_FAILED", index_provider_failed)
    ∷ ("INDEX_RESPONSE_INVALID", index_response_invalid)
    ∷ ("INDEX_VALIDATION_FAILED", index_validation_failed)
    ∷ ("INDEX_ATTEMPT_INTERRUPTED", index_attempt_interrupted)
    ∷ ("INDEX_SCRATCH_MISSING", index_scratch_missing)
    ∷ ("INDEX_ATTEMPT_EXPIRED", index_attempt_expired)
    ∷ []

unfoldable pub failure_code_from_database : String → Option IndexFailureCode
failure_code_from_database = match_str failure_code_arms

unfoldable pub review_reason_as_str : IndexReviewReason → String
review_reason_as_str incomplete_content = "incomplete_content"
review_reason_as_str invalid_bounds = "invalid_bounds"
review_reason_as_str severe_overlap = "severe_overlap"
review_reason_as_str text_contradiction = "text_contradiction"
review_reason_as_str malformed_table = "malformed_table"
review_reason_as_str malformed_latex = "malformed_latex"

abbrev pub review_reason_arms : List (String × IndexReviewReason)
review_reason_arms =
    ("incomplete_content", incomplete_content)
    ∷ ("invalid_bounds", invalid_bounds)
    ∷ ("severe_overlap", severe_overlap)
    ∷ ("text_contradiction", text_contradiction)
    ∷ ("malformed_table", malformed_table)
    ∷ ("malformed_latex", malformed_latex)
    ∷ []

unfoldable pub review_reason_from_database : String → Option IndexReviewReason
review_reason_from_database = match_str review_reason_arms
