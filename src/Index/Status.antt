-- ===== src/Index/Status.antt =====
-- src-tauri/src/domain/indexing.rs: the states of pages and runs; and the table of legal page
-- transitions of src-tauri/src/indexing/state.rs.
use textbook_lens.Base.{
  ℕ, ◌+◌, Bool, true, false, ◌||◌, ltb, ◌==◌, if◌then◌else◌, saturating_add, u32_max,
}

pub data IndexRunStatus : Type 0 where
  running paused cancelling cancelled completed : IndexRunStatus

pub data IndexPageStatus : Type 0 where
  not_required queued rendering sending parsing validating : IndexPageStatus
  indexed needs_review failed cancelled : IndexPageStatus

pub data IndexQualityReason : Type 0 where
  reliable_text no_text very_low_text_coverage : IndexQualityReason
  high_replacement_or_control_ratio extreme_duplicate_glyphs : IndexQualityReason
  layout_contradiction : IndexQualityReason

pub data IndexFailureCode : Type 0 where
  index_render_failed index_provider_failed index_response_invalid : IndexFailureCode
  index_validation_failed index_attempt_interrupted : IndexFailureCode
  index_scratch_missing index_attempt_expired : IndexFailureCode

pub data IndexReviewReason : Type 0 where
  incomplete_content invalid_bounds severe_overlap : IndexReviewReason
  text_contradiction malformed_table malformed_latex : IndexReviewReason

-- The place of a status in the list of statuses, to compare two of them.
abbrev pub page_rank : IndexPageStatus → ℕ
page_rank not_required = 0
page_rank queued = 1
page_rank rendering = 2
page_rank sending = 3
page_rank parsing = 4
page_rank validating = 5
page_rank indexed = 6
page_rank needs_review = 7
page_rank failed = 8
page_rank IndexPageStatus.cancelled = 9

abbrev pub same_page_status : IndexPageStatus → IndexPageStatus → Bool
same_page_status a b = page_rank a == page_rank b

abbrev pub run_rank : IndexRunStatus → ℕ
run_rank running = 0
run_rank paused = 1
run_rank cancelling = 2
run_rank IndexRunStatus.cancelled = 3
run_rank completed = 4

abbrev pub same_run_status : IndexRunStatus → IndexRunStatus → Bool
same_run_status a b = run_rank a == run_rank b

unfoldable pub is_in_flight : IndexPageStatus → Bool
is_in_flight rendering = true
is_in_flight sending = true
is_in_flight parsing = true
is_in_flight validating = true
is_in_flight _ = false

unfoldable pub is_terminal : IndexPageStatus → Bool
is_terminal not_required = true
is_terminal indexed = true
is_terminal needs_review = true
is_terminal failed = true
is_terminal IndexPageStatus.cancelled = true
is_terminal _ = false

-- The transitions of `legal_transition` that need an explicit retry.
abbrev retry_transition : IndexPageStatus → IndexPageStatus → Bool
retry_transition indexed queued = true
retry_transition needs_review queued = true
retry_transition failed queued = true
retry_transition IndexPageStatus.cancelled queued = true
retry_transition _ _ = false

-- The others.
abbrev plain_transition : IndexPageStatus → IndexPageStatus → Bool
plain_transition queued rendering = true
plain_transition queued failed = true
plain_transition queued IndexPageStatus.cancelled = true
plain_transition rendering rendering = true
plain_transition rendering sending = true
plain_transition rendering failed = true
plain_transition rendering IndexPageStatus.cancelled = true
plain_transition sending parsing = true
plain_transition sending failed = true
plain_transition sending IndexPageStatus.cancelled = true
plain_transition parsing validating = true
plain_transition parsing failed = true
plain_transition parsing IndexPageStatus.cancelled = true
plain_transition validating indexed = true
plain_transition validating needs_review = true
plain_transition validating failed = true
plain_transition validating IndexPageStatus.cancelled = true
plain_transition _ _ = false

unfoldable pub legal_transition : IndexPageStatus → IndexPageStatus → Bool → Bool
legal_transition from to explicit_retry =
    if explicit_retry then retry_transition from to else plain_transition from to

-- `IndexPageStatusCountsDto`
pub record StatusCounts : Type 0 where
  pub total : ℕ
  pub not_required : ℕ
  pub queued : ℕ
  pub rendering : ℕ
  pub sending : ℕ
  pub parsing : ℕ
  pub validating : ℕ
  pub indexed : ℕ
  pub needs_review : ℕ
  pub failed : ℕ
  pub cancelled : ℕ

abbrev pub more : ℕ → ℕ
more n = saturating_add u32_max n 1

-- The `match` of `record`.
abbrev pub count_status : IndexPageStatus → StatusCounts → StatusCounts
count_status not_required c = record c { not_required = more c.not_required }
count_status queued c = record c { queued = more c.queued }
count_status rendering c = record c { rendering = more c.rendering }
count_status sending c = record c { sending = more c.sending }
count_status parsing c = record c { parsing = more c.parsing }
count_status validating c = record c { validating = more c.validating }
count_status indexed c = record c { indexed = more c.indexed }
count_status needs_review c = record c { needs_review = more c.needs_review }
count_status failed c = record c { failed = more c.failed }
count_status IndexPageStatus.cancelled c = record c { cancelled = more c.cancelled }

-- `IndexPageStatusCountsDto::record`
unfoldable pub record_status : IndexPageStatus → StatusCounts → StatusCounts
record_status status c = count_status status (record c { total = more c.total })

pub data IndexAggregateStatus : Type 0 where
  all_ready partial review_needed all_failed : IndexAggregateStatus

-- The sums of the counters are on numbers without a bound: a run has at most 1,000,000 pages, since the
-- table keeps their numbers apart and below that, so no sum reaches 2 ^ 32.
unfoldable pub aggregate_status : StatusCounts → IndexAggregateStatus
aggregate_status c =
    let usable = c.not_required + c.indexed in
    let unresolved = c.queued + c.rendering + c.sending + c.parsing + c.validating in
    let unsuccessful = c.failed + c.cancelled in
    if c.total == 0
    then all_failed
    else if ltb 0 unresolved
    then partial
    else if ltb 0 unsuccessful
    then (if ltb 0 usable || ltb 0 c.needs_review then partial else all_failed)
    else if ltb 0 c.needs_review
    then review_needed
    else all_ready
