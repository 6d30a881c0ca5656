-- ===== src/Index/Rows.antt =====
-- The tables index_runs and index_pages of src-tauri/migrations/0009_ai_local_index.sql: rows, their
-- CHECK constraints, and the UPDATE statements of src-tauri/src/indexing/state.rs. Identifiers and
-- timestamps are numbers, so the constraints on their spelling are left out; so are the columns of a
-- run that no statement here reads or writes.
use Prim.Native.String.{String}
pub use textbook_lens.Errors.{
  AppErrorCode, database_error, request_conflict, invalid_input, not_found,
}
pub use textbook_lens.Base.{is_some}
use textbook_lens.Base.{
  ℕ, ◌+◌, Bool, true, false, not, ◌&&◌, ◌||◌, Option, none, some, List, [], ◌∷◌, ltb, leb, ◌==◌,
  if◌then◌else◌, length, all, Result, ok, err,
}
use textbook_lens.Index.Status.{
  IndexRunStatus, IndexPageStatus, IndexQualityReason, reliable_text, IndexFailureCode,
  IndexReviewReason, paused, cancelling, completed, not_required, queued, rendering, sending,
  parsing, validating, indexed, needs_review, failed, same_page_status, same_run_status,
  index_render_failed, index_provider_failed, index_response_invalid, index_validation_failed,
  index_attempt_interrupted, index_scratch_missing, index_attempt_expired,
}

pub record Page : Type 0 where
  pub id : ℕ
  pub run_id : ℕ
  pub book_id : ℕ
  pub page_number : ℕ
  pub quality_reason : IndexQualityReason
  pub status : IndexPageStatus
  pub attempt_id : Option ℕ
  pub attempt_count : ℕ
  pub attempt_started_at : Option ℕ
  pub local_text_sha256 : Option (List ℕ)
  pub render_sha256 : Option (List ℕ)
  pub response_sha256 : Option (List ℕ)
  pub content_sha256 : Option (List ℕ)
  pub content_version : ℕ
  pub review_reason_code : Option IndexReviewReason
  pub safe_error_code : Option IndexFailureCode
  pub safe_error_message : Option String
  pub retryable : Bool
  pub created_at : ℕ
  pub updated_at : ℕ

pub record Run : Type 0 where
  pub id : ℕ
  pub book_id : ℕ
  pub status : IndexRunStatus
  pub paused_at : Option ℕ
  pub cancel_requested_at : Option ℕ
  pub completed_at : Option ℕ
  pub updated_at : ℕ

pub record Database : Type 0 where
  pub runs : List Run
  pub pages : List Page

abbrev pub iff : Bool → Bool → Bool
iff true b = b
iff false b = not b

abbrev is_hex : ℕ → Bool
is_hex b = leb b'0' b && leb b b'9' || leb b'a' b && leb b b'f'

-- `validate_sha256`, and the same constraint of the table.
unfoldable pub is_sha256 : List ℕ → Bool
is_sha256 bytes = length bytes == 64 && all is_hex bytes

abbrev pub sha_or_null : Option (List ℕ) → Bool
sha_or_null none = true
sha_or_null (some bytes) = is_sha256 bytes

abbrev pub is_reliable : IndexQualityReason → Bool
is_reliable reliable_text = true
is_reliable _ = false

-- The constraints on single columns.
unfoldable pub column_checks : Page → Bool
column_checks p =
    leb 1 p.page_number
    && leb p.page_number 1000000
    && leb p.attempt_count 1000000
    && leb p.content_version 1000000
    && sha_or_null p.local_text_sha256
    && sha_or_null p.render_sha256
    && sha_or_null p.response_sha256
    && sha_or_null p.content_sha256

abbrev pub has_status : IndexPageStatus → Page → Bool
has_status s p = same_page_status p.status s

-- The constraints that tie the other columns to the status, in the order of the table.
unfoldable pub reliable_check : Page → Bool
reliable_check p = iff (is_reliable p.quality_reason) (has_status not_required p)

unfoldable pub attempt_check : Page → Bool
attempt_check p =
    if has_status not_required p
    then not (is_some p.attempt_id) && p.attempt_count == 0
    else is_some p.attempt_id && ltb 0 p.attempt_count

unfoldable pub started_check : Page → Bool
started_check p =
    not (
      has_status rendering p
      || has_status sending p
      || has_status parsing p
      || has_status validating p)
    || is_some p.attempt_started_at

unfoldable pub queued_check : Page → Bool
queued_check p = not (has_status queued p) || not (is_some p.attempt_started_at)

unfoldable pub render_check : Page → Bool
render_check p = not (has_status sending p) || is_some p.render_sha256

unfoldable pub response_check : Page → Bool
response_check p =
    not (has_status parsing p || has_status validating p)
    || is_some p.render_sha256 && is_some p.response_sha256

unfoldable pub review_check : Page → Bool
review_check p = iff (has_status needs_review p) (is_some p.review_reason_code)

unfoldable pub error_check : Page → Bool
error_check p =
    iff (has_status failed p) (is_some p.safe_error_code && is_some p.safe_error_message)

unfoldable pub retryable_check : Page → Bool
retryable_check p = has_status failed p || not p.retryable

unfoldable pub content_check : Page → Bool
content_check p =
    not (has_status indexed p || has_status needs_review p)
    || ltb 0 p.content_version && is_some p.content_sha256

unfoldable pub status_checks : Page → Bool
status_checks p =
    reliable_check p
    && attempt_check p
    && started_check p
    && queued_check p
    && render_check p
    && response_check p
    && review_check p
    && error_check p
    && retryable_check p
    && content_check p

unfoldable pub page_checks : Page → Bool
page_checks p = column_checks p && status_checks p

abbrev pub has_run_status : IndexRunStatus → Run → Bool
has_run_status s r = same_run_status r.status s

unfoldable pub run_checks : Run → Bool
run_checks r =
    iff (has_run_status paused r) (is_some r.paused_at)
    && iff (has_run_status cancelling r || has_run_status IndexRunStatus.cancelled r)
        (is_some r.cancel_requested_at)
    && iff (has_run_status IndexRunStatus.cancelled r || has_run_status completed r)
        (is_some r.completed_at)

-- `safe_message`
unfoldable pub safe_message : IndexFailureCode → String
safe_message index_render_failed = "The page could not be rendered locally."
safe_message index_provider_failed = "The page analysis request did not complete."
safe_message index_response_invalid = "The page analysis response was invalid."
safe_message index_validation_failed = "The page analysis did not pass local validation."
safe_message index_attempt_interrupted = "The page attempt was interrupted and can be retried."
safe_message index_scratch_missing = "The temporary page render is unavailable; retry the page."
safe_message index_attempt_expired = "The interrupted page attempt expired and can be retried."

-- An UPDATE of one table: the rows that its WHERE clause picks are changed, unless one of them would
-- break a constraint; then nothing is changed and the statement fails.
module _ {R : Type 0} (checks : R → Bool) (picks : R → Bool) (change : R → R) where
  abbrev pub update_rows : List R → List R
  update_rows [] = []
  update_rows (r ∷ rs) = (if picks r then change r else r) ∷ update_rows rs

  abbrev pub rows_affected : List R → ℕ
  rows_affected [] = 0
  rows_affected (r ∷ rs) = (if picks r then 1 else 0) + rows_affected rs

  abbrev pub breaks_check : List R → Bool
  breaks_check [] = false
  breaks_check (r ∷ rs) = picks r && not (checks (change r)) || breaks_check rs

unfoldable pub require_one_row : ℕ → Result AppErrorCode (Unit {0})
require_one_row n =
    if n == 1 then ok tt else if n == 0 then err request_conflict else err database_error

-- A statement that must touch one page, and one that must touch one run.
unfoldable pub update_page :
    (Page → Bool) → (Page → Page) → Database → Database × Result AppErrorCode (Unit {0})
update_page picks change db =
    if breaks_check page_checks picks change db.pages then (db, err database_error) else (
      record db { pages = update_rows page_checks picks change db.pages },
      require_one_row (rows_affected page_checks picks change db.pages),
    )

unfoldable pub update_run :
    (Run → Bool) → (Run → Run) → Database → Database × Result AppErrorCode (Unit {0})
update_run picks change db =
    if breaks_check run_checks picks change db.runs then (db, err database_error) else (
      record db { runs = update_rows run_checks picks change db.runs },
      require_one_row (rows_affected run_checks picks change db.runs),
    )
