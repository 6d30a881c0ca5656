-- ===== src/Index/Integrity.antt =====
-- The page operations of src-tauri/src/indexing/state.rs against the constraints of the table.
use textbook_lens.Base.{
  ℕ, ◌+◌, ◌≡◌, ◌≢◌, Bool, true, false, ◌&&◌, Option, none, some, List, arith, err, ltb,
}
use textbook_lens.Index.Status.{
  IndexPageStatus, IndexFailureCode, IndexReviewReason, not_required, rendering, sending, parsing,
  validating, indexed, needs_review, failed,
}
use textbook_lens.Index.Rows.{
  Page, database_error, page_checks, column_checks, status_checks, reliable_check, attempt_check,
  started_check, queued_check, render_check, response_check, review_check, error_check,
  retryable_check, content_check, is_reliable, is_sha256, is_some, safe_message,
}
use textbook_lens.Index.Pages.{Outcome, is_attempt, start_rendering, requeue}
use textbook_lens.Index.Statements.{WellFormed, HasRoom}

-- What an operation must do to a well-formed database.
abbrev IsSafe : {A : Type 0} → Outcome A → Type 0
IsSafe (db, r) = WellFormed db × (r ≢ err database_error)

-- The constraints one by one.
pub record Checked (p : Page) : Type 0 where
  pub columns : column_checks p ≡ true
  pub reliable : reliable_check p ≡ true
  pub attempt : attempt_check p ≡ true
  pub started : started_check p ≡ true
  pub queues : queued_check p ≡ true
  pub render : render_check p ≡ true
  pub response : response_check p ≡ true
  pub review : review_check p ≡ true
  pub error : error_check p ≡ true
  pub retry_flag : retryable_check p ≡ true
  pub content : content_check p ≡ true

pub split : (p : Page) → page_checks p ≡ true → Checked p
unfolding page_checks status_checks
split p h = ground arith

pub join : (p : Page) → Checked p → page_checks p ≡ true
unfolding page_checks status_checks
join p c = ground arith

-- What a page with an attempt in one of the working states is sure to hold.
pub record IsWorking (p : Page) : Type 0 where
  pub columns : column_checks p ≡ true
  pub unreliable : is_reliable p.quality_reason ≡ false
  pub has_attempt : is_some p.attempt_id ≡ true
  pub has_count : ltb 0 p.attempt_count ≡ true

pub working :
    (page attempt : ℕ) (expected : IndexPageStatus) (p : Page)
    → expected ≢ not_required
    → is_attempt page expected attempt p ≡ true
    → Checked p
    → IsWorking p
unfolding reliable_check attempt_check
working page attempt expected p n h c = ground arith

-- Each check by itself, for the goals below.
checks : ℕ
unfolding column_checks reliable_check attempt_check started_check queued_check render_check
    response_check review_check error_check retryable_check content_check
checks = 0

abbrev pub failing : IndexFailureCode → Bool → ℕ → Page → Page
failing failure can_retry now p = record p {
  status = failed;
  review_reason_code = none;
  safe_error_code = some failure;
  safe_error_message = some (safe_message failure);
  retryable = can_retry;
  updated_at = now;
}

pub failing-Checked :
    (failure : IndexFailureCode) (can_retry : Bool) (now : ℕ) (p : Page)
    → IsWorking p
    → Checked (failing failure can_retry now p)
unfolding checks
failing-Checked failure can_retry now p w = ground arith

abbrev pub cancelling_page : ℕ → Page → Page
cancelling_page now p = record p {
  status = IndexPageStatus.cancelled;
  review_reason_code = none;
  safe_error_code = none;
  safe_error_message = none;
  retryable = false;
  updated_at = now;
}

pub cancelling-Checked : (now : ℕ) (p : Page) → IsWorking p → Checked (cancelling_page now p)
unfolding checks
cancelling-Checked now p w = ground arith

pub requeue-Checked :
    (fresh now : ℕ) (p : Page) → HasRoom p → IsWorking p → Checked (requeue fresh now p)
unfolding checks
requeue-Checked fresh now p r w = ground arith

-- A page in a working state has no review reason, no failure and no retry flag.
pub record IsPlain (p : Page) : Type 0 where
  no_review : is_some p.review_reason_code ≡ false
  no_error : (is_some p.safe_error_code && is_some p.safe_error_message) ≡ false
  no_retry : p.retryable ≡ false

abbrev pub is_plain_status : IndexPageStatus → Bool
is_plain_status needs_review = false
is_plain_status failed = false
is_plain_status _ = true

pub plain :
    (page attempt : ℕ) (expected : IndexPageStatus) (p : Page)
    → is_plain_status expected ≡ true
    → is_attempt page expected attempt p ≡ true
    → Checked p
    → IsPlain p
unfolding review_check error_check retryable_check
plain page attempt expected p n h c = ground arith

pub start-Checked : (now : ℕ) (p : Page) → IsWorking p → IsPlain p → Checked (start_rendering now p)
unfolding checks
start-Checked now p w q = ground arith

pub render-Checked :
    (page attempt : ℕ) (hash : List ℕ) (now : ℕ) (p : Page)
    → is_sha256 hash ≡ true
    → is_attempt page rendering attempt p ≡ true
    → Checked p
    → Checked (record p { render_sha256 = some hash; updated_at = now })
unfolding checks
render-Checked page attempt hash now p s h c = ground arith

pub send-Checked :
    (page attempt now : ℕ) (p : Page)
    → (is_attempt page rendering attempt p && is_some p.render_sha256) ≡ true
    → Checked p
    → Checked (record p { status = sending; updated_at = now })
unfolding checks
send-Checked page attempt now p h c = ground arith

pub receive-Checked :
    (page attempt : ℕ) (hash : List ℕ) (now : ℕ) (p : Page)
    → is_sha256 hash ≡ true
    → is_attempt page sending attempt p ≡ true
    → Checked p
    → Checked (record p { status = parsing; response_sha256 = some hash; updated_at = now })
unfolding checks
receive-Checked page attempt hash now p s h c = ground arith

pub validate-Checked :
    (page attempt now : ℕ) (p : Page)
    → (is_attempt page parsing attempt p && true) ≡ true
    → Checked p
    → Checked (record p { status = validating; updated_at = now })
unfolding checks
validate-Checked page attempt now p h c = ground arith

abbrev pub committing : List ℕ → ℕ → Option IndexReviewReason → IndexPageStatus → Page → Page
committing hash now reason status p = record p {
  status = status;
  content_sha256 = some hash;
  content_version = p.content_version + 1;
  review_reason_code = reason;
  retryable = false;
  updated_at = now;
}

pub review-Checked :
    (page attempt : ℕ) (hash : List ℕ) (now : ℕ) (reason : IndexReviewReason) (p : Page)
    → is_sha256 hash ≡ true
    → HasRoom p
    → is_attempt page validating attempt p ≡ true
    → Checked p
    → Checked (committing hash now (some reason) needs_review p)
unfolding checks
review-Checked page attempt hash now reason p s r h c = ground arith

pub indexed-Checked :
    (page attempt : ℕ) (hash : List ℕ) (now : ℕ) (p : Page)
    → is_sha256 hash ≡ true
    → HasRoom p
    → is_attempt page validating attempt p ≡ true
    → Checked p
    → Checked (committing hash now none indexed p)
unfolding checks
indexed-Checked page attempt hash now p s r h c = ground arith
