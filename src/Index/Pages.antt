-- ===== src/Index/Pages.antt =====
-- The page operations of src-tauri/src/indexing/state.rs, and `create_index_page` of
-- src-tauri/src/db/indexing.rs. Each takes the time that it reads and the identifiers that it draws
-- as arguments; identifiers by `Uuid::new_v5` come from a function that is a parameter.
use textbook_lens.Base.{
  ℕ, ◌+◌, Bool, true, false, ◌&&◌, ◌||◌, Option, none, some, List, [], ◌∷◌, ◌==◌, if◌then◌else◌,
  any, Result, ok, err,
}
use textbook_lens.Index.Status.{
  IndexPageStatus, IndexFailureCode, IndexReviewReason, running, paused, queued, rendering, sending,
  parsing, validating, indexed, needs_review, failed, legal_transition,
}
use textbook_lens.Index.Rows.{
  Page, Run, Database, AppErrorCode, request_conflict, invalid_input, is_sha256, is_some,
  has_status, has_run_status, safe_message, update_page,
}

-- What an operation leaves and returns.
abbrev pub Outcome : Type 0 → Type 0
Outcome A = Database × Result AppErrorCode A

-- `attempt_id = ?`, which no NULL meets.
abbrev pub holds_id : Option ℕ → ℕ → Bool
holds_id none id = false
holds_id (some x) id = x == id

-- `id = ? AND status = ? AND attempt_id = ?`
abbrev pub is_attempt : ℕ → IndexPageStatus → ℕ → Page → Bool
is_attempt page status attempt p =
    p.id == page && has_status status p && holds_id p.attempt_id attempt

-- `EXISTS (SELECT 1 FROM index_runs r WHERE r.id = … AND r.status IN …)`
abbrev pub run_exists : (Run → Bool) → ℕ → Database → Bool
run_exists in_status run db = any (λ r. r.id == run && in_status r) db.runs

abbrev pub is_running : Run → Bool
is_running r = has_run_status running r

abbrev pub is_running_or_paused : Run → Bool
is_running_or_paused r = has_run_status running r || has_run_status paused r

-- `ensure_legal_transition(…)?`
unfoldable pub if_legal :
    IndexPageStatus → IndexPageStatus → Bool → Outcome (Unit {0}) → Database → Outcome (Unit {0})
if_legal from to explicit_retry rest db =
    if legal_transition from to explicit_retry then rest else (db, err request_conflict)

-- `validate_sha256(…)?`
unfoldable pub if_sha256 : List ℕ → Outcome (Unit {0}) → Database → Outcome (Unit {0})
if_sha256 hash rest db = if is_sha256 hash then rest else (db, err invalid_input)

pub record ClaimedPage : Type 0 where
  pub page_id : ℕ
  pub run_id : ℕ
  pub book_id : ℕ
  pub page_number : ℕ
  pub attempt_id : ℕ

-- `claimed_page`
abbrev pub find_claimed : ℕ → ℕ → List Page → Option ClaimedPage
find_claimed page attempt [] = none
find_claimed page attempt (p ∷ ps) =
    if is_attempt page rendering attempt p
    then some (record {
      page_id = page;
      run_id = p.run_id;
      book_id = p.book_id;
      page_number = p.page_number;
      attempt_id = attempt;
    })
    else find_claimed page attempt ps

abbrev pub claimed : ℕ → ℕ → Outcome (Unit {0}) → Outcome ClaimedPage
claimed page attempt (db, err e) = (db, err e)
claimed page attempt (db, ok _) = elim (find_claimed page attempt db.pages) [
  | none ↦ (db, err request_conflict)
  | some c ↦ (db, ok c)
]

abbrev pub start_rendering : ℕ → Page → Page
start_rendering now p = record p {
  status = rendering;
  attempt_started_at = some now;
  updated_at = now;
}

unfoldable pub claim_render : ℕ → ℕ → ℕ → Database → Outcome ClaimedPage
claim_render page attempt now db = claimed page attempt (
    if_legal queued rendering false
      (update_page (λ p. is_attempt page queued attempt p && run_exists is_running p.run_id db)
        (start_rendering now) db)
      db)

unfoldable pub mark_rendered : ℕ → ℕ → List ℕ → ℕ → Database → Outcome (Unit {0})
mark_rendered page attempt hash now db =
    if_legal rendering rendering false
      (if_sha256 hash
        (update_page (is_attempt page rendering attempt)
          (λ p. record p { render_sha256 = some hash; updated_at = now }) db)
        db)
      db

-- `transition_page`, with its additional predicate as a test.
unfoldable pub transition_page :
    ℕ → ℕ → IndexPageStatus → IndexPageStatus → (Page → Bool) → ℕ → Database → Outcome (Unit {0})
transition_page page attempt expected target additional now db =
    if_legal expected target false
      (update_page (λ p. is_attempt page expected attempt p && additional p)
        (λ p. record p { status = target; updated_at = now }) db)
      db

unfoldable pub claim_send : ℕ → ℕ → ℕ → Database → Outcome (Unit {0})
unfolding transition_page
claim_send page attempt =
    transition_page page attempt rendering sending (λ p. is_some p.render_sha256)

unfoldable pub mark_received : ℕ → ℕ → List ℕ → ℕ → Database → Outcome (Unit {0})
mark_received page attempt hash now db =
    if_legal sending parsing false
      (if_sha256 hash
        (update_page (is_attempt page sending attempt)
          (λ p. record p { status = parsing; response_sha256 = some hash; updated_at = now }) db)
        db)
      db

unfoldable pub claim_validate : ℕ → ℕ → ℕ → Database → Outcome (Unit {0})
unfolding transition_page
claim_validate page attempt = transition_page page attempt parsing validating (λ _. true)

unfoldable pub commit_review :
    ℕ → ℕ → IndexReviewReason → List ℕ → ℕ → Database → Outcome (Unit {0})
commit_review page attempt reason hash now db =
    if_legal validating needs_review false
      (if_sha256 hash
        (update_page
          (λ p. is_attempt page validating attempt p && run_exists is_running_or_paused p.run_id db)
          (λ p. record p {
            status = needs_review;
            content_sha256 = some hash;
            content_version = p.content_version + 1;
            review_reason_code = some reason;
            retryable = false;
            updated_at = now;
          })
          db)
        db)
      db

unfoldable pub commit_indexed : ℕ → ℕ → List ℕ → ℕ → Database → Outcome (Unit {0})
commit_indexed page attempt hash now db =
    if_legal validating indexed false
      (if_sha256 hash
        (update_page
          (λ p. is_attempt page validating attempt p && run_exists is_running_or_paused p.run_id db)
          (λ p. record p {
            status = indexed;
            content_sha256 = some hash;
            content_version = p.content_version + 1;
            review_reason_code = none;
            retryable = false;
            updated_at = now;
          })
          db)
        db)
      db

unfoldable pub fail :
    ℕ → IndexPageStatus → ℕ → IndexFailureCode → Bool → ℕ → Database → Outcome (Unit {0})
fail page expected attempt failure can_retry now db =
    if_legal expected failed false
      (update_page (is_attempt page expected attempt)
        (λ p. record p {
          status = failed;
          review_reason_code = none;
          safe_error_code = some failure;
          safe_error_message = some (safe_message failure);
          retryable = can_retry;
          updated_at = now;
        })
        db)
      db

unfoldable pub cancel : ℕ → IndexPageStatus → ℕ → ℕ → Database → Outcome (Unit {0})
cancel page expected attempt now db =
    if_legal expected IndexPageStatus.cancelled false
      (update_page (is_attempt page expected attempt)
        (λ p. record p {
          status = IndexPageStatus.cancelled;
          review_reason_code = none;
          safe_error_code = none;
          safe_error_message = none;
          retryable = false;
          updated_at = now;
        })
        db)
      db

-- A page goes back to the queue under a new attempt.
abbrev pub requeue : ℕ → ℕ → Page → Page
requeue fresh now p = record p {
  status = queued;
  attempt_id = some fresh;
  attempt_count = p.attempt_count + 1;
  attempt_started_at = none;
  render_sha256 = none;
  response_sha256 = none;
  review_reason_code = none;
  safe_error_code = none;
  safe_error_message = none;
  retryable = false;
  updated_at = now;
}

abbrev pub returns : {A : Type 0} → A → Outcome (Unit {0}) → Outcome A
returns a (db, ok _) = (db, ok a)
returns a (db, err e) = (db, err e)

-- `fresh` is the identifier that `Uuid::new_v4` draws.
unfoldable pub retry : ℕ → IndexPageStatus → ℕ → ℕ → ℕ → Database → Outcome ℕ
retry page expected attempt fresh now db = returns fresh (
    if_legal expected queued true
      (update_page (is_attempt page expected attempt) (requeue fresh now) db) db)
