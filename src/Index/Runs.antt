-- ===== src/Index/Runs.antt =====
-- The runs of src-tauri/src/indexing/state.rs: pause, resume, cancellation with its registry, and the
-- end of a run.
use textbook_lens.Base.{
  ℕ, ◌+◌, Bool, true, false, not, ◌&&◌, ◌||◌, Option, none, some, List, [], ◌∷◌, leb, ◌==◌,
  if◌then◌else◌, any, keep, checked_add, u32_max, Result, ok, err,
}
use textbook_lens.Index.Status.{
  IndexRunStatus, IndexPageStatus, running, paused, cancelling, completed, queued, rendering,
  sending, parsing, validating, same_run_status,
}
use textbook_lens.Index.Rows.{
  Page, Run, Database, AppErrorCode, database_error, request_conflict, has_status, has_run_status,
  update_page, update_run,
}
use textbook_lens.Index.Pages.{Outcome, holds_id}

-- `CancellationToken`, as far as the registry uses it: whether it is cancelled.
pub record ActiveAttempt : Type 0 where
  pub run_id : ℕ
  pub page_id : ℕ
  pub attempt_id : ℕ
  pub token_cancelled : Bool

-- `IndexCancellationRegistry::register`
unfoldable pub register :
    ℕ → ℕ → ℕ → List ActiveAttempt → List ActiveAttempt × Result AppErrorCode (Unit {0})
register run page attempt active =
    if any (λ a. a.page_id == page) active then (active, err request_conflict) else (
      (record { run_id = run; page_id = page; attempt_id = attempt; token_cancelled = false })
          ∷ active,
      ok tt,
    )

abbrev pub has_key : ℕ → ℕ → ℕ → ActiveAttempt → Bool
has_key run page attempt a = a.run_id == run && a.page_id == page && a.attempt_id == attempt

-- `IndexCancellationRegistry::finish`
unfoldable pub finish : ℕ → ℕ → ℕ → List ActiveAttempt → List ActiveAttempt × Bool
finish run page attempt active =
    (keep (λ a. not (has_key run page attempt a)) active, any (has_key run page attempt) active)

-- `IndexCancellationRegistry::cancel_run`
unfoldable pub signal_run : ℕ → List ActiveAttempt → List ActiveAttempt × ℕ
signal_run run [] = ([], 0)
signal_run run (a ∷ rest) =
    let tail = signal_run run rest in
    if a.run_id == run
    then (record a { token_cancelled = true } ∷ tail.0, tail.1 + 1)
    else (a ∷ tail.0, tail.1)

-- `id = ? AND status = ?` on runs
abbrev pub is_run : ℕ → IndexRunStatus → Run → Bool
is_run run status r = r.id == run && has_run_status status r

unfoldable pub pause : ℕ → IndexRunStatus → ℕ → Database → Outcome (Unit {0})
pause run expected now db =
    if same_run_status expected running
    then update_run (is_run run expected)
        (λ r. record r { status = paused; paused_at = some now; updated_at = now }) db
    else (db, err request_conflict)

unfoldable pub resume : ℕ → IndexRunStatus → ℕ → Database → Outcome (Unit {0})
resume run expected now db =
    if same_run_status expected paused
    then update_run (is_run run expected)
        (λ r. record r { status = running; paused_at = none; updated_at = now }) db
    else (db, err request_conflict)

pub record CancelRunResult : Type 0 where
  pub queued_pages_cancelled : ℕ
  pub active_attempts_signalled : ℕ

-- `SELECT … WHERE run_id = ? AND status = 'queued' ORDER BY page_number`
abbrev pub insert_by_number : Page → List Page → List Page
insert_by_number p [] = p ∷ []
insert_by_number p (q ∷ qs) =
    let rest = insert_by_number p qs in
    if leb p.page_number q.page_number then p ∷ q ∷ qs else q ∷ rest

abbrev pub queued_pages : ℕ → List Page → List Page
queued_pages run [] = []
queued_pages run (p ∷ ps) =
    let rest = queued_pages run ps in
    if p.run_id == run && has_status queued p then insert_by_number p rest else rest

abbrev pub cancel_queued : ℕ → Page → Page
cancel_queued now p = record p {
  status = IndexPageStatus.cancelled;
  retryable = false;
  updated_at = now;
}

-- `id = ? AND status = 'queued' AND attempt_id = ?`, with the row's own attempt; a row without one
-- is an error.
abbrev pub is_selected : Page → Page → Bool
is_selected selected p =
    p.id == selected.id
    && has_status queued p
    && (elim selected.attempt_id [ none ↦ false | some attempt ↦ holds_id p.attempt_id attempt ])

-- The loop over the selected pages: the database and the number of pages so far.
abbrev pub cancel_each : ℕ → List Page → ℕ → Database → Outcome ℕ
cancel_each now [] n db = (db, ok n)
cancel_each now (p ∷ ps) n db =
    let step = update_page (is_selected p) (cancel_queued now) db in
    elim step.1 [
      | ok _ ↦ elim (checked_add u32_max n 1) [
        | none ↦ (step.0, err database_error)
        | some m ↦ cancel_each now ps m step.0
      ]
      | err e ↦ (step.0, err e)
    ]

abbrev pub request_cancel : ℕ → IndexRunStatus → ℕ → Database → Outcome (Unit {0})
request_cancel run expected now = update_run (is_run run expected) (λ r. record r {
  status = cancelling;
  paused_at = none;
  cancel_requested_at = some now;
  updated_at = now;
})

-- The statements of the transaction.
abbrev pub cancel_pages : ℕ → IndexRunStatus → ℕ → Database → Outcome ℕ
cancel_pages run expected now db =
    let requested = request_cancel run expected now db in
    elim requested.1 [
      | ok _ ↦ cancel_each now (queued_pages run requested.0.pages) 0 requested.0
      | err e ↦ (requested.0, err e)
    ]

-- A transaction that ends in an error is rolled back.
abbrev pub transaction {ℓ} :
    {A : Type ℓ} → Database → Database × Result AppErrorCode A → Database × Result AppErrorCode A
transaction before (db, ok a) = (db, ok a)
transaction before (db, err e) = (before, err e)

abbrev pub signalled :
    ℕ
    → List ActiveAttempt
    → Outcome ℕ
    → (Database × List ActiveAttempt) × Result AppErrorCode CancelRunResult
signalled run active (db, err e) = ((db, active), err e)
signalled run active (db, ok n) =
    let sent = signal_run run active in
    (
      (db, sent.0),
      if leb sent.1 u32_max
          then ok (record { queued_pages_cancelled = n; active_attempts_signalled = sent.1 })
          else err database_error,
    )

unfoldable pub cancel_run :
    ℕ
    → IndexRunStatus
    → ℕ
    → Database
    → List ActiveAttempt
    → (Database × List ActiveAttempt) × Result AppErrorCode CancelRunResult
cancel_run run expected now db active =
    if same_run_status expected running || same_run_status expected paused
    then signalled run active (transaction db (cancel_pages run expected now db))
    else ((db, active), err request_conflict)

-- `status IN ('queued', 'rendering', 'sending', 'parsing', 'validating')`
abbrev pub is_unfinished : Page → Bool
is_unfinished p =
    has_status queued p
    || has_status rendering p
    || has_status sending p
    || has_status parsing p
    || has_status validating p

abbrev pub has_unfinished : ℕ → Database → Bool
has_unfinished run db = any (λ p. p.run_id == run && is_unfinished p) db.pages

abbrev pub finalize_target : IndexRunStatus → Option IndexRunStatus
finalize_target running = some completed
finalize_target paused = some completed
finalize_target cancelling = some IndexRunStatus.cancelled
finalize_target IndexRunStatus.cancelled = none
finalize_target completed = none

abbrev pub answers {ℓ} : {A : Type ℓ} → A → Outcome (Unit {0}) → Database × Result AppErrorCode A
answers a (db, ok _) = (db, ok a)
answers a (db, err e) = (db, err e)

unfoldable pub finalize_run_if_terminal : ℕ → IndexRunStatus → ℕ → Database → Outcome IndexRunStatus
finalize_run_if_terminal run expected now db = elim (finalize_target expected) [
  | none ↦ (db, err request_conflict)
  | some target ↦ answers target (
      update_run (λ r. is_run run expected r && not (has_unfinished run db))
        (λ r. record r {
          status = target;
          paused_at = none;
          completed_at = some now;
          updated_at = now;
        })
        db)
]
