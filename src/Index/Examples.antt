-- ===== src/Index/Examples.antt =====
-- A run with one page that waits, and what the operations do to it.
use textbook_lens.Base.{
  ℕ, ◌+◌, ◌*◌, ◌≡◌, refl, ◌≢◌, ◌↔◌, ◌⊎◌, true, false, List, [], ◌∷◌, arith, none, some, All, ok,
  err,
}
use textbook_lens.Index.Status.{
  running, paused, cancelling, no_text, queued, rendering, not_required, indexed, IndexRunStatus,
  completed, legal_transition, all_ready, aggregate_status,
}
use textbook_lens.Index.Rows.{
  Page, Run, Database, database_error, request_conflict, page_checks, column_checks, status_checks,
  reliable_check, attempt_check, started_check, queued_check, render_check, response_check,
  review_check, error_check, retryable_check, content_check, run_checks, update_page, update_run,
  require_one_row,
}
use textbook_lens.Index.Pages.{retry, if_legal}
use textbook_lens.Index.PageOps.{claims_render, cancels, perform}
use textbook_lens.Index.Statements.{WellFormed}
use textbook_lens.Index.Safety.{IsExpected, perform-IsSafe}
use textbook_lens.Index.Fencing.{IsRefused, PageCall, perform_each, stale_perform, retry_fences}
use textbook_lens.Index.Runs.{ActiveAttempt, register, finalize_run_if_terminal, cancel_run}
use textbook_lens.Index.Creation.{queue}
use textbook_lens.Index.Births.{IsRefusedOnly, is_taken, queue-IsRefusedOnly}
use textbook_lens.Index.Endings.{HasEnded, finalize_run-IsEnded}
use textbook_lens.Index.Registry.{
  OnePerPage, IsActive, registered, register-OnePerPage, IsAtomic, cancel_run-IsAtomic,
}
use textbook_lens.Index.Aggregate.{no_counts, record_all, is_usable, aggregate_status-all_ready}

abbrev waiting : Page
waiting = record {
  id = 5;
  run_id = 1;
  book_id = 2;
  page_number = 1;
  quality_reason = no_text;
  status = queued;
  attempt_id = some 40;
  attempt_count = 1;
  attempt_started_at = none;
  local_text_sha256 = none;
  render_sha256 = none;
  response_sha256 = none;
  content_sha256 = none;
  content_version = 0;
  review_reason_code = none;
  safe_error_code = none;
  safe_error_message = none;
  retryable = false;
  created_at = 0;
  updated_at = 0;
}

abbrev stopped : Page
stopped = record waiting { status = textbook_lens.Index.Status.IndexPageStatus.cancelled }

abbrev active_run : Run
active_run = record {
  id = 1;
  book_id = 2;
  status = running;
  paused_at = none;
  cancel_requested_at = none;
  completed_at = none;
  updated_at = 0;
}

abbrev one_waits : Database
one_waits = record { runs = active_run ∷ []; pages = waiting ∷ [] }

abbrev one_stopped : Database
one_stopped = record { runs = active_run ∷ []; pages = stopped ∷ [] }

waiting-checks :
    (page_checks waiting ≡ true) × (page_checks stopped ≡ true) × (run_checks active_run ≡ true)
unfolding page_checks column_checks status_checks reliable_check attempt_check started_check
    queued_check render_check response_check review_check error_check retryable_check content_check
    run_checks
waiting-checks = (refl, refl, refl)

one_waits-WellFormed : WellFormed one_waits
one_waits-WellFormed = record {
  pages_checked = (waiting-checks.0, tt);
  pages_unique = (tt, tt);
  runs_checked = (waiting-checks.2, tt);
}

one_stopped-WellFormed : WellFormed one_stopped
one_stopped-WellFormed = record {
  pages_checked = (waiting-checks.1, tt);
  pages_unique = (tt, tt);
  runs_checked = (waiting-checks.2, tt);
}

perform-IsSafe_example :
    WellFormed (perform claims_render 5 40 9 one_waits).0
    × ((perform claims_render 5 40 9 one_waits).1 ≢ err database_error)
    × IsExpected (perform claims_render 5 40 9 one_waits).1
perform-IsSafe_example =
    perform-IsSafe claims_render 5 40 9 one_waits ((omega arith, omega arith), tt)
      one_waits-WellFormed

stale_perform_example : IsRefused one_waits (perform claims_render 5 39 9 one_waits)
stale_perform_example = stale_perform claims_render 5 39 9 one_waits (λ e. refl, tt)

abbrev retried : Database
retried = (retry 5 textbook_lens.Index.Status.IndexPageStatus.cancelled 40 41 9 one_stopped).0

-- The new attempt is claimed, and then cancelled.
abbrev new_worker : List PageCall
new_worker =
    record { op = claims_render; page = 5; attempt = 41; now = 10 }
    ∷ record { op = cancels rendering; page = 5; attempt = 41; now = 11 }
    ∷ []

retry_fences_example :
    IsRefused
      (perform_each new_worker retried)
      (perform claims_render 5 40 12 (perform_each new_worker retried))
unfolding retry if_legal legal_transition update_page require_one_row page_checks column_checks
    status_checks reliable_check attempt_check started_check queued_check render_check
    response_check review_check error_check retryable_check content_check
retry_fences_example =
    retry_fences 5 40 41 9 12 textbook_lens.Index.Status.IndexPageStatus.cancelled claims_render
      one_stopped new_worker one_stopped-WellFormed (λ e. omega arith) refl (tt, (tt, tt))

finalize_run-IsEnded_example :
    HasEnded 1 9 running completed one_stopped (finalize_run_if_terminal 1 running 9 one_stopped).0
    × ((running ≡ cancelling) × (completed ≡ IndexRunStatus.cancelled)
        ⊎ (running ≡ running ⊎ running ≡ paused) × (completed ≡ completed))
unfolding finalize_run_if_terminal update_run require_one_row run_checks
finalize_run-IsEnded_example = finalize_run-IsEnded 1 9 running completed one_stopped refl

abbrev works : ActiveAttempt
works = record { run_id = 1; page_id = 5; attempt_id = 40; token_cancelled = false }

register-OnePerPage_example :
    OnePerPage (register 1 6 42 (works ∷ [])).0
    × (IsActive 6 (works ∷ []) → register 1 6 42 (works ∷ []) ≡ (works ∷ [], err request_conflict))
    × (¬ IsActive 6 (works ∷ [])
        → register 1 6 42 (works ∷ []) ≡ (registered 1 6 42 ∷ works ∷ [], ok tt))
register-OnePerPage_example = register-OnePerPage 1 6 42 (works ∷ []) (tt, tt)

cancel_run-IsAtomic_example :
    IsAtomic 1 9 running one_waits (works ∷ []) (cancel_run 1 running 9 one_waits (works ∷ []))
cancel_run-IsAtomic_example = cancel_run-IsAtomic 1 9 running one_waits (works ∷ [])

aggregate_status-all_ready_example :
    (aggregate_status (record_all (indexed ∷ not_required ∷ []) no_counts) ≡ all_ready) ↔ (
      (indexed ∷ not_required ∷ [] ≢ [])
      × All (λ s. is_usable s ≡ true) (indexed ∷ not_required ∷ []))
aggregate_status-all_ready_example = aggregate_status-all_ready (indexed ∷ not_required ∷ [])

-- Keys of pages in place of the hash.
abbrev key_of : ℕ → ℕ → ℕ
key_of run n = run * 1000 + n

queue-IsRefusedOnly_example :
    IsRefusedOnly
      (is_taken (key_of 1 2) 1 2 one_waits.pages)
      (queue key_of 77 1 2 no_text none 9 one_waits)
queue-IsRefusedOnly_example =
    queue-IsRefusedOnly key_of 77 1 2 no_text none 9 one_waits one_waits-WellFormed
