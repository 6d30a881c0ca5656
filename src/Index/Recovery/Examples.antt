-- ===== src/Index/Recovery/Examples.antt =====
-- A start after a crash: page 5 was being rendered, page 6 was being sent, and its scratch file is there.
use textbook_lens.Base.{
  ℕ, zero, suc, ◌+◌, ◌≡◌, refl, true, false, ◌&&◌, none, some, List, [], ◌∷◌, ◌==◌, arith, ok,
}
use textbook_lens.Index.Status.{no_text, rendering, sending, running}
use textbook_lens.Index.Rows.{
  Page, Run, page_checks, column_checks, status_checks, reliable_check, attempt_check,
  started_check, queued_check, render_check, response_check, review_check, error_check,
  retryable_check, content_check, run_checks, update_page, require_one_row, is_sha256,
}
use textbook_lens.Index.Statements.{WellFormed}
use textbook_lens.Index.Recovery.Loop.{
  FileSystem, Startup, Step, move_scratch, remove_scratch, recover_page, recover_interrupted_pages,
}
use textbook_lens.Index.Recovery.Guarantee.{IsRecovered, recover_interrupted_pages-IsRecovered}

abbrev zeros : ℕ → List ℕ
zeros zero = []
zeros (suc n) = b'0' ∷ zeros n

abbrev in_rendering : Page
in_rendering = record {
  id = 5;
  run_id = 1;
  book_id = 2;
  page_number = 1;
  quality_reason = no_text;
  status = rendering;
  attempt_id = some 40;
  attempt_count = 1;
  attempt_started_at = some 3;
  local_text_sha256 = none;
  render_sha256 = none;
  response_sha256 = none;
  content_sha256 = none;
  content_version = 0;
  review_reason_code = none;
  safe_error_code = none;
  safe_error_message = none;
  retryable = false;
  created_at = 0;
  updated_at = 3;
}

abbrev in_sending : Page
in_sending = record in_rendering {
  id = 6;
  page_number = 2;
  status = sending;
  attempt_id = some 41;
  render_sha256 = some (zeros 64);
}

abbrev the_run : Run
the_run = record {
  id = 1;
  book_id = 2;
  status = running;
  paused_at = none;
  cancel_requested_at = none;
  completed_at = none;
  updated_at = 0;
}

abbrev crashed : Startup
crashed = record {
  database = record { runs = the_run ∷ []; pages = in_sending ∷ in_rendering ∷ [] };
  scratch = λ page attempt. page == 6 && attempt == 41;
  summary = record { requeued = 0; marked_retryable = 0; unchanged_indexed = 0 };
}

abbrev willing : FileSystem
willing = record { refuses_root = false; refuses = λ page attempt. false }

abbrev restarted : ℕ → Step
restarted now = recover_interrupted_pages willing some now 10 (λ page. page + 100) crashed

-- All constraints, for runs.
runs : ℕ
unfolding page_checks column_checks status_checks reliable_check attempt_check started_check
    queued_check render_check response_check review_check error_check retryable_check content_check
    run_checks is_sha256 update_page require_one_row move_scratch remove_scratch recover_page
    recover_interrupted_pages
runs = 0

-- Soon after the crash both pages are queued again, and the scratch file has the new attempt.
restarted_soon :
    ((restarted 8).1 ≡ ok tt)
    × ((restarted 8).0.summary.requeued ≡ 2)
    × ((restarted 8).0.scratch 6 106 ≡ true)
    × ((restarted 8).0.scratch 6 41 ≡ false)
unfolding runs
restarted_soon = (refl, refl, refl, refl)

-- Later page 6 fails, and its scratch file is gone.
restarted_late :
    ((restarted 80).1 ≡ ok tt)
    × ((restarted 80).0.summary.requeued ≡ 1)
    × ((restarted 80).0.summary.marked_retryable ≡ 1)
    × ((restarted 80).0.scratch 6 41 ≡ false)
unfolding runs
restarted_late = (refl, refl, refl, refl)

crashed-WellFormed : WellFormed crashed.database
unfolding runs
crashed-WellFormed = record {
  pages_checked = (refl, (refl, tt));
  pages_unique = (((λ e. omega arith), tt), (tt, tt));
  runs_checked = (refl, tt);
}

recover_interrupted_pages-IsRecovered_example :
    IsRecovered willing false
      (some 10)
      2
      (recover_interrupted_pages willing some 8 10 (λ page. page + 100) crashed)
recover_interrupted_pages-IsRecovered_example =
    recover_interrupted_pages-IsRecovered willing some 8 10 (λ page. page + 100) crashed
      crashed-WellFormed
      ((λ w. (omega arith, omega arith)), ((λ w. (omega arith, omega arith)), tt)) (omega arith)
