-- ===== src/Index/PageOps.antt =====
-- The page operations of src-tauri/src/indexing/state.rs as one type, so that what holds of each of
-- them is stated once.
use textbook_lens.Base.{ℕ, Bool, List, ok, err}
use textbook_lens.Index.Status.{IndexPageStatus, IndexFailureCode, IndexReviewReason}
use textbook_lens.Index.Rows.{Database}
use textbook_lens.Index.Pages.{
  Outcome, claim_render, mark_rendered, claim_send, mark_received, claim_validate, commit_review,
  commit_indexed, fail, cancel, retry,
}

-- Each names the operation's arguments behind the page and the attempt.
pub data PageOp : Type 0 where
  claims_render claims_send claims_validate : PageOp
  marks_rendered marks_received commits_indexed : List ℕ → PageOp
  commits_review : IndexReviewReason → List ℕ → PageOp
  fails : IndexPageStatus → IndexFailureCode → Bool → PageOp
  cancels : IndexPageStatus → PageOp
  retries : IndexPageStatus → ℕ → PageOp

abbrev pub forget : {A : Type 0} → Outcome A → Outcome (Unit {0})
forget (db, ok a) = (db, ok tt)
forget (db, err e) = (db, err e)

unfoldable pub perform : PageOp → ℕ → ℕ → ℕ → Database → Outcome (Unit {0})
perform claims_render page attempt now db = forget (claim_render page attempt now db)
perform claims_send page attempt now db = claim_send page attempt now db
perform claims_validate page attempt now db = claim_validate page attempt now db
perform (marks_rendered hash) page attempt now db = mark_rendered page attempt hash now db
perform (marks_received hash) page attempt now db = mark_received page attempt hash now db
perform (commits_indexed hash) page attempt now db = commit_indexed page attempt hash now db
perform (commits_review reason hash) page attempt now db =
    commit_review page attempt reason hash now db
perform (fails expected failure can_retry) page attempt now db =
    fail page expected attempt failure can_retry now db
perform (cancels expected) page attempt now db = cancel page expected attempt now db
perform (retries expected fresh) page attempt now db =
    forget (retry page expected attempt fresh now db)
