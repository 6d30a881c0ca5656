-- ===== src/Index/Creation.antt =====
-- `queue` of src-tauri/src/indexing/state.rs, which is `create_index_page` of
-- src-tauri/src/db/indexing.rs.
use textbook_lens.Base.{
  ℕ, false, not, ◌&&◌, ◌||◌, Option, none, some, List, [], ◌∷◌, ltb, ◌==◌, if◌then◌else◌, any, ok,
  err,
}
use textbook_lens.Index.Status.{IndexPageStatus, IndexQualityReason, running, not_required, queued}
use textbook_lens.Index.Rows.{
  Page, Run, Database, database_error, request_conflict, invalid_input, not_found, sha_or_null,
  is_reliable, has_run_status, page_checks,
}
use textbook_lens.Index.Pages.{Outcome}
use textbook_lens.Index.Runs.{answers}

pub record IndexPageOwnership : Type 0 where
  pub page_id : ℕ
  pub run_id : ℕ
  pub book_id : ℕ
  pub attempt_id : Option ℕ
  pub status : IndexPageStatus

abbrev pub find_run : ℕ → List Run → Option Run
find_run id [] = none
find_run id (r ∷ rs) = let rest = find_run id rs in if r.id == id then some r else rest

-- The row that `create_index_page` inserts; the other columns have the defaults of the table.
abbrev pub new_page : ℕ → ℕ → Run → ℕ → IndexQualityReason → Option (List ℕ) → ℕ → Page
new_page page_id fresh r page_number reason hash now =
    let reliable = is_reliable reason in
    record {
      id = page_id;
      run_id = r.id;
      book_id = r.book_id;
      page_number = page_number;
      quality_reason = reason;
      status = if reliable then not_required else queued;
      attempt_id = if reliable then none else some fresh;
      attempt_count = if reliable then 0 else 1;
      attempt_started_at = none;
      local_text_sha256 = hash;
      render_sha256 = none;
      response_sha256 = none;
      content_sha256 = none;
      content_version = 0;
      review_reason_code = none;
      safe_error_code = none;
      safe_error_message = none;
      retryable = false;
      created_at = now;
      updated_at = now;
    }

-- The INSERT fails on a key or a page of a run that is there already, and on a broken constraint.
abbrev pub insert_page : Page → Database → Outcome (Unit {0})
insert_page p db =
    if any (λ q. q.id == p.id || q.run_id == p.run_id && q.page_number == p.page_number) db.pages
      || not (page_checks p)
    then (db, err database_error)
    else (record db { pages = p ∷ db.pages }, ok tt)

abbrev pub ownership : Page → IndexPageOwnership
ownership p = record {
  page_id = p.id;
  run_id = p.run_id;
  book_id = p.book_id;
  attempt_id = p.attempt_id;
  status = p.status;
}

-- `create_index_page`, which `queue` calls. `stable_index_page_id` is the parameter `page_id`, a
-- hash of its arguments; `fresh` is the identifier that `Uuid::new_v4` draws.
unfoldable pub queue :
    (ℕ → ℕ → ℕ)
    → ℕ
    → ℕ
    → ℕ
    → IndexQualityReason
    → Option (List ℕ)
    → ℕ
    → Database
    → Outcome IndexPageOwnership
queue page_id fresh run page_number reason hash now db =
    if page_number == 0 || ltb 1000000 page_number || not (sha_or_null hash)
    then (db, err invalid_input)
    else elim (find_run run db.runs) [
      | none ↦ (db, err not_found)
      | some r ↦
          let p = new_page (page_id run page_number) fresh r page_number reason hash now in
          if has_run_status running r
          then answers (ownership p) (insert_page p db)
          else (db, err request_conflict)
    ]
