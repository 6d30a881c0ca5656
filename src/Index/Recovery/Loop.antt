-- ===== src/Index/Recovery/Loop.antt =====
-- `recover_interrupted_pages` of src-tauri/src/indexing/recovery.rs. The scratch files are a set of
-- pairs of a page and an attempt. What the file system refuses is a parameter, as is the range of
-- `chrono::Duration::from_std`; the identifier that `Uuid::new_v4` draws for a page is an argument.
use textbook_lens.Base.{
  ℕ, ◌+◌, ◌-◌, Bool, true, false, not, ◌&&◌, ◌||◌, Option, none, some, List, [], ◌∷◌, ltb, leb,
  ◌==◌, if◌then◌else◌, u32_max, checked_add, Result, ok, err, is_some,
}
use textbook_lens.Errors.{local_io_error}
use textbook_lens.Index.Status.{
  IndexPageStatus, IndexFailureCode, queued, rendering, sending, parsing, validating, indexed,
  failed, same_page_status, index_scratch_missing, index_attempt_expired,
}
use textbook_lens.Index.Rows.{
  Page, Database, AppErrorCode, database_error, invalid_input, has_status, safe_message,
  page_checks, breaks_check, update_page,
}
use textbook_lens.Index.Pages.{is_attempt}

pub record RecoverySummary : Type 0 where
  pub requeued : ℕ
  pub marked_retryable : ℕ
  pub unchanged_indexed : ℕ

pub record InterruptedPage : Type 0 where
  pub page_id : ℕ
  pub status : IndexPageStatus
  pub attempt_id : ℕ
  pub updated_at : ℕ
  pub has_render_hash : Bool

-- The scratch file of a page and an attempt exists.
abbrev pub Scratch : Type 0
Scratch = ℕ → ℕ → Bool

-- Which calls the file system refuses: on the root, and on the file of a page and an attempt.
pub record FileSystem : Type 0 where
  pub refuses_root : Bool
  pub refuses : ℕ → ℕ → Bool

-- The database, the scratch files and the summary so far.
pub record Startup : Type 0 where
  pub database : Database
  pub scratch : Scratch
  pub summary : RecoverySummary

abbrev pub Step : Type 0
Step = Startup × Result AppErrorCode (Unit {0})

-- `move_scratch`
unfoldable pub move_scratch :
    FileSystem → ℕ → ℕ → ℕ → Scratch → Scratch × Result AppErrorCode (Unit {0})
move_scratch fs page source target files =
    if fs.refuses page source || not (files page source) then (files, err local_io_error) else (
      λ p a.
          if p == page && a == target
          then true
          else if p == page && a == source
          then false
          else files p a,
      ok tt,
    )

-- `fs::remove_file` of a file that exists
unfoldable pub remove_scratch :
    FileSystem → ℕ → ℕ → Scratch → Scratch × Result AppErrorCode (Unit {0})
remove_scratch fs page attempt files =
    if fs.refuses page attempt
    then (files, err local_io_error)
    else (λ p a. if p == page && a == attempt then false else files p a, ok tt)

-- The first UPDATE: the page goes back to the queue under a new attempt.
abbrev pub requeue_scratch : Bool → ℕ → ℕ → Page → Page
requeue_scratch reuse fresh now p = record p {
  status = queued;
  attempt_id = some fresh;
  attempt_count = p.attempt_count + 1;
  attempt_started_at = none;
  render_sha256 = if reuse then p.render_sha256 else none;
  response_sha256 = none;
  review_reason_code = none;
  safe_error_code = none;
  safe_error_message = none;
  retryable = false;
  updated_at = now;
}

-- The second UPDATE: the page fails, and can be retried.
abbrev pub fail_interrupted : IndexFailureCode → ℕ → Page → Page
fail_interrupted failure now p = record p {
  status = failed;
  review_reason_code = none;
  safe_error_code = some failure;
  safe_error_message = some (safe_message failure);
  retryable = true;
  updated_at = now;
}

abbrev pub count_requeued : Startup → Step
count_requeued s = elim (checked_add u32_max s.summary.requeued 1) [
  | none ↦ (s, err database_error)
  | some n ↦ (record s { summary = record s.summary { requeued = n } }, ok tt)
]

abbrev pub count_retryable : Startup → Step
count_retryable s = elim (checked_add u32_max s.summary.marked_retryable 1) [
  | none ↦ (s, err database_error)
  | some n ↦ (record s { summary = record s.summary { marked_retryable = n } }, ok tt)
]

abbrev pub is_interrupted_attempt : InterruptedPage → Page → Bool
is_interrupted_attempt t = is_attempt t.page_id t.status t.attempt_id

-- What is done once the UPDATE has run: a move of the scratch file is undone when the statement was
-- executed and did not touch one row, and stays when the database refused the statement.
abbrev pub requeued_step :
    FileSystem
    → Bool
    → ℕ
    → InterruptedPage
    → Startup
    → Bool
    → Database × Result AppErrorCode (Unit {0})
    → Step
requeued_step fs reuse fresh t s executed (db, err e) = (
  record s {
    database = db;
    scratch =
        if executed && reuse
        then (move_scratch fs t.page_id fresh t.attempt_id s.scratch).0
        else s.scratch;
  },
  err e,
)
requeued_step fs reuse fresh t s executed (db, ok _) = count_requeued (record s { database = db })

abbrev pub retryable_step : Startup → Database × Result AppErrorCode (Unit {0}) → Step
retryable_step s (db, err e) = (record s { database = db }, err e)
retryable_step s (db, ok _) = count_retryable (record s { database = db })

-- What is done once the scratch file is moved or removed.
abbrev pub with_scratch :
    Startup → (Startup → Step) → Scratch × Result AppErrorCode (Unit {0}) → Step
with_scratch s rest (files, err e) = (record s { scratch = files }, err e)
with_scratch s rest (files, ok _) = rest (record s { scratch = files })

-- The rest of a turn that queues the page again, and of one that lets it fail.
abbrev pub requeue_turn : FileSystem → Bool → ℕ → ℕ → InterruptedPage → Startup → Step
requeue_turn fs reuse fresh now t s =
    requeued_step fs reuse fresh t s
      (not (
        breaks_check page_checks (is_interrupted_attempt t) (requeue_scratch reuse fresh now)
          s.database.pages))
      (update_page (is_interrupted_attempt t) (requeue_scratch reuse fresh now) s.database)

abbrev pub fail_turn : IndexFailureCode → ℕ → InterruptedPage → Startup → Step
fail_turn failure now t s =
    retryable_step s
      (update_page (is_interrupted_attempt t) (fail_interrupted failure now) s.database)

-- A turn for a page that can go back to the queue, and for one that cannot.
abbrev pub choose_turn : FileSystem → ℕ → ℕ → InterruptedPage → Startup → Bool → Bool → Step
choose_turn fs now fresh t s reuse true = with_scratch s (requeue_turn fs reuse fresh now t) (
    if reuse
    then move_scratch fs t.page_id t.attempt_id fresh s.scratch
    else if s.scratch t.page_id t.attempt_id
    then remove_scratch fs t.page_id t.attempt_id s.scratch
    else (s.scratch, ok tt))
choose_turn fs now fresh t s reuse false =
    let exists = s.scratch t.page_id t.attempt_id in
    with_scratch s
      (fail_turn (if exists then index_attempt_expired else index_scratch_missing) now t)
      (if exists then remove_scratch fs t.page_id t.attempt_id s.scratch else (s.scratch, ok tt))

-- The turn of the loop for one page.
unfoldable pub recover_page : FileSystem → ℕ → ℕ → (ℕ → ℕ) → InterruptedPage → Startup → Step
recover_page fs now max_age draw t s =
    let is_fresh = leb (now - t.updated_at) max_age in
    let reuse = s.scratch t.page_id t.attempt_id && (is_fresh && t.has_render_hash) in
    choose_turn fs now (draw t.page_id) t s reuse (same_page_status t.status rendering || reuse)

-- `?` between the turns
abbrev pub and_then : Step → (Startup → Step) → Step
and_then (s, err e) next = (s, err e)
and_then (s, ok _) next = next s

abbrev pub recover_each : FileSystem → ℕ → ℕ → (ℕ → ℕ) → List InterruptedPage → Startup → Step
recover_each fs now max_age draw [] s = (s, ok tt)
recover_each fs now max_age draw (t ∷ ts) s =
    and_then (recover_page fs now max_age draw t s) (recover_each fs now max_age draw ts)

-- `status IN ('rendering', 'sending', 'parsing', 'validating')`
abbrev pub is_interrupted : Page → Bool
is_interrupted p =
    has_status rendering p
    || has_status sending p
    || has_status parsing p
    || has_status validating p

-- `ORDER BY run_id, page_number`
abbrev pub is_listed_before : Page → Page → Bool
is_listed_before p q =
    ltb p.run_id q.run_id || p.run_id == q.run_id && leb p.page_number q.page_number

abbrev pub insert_ordered : Page → List Page → List Page
insert_ordered p [] = p ∷ []
insert_ordered p (q ∷ qs) =
    let rest = insert_ordered p qs in if is_listed_before p q then p ∷ q ∷ qs else q ∷ rest

abbrev pub select_interrupted : List Page → List Page
select_interrupted [] = []
select_interrupted (p ∷ ps) =
    let rest = select_interrupted ps in if is_interrupted p then insert_ordered p rest else rest

-- A row as `InterruptedPage`, and all rows, each of which must have an attempt.
abbrev pub interrupted_page : Page → ℕ → InterruptedPage
interrupted_page p attempt = record {
  page_id = p.id;
  status = p.status;
  attempt_id = attempt;
  updated_at = p.updated_at;
  has_render_hash = is_some p.render_sha256;
}

abbrev pub from_rows : List Page → Option (List InterruptedPage)
from_rows [] = some []
from_rows (p ∷ ps) = elim p.attempt_id [
  | none ↦ none
  | some attempt ↦ elim (from_rows ps) [
    | none ↦ none
    | some ts ↦ some (interrupted_page p attempt ∷ ts)
  ]
]

abbrev pub indexed_count : List Page → ℕ
indexed_count [] = 0
indexed_count (p ∷ ps) = (if has_status indexed p then 1 else 0) + indexed_count ps

-- What happens once the rows are read.
abbrev pub recover_rows :
    FileSystem → ℕ → ℕ → (ℕ → ℕ) → Option (List InterruptedPage) → Startup → Step
recover_rows fs now max_age draw none s = (s, err database_error)
recover_rows fs now max_age draw (some ts) s =
    let n = indexed_count s.database.pages in
    if leb n u32_max
    then recover_each fs now max_age draw ts (record s {
      summary = record { requeued = 0; marked_retryable = 0; unchanged_indexed = n };
    })
    else (s, err database_error)

unfoldable pub recover_interrupted_pages :
    FileSystem → (ℕ → Option ℕ) → ℕ → ℕ → (ℕ → ℕ) → Startup → Step
recover_interrupted_pages fs from_std now max_attempt_age draw s =
    if fs.refuses_root then (s, err local_io_error) else elim (from_std max_attempt_age) [
      | none ↦ (s, err invalid_input)
      | some max_age ↦
          recover_rows fs now max_age draw (from_rows (select_interrupted s.database.pages)) s
    ]
