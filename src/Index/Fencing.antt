-- ===== src/Index/Fencing.antt =====
-- Attempts of src-tauri/src/indexing/state.rs: a worker that holds an old attempt can do nothing.
use textbook_lens.Base.{
  ℕ, ◌≡◌, refl, ◌≢◌, ◌⊎◌, inl, inr, Bool, true, false, ◌&&◌, List, [], ◌∷◌, arith, All, ok, err,
  is_ok, Bool-cases, if◌then◌else◌,
}
use textbook_lens.Index.Status.{IndexPageStatus, queued, rendering, sending, parsing, validating}
use textbook_lens.Index.Rows.{
  Page, Database, request_conflict, page_checks, update_page, update_rows, rows_affected,
  breaks_check, require_one_row, is_some,
}
use textbook_lens.Index.Pages.{
  Outcome, is_attempt, run_exists, is_running, is_running_or_paused, if_legal, if_sha256, holds_id,
  start_rendering, claimed, returns, requeue, claim_render, mark_rendered, claim_send,
  mark_received, claim_validate, commit_review, commit_indexed, fail, cancel, retry,
}
use textbook_lens.Index.PageOps.{
  PageOp, claims_render, claims_send, claims_validate, marks_rendered, marks_received,
  commits_indexed, commits_review, fails, cancels, retries, perform, forget,
}
use textbook_lens.Index.Staleness.{IsStale, DrawsOther, perform-LeavesStale}
use textbook_lens.Index.Statements.{WellFormed, UniqueIds, affects_none}

-- The operation changes nothing and returns an error.
abbrev pub IsRefused : {A : Type 0} → Database → Outcome A → Type 0
IsRefused db o = (o.0 ≡ db) × (is_ok o.1 ≡ false)

module _ (picks : Page → Bool) (change : Page → Page) where
  untouched :
      (ps : List Page)
      → All (λ p. picks p ≡ false) ps
      → (update_rows page_checks picks change ps ≡ ps)
        × (rows_affected page_checks picks change ps ≡ 0)
        × (breaks_check page_checks picks change ps ≡ false)
  untouched [] a = (refl, refl, refl)
  untouched (p ∷ ps) a = ground (arith, untouched ps a.1)

  update_refused :
      (db : Database)
      → All (λ p. picks p ≡ false) db.pages
      → update_page picks change db ≡ (db, err request_conflict)
  unfolding update_page require_one_row
  update_refused db a = ground (arith, untouched db.pages a)

stale_picks :
    (page attempt : ℕ) (expected : IndexPageStatus) (extra : Page → Bool) (ps : List Page)
    → IsStale page attempt ps
    → All (λ p. (is_attempt page expected attempt p && extra p) ≡ false) ps
stale_picks page attempt expected extra [] h = tt
stale_picks page attempt expected extra (p ∷ ps) h =
    (ground (arith, h.0), stale_picks page attempt expected extra ps h.1)

stale_attempts :
    (page attempt : ℕ) (expected : IndexPageStatus) (ps : List Page)
    → IsStale page attempt ps
    → All (λ p. is_attempt page expected attempt p ≡ false) ps
stale_attempts page attempt expected [] h = tt
stale_attempts page attempt expected (p ∷ ps) h =
    (ground (arith, h.0), stale_attempts page attempt expected ps h.1)

if_legal-IsRefused :
    (from to : IndexPageStatus) (again : Bool) (rest : Outcome (Unit {0})) (db : Database)
    → IsRefused db rest
    → IsRefused db (if_legal from to again rest db)
unfolding if_legal
if_legal-IsRefused from to again rest db h = ground arith

if_sha256-IsRefused :
    (hash : List ℕ) (rest : Outcome (Unit {0})) (db : Database)
    → IsRefused db rest
    → IsRefused db (if_sha256 hash rest db)
unfolding if_sha256
if_sha256-IsRefused hash rest db h = ground arith

module _ (page attempt now : ℕ) (db : Database) (stale : IsStale page attempt db.pages) where
  stale_update :
      (expected : IndexPageStatus) (extra : Page → Bool) (change : Page → Page)
      → IsRefused db (update_page (λ p. is_attempt page expected attempt p && extra p) change db)
  stale_update expected extra change = ground (
    arith,
    update_refused (λ p. is_attempt page expected attempt p && extra p) change db
        (stale_picks page attempt expected extra db.pages stale),
  )

  stale_plain_update :
      (expected : IndexPageStatus) (change : Page → Page)
      → IsRefused db (update_page (is_attempt page expected attempt) change db)
  stale_plain_update expected change = ground (
    arith,
    update_refused (is_attempt page expected attempt) change db
        (stale_attempts page attempt expected db.pages stale),
  )

IsRefused-claimed :
    (page attempt : ℕ) (db : Database) (o : Outcome (Unit {0}))
    → IsRefused db o
    → IsRefused db (forget (claimed page attempt o))
IsRefused-claimed page attempt db (db', ok u) h = cc
IsRefused-claimed page attempt db (db', err e) h = h

IsRefused-returns :
    (fresh : ℕ) (db : Database) (o : Outcome (Unit {0}))
    → IsRefused db o
    → IsRefused db (forget (returns fresh o))
IsRefused-returns fresh db (db', ok u) h = cc
IsRefused-returns fresh db (db', err e) h = h

-- A stale attempt is refused by every operation, whatever its arguments, and changes nothing.
pub stale_perform :
    (op : PageOp) (page attempt now : ℕ) (db : Database)
    → IsStale page attempt db.pages
    → IsRefused db (perform op page attempt now db)
unfolding perform claim_render mark_rendered claim_send mark_received claim_validate commit_review
    commit_indexed fail cancel retry
stale_perform claims_render page attempt now db s = IsRefused-claimed page attempt db _ (
    if_legal-IsRefused _ _ _ _ db (
      stale_update page attempt now db s queued (λ p. run_exists is_running p.run_id db)
        (start_rendering now)))
stale_perform claims_send page attempt now db s =
    if_legal-IsRefused _ _ _ _ db
      (stale_update page attempt now db s rendering (λ p. is_some p.render_sha256) _)
stale_perform claims_validate page attempt now db s =
    if_legal-IsRefused _ _ _ _ db (stale_update page attempt now db s parsing (λ _. true) _)
stale_perform (marks_rendered hash) page attempt now db s =
    if_legal-IsRefused _ _ _ _ db
      (if_sha256-IsRefused hash _ db (stale_plain_update page attempt now db s rendering _))
stale_perform (marks_received hash) page attempt now db s =
    if_legal-IsRefused _ _ _ _ db
      (if_sha256-IsRefused hash _ db (stale_plain_update page attempt now db s sending _))
stale_perform (commits_indexed hash) page attempt now db s = if_legal-IsRefused _ _ _ _ db (
    if_sha256-IsRefused hash _ db (
      stale_update page attempt now db s validating
        (λ p. run_exists is_running_or_paused p.run_id db) _))
stale_perform (commits_review reason hash) page attempt now db s = if_legal-IsRefused _ _ _ _ db (
    if_sha256-IsRefused hash _ db (
      stale_update page attempt now db s validating
        (λ p. run_exists is_running_or_paused p.run_id db) _))
stale_perform (fails expected failure can_retry) page attempt now db s =
    if_legal-IsRefused _ _ _ _ db (stale_plain_update page attempt now db s expected _)
stale_perform (cancels expected) page attempt now db s =
    if_legal-IsRefused _ _ _ _ db (stale_plain_update page attempt now db s expected _)
stale_perform (retries expected fresh) page attempt now db s =
    IsRefused-returns fresh db _
      (if_legal-IsRefused _ _ _ _ db (stale_plain_update page attempt now db s expected _))

module _ (page old fresh now : ℕ) (expected : IndexPageStatus) (fresh_ne : fresh ≢ old) where
  abbrev picked : Page → Bool
  picked = is_attempt page expected old

  other-IsStale :
      (ps : List Page)
      → All (λ q. q.id ≢ page) ps
      → IsStale page old (update_rows page_checks picked (requeue fresh now) ps)
  other-IsStale [] a = tt
  other-IsStale (p ∷ ps) a = (λ e. ground arith, other-IsStale ps a.1)

  picked_id : (p : Page) → picked p ≡ true → (p.id ≡ page) × ((requeue fresh now p).id ≡ p.id)
  picked_id p h = ground arith

  requeued_head :
      (p : Page)
      → picked p ≡ true ⊎ p.id ≢ page
      → (if picked p then requeue fresh now p else p).id ≡ page
      → holds_id (if picked p then requeue fresh now p else p).attempt_id old ≡ false
  requeued_head p h e = ground arith

  absurd_count :
      (ps : List Page)
      → All (λ q. q.id ≢ page) ps
      → ¬ (rows_affected page_checks picked (requeue fresh now) ps ≡ 1)
  absurd_count ps a e =
      ground (arith, affects_none (λ p. Unit) picked (requeue fresh now) page picked_id ps a)

  one_requeued :
      (ps : List Page)
      → UniqueIds ps
      → rows_affected page_checks picked (requeue fresh now) ps ≡ 1
      → IsStale page old (update_rows page_checks picked (requeue fresh now) ps)
  one_requeued [] u e = tt
  one_requeued (p ∷ ps) u e = elim (Bool-cases (picked p)) [
    | inl hit ↦ (requeued_head p (inl hit), other-IsStale ps (rw (picked_id p hit).0 at u.0))
    | inr miss ↦ (
      requeued_head p (inr (λ same. absurd_count ps (rw same at u.0) (ground (arith, miss, e)))),
      one_requeued ps u.1 (ground (arith, miss, e)),
    )
  ]

retry_stales :
    (page old fresh now : ℕ) (expected : IndexPageStatus)
    → fresh ≢ old
    → (db : Database) → WellFormed db
    → (retry page expected old fresh now db).1 ≡ ok fresh
    → IsStale page old (retry page expected old fresh now db).0.pages
unfolding retry if_legal update_page require_one_row
retry_stales page old fresh now expected ne db w e =
    ground (arith, one_requeued page old fresh now expected ne db.pages w.pages_unique)

-- A call of an operation by any worker on any page.
pub record PageCall : Type 0 where
  pub op : PageOp
  pub page : ℕ
  pub attempt : ℕ
  pub now : ℕ

-- The database after the calls, one behind the other.
abbrev pub perform_each : List PageCall → Database → Database
perform_each [] db = db
perform_each (c ∷ cs) db = perform_each cs (perform c.op c.page c.attempt c.now db).0

perform_each-IsStale :
    (page old : ℕ) (cs : List PageCall) (db : Database)
    → All (λ c. DrawsOther page old c.op) cs
    → IsStale page old db.pages
    → IsStale page old (perform_each cs db).pages
perform_each-IsStale page old [] db ne h = h
perform_each-IsStale page old (c ∷ cs) db ne h =
    perform_each-IsStale page old cs (perform c.op c.page c.attempt c.now db).0 ne.1
      (perform-LeavesStale page old c.op c.page c.attempt c.now db ne.0 h)

-- After a retry of a page of a well-formed database, under another attempt than the old one, and
-- after any further page operations on any pages, every operation on the page that still names the
-- old attempt is refused and changes nothing, as long as none of the retries among those operations
-- draws the old attempt's identifier again.
pub retry_fences :
    (page old fresh now later : ℕ) (expected : IndexPageStatus) (op : PageOp) (db : Database)
    (between : List PageCall)
    → WellFormed db
    → fresh ≢ old
    → (retry page expected old fresh now db).1 ≡ ok fresh
    → All (λ c. DrawsOther page old c.op) between
    → IsRefused
        (perform_each between (retry page expected old fresh now db).0)
        (perform op page old later (perform_each between (retry page expected old fresh now db).0))
retry_fences page old fresh now later expected op db between w ne e others =
    let db' = perform_each between (retry page expected old fresh now db).0 in
    stale_perform op page old later db' (
      perform_each-IsStale page old between (retry page expected old fresh now db).0 others
        (retry_stales page old fresh now expected ne db w e))
