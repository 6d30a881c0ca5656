-- ===== src/Index/Safety.antt =====
-- No page operation of src-tauri/src/indexing/state.rs is ever refused by the database.
use textbook_lens.Base.{
  ℕ, ◌≡◌, ◌≢◌, inl, inr, Bool, true, false, ◌&&◌, none, some, List, arith, All, ok, err, Result,
  ◌⊎◌, ◌==◌, refl, Bool-cases, Option-cases,
}
use textbook_lens.Index.Status.{
  IndexPageStatus, IndexFailureCode, IndexReviewReason, not_required, rendering, queued, sending,
  parsing, validating, indexed, needs_review, failed, legal_transition,
}
use textbook_lens.Index.Rows.{
  Page, Database, AppErrorCode, database_error, request_conflict, invalid_input, page_checks,
  is_sha256, is_some, update_page, rows_affected, breaks_check, require_one_row,
}
use textbook_lens.Index.Pages.{
  Outcome, is_attempt, run_exists, is_running, is_running_or_paused, if_legal, if_sha256,
  find_claimed, claimed, start_rendering, requeue, returns, claim_render, mark_rendered, claim_send,
  mark_received, claim_validate, commit_review, commit_indexed, fail, cancel, retry,
}
use textbook_lens.Index.PageOps.{
  PageOp, claims_render, claims_send, claims_validate, marks_rendered, marks_received,
  commits_indexed, commits_review, fails, cancels, retries, perform, forget,
}
use textbook_lens.Index.Statements.{WellFormed, HasRoom, update_page-WellFormed}
use textbook_lens.Index.Integrity.{
  Checked, split, join, working, failing, failing-Checked, cancelling_page, cancelling-Checked,
  requeue-Checked, plain, start-Checked, render-Checked, send-Checked, receive-Checked,
  validate-Checked, committing, review-Checked, indexed-Checked,
}

-- Success, a conflict, or an input error.
abbrev pub IsExpected : {A : Type 0} → Result AppErrorCode A → Type 0
IsExpected (ok a) = Unit
IsExpected (err e) = e ≡ request_conflict ⊎ e ≡ invalid_input

-- The operation leaves a well-formed database and is not refused by it.
abbrev pub IsSafe : {A : Type 0} → Outcome A → Type 0
IsSafe o = WellFormed o.0 × (o.1 ≢ err database_error) × IsExpected o.1

update_page-IsExpected :
    (picks : Page → Bool) (change : Page → Page) (db : Database)
    → (update_page picks change db).1 ≢ err database_error
    → IsExpected (update_page picks change db).1
unfolding update_page require_one_row
update_page-IsExpected picks change db h =
    let n = rows_affected page_checks picks change db.pages in
    elim (Bool-cases (breaks_check page_checks picks change db.pages)) [
      | inl breaks ↦ absurd (h (rw breaks))
      | inr fine ↦ elim (Bool-cases (n == 1)) [
        | inl one ↦ rw (fine, one) tt
        | inr many ↦ elim (Bool-cases (n == 0)) [
          | inl nothing ↦ rw (fine, many, nothing) (inl refl)
          | inr more ↦ absurd (h (rw (fine, many, more)))
        ]
      ]
    ]

update_page-IsSafe :
    (picks : Page → Bool) (change : Page → Page) (db : Database)
    → WellFormed (update_page picks change db).0
      × ((update_page picks change db).1 ≢ err database_error)
    → IsSafe (update_page picks change db)
update_page-IsSafe picks change db h = (h.0, h.1, update_page-IsExpected picks change db h.1)

if_legal-IsSafe :
    (from to : IndexPageStatus) (again : Bool) (rest : Outcome (Unit {0})) (db : Database)
    → WellFormed db
    → (legal_transition from to again ≡ true → IsSafe rest)
    → IsSafe (if_legal from to again rest db)
unfolding if_legal
if_legal-IsSafe from to again rest db v h = elim (Bool-cases (legal_transition from to again)) [
  | inl legal ↦ rw legal (h legal)
  | inr other ↦ rw other (v, λ e. cc, inl refl)
]

if_sha256-IsSafe :
    (hash : List ℕ) (rest : Outcome (Unit {0})) (db : Database)
    → WellFormed db
    → (is_sha256 hash ≡ true → IsSafe rest)
    → IsSafe (if_sha256 hash rest db)
unfolding if_sha256
if_sha256-IsSafe hash rest db v h = elim (Bool-cases (is_sha256 hash)) [
  | inl legal ↦ rw legal (h legal)
  | inr other ↦ rw other (v, λ e. cc, inr refl)
]

claimed-IsSafe :
    (page attempt : ℕ) (o : Outcome (Unit {0})) → IsSafe o → IsSafe (claimed page attempt o)
claimed-IsSafe page attempt (db, ok u) h =
    elim (Option-cases (find_claimed page attempt db.pages)) [
      | inl e ↦ rw (e, claimed) (h.0, λ q. ground arith, inl refl)
      | inr (c, e) ↦ rw (e, claimed) (h.0, λ q. ground arith, tt)
    ]
claimed-IsSafe page attempt (db, err e) h = (h.0, λ q. h.1 (ground arith), h.2)

aims :
    (page attempt : ℕ) (expected : IndexPageStatus) (p : Page)
    → is_attempt page expected attempt p ≡ true
    → p.id ≡ page
aims page attempt expected p h = ground arith

returns-IsSafe : {A : Type 0} (a : A) (o : Outcome (Unit {0})) → IsSafe o → IsSafe (returns a o)
returns-IsSafe a (db, ok u) h = (h.0, λ q. ground arith, tt)
returns-IsSafe a (db, err e) h = (h.0, λ q. h.1 (ground arith), h.2)

legal_needs_work :
    (from to : IndexPageStatus) (again : Bool)
    → legal_transition from to again ≡ true
    → from ≢ not_required
unfolding legal_transition
legal_needs_work not_required to true h = cc
legal_needs_work not_required to false h = cc
legal_needs_work _ to again h = λ e. ground arith

and_left : (a b : Bool) → (a && b) ≡ true → a ≡ true
and_left a b h = ground arith

and_right : (a b : Bool) → (a && b) ≡ true → b ≡ true
and_right a b h = ground arith

and_both : (a b : Bool) → a ≡ true → b ≡ true → (a && b) ≡ true
and_both a b h k = ground arith

module _ (page attempt now : ℕ) (db : Database) (room : All HasRoom db.pages)
    (v : WellFormed db) where
  -- An update of the page in a given state, by a change that keeps the constraints there.
  update-IsSafe :
      (expected : IndexPageStatus) (extra : Page → Bool) (change : Page → Page)
      → ((p : Page) → (change p).id ≡ p.id)
      → ((p : Page)
          → is_attempt page expected attempt p ≡ true
          → extra p ≡ true
          → HasRoom p
          → Checked p
          → Checked (change p))
      → IsSafe (update_page (λ p. is_attempt page expected attempt p && extra p) change db)
  update-IsSafe expected extra change same keeps = update_page-IsSafe _ change db (
      update_page-WellFormed HasRoom _ change page db
        (λ p h r c. join _ (keeps p (and_left _ _ h) (and_right _ _ h) r (split p c)))
        (λ p h. (aims page attempt expected p (and_left _ _ h), same p)) room v)

  plain_update-IsSafe :
      (expected : IndexPageStatus) (change : Page → Page)
      → ((p : Page) → (change p).id ≡ p.id)
      → ((p : Page)
          → is_attempt page expected attempt p ≡ true
          → HasRoom p
          → Checked p
          → Checked (change p))
      → IsSafe (update_page (is_attempt page expected attempt) change db)
  plain_update-IsSafe expected change same keeps = update_page-IsSafe _ change db (
      update_page-WellFormed HasRoom _ change page db (λ p h r c. join _ (keeps p h r (split p c)))
        (λ p h. (aims page attempt expected p h, same p)) room v)

  render-IsSafe : IsSafe (claim_render page attempt now db)
  unfolding claim_render
  render-IsSafe = claimed-IsSafe page attempt _ (
      if_legal-IsSafe queued rendering false _ db v λ legal.
        update-IsSafe queued (λ p. run_exists is_running p.run_id db) (start_rendering now)
          (λ p. refl)
          λ p h x r c.
            start-Checked now p (working page attempt queued p (λ e. cc) h c)
              (plain page attempt queued p refl h c))

  rendered-IsSafe : (hash : List ℕ) → IsSafe (mark_rendered page attempt hash now db)
  unfolding mark_rendered
  rendered-IsSafe hash = if_legal-IsSafe rendering rendering false _ db v λ legal.
      if_sha256-IsSafe hash _ db v λ sha.
        plain_update-IsSafe rendering _ (λ p. refl)
          λ p h r c. render-Checked page attempt hash now p sha h c

  send-IsSafe : IsSafe (claim_send page attempt now db)
  unfolding claim_send
  send-IsSafe = if_legal-IsSafe rendering sending false _ db v λ legal.
      update-IsSafe rendering (λ p. is_some p.render_sha256) _ (λ p. refl)
        λ p h x r c. send-Checked page attempt now p (and_both _ _ h x) c

  received-IsSafe : (hash : List ℕ) → IsSafe (mark_received page attempt hash now db)
  unfolding mark_received
  received-IsSafe hash = if_legal-IsSafe sending parsing false _ db v λ legal.
      if_sha256-IsSafe hash _ db v λ sha.
        plain_update-IsSafe sending _ (λ p. refl)
          λ p h r c. receive-Checked page attempt hash now p sha h c

  validate-IsSafe : IsSafe (claim_validate page attempt now db)
  unfolding claim_validate
  validate-IsSafe = if_legal-IsSafe parsing validating false _ db v λ legal.
      update-IsSafe parsing (λ _. true) _ (λ p. refl)
        λ p h x r c. validate-Checked page attempt now p (and_both _ _ h x) c

  review-IsSafe :
      (reason : IndexReviewReason) (hash : List ℕ)
      → IsSafe (commit_review page attempt reason hash now db)
  unfolding commit_review
  review-IsSafe reason hash = if_legal-IsSafe validating needs_review false _ db v λ legal.
      if_sha256-IsSafe hash _ db v λ sha.
        update-IsSafe validating (λ p. run_exists is_running_or_paused p.run_id db)
          (committing hash now (some reason) needs_review) (λ p. refl)
          λ p h x r c. review-Checked page attempt hash now reason p sha r h c

  indexed-IsSafe : (hash : List ℕ) → IsSafe (commit_indexed page attempt hash now db)
  unfolding commit_indexed
  indexed-IsSafe hash = if_legal-IsSafe validating indexed false _ db v λ legal.
      if_sha256-IsSafe hash _ db v λ sha.
        update-IsSafe validating (λ p. run_exists is_running_or_paused p.run_id db)
          (committing hash now none indexed) (λ p. refl)
          λ p h x r c. indexed-Checked page attempt hash now p sha r h c

  fail-IsSafe :
      (expected : IndexPageStatus) (failure : IndexFailureCode) (can_retry : Bool)
      → IsSafe (fail page expected attempt failure can_retry now db)
  unfolding fail
  fail-IsSafe expected failure can_retry = if_legal-IsSafe expected failed false _ db v λ legal.
      plain_update-IsSafe expected (failing failure can_retry now) (λ p. refl)
        λ p h r c.
          failing-Checked failure can_retry now p
            (working page attempt expected p (legal_needs_work _ _ _ legal) h c)

  cancel-IsSafe : (expected : IndexPageStatus) → IsSafe (cancel page expected attempt now db)
  unfolding cancel
  cancel-IsSafe expected = if_legal-IsSafe expected IndexPageStatus.cancelled false _ db v λ legal.
      plain_update-IsSafe expected (cancelling_page now) (λ p. refl)
        λ p h r c.
          cancelling-Checked now p
            (working page attempt expected p (legal_needs_work _ _ _ legal) h c)

  retry-IsSafe :
      (expected : IndexPageStatus) (fresh : ℕ) → IsSafe (retry page expected attempt fresh now db)
  unfolding retry
  retry-IsSafe expected fresh = returns-IsSafe fresh _ (
      if_legal-IsSafe expected queued true _ db v λ legal.
        plain_update-IsSafe expected (requeue fresh now) (λ p. refl)
          λ p h r c.
            requeue-Checked fresh now p r
              (working page attempt expected p (legal_needs_work _ _ _ legal) h c))

forget-IsSafe : {A : Type 0} (o : Outcome A) → IsSafe o → IsSafe (forget o)
forget-IsSafe (db, ok a) h = (h.0, λ q. ground arith, tt)
forget-IsSafe (db, err e) h = (h.0, λ q. h.1 (ground arith), h.2)

-- Every page operation, from any state of the page and with any arguments, leaves a well-formed
-- database well-formed, and is never refused by a constraint of the table: it succeeds, or the error
-- is a conflict or an input error. The counters of the pages must be below their limit.
pub perform-IsSafe :
    (op : PageOp) (page attempt now : ℕ) (db : Database)
    → All HasRoom db.pages
    → WellFormed db
    → WellFormed (perform op page attempt now db).0
      × ((perform op page attempt now db).1 ≢ err database_error)
      × IsExpected (perform op page attempt now db).1
unfolding perform
perform-IsSafe claims_render page attempt now db room v =
    forget-IsSafe _ (render-IsSafe page attempt now db room v)
perform-IsSafe claims_send page attempt now db room v = send-IsSafe page attempt now db room v
perform-IsSafe claims_validate page attempt now db room v =
    validate-IsSafe page attempt now db room v
perform-IsSafe (marks_rendered hash) page attempt now db room v =
    rendered-IsSafe page attempt now db room v hash
perform-IsSafe (marks_received hash) page attempt now db room v =
    received-IsSafe page attempt now db room v hash
perform-IsSafe (commits_indexed hash) page attempt now db room v =
    indexed-IsSafe page attempt now db room v hash
perform-IsSafe (commits_review reason hash) page attempt now db room v =
    review-IsSafe page attempt now db room v reason hash
perform-IsSafe (fails expected failure can_retry) page attempt now db room v =
    fail-IsSafe page attempt now db room v expected failure can_retry
perform-IsSafe (cancels expected) page attempt now db room v =
    cancel-IsSafe page attempt now db room v expected
perform-IsSafe (retries expected fresh) page attempt now db room v =
    forget-IsSafe _ (retry-IsSafe page attempt now db room v expected fresh)
