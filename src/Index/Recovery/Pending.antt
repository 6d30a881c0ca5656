-- ===== src/Index/Recovery/Pending.antt =====
-- The rows that wait for their turn in src-tauri/src/indexing/recovery.rs, and what an UPDATE of one of
-- them does to the table.
use textbook_lens.Base.{
  ℕ, ◌≡◌, refl, sym, ◌∙◌, ◌≢◌, inl, inr, Bool, true, false, ◌||◌, List, [], ◌∷◌, ◌==◌,
  if◌then◌else◌, any, All, ok, arith, Bool-cases,
}
use textbook_lens.Index.Status.{
  IndexPageStatus, rendering, sending, parsing, validating, same_page_status,
}
use textbook_lens.Index.Rows.{
  Page, Database, page_checks, column_checks, reliable_check, attempt_check, started_check,
  queued_check, render_check, response_check, review_check, error_check, retryable_check,
  content_check, rows_affected, breaks_check, update_rows, update_page, require_one_row,
}
use textbook_lens.Index.Statements.{
  UniqueIds, WellFormed, HasRoom, affects_none, update_page-WellFormed,
}
use textbook_lens.Index.Integrity.{Checked, split, join, IsWorking}
use textbook_lens.Index.Recovery.Loop.{
  InterruptedPage, is_interrupted, is_interrupted_attempt, requeue_scratch,
}

-- The counters of an interrupted page can still be raised.
abbrev pub CanRequeue : Page → Type 0
CanRequeue p = is_interrupted p ≡ true → HasRoom p

abbrev pub works_on : IndexPageStatus → Bool
works_on s =
    same_page_status s rendering
    || same_page_status s sending
    || same_page_status s parsing
    || same_page_status s validating

abbrev pub is_pending : List InterruptedPage → ℕ → Bool
is_pending ts id = any (λ t. t.page_id == id) ts

abbrev pub UniquePages : List InterruptedPage → Type 0
UniquePages [] = Unit
UniquePages (t ∷ ts) = (is_pending ts t.page_id ≡ false) × UniquePages ts

-- Each page that waits has its row as it was read, and each row of an interrupted page waits.
pub record Pending (ts : List InterruptedPage) (db : Database) : Type 0 where
  pub well_formed : WellFormed db
  pub room : All CanRequeue db.pages
  pub present : All (λ t. any (is_interrupted_attempt t) db.pages ≡ true) ts
  pub in_work : All (λ t. works_on t.status ≡ true) ts
  pub awaited : All (λ p. is_interrupted p ≡ true → is_pending ts p.id ≡ true) db.pages
  pub distinct : UniquePages ts

attempt_id-eq :
    (t : InterruptedPage) (p : Page) → is_interrupted_attempt t p ≡ true → p.id ≡ t.page_id
attempt_id-eq t p h = ground arith

attempt-is_interrupted :
    (t : InterruptedPage) (p : Page)
    → works_on t.status ≡ true
    → is_interrupted_attempt t p ≡ true
    → is_interrupted p ≡ true
attempt-is_interrupted t p w h = ground arith

pub interrupted-IsWorking : (p : Page) → is_interrupted p ≡ true → Checked p → IsWorking p
unfolding reliable_check attempt_check
interrupted-IsWorking p h c = ground arith

pub requeue_scratch-Checked :
    (reuse : Bool) (fresh now : ℕ) (p : Page)
    → HasRoom p
    → Checked p
    → IsWorking p
    → Checked (requeue_scratch reuse fresh now p)
unfolding column_checks reliable_check attempt_check started_check queued_check render_check
    response_check review_check error_check retryable_check content_check
requeue_scratch-Checked reuse fresh now p r c w = ground arith

-- An UPDATE that takes a page out of work.
module _ (t : InterruptedPage) (ts : List InterruptedPage) (change : Page → Page)
    (same : (p : Page) → (change p).id ≡ p.id)
    (leaves : (p : Page) → is_interrupted (change p) ≡ false) where
  abbrev picks : Page → Bool
  picks = is_interrupted_attempt t

  affects_some :
      (ps : List Page)
      → UniqueIds ps
      → any picks ps ≡ true
      → rows_affected page_checks picks change ps ≡ 1
  affects_some [] u h = cc
  affects_some (p ∷ ps) u h = elim (Bool-cases (picks p)) [
    | inl hit ↦ rw hit (
        omega (
          arith,
          affects_none HasRoom picks change t.page_id (λ q k. (attempt_id-eq t q k, same q)) ps
              (rw (attempt_id-eq t p hit) at u.0),
        ))
    | inr miss ↦ rw miss (omega (arith, affects_some ps u.1 (rw miss at h)))
  ]

  other_present :
      (t' : InterruptedPage)
      → t'.page_id ≢ t.page_id
      → (ps : List Page) → any (is_interrupted_attempt t') ps ≡ true
      → any (is_interrupted_attempt t') (update_rows page_checks picks change ps) ≡ true
  other_present t' n [] h = cc
  other_present t' n (p ∷ ps) h = elim (Bool-cases (picks p)) [
    | inl hit ↦
        rw hit (ground (arith, attempt_id-eq t p hit, attempt_id-eq t' p, other_present t' n ps))
    | inr miss ↦ rw miss (ground (arith, other_present t' n ps))
  ]

  others_present :
      (ps : List Page) (ts' : List InterruptedPage)
      → is_pending ts' t.page_id ≡ false
      → All (λ t'. any (is_interrupted_attempt t') ps ≡ true) ts'
      → All
          (λ t'. any (is_interrupted_attempt t') (update_rows page_checks picks change ps) ≡ true)
          ts'
  others_present ps [] n a = tt
  others_present ps (t' ∷ ts') n a =
      (other_present t' (λ e. ground arith) ps a.0, others_present ps ts' (ground arith) a.1)

  still_awaited :
      (p : Page)
      → ((is_interrupted p ≡ true) → (is_pending (t ∷ ts) p.id ≡ true))
      → (p.id ≡ t.page_id → picks p ≡ true)
      → let q = (if picks p then change p else p) in
        is_interrupted q ≡ true → is_pending ts q.id ≡ true
  still_awaited p a own = elim (Bool-cases (picks p)) [
    | inl hit ↦ rw hit (λ w. ground (arith, leaves p))
    | inr miss ↦ rw miss (λ w. ground (arith, a, own))
  ]

  abbrev IsOwn : Page → Type 0
  IsOwn p = p.id ≡ t.page_id → picks p ≡ true

  strangers-IsOwn : (ps : List Page) → All (λ q. q.id ≢ t.page_id) ps → All IsOwn ps
  strangers-IsOwn [] u = tt
  strangers-IsOwn (p ∷ ps) u = (λ e. absurd (u.0 e), strangers-IsOwn ps u.1)

  not_own :
      (id : ℕ) (ps : List Page) → All (λ q. q.id ≢ id) ps → any picks ps ≡ true → id ≢ t.page_id
  not_own id [] u h e = cc
  not_own id (p ∷ ps) u h e = elim (Bool-cases (picks p)) [
    | inl hit ↦ u.0 (attempt_id-eq t p hit ∙ sym e)
    | inr miss ↦ not_own id ps u.1 (rw miss at h) e
  ]

  All-IsOwn : (ps : List Page) → UniqueIds ps → any picks ps ≡ true → All IsOwn ps
  All-IsOwn [] u h = tt
  All-IsOwn (p ∷ ps) u h = elim (Bool-cases (picks p)) [
    | inl hit ↦ (λ e. hit, strangers-IsOwn ps (rw (attempt_id-eq t p hit) at u.0))
    | inr miss ↦
        (λ e. absurd (not_own p.id ps u.0 (rw miss at h) e), All-IsOwn ps u.1 (rw miss at h))
  ]

  rows_awaited :
      (ps : List Page)
      → All IsOwn ps
      → All (λ p. is_interrupted p ≡ true → is_pending (t ∷ ts) p.id ≡ true) ps
      → All
          (λ p. is_interrupted p ≡ true → is_pending ts p.id ≡ true)
          (update_rows page_checks picks change ps)
  rows_awaited [] o a = tt
  rows_awaited (p ∷ ps) o a = (still_awaited p a.0 o.0, rows_awaited ps o.1 a.1)

  rows_room :
      (ps : List Page)
      → All CanRequeue ps
      → All CanRequeue (update_rows page_checks picks change ps)
  rows_room [] r = tt
  rows_room (p ∷ ps) r = (
    elim (Bool-cases (picks p)) [
      | inl hit ↦ rw hit (λ w. ground (arith, leaves p))
      | inr miss ↦ rw miss r.0
    ],
    rows_room ps r.1,
  )

  -- The UPDATE finds the page, and leaves the others pending.
  pub update-Pending :
      ((p : Page) → is_interrupted p ≡ true → HasRoom p → Checked p → Checked (change p))
      → (db : Database) → Pending (t ∷ ts) db
      → Pending ts (update_page picks change db).0 × ((update_page picks change db).1 ≡ ok tt)
  unfolding update_page require_one_row
  update-Pending keeps db v =
      let safe =
        update_page-WellFormed CanRequeue picks change t.page_id db
          (λ p h r c.
            let w = attempt-is_interrupted t p v.in_work.0 h in
            join _ (keeps p w (r w) (split p c)))
          (λ p h. (attempt_id-eq t p h, same p)) v.room v.well_formed in
      elim (Bool-cases (breaks_check page_checks picks change db.pages)) [
        | inl broken ↦ absurd ((rw broken at safe).1 refl)
        | inr fine ↦
            let good = (rw fine at safe).0 in
            rw (fine, affects_some db.pages v.well_formed.pages_unique v.present.0)
              (
                record {
                  well_formed = good;
                  room = rows_room db.pages v.room;
                  present = others_present db.pages ts v.distinct.0 v.present.1;
                  in_work = v.in_work.1;
                  awaited =
                      rows_awaited db.pages
                        (All-IsOwn db.pages v.well_formed.pages_unique v.present.0) v.awaited;
                  distinct = v.distinct.1;
                },
                refl,
              )
      ]
