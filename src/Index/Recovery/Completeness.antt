-- ===== src/Index/Recovery/Completeness.antt =====
-- What src-tauri/src/indexing/recovery.rs leaves: no page in work, unless the file system refuses.
use textbook_lens.Base.{
  ℕ, ◌+◌, ◌-◌, ◌≤◌, ◌<◌, ◌≡◌, refl, ◌⊎◌, inl, inr, Bool, true, false, ◌&&◌, some, List, [], ◌∷◌,
  if◌then◌else◌, Result, ok, err, arith, Bool-cases, leb, length, u32_max, checked_add,
}
use textbook_lens.Errors.{local_io_error}
use textbook_lens.Index.Status.{IndexFailureCode}
use textbook_lens.Index.Rows.{Database, AppErrorCode}
use textbook_lens.Index.Statements.{WellFormed}
use textbook_lens.Index.Integrity.{failing-Checked}
use textbook_lens.Index.Recovery.Loop.{
  InterruptedPage, FileSystem, Scratch, Startup, Step, move_scratch, remove_scratch,
  requeue_scratch, fail_interrupted, requeued_step, retryable_step, requeue_turn, fail_turn,
  choose_turn, with_scratch, recover_page, and_then, recover_each, count_requeued, count_retryable,
}
use textbook_lens.Index.Recovery.Pending.{
  Pending, update-Pending, interrupted-IsWorking, requeue_scratch-Checked,
}

-- The pages that the summary counts.
abbrev pub recovered : Startup → ℕ
recovered s = s.summary.requeued + s.summary.marked_retryable

-- The file system refused a call on a scratch file.
abbrev pub HasRefused : FileSystem → Type 0
HasRefused fs = (page : ℕ) × ((attempt : ℕ) × (fs.refuses page attempt ≡ true))

module _ (fs : FileSystem) where
  -- A call on a scratch file succeeds, or is refused.
  abbrev Answered : Scratch × Result AppErrorCode (Unit {0}) → Type 0
  Answered o = (o.1 ≡ ok tt) ⊎ ((o.1 ≡ err local_io_error) × HasRefused fs)

  move_scratch-Answered :
      (page source target : ℕ) (files : Scratch)
      → files page source ≡ true
      → Answered (move_scratch fs page source target files)
  unfolding move_scratch
  move_scratch-Answered page source target files h = elim (Bool-cases (fs.refuses page source)) [
    | inl no_luck ↦ rw no_luck (inr (refl, (page, (source, no_luck))))
    | inr fine ↦ rw (fine, h) (inl refl)
  ]

  remove_scratch-Answered :
      (page attempt : ℕ) (files : Scratch) → Answered (remove_scratch fs page attempt files)
  unfolding remove_scratch
  remove_scratch-Answered page attempt files = elim (Bool-cases (fs.refuses page attempt)) [
    | inl no_luck ↦ rw no_luck (inr (refl, (page, (attempt, no_luck))))
    | inr fine ↦ rw fine (inl refl)
  ]

  checked_add-fits : (n : ℕ) → n < u32_max → checked_add u32_max n 1 ≡ some (n + 1)
  checked_add-fits n h = ground arith

  -- A turn takes one page out of work and counts it, or ends on a refused call.
  abbrev IsTurn : List InterruptedPage → Startup → Step → Type 0
  IsTurn ts s (s', r) =
      ((r ≡ ok tt) × Pending ts s'.database × (recovered s' ≡ recovered s + 1))
      ⊎ ((r ≡ err local_io_error) × HasRefused fs × WellFormed s'.database)

  module _ (t : InterruptedPage) (ts : List InterruptedPage) (s : Startup)
      (v : Pending (t ∷ ts) s.database) (few : recovered s < u32_max) where
    with_scratch-IsTurn :
        (rest : Startup → Step) (o : Scratch × Result AppErrorCode (Unit {0}))
        → Answered o
        → ((files : Scratch) → IsTurn ts s (rest (record s { scratch = files })))
        → IsTurn ts s (with_scratch s rest o)
    with_scratch-IsTurn rest (files, ok u) a h = h files
    with_scratch-IsTurn rest (files, err e) (inl q) h = cc
    with_scratch-IsTurn rest (files, err e) (inr (q, refused)) h = inr (q, refused, v.well_formed)

    requeued_step-IsTurn :
        (reuse executed : Bool) (fresh : ℕ) (files : Scratch)
        (o : Database × Result AppErrorCode (Unit {0}))
        → Pending ts o.0 × (o.1 ≡ ok tt)
        → IsTurn ts s (requeued_step fs reuse fresh t (record s { scratch = files }) executed o)
    requeued_step-IsTurn reuse executed fresh files (db, err e) h = cc
    requeued_step-IsTurn reuse executed fresh files (db, ok u) h =
        rw (checked_add-fits s.summary.requeued (omega (arith, few)), count_requeued)
          (inl (refl, h.0, omega arith))

    retryable_step-IsTurn :
        (files : Scratch) (o : Database × Result AppErrorCode (Unit {0}))
        → Pending ts o.0 × (o.1 ≡ ok tt)
        → IsTurn ts s (retryable_step (record s { scratch = files }) o)
    retryable_step-IsTurn files (db, err e) h = cc
    retryable_step-IsTurn files (db, ok u) h =
        rw (checked_add-fits s.summary.marked_retryable (omega (arith, few)), count_retryable)
          (inl (refl, h.0, omega arith))

    requeue-IsTurn :
        (reuse : Bool) (fresh now : ℕ) (o : Scratch × Result AppErrorCode (Unit {0}))
        → Answered o
        → IsTurn ts s (with_scratch s (requeue_turn fs reuse fresh now t) o)
    requeue-IsTurn reuse fresh now o a =
        with_scratch-IsTurn (requeue_turn fs reuse fresh now t) o a λ files.
          requeued_step-IsTurn reuse _ fresh files _ (
            update-Pending t ts (requeue_scratch reuse fresh now) (λ p. refl) (λ p. refl)
              (λ p w r c.
                requeue_scratch-Checked reuse fresh now p r c (interrupted-IsWorking p w c))
              s.database v)

    failed-IsTurn :
        (failure : IndexFailureCode) (now : ℕ) (o : Scratch × Result AppErrorCode (Unit {0}))
        → Answered o
        → IsTurn ts s (with_scratch s (fail_turn failure now t) o)
    failed-IsTurn failure now o a = with_scratch-IsTurn (fail_turn failure now t) o a λ files.
        retryable_step-IsTurn files _ (
          update-Pending t ts (fail_interrupted failure now) (λ p. refl) (λ p. refl)
            (λ p w r c. failing-Checked failure true now p (interrupted-IsWorking p w c)) s.database
            v)

    removal-Answered : Answered (
        if s.scratch t.page_id t.attempt_id
        then remove_scratch fs t.page_id t.attempt_id s.scratch
        else (s.scratch, ok tt))
    removal-Answered = elim (Bool-cases (s.scratch t.page_id t.attempt_id)) [
      | inl there ↦ rw there (remove_scratch-Answered t.page_id t.attempt_id s.scratch)
      | inr gone ↦ rw gone (inl refl)
    ]

    moving-Answered :
        (fresh : ℕ) (condition : Bool)
        → Answered (
            if s.scratch t.page_id t.attempt_id && condition
            then move_scratch fs t.page_id t.attempt_id fresh s.scratch
            else if s.scratch t.page_id t.attempt_id
            then remove_scratch fs t.page_id t.attempt_id s.scratch
            else (s.scratch, ok tt))
    moving-Answered fresh true = elim (Bool-cases (s.scratch t.page_id t.attempt_id)) [
      | inl there ↦ rw there (move_scratch-Answered t.page_id t.attempt_id fresh s.scratch there)
      | inr gone ↦ rw gone (inl refl)
    ]
    moving-Answered fresh false = elim (Bool-cases (s.scratch t.page_id t.attempt_id)) [
      | inl there ↦ rw there (remove_scratch-Answered t.page_id t.attempt_id s.scratch)
      | inr gone ↦ rw gone (inl refl)
    ]

    choose_turn-IsTurn :
        (now fresh : ℕ) (condition again : Bool)
        → IsTurn ts s
            (choose_turn fs now fresh t s (s.scratch t.page_id t.attempt_id && condition) again)
    choose_turn-IsTurn now fresh condition true =
        requeue-IsTurn (s.scratch t.page_id t.attempt_id && condition) fresh now _
          (moving-Answered fresh condition)
    choose_turn-IsTurn now fresh condition false = failed-IsTurn _ now _ removal-Answered

    recover_page-IsTurn :
        (now max_age : ℕ) (draw : ℕ → ℕ) → IsTurn ts s (recover_page fs now max_age draw t s)
    unfolding recover_page
    recover_page-IsTurn now max_age draw =
        choose_turn-IsTurn now (draw t.page_id)
          (leb (now - t.updated_at) max_age && t.has_render_hash) _

  -- The whole loop: all pages are counted, or a call was refused.
  unfoldable pub IsDone : ℕ → Step → Type 0
  IsDone total (s', r) =
      ((r ≡ ok tt) × Pending [] s'.database × (recovered s' ≡ total))
      ⊎ ((r ≡ err local_io_error) × HasRefused fs × WellFormed s'.database)

  turn-IsDone :
      (total : ℕ) (ts : List InterruptedPage) (s : Startup) (o : Step) (next : Startup → Step)
      → IsTurn ts s o
      → ((s' : Startup)
          → Pending ts s'.database
          → recovered s' ≡ recovered s + 1
          → IsDone total (next s'))
      → IsDone total (and_then o next)
  unfolding IsDone
  turn-IsDone total ts s (s', ok u) next (inl (q, rest, counted)) k = k s' rest counted
  turn-IsDone total ts s (s', ok u) next (inr h) k = cc
  turn-IsDone total ts s (s', err e) next (inl h) k = cc
  turn-IsDone total ts s (s', err e) next (inr h) k = inr h

  pub recover_each-IsDone :
      (now max_age total : ℕ) (draw : ℕ → ℕ) (ts : List InterruptedPage) (s : Startup)
      → Pending ts s.database
      → recovered s + length ts ≡ total
      → total ≤ u32_max
      → IsDone total (recover_each fs now max_age draw ts s)
  unfolding IsDone
  recover_each-IsDone now max_age total draw [] s v e few = inl (refl, v, omega (arith, e))
  recover_each-IsDone now max_age total draw (t ∷ ts) s v e few =
      turn-IsDone total ts s _ (recover_each fs now max_age draw ts)
        (recover_page-IsTurn t ts s v (omega (arith, e, few)) now max_age draw)
        λ s' rest counted.
          recover_each-IsDone now max_age total draw ts s' rest (omega (arith, e, counted)) few
