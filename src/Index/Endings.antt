-- ===== src/Index/Endings.antt =====
-- The end of a run in src-tauri/src/indexing/state.rs, and the registry of running attempts.
use textbook_lens.Base.{
  ℕ, ◌≡◌, refl, ◌≢◌, inl, inr, Bool, true, false, not, ◌&&◌, ◌||◌, none, some, List, [], ◌∷◌, arith,
  ◌==◌, any, All, ok, err, Bool-cases, ◌⊎◌,
}
use textbook_lens.Index.Status.{
  IndexRunStatus, IndexPageStatus, running, paused, cancelling, completed, not_required, queued,
  rendering, sending, parsing, validating, indexed, needs_review, failed, is_terminal,
  same_page_status,
}
use textbook_lens.Index.Rows.{
  Page, Run, Database, run_checks, rows_affected, update_rows, breaks_check, require_one_row,
  update_run,
}
use textbook_lens.Index.Pages.{Outcome}
use textbook_lens.Index.Runs.{
  is_run, is_unfinished, has_unfinished, finalize_run_if_terminal, answers,
}

-- Every page of the run has ended.
abbrev pub IsEnded : ℕ → List Page → Type 0
IsEnded run = All (λ p. p.run_id ≡ run → is_terminal p.status ≡ true)

unfinished_status :
    (s : IndexPageStatus)
    → (same_page_status s queued
        || same_page_status s rendering
        || same_page_status s sending
        || same_page_status s parsing
        || same_page_status s validating)
      ≡ false
    → is_terminal s ≡ true
unfolding is_terminal
unfinished_status not_required h = refl
unfinished_status queued h = cc
unfinished_status rendering h = cc
unfinished_status sending h = cc
unfinished_status parsing h = cc
unfinished_status validating h = cc
unfinished_status indexed h = refl
unfinished_status needs_review h = refl
unfinished_status failed h = refl
unfinished_status IndexPageStatus.cancelled h = refl

IsEnded-if_none :
    (run : ℕ) (ps : List Page)
    → any (λ p. p.run_id == run && is_unfinished p) ps ≡ false
    → IsEnded run ps
IsEnded-if_none run [] h = tt
IsEnded-if_none run (p ∷ ps) h =
    (λ e. unfinished_status p.status (ground arith), IsEnded-if_none run ps (ground arith))

module _ (picks : Run → Bool) (change : Run → Run) where
  runs_untouched :
      (rs : List Run) → ((r : Run) → picks r ≡ false) → rows_affected run_checks picks change rs ≡ 0
  runs_untouched [] a = refl
  runs_untouched (r ∷ rs) a = ground (arith, a r, runs_untouched rs a)

  unpicked_refused :
      (db : Database) → ((r : Run) → picks r ≡ false) → (update_run picks change db).1 ≢ ok tt
  unfolding update_run require_one_row
  unpicked_refused db a e = ground (arith, runs_untouched db.runs a)

  update_run_pages : (db : Database) → (update_run picks change db).0.pages ≡ db.pages
  unfolding update_run
  update_run_pages db = ground arith

abbrev pub finalized : ℕ → IndexRunStatus → Run → Run
finalized now target r = record r {
  status = target;
  paused_at = none;
  completed_at = some now;
  updated_at = now;
}

-- The rows of the run that were in the expected status have the target status now, and say when;
-- every other row is as it was.
abbrev pub AreFinal : ℕ → ℕ → IndexRunStatus → IndexRunStatus → List Run → List Run → Type 0
AreFinal run now expected target [] [] = Unit
AreFinal run now expected target [] (b ∷ bs) = ⊥
AreFinal run now expected target (a ∷ rs) [] = ⊥
AreFinal run now expected target (a ∷ rs) (b ∷ bs) =
    (is_run run expected a ≡ true
      → (b.id ≡ run) × (b.status ≡ target) × (b.completed_at ≡ some now))
    × (is_run run expected a ≡ false → b ≡ a)
    × AreFinal run now expected target rs bs

-- What a run that has ended leaves: no page of it in work, and its row in the target status.
pub record HasEnded (run now : ℕ) (expected target : IndexRunStatus) (before after : Database)
    : Type 0 where
  pub pages_ended : IsEnded run after.pages
  pub pages_kept : after.pages ≡ before.pages
  pub was_there : any (is_run run expected) before.runs ≡ true
  pub row_final : AreFinal run now expected target before.runs after.runs

ended_by : (run now : ℕ) (expected target : IndexRunStatus) (db : Database) → Outcome (Unit {0})
ended_by run now expected target db =
    update_run (λ r. is_run run expected r && not (has_unfinished run db))
      (λ r. record r {
        status = target;
        paused_at = none;
        completed_at = some now;
        updated_at = now;
      })
      db

module _ (run now : ℕ) (expected target : IndexRunStatus) (db : Database) where
  abbrev ends : Run → Bool
  ends r = is_run run expected r && not (has_unfinished run db)

  update_rows-AreFinal :
      (rs : List Run)
      → has_unfinished run db ≡ false
      → AreFinal run now expected target rs (update_rows run_checks ends (finalized now target) rs)
  update_rows-AreFinal [] done = tt
  update_rows-AreFinal (r ∷ rs) done = elim (Bool-cases (is_run run expected r)) [
    | inl hit ↦
        rw (hit, done)
          (λ e. (ground (arith, hit), refl, refl), λ e. cc, update_rows-AreFinal rs done)
    | inr miss ↦ rw miss (λ e. cc, λ e. refl, update_rows-AreFinal rs done)
  ]

  affected_there :
      (rs : List Run)
      → rows_affected run_checks ends (finalized now target) rs ≡ 1
      → any (is_run run expected) rs ≡ true
  affected_there [] e = absurd (omega (arith, e))
  affected_there (r ∷ rs) e = elim (Bool-cases (is_run run expected r)) [
    | inl hit ↦ rw hit
    | inr miss ↦ rw miss (affected_there rs (ground (arith, e, miss)))
  ]

  update_run_ends :
      (ended_by run now expected target db).1 ≡ ok tt
      → HasEnded run now expected target db (ended_by run now expected target db).0
  unfolding ended_by update_run require_one_row
  update_run_ends e = elim (Bool-cases (has_unfinished run db)) [
    | inl yet ↦ absurd (unpicked_refused ends _ db (λ r. ground arith) e)
    | inr done ↦ elim (Bool-cases (breaks_check run_checks ends (finalized now target) db.runs)) [
      | inl breaks ↦ absurd (ground (arith, e, breaks))
      | inr fine ↦ rw fine (record {
        pages_ended = IsEnded-if_none run db.pages done;
        pages_kept = refl;
        was_there = affected_there db.runs (ground (arith, e, fine));
        row_final = update_rows-AreFinal db.runs done;
      })
    ]
  ]

answers_ends :
    (run now : ℕ) (expected target done : IndexRunStatus) (db : Database) (o : Outcome (Unit {0}))
    → (o.1 ≡ ok tt → HasEnded run now expected target db o.0)
    → (answers target o).1 ≡ ok done
    → HasEnded run now expected done db (answers target o).0 × (done ≡ target)
answers_ends run now expected target done db (db', ok u) h e =
    let same : done ≡ target = ground (arith, e) in (rw same (h refl), same)
answers_ends run now expected target done db (db', err x) h e = cc

-- A run is given a final status only when every page of it has ended. Then its row, which was in the
-- expected status, has the status that is returned and the time of the call; every other row and all
-- pages are as before. The status is cancelled for a run that was being cancelled, and completed for
-- one that was running or paused; a run in another status is refused.
pub finalize_run-IsEnded :
    (run now : ℕ) (expected target : IndexRunStatus) (db : Database)
    → (finalize_run_if_terminal run expected now db).1 ≡ ok target
    → HasEnded run now expected target db (finalize_run_if_terminal run expected now db).0
      × ((expected ≡ cancelling) × (target ≡ IndexRunStatus.cancelled)
          ⊎ (expected ≡ running ⊎ expected ≡ paused) × (target ≡ completed))
unfolding finalize_run_if_terminal ended_by
finalize_run-IsEnded run now running target db e =
    let (h, t) =
      answers_ends run now running completed target db _
        (update_run_ends run now running completed db) e in
    (h, inr (inl refl, t))
finalize_run-IsEnded run now paused target db e =
    let (h, t) =
      answers_ends run now paused completed target db _
        (update_run_ends run now paused completed db) e in
    (h, inr (inr refl, t))
finalize_run-IsEnded run now cancelling target db e =
    let (h, t) =
      answers_ends run now cancelling IndexRunStatus.cancelled target db _
        (update_run_ends run now cancelling IndexRunStatus.cancelled db) e in
    (h, inl (refl, t))
finalize_run-IsEnded run now IndexRunStatus.cancelled target db e = cc
finalize_run-IsEnded run now completed target db e = cc
