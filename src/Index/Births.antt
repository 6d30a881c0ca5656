-- ===== src/Index/Births.antt =====
-- What `create_index_page` of src-tauri/src/db/indexing.rs leaves in the table.
use textbook_lens.Base.{
  ℕ, ◌≤◌, ◌≡◌, refl, ◌≢◌, inl, inr, Bool, true, false, not, ◌&&◌, ◌||◌, Option, some, List, [], ◌∷◌,
  arith, ltb, ◌==◌, if◌then◌else◌, any, All, Result, ok, err, Bool-cases, Option-cases, subst,
  some_cancel,
}
use textbook_lens.Index.Status.{
  IndexQualityReason, reliable_text, no_text, very_low_text_coverage,
  high_replacement_or_control_ratio, extreme_duplicate_glyphs, layout_contradiction, running,
}
use textbook_lens.Index.Rows.{
  Page, Run, Database, AppErrorCode, database_error, request_conflict, sha_or_null, page_checks,
  column_checks, status_checks, reliable_check, attempt_check, started_check, queued_check,
  render_check, response_check, review_check, error_check, retryable_check, content_check,
  has_run_status,
}
use textbook_lens.Index.Pages.{Outcome}
use textbook_lens.Index.Runs.{answers}
use textbook_lens.Index.Creation.{find_run, new_page, insert_page, ownership, queue}
use textbook_lens.Index.Statements.{WellFormed}

new_page-checks :
    (id fresh : ℕ) (r : Run) (n : ℕ) (reason : IndexQualityReason) (hash : Option (List ℕ))
    (now : ℕ)
    → (1 ≤ n) × (n ≤ 1000000)
    → sha_or_null hash ≡ true
    → page_checks (new_page id fresh r n reason hash now) ≡ true
unfolding page_checks column_checks status_checks reliable_check attempt_check started_check
    queued_check render_check response_check review_check error_check retryable_check content_check
new_page-checks id fresh r n reliable_text hash now k h = ground arith
new_page-checks id fresh r n no_text hash now k h = ground arith
new_page-checks id fresh r n very_low_text_coverage hash now k h = ground arith
new_page-checks id fresh r n high_replacement_or_control_ratio hash now k h = ground arith
new_page-checks id fresh r n extreme_duplicate_glyphs hash now k h = ground arith
new_page-checks id fresh r n layout_contradiction hash now k h = ground arith

-- A page stands in the table that has this key, or this place in the run.
abbrev pub is_taken : ℕ → ℕ → ℕ → List Page → Bool
is_taken id run n = any (λ q. q.id == id || q.run_id == run && q.page_number == n)

not_taken : (id run n : ℕ) (ps : List Page) → is_taken id run n ps ≡ false → All (λ q. q.id ≢ id) ps
not_taken id run n [] h = tt
not_taken id run n (p ∷ ps) h = (λ e. ground arith, not_taken id run n ps (ground arith))

-- A step that keeps the tables well-formed, and is refused by the database only for this reason.
abbrev pub IsRefusedOnly : {A : Type 0} → Bool → Database × Result AppErrorCode A → Type 0
IsRefusedOnly reason o = WellFormed o.0 × (o.1 ≡ err database_error → reason ≡ true)

insert_page-IsRefusedOnly :
    (p : Page) (db : Database)
    → WellFormed db
    → page_checks p ≡ true
    → IsRefusedOnly (is_taken p.id p.run_id p.page_number db.pages) (insert_page p db)
insert_page-IsRefusedOnly p db v h =
    elim (Bool-cases (is_taken p.id p.run_id p.page_number db.pages)) [
      | inl taken ↦ rw taken (v, λ e. refl)
      | inr vacant ↦
          rw (vacant, h)
            (
              record {
                pages_checked = (h, v.pages_checked);
                pages_unique =
                    (not_taken p.id p.run_id p.page_number db.pages vacant, v.pages_unique);
                runs_checked = v.runs_checked;
              },
              λ e. cc,
            )
    ]

answers-IsRefusedOnly :
    {A : Type 0} (reason : Bool) (a : A) (o : Outcome (Unit {0}))
    → IsRefusedOnly reason o
    → IsRefusedOnly reason (answers a o)
answers-IsRefusedOnly reason a (db, ok u) h = (h.0, λ e. cc)
answers-IsRefusedOnly reason a (db, err x) h = (h.0, λ e. h.1 (ground (arith, e)))

find_run-id : (run : ℕ) (rs : List Run) (r : Run) → find_run run rs ≡ some r → r.id ≡ run
find_run-id run [] r e = cc
find_run-id run (x ∷ xs) r e = elim (Bool-cases (x.id == run)) [
  | inl same ↦ subst (λ q. q.id ≡ run) (some_cancel x r (rw same at e)) (ground (arith, same))
  | inr other ↦ find_run-id run xs r (rw other at e)
]

found_run :
    (page_id : ℕ → ℕ → ℕ) (fresh run n : ℕ) (reason : IndexQualityReason) (hash : Option (List ℕ))
    (now : ℕ) (db : Database)
    → WellFormed db
    → (r : Run) → find_run run db.runs ≡ some r
    → (n == 0 || ltb 1000000 n || not (sha_or_null hash)) ≡ false
    → (let p = new_page (page_id run n) fresh r n reason hash now in
        IsRefusedOnly (is_taken (page_id run n) run n db.pages) (
          if has_run_status running r
          then answers (ownership p) (insert_page p db)
          else (db, err request_conflict)))
found_run page_id fresh run n reason hash now db v r e good =
    let p = new_page (page_id run n) fresh r n reason hash now in
    elim (Bool-cases (has_run_status running r)) [
      | inl on ↦ rw on (
          answers-IsRefusedOnly (is_taken (page_id run n) run n db.pages) (ownership p)
            (insert_page p db)
            (subst (λ k. IsRefusedOnly (is_taken (page_id run n) k n db.pages) (insert_page p db))
              (find_run-id run db.runs r e)
              (insert_page-IsRefusedOnly p db v (
                new_page-checks (page_id run n) fresh r n reason hash now
                  (ground (arith, good), ground (arith, good)) (ground (arith, good))))))
      | inr off ↦ rw off (v, λ q. cc)
    ]

-- Creating a page of a well-formed database leaves it well-formed, whatever the input; and the
-- database refuses the new row only if its key or its place in the run is taken.
pub queue-IsRefusedOnly :
    (page_id : ℕ → ℕ → ℕ) (fresh run n : ℕ) (reason : IndexQualityReason) (hash : Option (List ℕ))
    (now : ℕ) (db : Database)
    → WellFormed db
    → IsRefusedOnly
        (is_taken (page_id run n) run n db.pages)
        (queue page_id fresh run n reason hash now db)
unfolding queue
queue-IsRefusedOnly page_id fresh run n reason hash now db v =
    elim (Bool-cases (n == 0 || ltb 1000000 n || not (sha_or_null hash))) [
      | inl bad ↦ rw bad (v, λ e. cc)
      | inr good ↦ rw good (elim (Option-cases (find_run run db.runs)) [
        | inl e ↦ rw e (v, λ e. cc)
        | inr (r, e) ↦ rw e (found_run page_id fresh run n reason hash now db v r e good)
      ])
    ]
