-- ===== src/Index/Recovery/Guarantee.antt =====
-- What a start of src-tauri/src/indexing/recovery.rs guarantees.
use textbook_lens.Base.{
  ℕ, ◌≤◌, ◌≡◌, refl, ◌⊎◌, inl, inr, Bool, true, false, Option, none, some, List, [], ◌∷◌, All, ok,
  err, arith, le→leb, length, u32_max, if◌then◌else◌,
}
use textbook_lens.Errors.{local_io_error}
use textbook_lens.Index.Rows.{Page, invalid_input}
use textbook_lens.Index.Statements.{WellFormed}
use textbook_lens.Index.Recovery.Loop.{
  FileSystem, Startup, Step, is_interrupted, indexed_count, select_interrupted, from_rows,
  recover_rows, recover_each, recover_interrupted_pages,
}
use textbook_lens.Index.Recovery.Pending.{CanRequeue, is_pending}
use textbook_lens.Index.Recovery.Completeness.{HasRefused, recovered, IsDone, recover_each-IsDone}
use textbook_lens.Index.Recovery.Selection.{interrupted_count, select-Pending}

indexed_count-le : (ps : List Page) → indexed_count ps ≤ length ps
indexed_count-le [] = omega arith
indexed_count-le (p ∷ ps) = ground (arith, indexed_count-le ps)

interrupted_count-le : (ps : List Page) → interrupted_count ps ≤ length ps
interrupted_count-le [] = omega arith
interrupted_count-le (p ∷ ps) = ground (arith, interrupted_count-le ps)

none_left :
    (ps : List Page)
    → All (λ p. is_interrupted p ≡ true → is_pending [] p.id ≡ true) ps
    → All (λ p. is_interrupted p ≡ false) ps
none_left [] a = tt
none_left (p ∷ ps) a = (ground (arith, a.0), none_left ps a.1)

-- `refuses_root` and `max_age` are what the first two calls answer.
abbrev pub IsRecovered : FileSystem → Bool → Option ℕ → ℕ → Step → Type 0
IsRecovered fs refuses_root max_age total (s', r) =
    WellFormed s'.database
    × (((r ≡ ok tt)
          × All (λ p. is_interrupted p ≡ false) s'.database.pages
          × (recovered s' ≡ total))
        ⊎ ((r ≡ err local_io_error) × ((refuses_root ≡ true) ⊎ HasRefused fs))
        ⊎ ((r ≡ err invalid_input) × (max_age ≡ none)))

done-IsRecovered :
    (fs : FileSystem) (max_age : ℕ) (total : ℕ) (o : Step)
    → IsDone fs total o
    → IsRecovered fs false (some max_age) total o
unfolding IsDone
done-IsRecovered fs max_age total (s', r) (inl (q, left, counted)) =
    (left.well_formed, inl (q, none_left s'.database.pages left.awaited, counted))
done-IsRecovered fs max_age total (s', r) (inr (q, refused, v)) = (v, inr (inl (q, inr refused)))

abbrev counted_from_zero : Startup → Startup
counted_from_zero s = record s {
  summary = record {
    requeued = 0;
    marked_retryable = 0;
    unchanged_indexed = indexed_count s.database.pages;
  };
}

module _ (fs : FileSystem) (now : ℕ) (draw : ℕ → ℕ) (s : Startup) (v : WellFormed s.database)
    (room : All CanRequeue s.database.pages) (few : length s.database.pages ≤ u32_max) where
  recover_rows-IsRecovered :
      (max_age : ℕ)
      → IsRecovered fs false
          (some max_age)
          (interrupted_count s.database.pages)
          (recover_rows fs now max_age draw (from_rows (select_interrupted s.database.pages)) s)
  recover_rows-IsRecovered max_age =
      let (ts, q, pending, long) = select-Pending s.database v room in
      let counts =
        le→leb (indexed_count s.database.pages) u32_max
          (omega (arith, few, indexed_count-le s.database.pages)) in
      rw (q, counts)
        (done-IsRecovered fs max_age (interrupted_count s.database.pages)
          (recover_each fs now max_age draw ts (counted_from_zero s))
          (recover_each-IsDone fs now max_age (interrupted_count s.database.pages) draw ts
            (counted_from_zero s) pending (omega (arith, long))
            (omega (arith, few, interrupted_count-le s.database.pages))))

  started-IsRecovered :
      (refuses_root : Bool) (max_age : Option ℕ)
      → IsRecovered fs refuses_root max_age (interrupted_count s.database.pages) (
          if refuses_root then (s, err local_io_error) else elim max_age [
            | none ↦ (s, err invalid_input)
            | some age ↦
                recover_rows fs now age draw (from_rows (select_interrupted s.database.pages)) s
          ])
  started-IsRecovered true max_age = (v, inr (inl (refl, inl refl)))
  started-IsRecovered false none = (v, inr (inr (refl, refl)))
  started-IsRecovered false (some max_age) = recover_rows-IsRecovered max_age

-- Recovery at the start of the application keeps a well-formed database well-formed. It succeeds unless
-- the file system refuses a call or the age limit is out of range; then no page is left in work, and
-- each page that was in work is counted once, as queued again or as failed. A conflict or a database
-- error is impossible. The counters of the pages in work must be below their limit, and the rows
-- fewer than 2 ^ 32.
pub recover_interrupted_pages-IsRecovered :
    (fs : FileSystem) (from_std : ℕ → Option ℕ) (now max_attempt_age : ℕ) (draw : ℕ → ℕ)
    (s : Startup)
    → WellFormed s.database
    → All CanRequeue s.database.pages
    → length s.database.pages ≤ u32_max
    → IsRecovered fs fs.refuses_root
        (from_std max_attempt_age)
        (interrupted_count s.database.pages)
        (recover_interrupted_pages fs from_std now max_attempt_age draw s)
unfolding recover_interrupted_pages
recover_interrupted_pages-IsRecovered fs from_std now max_attempt_age draw s v room few =
    started-IsRecovered fs now draw s v room few fs.refuses_root (from_std max_attempt_age)
