-- ===== src/Index/Statements.antt =====
-- What an UPDATE of src-tauri/src/indexing/state.rs does to a well-formed table.
use textbook_lens.Base.{
  ℕ, ◌≤◌, ◌<◌, ◌≡◌, refl, ◌≢◌, inl, inr, Bool, true, false, List, [], ◌∷◌, arith, if◌then◌else◌,
  All, err, Bool-cases,
}
use textbook_lens.Index.Rows.{
  Page, Database, database_error, page_checks, run_checks, update_rows, rows_affected, breaks_check,
  require_one_row, update_page,
}

abbrev pub UniqueIds : List Page → Type 0
UniqueIds [] = Unit
UniqueIds (p ∷ ps) = All (λ q. q.id ≢ p.id) ps × UniqueIds ps

-- Every row meets the constraints of its table, and no two pages share their key.
pub record WellFormed (db : Database) : Type 0 where
  pub pages_checked : All (λ p. page_checks p ≡ true) db.pages
  pub pages_unique : UniqueIds db.pages
  pub runs_checked : All (λ r. run_checks r ≡ true) db.runs

-- The counters of a page can still be raised.
abbrev pub HasRoom : Page → Type 0
HasRoom p = (p.attempt_count < 1000000) × (p.content_version < 1000000)

-- An update of pages that changes no key, and no more than the page with one key.
-- `Room` is what the rows hold beside the constraints.
module _ (Room : Page → Type 0) (picks : Page → Bool) (change : Page → Page) where
  abbrev pub Keeps : Type 0
  Keeps =
      (p : Page) → picks p ≡ true → Room p → page_checks p ≡ true → page_checks (change p) ≡ true

  abbrev pub Aims : ℕ → Type 0
  Aims id = (p : Page) → picks p ≡ true → (p.id ≡ id) × ((change p).id ≡ p.id)

  breaks_none :
      Keeps
      → (ps : List Page) → All Room ps
      → All (λ p. page_checks p ≡ true) ps
      → breaks_check page_checks picks change ps ≡ false
  breaks_none k [] r a = refl
  breaks_none k (p ∷ ps) r a = ground (arith, k p, breaks_none k ps r.1 a.1)

  update_checked :
      Keeps
      → (ps : List Page) → All Room ps
      → All (λ p. page_checks p ≡ true) ps
      → All (λ p. page_checks p ≡ true) (update_rows page_checks picks change ps)
  update_checked k [] r a = tt
  update_checked k (p ∷ ps) r a = (ground (arith, k p), update_checked k ps r.1 a.1)

  update_id : (id : ℕ) → Aims id → (p : Page) → (if picks p then change p else p).id ≡ p.id
  update_id id aims p = ground (arith, aims p)

  update_other :
      (id : ℕ)
      → Aims id
      → (x : ℕ) (ps : List Page) → All (λ q. q.id ≢ x) ps
      → All (λ q. q.id ≢ x) (update_rows page_checks picks change ps)
  update_other id aims x [] a = tt
  update_other id aims x (p ∷ ps) a =
      (ground (arith, update_id id aims p), update_other id aims x ps a.1)

  update_unique :
      (id : ℕ)
      → Aims id
      → (ps : List Page) → UniqueIds ps
      → UniqueIds (update_rows page_checks picks change ps)
  update_unique id aims [] u = tt
  update_unique id aims (p ∷ ps) u =
      (rw (update_id id aims p) (update_other id aims p.id ps u.0), update_unique id aims ps u.1)

  pub affects_none :
      (id : ℕ)
      → Aims id
      → (ps : List Page) → All (λ q. q.id ≢ id) ps
      → rows_affected page_checks picks change ps ≡ 0
  affects_none id aims [] a = refl
  affects_none id aims (p ∷ ps) a = ground (arith, aims p, affects_none id aims ps a.1)

  affects_one :
      (id : ℕ)
      → Aims id
      → (ps : List Page) → UniqueIds ps
      → rows_affected page_checks picks change ps ≤ 1
  affects_one id aims [] u = omega arith
  affects_one id aims (p ∷ ps) u = elim (Bool-cases (picks p)) [
    | inl hit ↦
        let e = (aims p hit).0 in rw hit (omega (arith, affects_none id aims ps (rw e at u.0)))
    | inr miss ↦ rw miss (omega (arith, affects_one id aims ps u.1))
  ]

  -- Such an update of a well-formed database keeps it well-formed, and the database refuses nothing.
  pub update_page-WellFormed :
      (id : ℕ) (db : Database)
      → Keeps
      → Aims id
      → All Room db.pages
      → WellFormed db
      → WellFormed (update_page picks change db).0
        × ((update_page picks change db).1 ≢ err database_error)
  unfolding update_page require_one_row
  update_page-WellFormed id db k aims r v = rw (breaks_none k db.pages r v.pages_checked) (
    record {
      pages_checked = update_checked k db.pages r v.pages_checked;
      pages_unique = update_unique id aims db.pages v.pages_unique;
      runs_checked = v.runs_checked;
    },
    ground (arith, affects_one id aims db.pages v.pages_unique),
  )
