-- ===== src/Index/Recovery/Selection.antt =====
-- The rows that src-tauri/src/indexing/recovery.rs reads: every page in work, once.
use textbook_lens.Base.{
  ℕ, suc, ◌+◌, ◌≡◌, refl, sym, ap, ◌∙◌, ◌≢◌, inl, inr, Bool, true, false, ◌||◌, none, some, List,
  [], ◌∷◌, ◌==◌, if◌then◌else◌, any, All, Memb, All-Memb, All-from_Memb, subst, arith, Bool-cases,
  Option-cases, is_some, length,
}
use textbook_lens.Index.Rows.{Page, Database, page_checks}
use textbook_lens.Index.Statements.{UniqueIds, WellFormed}
use textbook_lens.Index.Integrity.{split}
use textbook_lens.Index.Recovery.Loop.{
  InterruptedPage, is_interrupted, is_interrupted_attempt, is_listed_before, insert_ordered,
  select_interrupted, interrupted_page, from_rows,
}
use textbook_lens.Index.Recovery.Pending.{
  Pending, CanRequeue, UniquePages, is_pending, works_on, interrupted-IsWorking,
}

abbrev pub interrupted_count : List Page → ℕ
interrupted_count [] = 0
interrupted_count (p ∷ ps) = (if is_interrupted p then 1 else 0) + interrupted_count ps

insert-All :
    (P : Page → Type 0) (p : Page) (qs : List Page) → P p → All P qs → All P (insert_ordered p qs)
insert-All P p [] h a = (h, tt)
insert-All P p (q ∷ qs) h a = elim (Bool-cases (is_listed_before p q)) [
  | inl first ↦ rw first (h, a)
  | inr later ↦ rw later (a.0, insert-All P p qs h a.1)
]

insert-any :
    (f : Page → Bool) (p : Page) (qs : List Page) → any f (insert_ordered p qs) ≡ (f p || any f qs)
insert-any f p [] = refl
insert-any f p (q ∷ qs) = ground (arith, insert-any f p qs)

insert-length : (p : Page) (qs : List Page) → length (insert_ordered p qs) ≡ suc (length qs)
insert-length p [] = refl
insert-length p (q ∷ qs) = ground (arith, insert-length p qs)

insert-UniqueIds :
    (p : Page) (qs : List Page)
    → All (λ q. q.id ≢ p.id) qs
    → UniqueIds qs
    → UniqueIds (insert_ordered p qs)
insert-UniqueIds p [] n u = (tt, tt)
insert-UniqueIds p (q ∷ qs) n u = elim (Bool-cases (is_listed_before p q)) [
  | inl first ↦ rw first (n, u)
  | inr later ↦
      rw later
        (insert-All (λ x. x.id ≢ q.id) p qs (λ e. n.0 (sym e)) u.0, insert-UniqueIds p qs n.1 u.1)
]

select-All :
    (P : Page → Type 0) (ps : List Page)
    → All (λ p. is_interrupted p ≡ true → P p) ps
    → All P (select_interrupted ps)
select-All P [] a = tt
select-All P (p ∷ ps) a = elim (Bool-cases (is_interrupted p)) [
  | inl works ↦ rw works (insert-All P p (select_interrupted ps) (a.0 works) (select-All P ps a.1))
  | inr rests ↦ rw rests (select-All P ps a.1)
]

weaken : (P Q : Page → Type 0) (ps : List Page) → ((p : Page) → P p → Q p) → All P ps → All Q ps
weaken P Q [] f a = tt
weaken P Q (p ∷ ps) f a = (f p a.0, weaken P Q ps f a.1)

select-UniqueIds : (ps : List Page) → UniqueIds ps → UniqueIds (select_interrupted ps)
select-UniqueIds [] u = tt
select-UniqueIds (p ∷ ps) u = elim (Bool-cases (is_interrupted p)) [
  | inl works ↦ rw works (
      insert-UniqueIds p (select_interrupted ps)
        (select-All (λ q. q.id ≢ p.id) ps (weaken _ _ ps (λ q n w. n) u.0))
        (select-UniqueIds ps u.1))
  | inr rests ↦ rw rests (select-UniqueIds ps u.1)
]

select-length : (ps : List Page) → length (select_interrupted ps) ≡ interrupted_count ps
select-length [] = refl
select-length (p ∷ ps) = elim (Bool-cases (is_interrupted p)) [
  | inl works ↦
      rw (works, insert-length p (select_interrupted ps)) (omega (arith, select-length ps))
  | inr rests ↦ rw rests (omega (arith, select-length ps))
]

abbrev IsSelected : Page → List Page → Type 0
IsSelected p ps = is_interrupted p ≡ true → any (λ q. q.id == p.id) (select_interrupted ps) ≡ true

select-own : (p : Page) (ps : List Page) → IsSelected p (p ∷ ps)
select-own p ps w = rw (w, insert-any (λ x. x.id == p.id) p (select_interrupted ps)) (ground arith)

select-any :
    (p : Page) (ps : List Page)
    → Memb p ps
    → is_interrupted p ≡ true
    → any (λ q. q.id == p.id) (select_interrupted ps) ≡ true
select-any p [] m w = absurd m
select-any p (q ∷ ps) (inl e) w = subst (λ x. IsSelected x (q ∷ ps)) (sym e) (select-own q ps) w
select-any p (q ∷ ps) (inr m) w = elim (Bool-cases (is_interrupted q)) [
  | inl works ↦
      rw (works, insert-any (λ x. x.id == p.id) q (select_interrupted ps))
        (ground (arith, select-any p ps m w))
  | inr rests ↦ rw rests (select-any p ps m w)
]

any-Memb : (f : Page → Bool) (p : Page) (ps : List Page) → Memb p ps → f p ≡ true → any f ps ≡ true
any-Memb f p [] m h = absurd m
any-Memb f p (q ∷ ps) (inl e) h = rw (subst (λ x. f x ≡ true) e h) refl
any-Memb f p (q ∷ ps) (inr m) h = ground (arith, any-Memb f p ps m h)

-- What a row that is read holds: it stands in the table, is in work, and has an attempt.
abbrev IsRow : List Page → Page → Type 0
IsRow table p = Memb p table × (is_interrupted p ≡ true) × (is_some p.attempt_id ≡ true)

abbrev IsRead : List Page → List Page → List InterruptedPage → Type 0
IsRead table rows ts =
    (from_rows rows ≡ some ts)
    × All (λ t. any (is_interrupted_attempt t) table ≡ true) ts
    × All (λ t. works_on t.status ≡ true) ts
    × UniquePages ts
    × ((id : ℕ) → is_pending ts id ≡ any (λ q. q.id == id) rows)
    × (length ts ≡ length rows)

no_any :
    (id : ℕ) (rows : List Page) → All (λ q. q.id ≢ id) rows → any (λ q. q.id == id) rows ≡ false
no_any id [] a = refl
no_any id (q ∷ rows) a = ground (arith, a.0, no_any id rows a.1)

true-not_none : (p : Page) → is_some p.attempt_id ≡ true → p.attempt_id ≢ none
true-not_none p h e = ground arith

own_attempt :
    (p : Page) (attempt : ℕ)
    → p.attempt_id ≡ some attempt
    → is_interrupted_attempt (interrupted_page p attempt) p ≡ true
own_attempt p attempt e = rw e (ground arith)

reads :
    (table rows : List Page)
    → All (IsRow table) rows
    → UniqueIds rows
    → (ts : List InterruptedPage) × IsRead table rows ts
reads table [] a u = ([], (refl, tt, tt, tt, (λ id. refl), refl))
reads table (p ∷ rows) a u = elim (Option-cases p.attempt_id) [
  | inl missing ↦ absurd (true-not_none p a.0.2 missing)
  | inr (attempt, there) ↦
      let (ts, (e, present, work, unique, same, long)) = reads table rows a.1 u.1 in
      rw (there, e)
        (
          interrupted_page p attempt ∷ ts,
          (
            refl,
            (
              any-Memb (is_interrupted_attempt (interrupted_page p attempt)) p table a.0.0
                  (own_attempt p attempt there),
              present,
            ),
            (a.0.1, work),
            (same p.id ∙ no_any p.id rows u.0, unique),
            (λ id. ap (λ b. p.id == id || b) (same id)),
            ap suc long,
          ),
        )
]

-- The rows of a well-formed database are read without an error, and all wait for their turn.
pub select-Pending :
    (db : Database)
    → WellFormed db
    → All CanRequeue db.pages
    → (ts : List InterruptedPage) × (from_rows (select_interrupted db.pages) ≡ some ts)
      × Pending ts db
      × (length ts ≡ interrupted_count db.pages)
select-Pending db v room =
    let has_attempt = λ (p : Page) (c : page_checks p ≡ true) (w : is_interrupted p ≡ true).
      (interrupted-IsWorking p w (split p c)).has_attempt in
    let rows : All (IsRow db.pages) (select_interrupted db.pages) =
      select-All (IsRow db.pages) db.pages (
        All-from_Memb _ db.pages
          λ p m w. (m, w, has_attempt p (All-Memb _ db.pages p v.pages_checked m) w)) in
    let (ts, (e, present, work, unique, same, long)) =
      reads db.pages (select_interrupted db.pages) rows
        (select-UniqueIds db.pages v.pages_unique) in
    (
      ts,
      e,
      record {
        well_formed = v;
        room = room;
        present = present;
        in_work = work;
        awaited = All-from_Memb _ db.pages λ p m w. same p.id ∙ select-any p db.pages m w;
        distinct = unique;
      },
      long ∙ select-length db.pages,
    )
