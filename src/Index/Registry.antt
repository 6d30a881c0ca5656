-- ===== src/Index/Registry.antt =====
-- `IndexCancellationRegistry` and `cancel_run` of src-tauri/src/indexing/state.rs.
use textbook_lens.Base.{
  ℕ, ◌+◌, ◌≤◌, ◌<◌, ◌≡◌, refl, ◌≢◌, sym, ◌∙◌, leb, u32_max, if◌then◌else◌, ◌⊎◌, inl, inr, true,
  false, List, [], ◌∷◌, arith, ◌==◌, any, All, Result, ok, err, is_ok, Bool-cases,
}
use textbook_lens.Index.Status.{IndexRunStatus, running, paused, cancelling, completed}
use textbook_lens.Index.Rows.{Database, AppErrorCode, database_error, request_conflict}
use textbook_lens.Index.Pages.{Outcome}
use textbook_lens.Index.Runs.{
  ActiveAttempt, register, signal_run, cancel_run, transaction, signalled, cancel_pages,
  CancelRunResult,
}

-- No page has two running attempts.
abbrev pub OnePerPage : List ActiveAttempt → Type 0
OnePerPage [] = Unit
OnePerPage (a ∷ rest) = All (λ b. b.page_id ≢ a.page_id) rest × OnePerPage rest

none_on_page :
    (page : ℕ) (active : List ActiveAttempt)
    → any (λ a. a.page_id == page) active ≡ false
    → All (λ b. b.page_id ≢ page) active
none_on_page page [] h = tt
none_on_page page (a ∷ rest) h = (λ q. ground arith, none_on_page page rest (ground arith))

-- Some registered attempt is of the page.
abbrev pub IsActive : ℕ → List ActiveAttempt → Type 0
IsActive page [] = ⊥
IsActive page (a ∷ rest) = a.page_id ≡ page ⊎ IsActive page rest

taken_IsActive :
    (page : ℕ) (active : List ActiveAttempt)
    → any (λ a. a.page_id == page) active ≡ true
    → IsActive page active
taken_IsActive page [] h = cc
taken_IsActive page (a ∷ rest) h = elim (Bool-cases (a.page_id == page)) [
  | inl same ↦ inl (ground arith)
  | inr other ↦ inr (taken_IsActive page rest (ground arith))
]

vacant_IsActive :
    (page : ℕ) (active : List ActiveAttempt)
    → any (λ a. a.page_id == page) active ≡ false
    → ¬ IsActive page active
vacant_IsActive page [] h m = m
vacant_IsActive page (a ∷ rest) h (inl same) = ground arith
vacant_IsActive page (a ∷ rest) h (inr m) = vacant_IsActive page rest (ground arith) m

abbrev pub registered : ℕ → ℕ → ℕ → ActiveAttempt
registered run page attempt = record {
  run_id = run;
  page_id = page;
  attempt_id = attempt;
  token_cancelled = false;
}

-- The registry holds one attempt per page: a page that has one is refused with a conflict and
-- nothing changes; any other is registered with the run and the attempt given, not cancelled, in
-- front of the attempts there were.
pub register-OnePerPage :
    (run page attempt : ℕ) (active : List ActiveAttempt)
    → OnePerPage active
    → OnePerPage (register run page attempt active).0
      × (IsActive page active → register run page attempt active ≡ (active, err request_conflict))
      × (¬ IsActive page active
          → register run page attempt active ≡ (registered run page attempt ∷ active, ok tt))
unfolding register
register-OnePerPage run page attempt active u =
    elim (Bool-cases (any (λ a. a.page_id == page) active)) [
      | inl taken ↦ rw taken (u, λ m. refl, λ no. absurd (no (taken_IsActive page active taken)))
      | inr vacant ↦ rw vacant (
        (none_on_page page active vacant, u),
        λ m. absurd (vacant_IsActive page active vacant m),
        λ no. refl,
      )
    ]

-- The attempts of the run are cancelled; the others are as before.
abbrev pub AreSignalled : ℕ → List ActiveAttempt → List ActiveAttempt → Type 0
AreSignalled run [] [] = Unit
AreSignalled run [] (b ∷ bs) = ⊥
AreSignalled run (a ∷ as') [] = ⊥
AreSignalled run (a ∷ as') (b ∷ bs) =
    (a.run_id ≡ run → b ≡ record a { token_cancelled = true })
    × (a.run_id ≢ run → b ≡ a)
    × AreSignalled run as' bs

signal_run-AreSignalled :
    (run : ℕ) (active : List ActiveAttempt) → AreSignalled run active (signal_run run active).0
unfolding signal_run
signal_run-AreSignalled run [] = tt
signal_run-AreSignalled run (a ∷ rest) = elim (Bool-cases (a.run_id == run)) [
  | inl same ↦ rw same (λ q. refl, λ q. absurd (q (ground arith)), signal_run-AreSignalled run rest)
  | inr other ↦ rw other (λ q. absurd (ground arith), λ q. refl, signal_run-AreSignalled run rest)
]

-- How many of the attempts are of the run.
abbrev pub attempts_of : ℕ → List ActiveAttempt → ℕ
attempts_of run [] = 0
attempts_of run (a ∷ rest) = (if a.run_id == run then 1 else 0) + attempts_of run rest

signal_run_count :
    (run : ℕ) (active : List ActiveAttempt) → (signal_run run active).1 ≡ attempts_of run active
unfolding signal_run
signal_run_count run [] = refl
signal_run_count run (a ∷ rest) = ground (arith, signal_run_count run rest)

-- What the caller is told of a transaction that cancelled `n` waiting pages.
abbrev pub IsReport : ℕ → ℕ → List ActiveAttempt → Result AppErrorCode CancelRunResult → Type 0
IsReport n run active r =
    (attempts_of run active ≤ u32_max
      → r
        ≡ ok (record {
          queued_pages_cancelled = n;
          active_attempts_signalled = attempts_of run active;
        }))
    × (u32_max < attempts_of run active → r ≡ err database_error)

-- The run may be cancelled, and the statements of the transaction all succeed, with `n` pages.
abbrev pub Commits : ℕ → ℕ → IndexRunStatus → Database → Database → ℕ → Type 0
Commits run now expected db db' n =
    (expected ≡ running ⊎ expected ≡ paused) × (cancel_pages run expected now db ≡ (db', ok n))

-- What a cancellation leaves behind: everything as it was and an error, when the transaction does not
-- succeed; its database, the run's tokens cancelled and the numbers of both, when it does.
abbrev pub IsAtomic :
    ℕ
    → ℕ
    → IndexRunStatus
    → Database
    → List ActiveAttempt
    → (Database × List ActiveAttempt) × Result AppErrorCode CancelRunResult
    → Type 0
IsAtomic run now expected db active ((db', active'), r) =
    (((db'' : Database) (n : ℕ) → ¬ Commits run now expected db db'' n)
      × (db' ≡ db)
      × (active' ≡ active)
      × (is_ok r ≡ false))
    ⊎ (n : ℕ) × (Commits run now expected db db' n
        × AreSignalled run active active'
        × IsReport n run active r)

report :
    (run : ℕ) (active : List ActiveAttempt) (n : ℕ)
    → IsReport n run active (
        if leb (signal_run run active).1 u32_max
        then ok (record {
          queued_pages_cancelled = n;
          active_attempts_signalled = (signal_run run active).1;
        })
        else err database_error)
report run active n = rw (signal_run_count run active) (λ few. ground arith, λ many. ground arith)

no_start : (s : IndexRunStatus) → s ≡ running ⊎ s ≡ paused → s ≢ running → s ≢ paused → ⊥
no_start s (inl e) a b = a e
no_start s (inr e) a b = b e

signalled-IsAtomic :
    (run now : ℕ) (expected : IndexRunStatus) (db : Database) (active : List ActiveAttempt)
    (o : Outcome ℕ)
    → expected ≡ running ⊎ expected ≡ paused
    → cancel_pages run expected now db ≡ o
    → IsAtomic run now expected db active (signalled run active (transaction db o))
signalled-IsAtomic run now expected db active (db', ok n) may e =
    inr (n, ((may, e), signal_run-AreSignalled run active, report run active n))
signalled-IsAtomic run now expected db active (db', err x) may e =
    inl (λ db'' n c. (let same = sym e ∙ c.1 in cc), refl, refl, refl)

-- Cancelling a run does one of two things. Either the run may not be cancelled or a statement of its
-- transaction fails: then an error is returned, and the database and every token are as they were. Or
-- the transaction succeeds: then its database is kept, just the tokens of the run's attempts are
-- cancelled, and the numbers of pages and attempts are returned, or an error if there are more
-- attempts than u32 counts.
pub cancel_run-IsAtomic :
    (run now : ℕ) (expected : IndexRunStatus) (db : Database) (active : List ActiveAttempt)
    → IsAtomic run now expected db active (cancel_run run expected now db active)
unfolding cancel_run
cancel_run-IsAtomic run now running db active =
    signalled-IsAtomic run now running db active _ (inl refl) refl
cancel_run-IsAtomic run now paused db active =
    signalled-IsAtomic run now paused db active _ (inr refl) refl
cancel_run-IsAtomic run now cancelling db active =
    inl (λ db'' n c. no_start cancelling c.0 (λ e. cc) (λ e. cc), refl, refl, refl)
cancel_run-IsAtomic run now IndexRunStatus.cancelled db active =
    inl (λ db'' n c. no_start IndexRunStatus.cancelled c.0 (λ e. cc) (λ e. cc), refl, refl, refl)
cancel_run-IsAtomic run now completed db active =
    inl (λ db'' n c. no_start completed c.0 (λ e. cc) (λ e. cc), refl, refl, refl)
