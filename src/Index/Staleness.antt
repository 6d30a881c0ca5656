-- ===== src/Index/Staleness.antt =====
-- Old attempts in src-tauri/src/indexing/state.rs: no page operation brings one back.
use textbook_lens.Base.{
  ℕ, ◌≡◌, ◌≢◌, inl, inr, Bool, false, List, [], ◌∷◌, arith, All, ok, err, Bool-cases, Option-cases,
}
use textbook_lens.Index.Status.{IndexPageStatus, legal_transition}
use textbook_lens.Index.Rows.{
  Page, Database, page_checks, update_page, update_rows, breaks_check, is_sha256,
}
use textbook_lens.Index.Pages.{
  Outcome, if_legal, if_sha256, holds_id, claimed, returns, claim_render, mark_rendered, claim_send,
  find_claimed, transition_page, mark_received, claim_validate, commit_review, commit_indexed, fail,
  cancel, retry,
}
use textbook_lens.Index.PageOps.{
  PageOp, claims_render, claims_send, claims_validate, marks_rendered, marks_received,
  commits_indexed, commits_review, fails, cancels, retries, perform, forget,
}

-- No page with this key is in this attempt.
abbrev pub IsStale : ℕ → ℕ → List Page → Type 0
IsStale page attempt = All (λ p. p.id ≡ page → holds_id p.attempt_id attempt ≡ false)

-- The page operations keep a stale attempt stale.
module _ (page old : ℕ) where
  abbrev StaysStale : (Page → Page) → Type 0
  StaysStale change =
      (p : Page)
      → (p.id ≡ page → holds_id p.attempt_id old ≡ false)
      → (change p).id ≡ page
      → holds_id (change p).attempt_id old ≡ false

  abbrev pub LeavesStale : {A : Type 0} → Outcome A → Type 0
  LeavesStale o = IsStale page old o.0.pages

  rows-IsStale :
      (picks : Page → Bool) (change : Page → Page)
      → StaysStale change
      → (ps : List Page) → IsStale page old ps
      → IsStale page old (update_rows page_checks picks change ps)
  rows-IsStale picks change k [] h = tt
  rows-IsStale picks change k (p ∷ ps) h = elim (Bool-cases (picks p)) [
    | inl hit ↦ rw hit (k p h.0, rows-IsStale picks change k ps h.1)
    | inr miss ↦ rw miss (h.0, rows-IsStale picks change k ps h.1)
  ]

  update_page-LeavesStale :
      (picks : Page → Bool) (change : Page → Page) (db : Database)
      → IsStale page old db.pages
      → StaysStale change
      → LeavesStale (update_page picks change db)
  unfolding update_page
  update_page-LeavesStale picks change db h k =
      elim (Bool-cases (breaks_check page_checks picks change db.pages)) [
        | inl breaks ↦ rw breaks h
        | inr fine ↦ rw fine (rows-IsStale picks change k db.pages h)
      ]

  if_legal-LeavesStale :
      (from to : IndexPageStatus) (again : Bool) (rest : Outcome (Unit {0})) (db : Database)
      → IsStale page old db.pages
      → LeavesStale rest
      → LeavesStale (if_legal from to again rest db)
  unfolding if_legal
  if_legal-LeavesStale from to again rest db h k =
      elim (Bool-cases (legal_transition from to again)) [
        | inl legal ↦ rw legal k
        | inr other ↦ rw other h
      ]

  if_sha256-LeavesStale :
      (hash : List ℕ) (rest : Outcome (Unit {0})) (db : Database)
      → IsStale page old db.pages
      → LeavesStale rest
      → LeavesStale (if_sha256 hash rest db)
  unfolding if_sha256
  if_sha256-LeavesStale hash rest db h k = elim (Bool-cases (is_sha256 hash)) [
    | inl legal ↦ rw legal k
    | inr other ↦ rw other h
  ]

  claimed-LeavesStale :
      (page' attempt : ℕ) (o : Outcome (Unit {0}))
      → LeavesStale o
      → LeavesStale (forget (claimed page' attempt o))
  claimed-LeavesStale page' attempt (db, err e) h = h
  claimed-LeavesStale page' attempt (db, ok u) h =
      elim (Option-cases (find_claimed page' attempt db.pages)) [
        | inl e ↦ rw (e, claimed) h
        | inr (c, e) ↦ rw (e, claimed) h
      ]

  returns-LeavesStale :
      (a : ℕ) (o : Outcome (Unit {0})) → LeavesStale o → LeavesStale (forget (returns a o))
  returns-LeavesStale a (db, ok u) h = h
  returns-LeavesStale a (db, err e) h = h

  -- A retry draws another identifier than the old one.
  abbrev pub DrawsOther : PageOp → Type 0
  DrawsOther (retries expected fresh) = fresh ≢ old
  DrawsOther _ = Unit

  pub perform-LeavesStale :
      (op : PageOp) (page' attempt now : ℕ) (db : Database)
      → DrawsOther op
      → IsStale page old db.pages
      → LeavesStale (perform op page' attempt now db)
  unfolding perform claim_render mark_rendered claim_send mark_received claim_validate commit_review
      commit_indexed fail cancel retry transition_page
  perform-LeavesStale claims_render page' attempt now db ne h =
      claimed-LeavesStale page' attempt _
        (if_legal-LeavesStale _ _ _ _ db h (update_page-LeavesStale _ _ db h (λ p k. k)))
  perform-LeavesStale claims_send page' attempt now db ne h =
      if_legal-LeavesStale _ _ _ _ db h (update_page-LeavesStale _ _ db h (λ p k. k))
  perform-LeavesStale claims_validate page' attempt now db ne h =
      if_legal-LeavesStale _ _ _ _ db h (update_page-LeavesStale _ _ db h (λ p k. k))
  perform-LeavesStale (marks_rendered hash) page' attempt now db ne h =
      if_legal-LeavesStale _ _ _ _ db h
        (if_sha256-LeavesStale hash _ db h (update_page-LeavesStale _ _ db h (λ p k. k)))
  perform-LeavesStale (marks_received hash) page' attempt now db ne h =
      if_legal-LeavesStale _ _ _ _ db h
        (if_sha256-LeavesStale hash _ db h (update_page-LeavesStale _ _ db h (λ p k. k)))
  perform-LeavesStale (commits_indexed hash) page' attempt now db ne h =
      if_legal-LeavesStale _ _ _ _ db h
        (if_sha256-LeavesStale hash _ db h (update_page-LeavesStale _ _ db h (λ p k. k)))
  perform-LeavesStale (commits_review reason hash) page' attempt now db ne h =
      if_legal-LeavesStale _ _ _ _ db h
        (if_sha256-LeavesStale hash _ db h (update_page-LeavesStale _ _ db h (λ p k. k)))
  perform-LeavesStale (fails expected failure can_retry) page' attempt now db ne h =
      if_legal-LeavesStale _ _ _ _ db h (update_page-LeavesStale _ _ db h (λ p k. k))
  perform-LeavesStale (cancels expected) page' attempt now db ne h =
      if_legal-LeavesStale _ _ _ _ db h (update_page-LeavesStale _ _ db h (λ p k. k))
  perform-LeavesStale (retries expected fresh) page' attempt now db ne h =
      returns-LeavesStale fresh _ (
        if_legal-LeavesStale _ _ _ _ db h
          (update_page-LeavesStale _ _ db h (λ p k e. ground (arith, ne))))
