-- ===== src/Learning/Creation.antt =====
-- A new request in src-tauri/src/learning/registry.rs.
use textbook_lens.Base.{
  ℕ, ◌≡◌, refl, ◌≢◌, inl, inr, true, false, ◌||◌, Option, none, some, List, ◌∷◌, arith, ◌==◌,
  if◌then◌else◌, leb, Bool-cases, Option-cases, sym, ◌∙◌, ap, subst, some_cancel, is_ok,
  Result-cases,
}
use textbook_lens.Learning.Panel.{snapshot_is_valid}
use textbook_lens.Learning.Entry.{
  RegistryEntry, LearningPersistenceTarget, context_conversation_id, new_entry, snapshot,
}
use textbook_lens.Learning.Registry.{
  RegistryState, find_entry, gc_locked, is_taken, activate, admit, create_at, active_count,
  max_active_requests,
}
use textbook_lens.Learning.Sound.{IsSound}
use textbook_lens.Learning.Invariant.{Inv, Runs, gc_locked-Inv}

new_entry-IsSound : (id : ℕ) (target : LearningPersistenceTarget) → IsSound (new_entry id target)
new_entry-IsSound id target = ground arith

find_entry-new :
    (id : ℕ) (e : RegistryEntry) (es : List RegistryEntry)
    → e.request_id ≡ id
    → find_entry id (e ∷ es) ≡ some e
find_entry-new id e es h = ground arith

find_entry-old :
    (id r : ℕ) (e : RegistryEntry) (es : List RegistryEntry)
    → e.request_id ≡ id
    → r ≢ id
    → find_entry r (e ∷ es) ≡ find_entry r es
find_entry-old id r e es h k = ground arith

none_not_some : {A P : Type 0} {e : A} → ◌≡◌ {A = Option A} none (some e) → P
none_not_some h = cc

module _ (id : ℕ) (target : LearningPersistenceTarget) (s : RegistryState)
    (unused : find_entry id s.entries ≡ none) (v : Inv s) where
  abbrev grown : List RegistryEntry
  grown = new_entry id target ∷ s.entries

  -- A request that is there already has another key.
  is_other : (r c : ℕ) → Runs s.entries r c → r ≢ id
  is_other r c (e, found, _, _) same =
      let nothing = subst (λ k. find_entry k s.entries ≡ none) (sym same) unused in
      none_not_some (sym nothing ∙ found)

  Runs-grown : (r c : ℕ) → Runs s.entries r c → Runs grown r c
  Runs-grown r c k = (
    k.0,
    find_entry-old id r (new_entry id target) s.entries refl (is_other r c k) ∙ k.1,
    k.2,
    k.3,
  )

  Runs-shrunk : (r c : ℕ) → r ≢ id → Runs grown r c → Runs s.entries r c
  Runs-shrunk r c other k =
      (k.0, sym (find_entry-old id r (new_entry id target) s.entries refl other) ∙ k.1, k.2, k.3)

  conversation_of : (c : ℕ) → Runs grown id c → context_conversation_id target ≡ some c
  conversation_of c (e, found, _, conversation) =
      let same =
        some_cancel (new_entry id target) e
          (sym (find_entry-new id (new_entry id target) s.entries refl) ∙ found) in
      ap (λ k. context_conversation_id k.target) same ∙ conversation

  grown-Inv-none : context_conversation_id target ≡ none → Inv (record s { entries = grown })
  grown-Inv-none e = record {
    backed = λ c r h. Runs-grown r c (v.backed c r h);
    registered = λ c r k. v.registered c r (Runs-shrunk r c (not_new e c r k) k);
    apart = v.apart;
    sound = (new_entry-IsSound id target, v.sound);
  }
    where
      not_new : context_conversation_id target ≡ none → (c r : ℕ) → Runs grown r c → r ≢ id
      not_new e c r k same =
          none_not_some (sym e ∙ conversation_of c (subst (λ q. Runs grown q c) same k))

  abbrev activated : ℕ → ℕ → Option ℕ
  activated c0 c = if c == c0 then some id else s.active_conversations c

  fresh-Runs : (c0 c : ℕ) → context_conversation_id target ≡ some c0 → c ≡ c0 → Runs grown id c
  fresh-Runs c0 c e same = (
    new_entry id target,
    find_entry-new id (new_entry id target) s.entries refl,
    refl,
    e ∙ ap (λ k. some k) (sym same),
  )

  backed_some :
      (c0 : ℕ)
      → context_conversation_id target ≡ some c0
      → (c r : ℕ) → activated c0 c ≡ some r
      → Runs grown r c
  backed_some c0 e c r h = elim (Bool-cases (c == c0)) [
    | inl hit ↦
        subst (λ q. Runs grown q c) (some_cancel id r (rw hit at h))
          (fresh-Runs c0 c e (ground arith))
    | inr miss ↦ Runs-grown r c (v.backed c r (rw miss at h))
  ]

  not_taken :
      (c0 c r : ℕ) → is_taken (some c0) s ≡ false → s.active_conversations c ≡ some r → c ≢ c0
  not_taken c0 c r vacant h same =
      let here = subst (λ k. s.active_conversations k ≡ some r) same h in ground arith

  registered_some :
      (c0 : ℕ)
      → context_conversation_id target ≡ some c0
      → is_taken (some c0) s ≡ false
      → (c r : ℕ) → Runs grown r c
      → activated c0 c ≡ some r
  registered_some c0 e vacant c r k = elim (Bool-cases (r == id)) [
    | inl hit ↦
        let same : r ≡ id = ground arith in
        let conversation = conversation_of c (subst (λ q. Runs grown q c) same k) in
        let here = some_cancel c0 c (sym e ∙ conversation) in ground arith
    | inr miss ↦
        let old = v.registered c r (Runs-shrunk r c (λ q. ground arith) k) in
        let apart = not_taken c0 c r vacant old in ground arith
  ]

  apart_some :
      (c0 : ℕ)
      → is_taken (some c0) s ≡ false
      → (c : ℕ) → s.deleting_conversations c ≡ true
      → activated c0 c ≡ none
  apart_some c0 vacant c h = elim (Bool-cases (c == c0)) [
    | inl hit ↦
        let same : c ≡ c0 = ground arith in
        let marked = subst (λ k. s.deleting_conversations k ≡ true) same h in absurd (ground arith)
    | inr miss ↦ rw miss (v.apart c h)
  ]

  grown-Inv-some :
      (c0 : ℕ)
      → context_conversation_id target ≡ some c0
      → is_taken (some c0) s ≡ false
      → Inv (record s {
        entries = grown;
        active_conversations = λ c'. if c' == c0 then some id else s.active_conversations c';
      })
  grown-Inv-some c0 e vacant = record {
    backed = λ c r h. backed_some c0 e c r h;
    registered = λ c r k. registered_some c0 e vacant c r k;
    apart = λ c h. apart_some c0 vacant c h;
    sound = (new_entry-IsSound id target, v.sound);
  }

new_snapshot :
    (id : ℕ) (target : LearningPersistenceTarget) → is_ok (snapshot (new_entry id target)) ≡ true
unfolding snapshot snapshot_is_valid
new_snapshot id target = refl

admit-Inv :
    (id : ℕ) (target : LearningPersistenceTarget) (s : RegistryState)
    → find_entry id s.entries ≡ none
    → is_taken (context_conversation_id target) s ≡ false
    → Inv s
    → Inv
        (admit
          (new_entry id target)
          (activate (context_conversation_id target) id s)
          (snapshot (new_entry id target))).0
admit-Inv id target s unused vacant v = elim (Result-cases (snapshot (new_entry id target))) [
  | inl (snap, fine) ↦ rw fine (elim (Option-cases (context_conversation_id target)) [
    | inl e ↦ rw e (grown-Inv-none id target s unused v e)
    | inr (c0, e) ↦ rw e (grown-Inv-some id target s unused v c0 e (rw e at vacant))
  ])
  | inr (x, bad) ↦ absurd (let fine = new_snapshot id target in let clash = rw bad at fine in cc)
]

pub create_at-Inv :
    (id : ℕ) (target : LearningPersistenceTarget) (now : ℕ) (s : RegistryState)
    → Inv s
    → find_entry id (gc_locked now s).entries ≡ none
    → Inv (create_at id target now s).0
unfolding create_at
create_at-Inv id target now s v unused =
    elim (Bool-cases (
      leb max_active_requests (active_count (gc_locked now s).entries)
      || is_taken (context_conversation_id target) (gc_locked now s))) [
        | inl refused ↦ rw refused (gc_locked-Inv now s v)
        | inr accepted ↦
            rw accepted
              (admit-Inv id target (gc_locked now s) unused (ground arith) (gc_locked-Inv now s v))
      ]
