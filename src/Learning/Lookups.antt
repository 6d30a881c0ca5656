-- ===== src/Learning/Lookups.antt =====
-- The entries of src-tauri/src/learning/registry.rs under the changes that its methods make.
use textbook_lens.Base.{
  ℕ, ◌≡◌, refl, ◌≢◌, inl, inr, none, some, List, [], ◌∷◌, arith, ◌==◌, All, Bool-cases,
  Option-cases, subst, some_cancel,
}
use textbook_lens.Learning.Entry.{RegistryEntry}
use textbook_lens.Learning.Registry.{
  RegistryState, find_entry, set_entry, remove_entry, release_conversation,
}

pub find_entry-id :
    (id : ℕ) (es : List RegistryEntry) {e : RegistryEntry}
    → find_entry id es ≡ some e
    → e.request_id ≡ id
find_entry-id id [] h = cc
find_entry-id id (x ∷ es) h = elim (Bool-cases (x.request_id == id)) [
  | inl hit ↦ ground (arith, hit)
  | inr miss ↦ find_entry-id id es (rw miss at h)
]

pub find_entry-All {κ} :
    (P : RegistryEntry → Type κ) (id : ℕ) (es : List RegistryEntry) {e : RegistryEntry}
    → All P es
    → find_entry id es ≡ some e
    → P e
find_entry-All P id [] a h = cc
find_entry-All P id (x ∷ es) a h = elim (Bool-cases (x.request_id == id)) [
  | inl hit ↦ subst P (some_cancel x _ (rw hit at h)) a.0
  | inr miss ↦ find_entry-All P id es a.1 (rw miss at h)
]

pub set_entry_self :
    (id : ℕ) (e' : RegistryEntry) (es : List RegistryEntry) {e : RegistryEntry}
    → e'.request_id ≡ id
    → find_entry id es ≡ some e
    → find_entry id (set_entry id e' es) ≡ some e'
set_entry_self id e' [] k h = cc
set_entry_self id e' (x ∷ es) {e} k h = ground (arith, set_entry_self id e' es {e = e} k)

pub set_entry-other :
    (id r : ℕ) (e' : RegistryEntry) (es : List RegistryEntry)
    → e'.request_id ≡ id
    → r ≢ id
    → find_entry r (set_entry id e' es) ≡ find_entry r es
set_entry-other id r e' [] k h = refl
set_entry-other id r e' (x ∷ es) k h = ground (arith, set_entry-other id r e' es k h)

pub set_entry-All {κ} :
    (P : RegistryEntry → Type κ) (id : ℕ) (e' : RegistryEntry) (es : List RegistryEntry)
    → All P es
    → P e'
    → All P (set_entry id e' es)
set_entry-All P id e' [] a h = tt
set_entry-All P id e' (x ∷ es) a h = elim (Bool-cases (x.request_id == id)) [
  | inl hit ↦ rw hit (h, set_entry-All P id e' es a.1 h)
  | inr miss ↦ rw miss (a.0, set_entry-All P id e' es a.1 h)
]

pub remove_entry_self :
    (id : ℕ) (es : List RegistryEntry) → find_entry id (remove_entry id es) ≡ none
remove_entry_self id [] = refl
remove_entry_self id (x ∷ es) = ground (arith, remove_entry_self id es)

pub remove_entry-other :
    (id r : ℕ) (es : List RegistryEntry)
    → r ≢ id
    → find_entry r (remove_entry id es) ≡ find_entry r es
remove_entry-other id r [] h = refl
remove_entry-other id r (x ∷ es) h = ground (arith, remove_entry-other id r es h)

pub remove_entry-All {κ} :
    (P : RegistryEntry → Type κ) (id : ℕ) (es : List RegistryEntry)
    → All P es
    → All P (remove_entry id es)
remove_entry-All P id [] a = tt
remove_entry-All P id (x ∷ es) a = elim (Bool-cases (x.request_id == id)) [
  | inl hit ↦ rw hit (remove_entry-All P id es a.1)
  | inr miss ↦ rw miss (a.0, remove_entry-All P id es a.1)
]

-- A conversation that is let go is let go by this request, and by no other.
pub release_conversation-some :
    (id c r : ℕ) (s : RegistryState)
    → (release_conversation id s).active_conversations c ≡ some r
    → (s.active_conversations c ≡ some r) × (r ≢ id)
unfolding release_conversation
release_conversation-some id c r s h = elim (Option-cases (s.active_conversations c)) [
  | inl e ↦ ground (arith, e, h)
  | inr (r', e) ↦ ground (arith, e, h)
]

pub release_conversation-keeps :
    (id c r : ℕ) (s : RegistryState)
    → s.active_conversations c ≡ some r
    → r ≢ id
    → (release_conversation id s).active_conversations c ≡ some r
unfolding release_conversation
release_conversation-keeps id c r s h k = ground (arith, h)

pub release_conversation-none :
    (id c : ℕ) (s : RegistryState)
    → s.active_conversations c ≡ none
    → (release_conversation id s).active_conversations c ≡ none
unfolding release_conversation
release_conversation-none id c s h = ground (arith, h)
