-- ===== src/Learning/Methods.antt =====
-- The methods of src-tauri/src/learning/registry.rs keep its invariant.
use textbook_lens.Base.{
  ℕ, ◌<◌, ◌≡◌, refl, inl, inr, Bool, true, false, ◌||◌, Option, none, some, List, arith, ◌==◌, All,
  is_empty, u32_max, Bool-cases, Option-cases, sym, subst,
}
use textbook_lens.Learning.Panel.{LearningRequestEvent, LearningUsage, usage_is_valid, new_usage}
use textbook_lens.Learning.Entry.{RegistryEntry, subscribe_entry, append_text, record_usage}
use textbook_lens.Learning.Registry.{
  RegistryState, empty_registry, find_entry, gc_locked, is_taken, subscribe, snapshot_of,
  begin_conversation_deletion, drop_deletion_guard, append_text_to, record_usage_of,
  release_maintenance_permit, cancel_token,
}
use textbook_lens.Learning.Sound.{IsSound}
use textbook_lens.Learning.Calls.{record_usage-Keeps, append_text-Keeps}
use textbook_lens.Learning.Subscribing.{subscribe_entry-Keeps}
use textbook_lens.Learning.Lookups.{find_entry-All}
use textbook_lens.Learning.Invariant.{Inv, on_entry-Inv, gc_locked-Inv, set_entry-Inv}

nothing_active : (r : ℕ) {P : Type 0} → ◌≡◌ {A = Option ℕ} none (some r) → P
nothing_active r h = cc

nothing_found : {e : RegistryEntry} {P : Type 0} → ◌≡◌ {A = Option RegistryEntry} none (some e) → P
nothing_found h = cc

new_usage-valid :
    (input output : Option ℕ) (u : LearningUsage)
    → new_usage input output ≡ some u
    → usage_is_valid u ≡ true
unfolding new_usage
new_usage-valid input output u h = ground arith

without_permit : (e : RegistryEntry) → IsSound e → IsSound (record e { maintenance_permit = false })
without_permit e v = ground arith

token_cancelled : (e : RegistryEntry) → IsSound e → IsSound (record e { cancel = true })
token_cancelled e v = ground arith

pub empty-Inv : Inv empty_registry
empty-Inv = record {
  backed = λ c r h. nothing_active r h;
  registered = λ c r k. nothing_found k.1;
  apart = λ c h. refl;
  sound = tt;
}

pub room_of :
    (id : ℕ) (s : RegistryState) {e : RegistryEntry}
    → find_entry id s.entries ≡ some e
    → All (λ e. e.seq < u32_max) s.entries
    → e.seq < u32_max
room_of id s found room = find_entry-All (λ e. e.seq < u32_max) id s.entries room found

module _ (takes : ℕ → LearningRequestEvent → Bool) where
  pub append_text_to-Inv :
      (id : ℕ) (delta : List ℕ) (now : ℕ) (s : RegistryState)
      → Inv s
      → All (λ e. e.seq < u32_max) s.entries
      → Inv (append_text_to takes id delta now s).0
  unfolding append_text_to
  append_text_to-Inv id delta now s v room = elim (Bool-cases (is_empty delta)) [
    | inl blank ↦ rw blank v
    | inr some_text ↦ rw some_text (
        on_entry-Inv id (append_text takes delta now) s
          (λ e found w. append_text-Keeps takes delta now e some_text w (room_of id s found room))
          v)
  ]

  pub record_usage_of-Inv :
      (id : ℕ) (input output : Option ℕ) (s : RegistryState)
      → Inv s
      → All (λ e. e.seq < u32_max) s.entries
      → Inv (record_usage_of takes id input output s).0
  unfolding record_usage_of
  record_usage_of-Inv id input output s v room = elim (Option-cases (new_usage input output)) [
    | inl e ↦ rw (e, record_usage_of) v
    | inr (u, e) ↦
        rw (e, record_usage_of)
          (on_entry-Inv id (record_usage takes u) s
            (λ k found w.
              record_usage-Keeps takes u k (new_usage-valid input output u e) w
                (room_of id s found room))
            v)
  ]

pub subscribe-Inv :
    (id after subscriber now : ℕ) (s : RegistryState)
    → Inv s
    → Inv (subscribe id after subscriber now s).0
unfolding subscribe
subscribe-Inv id after subscriber now s v =
    on_entry-Inv id (subscribe_entry after subscriber) (gc_locked now s)
      (λ e found w. subscribe_entry-Keeps after subscriber e w) (gc_locked-Inv now s v)

pub snapshot_of-Inv : (id now : ℕ) (s : RegistryState) → Inv s → Inv (snapshot_of id now s).0
unfolding snapshot_of
snapshot_of-Inv id now s v = elim (Option-cases (find_entry id (gc_locked now s).entries)) [
  | inl e ↦ rw (e, snapshot_of) (gc_locked-Inv now s v)
  | inr (x, e) ↦ rw (e, snapshot_of) (gc_locked-Inv now s v)
]

pub release_maintenance_permit-Inv :
    (id : ℕ) (s : RegistryState) → Inv s → Inv (release_maintenance_permit id s)
unfolding release_maintenance_permit
release_maintenance_permit-Inv id s v = elim (Option-cases (find_entry id s.entries)) [
  | inl e ↦ rw (e, release_maintenance_permit) v
  | inr (x, found) ↦
      rw (found, release_maintenance_permit)
        (set_entry-Inv id x (record x { maintenance_permit = false }) s found refl refl
          (without_permit x (find_entry-All IsSound id s.entries v.sound found)) refl v)
]

pub cancel_token-Inv : (id : ℕ) (s : RegistryState) → Inv s → Inv (cancel_token id s)
unfolding cancel_token
cancel_token-Inv id s v = elim (Option-cases (find_entry id s.entries)) [
  | inl e ↦ rw (e, cancel_token) v
  | inr (x, found) ↦
      rw (found, cancel_token)
        (set_entry-Inv id x (record x { cancel = true }) s found refl refl
          (token_cancelled x (find_entry-All IsSound id s.entries v.sound found)) refl v)
]

pub drop_deletion_guard-Inv : (c : ℕ) (s : RegistryState) → Inv s → Inv (drop_deletion_guard c s)
unfolding drop_deletion_guard
drop_deletion_guard-Inv c s v = record {
  backed = v.backed;
  registered = v.registered;
  apart = λ c' h. v.apart c' (ground (arith, h));
  sound = v.sound;
}

marked-Inv :
    (c : ℕ) (s : RegistryState)
    → is_taken (some c) s ≡ false
    → Inv s
    → Inv (record s { deleting_conversations = λ c'. c' == c || s.deleting_conversations c' })
marked-Inv c s open_now v = record {
  backed = v.backed;
  registered = v.registered;
  apart = λ c' h. elim (Bool-cases (c' == c)) [
    | inl hit ↦
        let same : c' ≡ c = ground arith in
        subst (λ k. s.active_conversations k ≡ none) (sym same) (ground (arith, open_now))
    | inr miss ↦ v.apart c' (rw miss at h)
  ];
  sound = v.sound;
}

pub begin_conversation_deletion-Inv :
    (c now : ℕ) (s : RegistryState) → Inv s → Inv (begin_conversation_deletion c now s).0
unfolding begin_conversation_deletion
begin_conversation_deletion-Inv c now s v =
    elim (Bool-cases (is_taken (some c) (gc_locked now s))) [
      | inl taken ↦ rw taken (gc_locked-Inv now s v)
      | inr vacant ↦ rw vacant (marked-Inv c (gc_locked now s) vacant (gc_locked-Inv now s v))
    ]
