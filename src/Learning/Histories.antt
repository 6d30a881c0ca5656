-- ===== src/Learning/Histories.antt =====
-- Histories of the registry of src-tauri/src/learning/registry.rs: its calls in any order, by any number
-- of tasks, since each holds the lock from its first line to its last.
use textbook_lens.Base.{ℕ, ◌<◌, ◌≡◌, Bool, Option, none, List, All, u32_max}
use textbook_lens.Learning.Panel.{LearningRequestEvent}
use textbook_lens.Learning.Entry.{
  LearningPersistenceTarget, complete, fail, cancel_request, begin_commit,
  authorize_database_commit,
}
use textbook_lens.Learning.Registry.{
  RegistryState, empty_registry, find_entry, gc_locked, on_entry, create_at, subscribe, snapshot_of,
  begin_conversation_deletion, drop_deletion_guard, append_text_to, record_usage_of,
  release_maintenance_permit, cancel_token, shutdown,
}
use textbook_lens.Learning.Calls.{
  begin_commit-Keeps, authorize-Keeps, cancel_request-Keeps, complete-Keeps, fail-Keeps,
}
use textbook_lens.Learning.Invariant.{Inv, on_entry-Inv}
use textbook_lens.Learning.Methods.{
  empty-Inv, room_of, append_text_to-Inv, record_usage_of-Inv, subscribe-Inv, snapshot_of-Inv,
  release_maintenance_permit-Inv, cancel_token-Inv, drop_deletion_guard-Inv,
  begin_conversation_deletion-Inv,
}
use textbook_lens.Learning.Creation.{create_at-Inv}

-- A call, with its request or conversation first and the time last.
pub data Call : Type 0 where
  creates : ℕ → LearningPersistenceTarget → ℕ → Call
  subscribes : (request after_seq subscriber now : ℕ) → Call
  looks : ℕ → ℕ → Call
  appends : ℕ → List ℕ → ℕ → Call
  counts : ℕ → Option ℕ → Option ℕ → Call
  begins_commit authorizes releases cancels_token drops_guard : ℕ → Call
  completes : (request conversation now : ℕ) → Call
  fails : ℕ → List ℕ → ℕ → Call
  cancels begins_deletion : ℕ → ℕ → Call
  shuts_down : Call

module _ (takes : ℕ → LearningRequestEvent → Bool) where
  unfoldable pub apply : Call → RegistryState → RegistryState
  apply (creates id target now) s = (create_at id target now s).0
  apply (subscribes id after subscriber now) s = (subscribe id after subscriber now s).0
  apply (looks id now) s = (snapshot_of id now s).0
  apply (appends id delta now) s = (append_text_to takes id delta now s).0
  apply (counts id input output) s = (record_usage_of takes id input output s).0
  apply (begins_commit id) s = (on_entry id begin_commit s).0
  apply (authorizes id) s = (on_entry id authorize_database_commit s).0
  apply (releases id) s = release_maintenance_permit id s
  apply (cancels_token id) s = cancel_token id s
  apply (drops_guard c) s = drop_deletion_guard c s
  apply (completes id conversation now) s = (on_entry id (complete takes conversation now) s).0
  apply (fails id code now) s = (on_entry id (fail takes code now) s).0
  apply (cancels id now) s = (on_entry id (cancel_request takes now) s).0
  apply (begins_deletion c now) s = (begin_conversation_deletion c now s).0
  apply shuts_down s = shutdown s

  -- The key that `unique_request_id` draws is free, and no request has sent 2 ^ 32 - 1 events.
  abbrev pub HasRoom : RegistryState → Type 0
  HasRoom s = All (λ e. e.seq < u32_max) s.entries

  abbrev pub IsFresh : Call → RegistryState → Type 0
  IsFresh (creates id target now) s = find_entry id (gc_locked now s).entries ≡ none
  IsFresh _ s = Unit

  pub data Reach : RegistryState → Type 0 where
    initial : Reach empty_registry
    later : {s : RegistryState} (c : Call) → Reach s → HasRoom s → IsFresh c s → Reach (apply c s)

  apply-Inv : (c : Call) (s : RegistryState) → Inv s → HasRoom s → IsFresh c s → Inv (apply c s)
  unfolding apply
  apply-Inv (begins_commit id) s v room new =
      on_entry-Inv id begin_commit s (λ e found w. begin_commit-Keeps e w) v
  apply-Inv (authorizes id) s v room new =
      on_entry-Inv id authorize_database_commit s (λ e found w. authorize-Keeps e w) v
  apply-Inv (completes id conversation now) s v room new =
      on_entry-Inv id (complete takes conversation now) s
        (λ e found w. complete-Keeps takes conversation now e w (room_of id s found room)) v
  apply-Inv (fails id code now) s v room new =
      on_entry-Inv id (fail takes code now) s
        (λ e found w. fail-Keeps takes code now e w (room_of id s found room)) v
  apply-Inv (cancels id now) s v room new =
      on_entry-Inv id (cancel_request takes now) s
        (λ e found w. cancel_request-Keeps takes now e w (room_of id s found room)) v
  apply-Inv (appends id delta now) s v room new = append_text_to-Inv takes id delta now s v room
  apply-Inv (counts id input output) s v room new =
      record_usage_of-Inv takes id input output s v room
  apply-Inv (subscribes id after subscriber now) s v room new =
      subscribe-Inv id after subscriber now s v
  apply-Inv (looks id now) s v room new = snapshot_of-Inv id now s v
  apply-Inv (creates id target now) s v room new = create_at-Inv id target now s v new
  apply-Inv (releases id) s v room new = release_maintenance_permit-Inv id s v
  apply-Inv (cancels_token id) s v room new = cancel_token-Inv id s v
  apply-Inv (drops_guard c) s v room new = drop_deletion_guard-Inv c s v
  apply-Inv (begins_deletion c now) s v room new = begin_conversation_deletion-Inv c now s v
  apply-Inv shuts_down s v room new = unfold shutdown in empty-Inv

  pub Reach-Inv : {s : RegistryState} → Reach s → Inv s
  Reach-Inv initial = empty-Inv
  Reach-Inv (later {s} c r room new) = apply-Inv c s (Reach-Inv r) room new
