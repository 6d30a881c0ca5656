-- ===== src/Learning/Events.antt =====
-- The events of a request in src-tauri/src/learning/registry.rs: what `emit` and `terminal` leave.
use textbook_lens.Base.{
  ℕ, ◌+◌, ◌<◌, ◌≡◌, Bool, true, false, Option, some, List, [], ◌∷◌, ◌++◌, arith, u32_max, Result,
  ok,
}
use textbook_lens.Errors.{AppErrorCode}
use textbook_lens.Learning.Panel.{
  LearningRequestStatus, SafeLearningError, LearningRequestEventPayload, LearningRequestEvent,
  payload_is_valid, new_event,
}
use textbook_lens.Learning.Entry.{RegistryEntry, Subscriber, ends, retained, calls, emit, terminal}
use textbook_lens.Learning.Sound.{UpToDate}

module _ (takes : ℕ → LearningRequestEvent → Bool) where
  pub retained-UpToDate :
      (event : LearningRequestEvent) (n : ℕ) (ks : List Subscriber)
      → n < event.seq
      → UpToDate n ks
      → UpToDate event.seq (retained takes event ks)
  retained-UpToDate event n [] lt u = tt
  retained-UpToDate event n (k ∷ ks) lt u = ground (arith, retained-UpToDate event n ks)

  -- The event of a payload, and the entry once it is sent.
  abbrev pub event_of : LearningRequestEventPayload → RegistryEntry → LearningRequestEvent
  event_of payload e = record { request_id = e.request_id; seq = e.seq + 1; event = payload }

  abbrev pub after_event : LearningRequestEventPayload → RegistryEntry → RegistryEntry
  after_event payload e = record e {
    seq = e.seq + 1;
    subscribers = retained takes (event_of payload e) e.subscribers;
    sent = calls takes (event_of payload e) e.subscribers ++ e.sent;
  }

  pub emit_lem :
      (payload : LearningRequestEventPayload) (e : RegistryEntry)
      → payload_is_valid payload ≡ true
      → e.seq < u32_max
      → emit takes payload e ≡ (after_event payload e, ok tt)
  unfolding emit new_event
  emit_lem payload e h lt = ground arith

  abbrev pub ended :
      LearningRequestStatus
      → Option ℕ
      → Option SafeLearningError
      → LearningRequestEventPayload
      → ℕ
      → RegistryEntry
      → RegistryEntry
  ended status conversation error payload now e = record (after_event payload e) {
    status = status;
    conversation_id = conversation;
    safe_error = error;
    terminal_at = some now;
    maintenance_permit = false;
    subscribers = [];
  }

  pub terminal_lem :
      {A : Type 0} (status : LearningRequestStatus) (conversation : Option ℕ)
      (error : Option SafeLearningError) (payload : LearningRequestEventPayload) (now : ℕ)
      (after : Result AppErrorCode A) (e : RegistryEntry)
      → payload_is_valid payload ≡ true
      → e.seq < u32_max
      → terminal takes status conversation error payload now after e
        ≡ ends (ended status conversation error payload now e) after
  unfolding terminal
  terminal_lem status conversation error payload now after e h lt = ground (
    arith,
    emit_lem payload (record e {
      status = status;
      conversation_id = conversation;
      safe_error = error;
      terminal_at = some now;
      maintenance_permit = false;
    }),
  )
