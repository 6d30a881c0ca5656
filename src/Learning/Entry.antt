-- ===== src/Learning/Entry.antt =====
-- One request of src-tauri/src/learning/registry.rs, and what each call does to it. The sinks of the
-- subscribers are a parameter, `takes`: whether a subscriber's sink accepts an event. `sent` has the
-- calls of the sinks, those of the newest event in front. Zeroing of memory is left out, and of a
-- request's context what only the answer's text needs.
use textbook_lens.Base.{
  ℕ, Bool, true, false, not, ◌||◌, Option, none, some, List, [], ◌∷◌, ◌++◌, ltb, leb, ◌==◌,
  if◌then◌else◌, all, keep, drop, length, u32_max, usize_max, checked_add, saturating_add, is_some,
  is_white_space, byte_length, Result, ok, err,
}
use textbook_lens.Errors.{
  AppErrorCode, request_conflict, invalid_input, context_too_large, provider_unavailable,
  database_error,
}
use textbook_lens.Learning.Panel.{
  LearningRequestStatus, LearningUsage, SafeLearningError, LearningRequestEventPayload,
  LearningRequestEvent, LearningRequestSnapshot, max_learning_output_bytes, new_safe_error,
  snapshot_is_valid, payload_is_valid, new_event, streaming, text_delta,
}

-- What a finished answer is stored as.
pub data LearningPersistenceTarget : Type 0 where
  new_selection : (book_id section_id : ℕ) → LearningPersistenceTarget
  selection_followup : (book_id conversation_id next_ordinal : ℕ) → LearningPersistenceTarget
  new_book_question : (book_id : ℕ) → LearningPersistenceTarget
  book_followup : (book_id conversation_id next_ordinal : ℕ) → LearningPersistenceTarget

-- `LearningRequestContext::conversation_id`
unfoldable pub context_conversation_id : LearningPersistenceTarget → Option ℕ
context_conversation_id (new_selection book section) = none
context_conversation_id (selection_followup book conversation next) = some conversation
context_conversation_id (new_book_question book) = none
context_conversation_id (book_followup book conversation next) = some conversation

pub record Subscriber : Type 0 where
  pub id : ℕ
  pub after_seq : ℕ

-- `maintenance_permit` says whether the entry holds its share of the permit.
pub record RegistryEntry : Type 0 where
  pub request_id : ℕ
  pub target : LearningPersistenceTarget
  pub cancel : Bool
  pub status : LearningRequestStatus
  pub text : List ℕ
  pub usage : Option LearningUsage
  pub safe_error : Option SafeLearningError
  pub conversation_id : Option ℕ
  pub seq : ℕ
  pub terminal_at : Option ℕ
  pub commit_started : Bool
  pub commit_irrevocable : Bool
  pub subscribers : List Subscriber
  pub maintenance_permit : Bool
  pub sent : List (ℕ × LearningRequestEvent)

abbrev pub max_subscribers_per_request : ℕ
max_subscribers_per_request = 16

-- What a call leaves of the entry. After `ends` the registry lets go of the conversation.
pub data Stepped (A : Type 0) : Type 0 where
  stays ends : RegistryEntry → Result AppErrorCode A → Stepped A

abbrev pub new_entry : ℕ → LearningPersistenceTarget → RegistryEntry
new_entry id target = record {
  request_id = id;
  target = target;
  cancel = false;
  status = LearningRequestStatus.preparing;
  text = [];
  usage = none;
  safe_error = none;
  conversation_id = none;
  seq = 1;
  terminal_at = none;
  commit_started = false;
  commit_irrevocable = false;
  subscribers = [];
  maintenance_permit = true;
  sent = [];
}

-- `snapshot`
unfoldable pub snapshot : RegistryEntry → Result AppErrorCode LearningRequestSnapshot
snapshot e =
    let s : LearningRequestSnapshot = record {
      request_id = e.request_id;
      conversation_id = e.conversation_id;
      status = e.status;
      text = e.text;
      usage = e.usage;
      safe_error = e.safe_error;
      last_seq = e.seq;
    } in
    if snapshot_is_valid s then ok s else err database_error

-- The guard of `entry_for_event`.
abbrev pub is_closed : RegistryEntry → Bool
is_closed e = is_some e.terminal_at || e.cancel

-- The subscriber part of `subscribe`, once the request is found.
unfoldable pub subscribe_entry : ℕ → ℕ → RegistryEntry → Stepped LearningRequestSnapshot
unfolding snapshot
subscribe_entry after_seq subscriber e =
    if ltb e.seq after_seq then stays e (err invalid_input) else elim (snapshot e) [
      | err x ↦ stays e (err x)
      | ok s ↦
          if is_some e.terminal_at
          then stays e (ok s)
          else let others = keep (λ k. not (k.id == subscriber)) e.subscribers in
            let room =
              (if length others == max_subscribers_per_request then drop 1 others else others) in
            stays
              (record e {
                subscribers = room ++ record { id = subscriber; after_seq = s.last_seq } ∷ [];
              })
              (ok s)
    ]

module _ (takes : ℕ → LearningRequestEvent → Bool) where
  -- `retain_mut` of `emit`: who stays subscribed.
  abbrev pub retained : LearningRequestEvent → List Subscriber → List Subscriber
  retained event [] = []
  retained event (k ∷ ks) =
      let rest = retained event ks in
      if leb event.seq k.after_seq
      then k ∷ rest
      else if takes k.id event
      then record k { after_seq = event.seq } ∷ rest
      else rest

  -- The calls of the sinks.
  abbrev pub calls : LearningRequestEvent → List Subscriber → List (ℕ × LearningRequestEvent)
  calls event [] = []
  calls event (k ∷ ks) =
      let rest = calls event ks in if leb event.seq k.after_seq then rest else (k.id, event) ∷ rest

  unfoldable pub emit :
      LearningRequestEventPayload → RegistryEntry → RegistryEntry × Result AppErrorCode (Unit {0})
  emit payload e = elim (checked_add u32_max e.seq 1) [
    | none ↦ (e, err request_conflict)
    | some seq ↦ elim (new_event e.request_id seq payload) [
      | none ↦ (record e { seq = seq }, err invalid_input)
      | some event ↦ (
        record e {
          seq = seq;
          subscribers = retained event e.subscribers;
          sent = calls event e.subscribers ++ e.sent;
        },
        ok tt,
      )
    ]
  ]

  -- `terminal`, with what its caller returns after it.
  unfoldable pub terminal :
      {A : Type 0}
      → LearningRequestStatus
      → Option ℕ
      → Option SafeLearningError
      → LearningRequestEventPayload
      → ℕ
      → Result AppErrorCode A
      → RegistryEntry
      → Stepped A
  terminal status conversation error payload now after e =
      let (e', sent) = emit payload (record e {
        status = status;
        conversation_id = conversation;
        safe_error = error;
        terminal_at = some now;
        maintenance_permit = false;
      }) in
      elim sent [ err x ↦ stays e' (err x) | ok _ ↦ ends (record e' { subscribers = [] }) after ]

  abbrev emitted : RegistryEntry × Result AppErrorCode (Unit {0}) → Stepped (Unit {0})
  emitted (e, r) = stays e r

  -- The code text of `safe_error(AppErrorCode::ContextTooLarge)`.
  abbrev pub too_large : SafeLearningError
  too_large = record {
    code =
        b'C' ∷ b'O' ∷ b'N' ∷ b'T' ∷ b'E' ∷ b'X' ∷ b'T' ∷ b'_' ∷ b'T' ∷ b'O' ∷ b'O' ∷ b'_' ∷ b'L'
        ∷ b'A' ∷ b'R' ∷ b'G' ∷ b'E' ∷ [];
  }

  unfoldable pub append_text : List ℕ → ℕ → RegistryEntry → Stepped (Unit {0})
  append_text delta now e =
      if is_closed e || e.commit_started
      then stays e (err request_conflict)
      else if ltb max_learning_output_bytes
          (saturating_add usize_max (byte_length e.text) (byte_length delta))
      then terminal LearningRequestStatus.failed none (some too_large)
          (LearningRequestEventPayload.failed too_large) now (err context_too_large)
          (record e { cancel = true })
      else if payload_is_valid (text_delta delta)
      then emitted
          (emit (text_delta delta) (record e { status = streaming; text = e.text ++ delta }))
      else stays (record e { status = streaming; text = e.text ++ delta }) (err invalid_input)

  unfoldable pub record_usage : LearningUsage → RegistryEntry → Stepped (Unit {0})
  record_usage u e =
      if is_closed e || e.commit_started
      then stays e (err request_conflict)
      else emitted (emit (LearningRequestEventPayload.usage u) (record e { usage = some u }))

  unfoldable pub complete : ℕ → ℕ → RegistryEntry → Stepped (Unit {0})
  complete conversation now e =
      if not e.commit_started || not e.commit_irrevocable || is_some e.terminal_at
      then stays e (err request_conflict)
      else terminal LearningRequestStatus.completed (some conversation) none
          (LearningRequestEventPayload.completed conversation) now (ok tt) e

  -- The code of the error is a text.
  unfoldable pub fail : List ℕ → ℕ → RegistryEntry → Stepped (Unit {0})
  fail code now e = if is_some e.terminal_at then stays e (ok tt) else elim (new_safe_error code) [
    | none ↦ stays e (err database_error)
    | some safe_error ↦
        terminal LearningRequestStatus.failed none (some safe_error)
          (LearningRequestEventPayload.failed safe_error) now (ok tt) e
  ]

  unfoldable pub cancel_request : ℕ → RegistryEntry → Stepped (Unit {0})
  cancel_request now e =
      if is_some e.terminal_at || e.commit_irrevocable
      then stays e (ok tt)
      else terminal LearningRequestStatus.cancelled none none LearningRequestEventPayload.cancelled
          now (ok tt) (record e { cancel = true })

abbrev is_streaming : LearningRequestStatus → Bool
is_streaming streaming = true
is_streaming _ = false

unfoldable pub begin_commit : RegistryEntry → Stepped Bool
begin_commit e =
    if is_closed e
    then stays e (ok false)
    else if e.commit_started || not (is_streaming e.status)
    then stays e (err request_conflict)
    else if all is_white_space e.text
    then stays e (err provider_unavailable)
    else stays (record e { commit_started = true }) (ok true)

unfoldable pub authorize_database_commit : RegistryEntry → Stepped Bool
authorize_database_commit e =
    if is_closed e
    then stays e (ok false)
    else if not e.commit_started || e.commit_irrevocable
    then stays e (err request_conflict)
    else stays (record e { commit_irrevocable = true }) (ok true)
