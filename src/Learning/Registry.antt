-- ===== src/Learning/Registry.antt =====
-- The state of src-tauri/src/learning/registry.rs and its methods. Each takes the time that it reads as
-- nanoseconds; `unique_request_id` is an argument. The maps from conversations are functions, the map
-- of the entries a list of them with their keys.
use textbook_lens.Base.{
  ℕ, zero, suc, ◌+◌, ◌-◌, Bool, true, false, not, ◌&&◌, ◌||◌, Option, none, some, List, [], ◌∷◌,
  ltb, leb, ◌==◌, is_empty, if◌then◌else◌, length, is_some, Result, ok, err,
}
use textbook_lens.Errors.{AppErrorCode, request_conflict, invalid_input, not_found}
use textbook_lens.Learning.Panel.{LearningRequestEvent, LearningRequestSnapshot, new_usage}
use textbook_lens.Learning.Entry.{
  RegistryEntry, LearningPersistenceTarget, context_conversation_id, Stepped, stays, ends,
  new_entry, snapshot, subscribe_entry, append_text, record_usage,
}

pub record RegistryState : Type 0 where
  pub entries : List RegistryEntry
  pub active_conversations : ℕ → Option ℕ
  pub deleting_conversations : ℕ → Bool

abbrev pub learning_request_terminal_ttl : ℕ
learning_request_terminal_ttl = 600000000000

abbrev pub max_active_requests : ℕ
max_active_requests = 64

abbrev pub max_retained_terminal_requests : ℕ
max_retained_terminal_requests = 64

abbrev pub empty_registry : RegistryState
empty_registry = record {
  entries = [];
  active_conversations = λ _. none;
  deleting_conversations = λ _. false;
}

-- `entries.get`
abbrev pub find_entry : ℕ → List RegistryEntry → Option RegistryEntry
find_entry id [] = none
find_entry id (e ∷ es) = let rest = find_entry id es in if e.request_id == id then some e else rest

-- The entry behind `get_mut`, changed.
abbrev pub set_entry : ℕ → RegistryEntry → List RegistryEntry → List RegistryEntry
set_entry id e' [] = []
set_entry id e' (e ∷ es) = (if e.request_id == id then e' else e) ∷ set_entry id e' es

-- `entries.remove`
abbrev pub remove_entry : ℕ → List RegistryEntry → List RegistryEntry
remove_entry id [] = []
remove_entry id (e ∷ es) =
    let rest = remove_entry id es in if e.request_id == id then rest else e ∷ rest

abbrev pub is_request : Option ℕ → ℕ → Bool
is_request none id = false
is_request (some r) id = r == id

-- `release_conversation`
unfoldable pub release_conversation : ℕ → RegistryState → RegistryState
release_conversation id s = record s {
  active_conversations =
      λ c. if is_request (s.active_conversations c) id then none else s.active_conversations c;
}

-- An entry is removed, and its conversation let go.
unfoldable pub forget : ℕ → RegistryState → RegistryState
unfolding release_conversation
forget id s = release_conversation id (record s { entries = remove_entry id s.entries })

abbrev pub has_expired : ℕ → Option ℕ → Bool
has_expired now none = false
has_expired now (some at) = leb at now && leb learning_request_terminal_ttl (now - at)

abbrev pub expired : ℕ → List RegistryEntry → List ℕ
expired now [] = []
expired now (e ∷ es) =
    let rest = expired now es in if has_expired now e.terminal_at then e.request_id ∷ rest else rest

abbrev pub forget_each : List ℕ → RegistryState → RegistryState
forget_each [] s = s
forget_each (id ∷ ids) s = forget_each ids (forget id s)

-- `gc_locked`
unfoldable pub gc_locked : ℕ → RegistryState → RegistryState
gc_locked now s = forget_each (expired now s.entries) s

abbrev pub terminal_count : List RegistryEntry → ℕ
terminal_count [] = 0
terminal_count (e ∷ es) = (if is_some e.terminal_at then 1 else 0) + terminal_count es

-- The count of `create_at`.
abbrev pub active_count : List RegistryEntry → ℕ
active_count [] = 0
active_count (e ∷ es) = (if is_some e.terminal_at then 0 else 1) + active_count es

-- The order of the keys `(terminal_at, request_id)`.
abbrev pub is_before : ℕ × ℕ → ℕ × ℕ → Bool
is_before (at, id) (at', id') = ltb at at' || at == at' && ltb id id'

abbrev pub earlier : Option ℕ → ℕ → Option (ℕ × ℕ) → Option (ℕ × ℕ)
earlier none id best = best
earlier (some at) id none = some (at, id)
earlier (some at) id (some k) = if is_before k (at, id) then some k else some (at, id)

-- `min_by_key` over the entries that have ended.
abbrev pub oldest : List RegistryEntry → Option (ℕ × ℕ)
oldest [] = none
oldest (e ∷ es) = earlier e.terminal_at e.request_id (oldest es)

-- The loop of `trim_terminal_entries`, which removes an entry in each turn.
unfoldable pub trim_from : ℕ → RegistryState → RegistryState
trim_from zero s = s
trim_from (suc fuel) s =
    let next : RegistryState = elim (oldest s.entries) [
      | none ↦ s
      | some (at, id) ↦ trim_from fuel (forget id s)
    ] in
    if leb (terminal_count s.entries) max_retained_terminal_requests then s else next

unfoldable pub trim_terminal_entries : RegistryState → RegistryState
trim_terminal_entries s = trim_from (length s.entries) s

-- A call on the entry of a request.
unfoldable pub store :
    {A : Type 0} → ℕ → RegistryState → Stepped A → RegistryState × Result AppErrorCode A
store id s (stays e r) = (record s { entries = set_entry id e s.entries }, r)
store id s (ends e r) = (
  trim_terminal_entries (release_conversation id (record s { entries = set_entry id e s.entries })),
  r,
)

unfoldable pub on_entry :
    {A : Type 0}
    → ℕ
    → (RegistryEntry → Stepped A)
    → RegistryState
    → RegistryState × Result AppErrorCode A
on_entry id step s = elim (find_entry id s.entries) [
  | none ↦ (s, err not_found)
  | some e ↦ store id s (step e)
]

-- Whether a conversation has a request that runs, or is being deleted.
abbrev pub is_taken : Option ℕ → RegistryState → Bool
is_taken none s = false
is_taken (some c) s = is_some (s.active_conversations c) || s.deleting_conversations c

abbrev pub activate : Option ℕ → ℕ → RegistryState → RegistryState
activate none id s = s
activate (some c) id s = record s {
  active_conversations = λ c'. if c' == c then some id else s.active_conversations c';
}

abbrev pub admit :
    RegistryEntry
    → RegistryState
    → Result AppErrorCode LearningRequestSnapshot
    → RegistryState × Result AppErrorCode LearningRequestSnapshot
admit e s (err x) = (s, err x)
admit e s (ok snap) = (record s { entries = e ∷ s.entries }, ok snap)

-- `create_at`, which `create` calls with a permit of the gate.
unfoldable pub create_at :
    ℕ
    → LearningPersistenceTarget
    → ℕ
    → RegistryState
    → RegistryState × Result AppErrorCode LearningRequestSnapshot
create_at id target now s0 =
    let s = gc_locked now s0 in
    let conversation = context_conversation_id target in
    if leb max_active_requests (active_count s.entries) || is_taken conversation s
    then (s, err request_conflict)
    else admit (new_entry id target) (activate conversation id s) (snapshot (new_entry id target))

unfoldable pub subscribe :
    ℕ → ℕ → ℕ → ℕ → RegistryState → RegistryState × Result AppErrorCode LearningRequestSnapshot
subscribe id after_seq subscriber now s =
    on_entry id (subscribe_entry after_seq subscriber) (gc_locked now s)

unfoldable pub snapshot_of :
    ℕ → ℕ → RegistryState → RegistryState × Result AppErrorCode LearningRequestSnapshot
snapshot_of id now s0 =
    let s = gc_locked now s0 in
    elim (find_entry id s.entries) [ none ↦ (s, err not_found) | some e ↦ (s, snapshot e) ]

unfoldable pub begin_conversation_deletion :
    ℕ → ℕ → RegistryState → RegistryState × Result AppErrorCode (Unit {0})
begin_conversation_deletion c now s0 =
    let s = gc_locked now s0 in
    if is_taken (some c) s
    then (s, err request_conflict)
    else (record s { deleting_conversations = λ c'. c' == c || s.deleting_conversations c' }, ok tt)

-- `Drop for ConversationDeletionGuard`
unfoldable pub drop_deletion_guard : ℕ → RegistryState → RegistryState
drop_deletion_guard c s = record s {
  deleting_conversations = λ c'. not (c' == c) && s.deleting_conversations c';
}

unfoldable pub append_text_to :
    (ℕ → LearningRequestEvent → Bool)
    → ℕ
    → List ℕ
    → ℕ
    → RegistryState
    → RegistryState × Result AppErrorCode (Unit {0})
append_text_to takes id delta now s =
    if is_empty delta then (s, err invalid_input) else on_entry id (append_text takes delta now) s

unfoldable pub record_usage_of :
    (ℕ → LearningRequestEvent → Bool)
    → ℕ
    → Option ℕ
    → Option ℕ
    → RegistryState
    → RegistryState × Result AppErrorCode (Unit {0})
record_usage_of takes id input output s = elim (new_usage input output) [
  | none ↦ (s, err invalid_input)
  | some u ↦ on_entry id (record_usage takes u) s
]

-- `release_maintenance_permit`, and a cancellation by somebody who holds the token.
unfoldable pub release_maintenance_permit : ℕ → RegistryState → RegistryState
release_maintenance_permit id s = elim (find_entry id s.entries) [
  | none ↦ s
  | some e ↦ record s { entries = set_entry id (record e { maintenance_permit = false }) s.entries }
]

unfoldable pub cancel_token : ℕ → RegistryState → RegistryState
cancel_token id s = elim (find_entry id s.entries) [
  | none ↦ s
  | some e ↦ record s { entries = set_entry id (record e { cancel = true }) s.entries }
]

unfoldable pub shutdown : RegistryState → RegistryState
shutdown s = empty_registry
