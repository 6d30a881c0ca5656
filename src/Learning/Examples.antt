-- ===== src/Learning/Examples.antt =====
-- Runs of the request registry: a followup question in conversation 4, which is answered.
use textbook_lens.Base.{
  ℕ, ◌≤◌, ◌<◌, ◌+◌, ◌++◌, ◌≡◌, ◌≢◌, refl, Bool, true, false, none, some, [], ◌∷◌, map, keep,
  u32_max, arith, ok, err,
}
use textbook_lens.Errors.{database_error}
use textbook_lens.Learning.Panel.{
  LearningRequestStatus, LearningRequestEvent, LearningRequestEventPayload, payload_is_valid,
  new_event, snapshot_is_valid,
}
use textbook_lens.Learning.Entry.{
  RegistryEntry, Subscriber, stays, new_entry, selection_followup, snapshot, emit, subscribe_entry,
  context_conversation_id, append_text, complete, begin_commit, authorize_database_commit, terminal,
}
use textbook_lens.Learning.Registry.{
  RegistryState, empty_registry, find_entry, gc_locked, create_at, subscribe, append_text_to,
  on_entry, store, snapshot_of, terminal_count, trim_terminal_entries, trim_from,
  release_conversation, forget, max_retained_terminal_requests,
}
use textbook_lens.Learning.Events.{event_of}
use textbook_lens.Learning.Invariant.{Runs}
use textbook_lens.Learning.Histories.{
  creates, subscribes, appends, begins_commit, authorizes, completes, apply, Reach, initial, later,
}
use textbook_lens.Learning.Promises.{
  one_request_per_conversation, snapshot_of-ne-database_error, outcome_agrees_lem, emit-all, shown,
  others_of,
}
use textbook_lens.Learning.Retention.{trim_terminal_entries-le}

abbrev takes_all : ℕ → LearningRequestEvent → Bool
takes_all subscriber event = true

abbrev asked : RegistryState
asked = apply takes_all (creates 7 (selection_followup 1 4 2) 0) empty_registry

abbrev watched : RegistryState
watched = apply takes_all (subscribes 7 1 30 5) asked

abbrev answered : RegistryState
answered = apply takes_all (appends 7 (b'H' ∷ b'i' ∷ []) 6) watched

abbrev authorized : RegistryState
authorized = apply takes_all (authorizes 7) (apply takes_all (begins_commit 7) answered)

abbrev finished : RegistryState
finished = apply takes_all (completes 7 4 9) authorized

-- All methods of the registry, for runs.
runs : ℕ
unfolding apply create_at subscribe append_text_to on_entry store gc_locked snapshot_of snapshot
    snapshot_is_valid append_text complete begin_commit authorize_database_commit terminal emit
    new_event payload_is_valid trim_terminal_entries trim_from release_conversation forget
    context_conversation_id subscribe_entry
runs = 0

look_after :
    (snapshot_of 7 10 finished).1
    ≡ ok (record {
      request_id = 7;
      conversation_id = some 4;
      status = LearningRequestStatus.completed;
      text = b'H' ∷ b'i' ∷ [];
      usage = none;
      safe_error = none;
      last_seq = 3;
    })
unfolding runs
look_after = refl

asked-Reach : Reach takes_all asked
unfolding runs
asked-Reach = later (creates 7 (selection_followup 1 4 2) 0) initial tt refl

watched-Reach : Reach takes_all watched
unfolding runs
watched-Reach = later (subscribes 7 1 30 5) asked-Reach (omega arith, tt) tt

answered-Reach : Reach takes_all answered
unfolding runs
answered-Reach = later (appends 7 (b'H' ∷ b'i' ∷ []) 6) watched-Reach (omega arith, tt) tt

authorized-Reach : Reach takes_all authorized
unfolding runs
authorized-Reach =
    later (authorizes 7) (later (begins_commit 7) answered-Reach (omega arith, tt) tt)
      (omega arith, tt) tt

finished-Reach : Reach takes_all finished
unfolding runs
finished-Reach = later (completes 7 4 9) authorized-Reach (omega arith, tt) tt

one_request_per_conversation_example :
    (answered.active_conversations 4 ≡ some 7)
    × (answered.deleting_conversations 4 ≡ false)
    × ((r : ℕ) → Runs answered.entries r 4 → r ≡ 7)
unfolding runs
one_request_per_conversation_example =
    one_request_per_conversation takes_all 7 4 answered-Reach (_, refl, refl, refl)

snapshot_of-ne-database_error_example : (snapshot_of 7 10 finished).1 ≢ err database_error
snapshot_of-ne-database_error_example = snapshot_of-ne-database_error takes_all 7 10 finished-Reach

-- Request 7, as the entries have it.
abbrev request_7 : RegistryState → RegistryEntry
request_7 s = elim (find_entry 7 s.entries) [
  | none ↦ new_entry 7 (selection_followup 1 4 2)
  | some e ↦ e
]

outcome_agrees_lem_example :
    ((request_7 finished).status ≡ LearningRequestStatus.completed
      → (request_7 finished).commit_irrevocable ≡ true)
    × ((request_7 finished).status ≡ LearningRequestStatus.cancelled
        → (request_7 finished).commit_irrevocable ≡ false)
unfolding runs
outcome_agrees_lem_example = outcome_agrees_lem takes_all 7 (request_7 finished) finished-Reach refl

emit-all_example :
    ((payload : LearningRequestEventPayload)
      → (request_7 answered).seq < u32_max
      → payload_is_valid payload ≡ true
      → let (e', r) = emit takes_all payload (request_7 answered) in
        let event = event_of takes_all payload (request_7 answered) in
        (r ≡ ok tt)
        × (e'.seq ≡ (request_7 answered).seq + 1)
        × (e'.sent
            ≡ map (λ k. (k.id, event)) (request_7 answered).subscribers
              ++ (request_7 answered).sent)
        × (e'.subscribers
            ≡ map {A = Subscriber}
                (λ k. record k { after_seq = (request_7 answered).seq + 1 })
                (keep (λ k. takes_all k.id event) (request_7 answered).subscribers)))
    × ((after subscriber : ℕ)
        → after ≤ (request_7 answered).seq
        → (request_7 answered).terminal_at ≡ none
        → subscribe_entry after subscriber (request_7 answered)
          ≡ stays
              (record (request_7 answered) {
                subscribers =
                    others_of subscriber (request_7 answered).subscribers
                    ++ record { id = subscriber; after_seq = (request_7 answered).seq } ∷ [];
              })
              (ok (shown (request_7 answered))))
unfolding runs
emit-all_example = emit-all takes_all 7 (request_7 answered) answered-Reach refl

trim_terminal_entries-le_example :
    terminal_count (trim_terminal_entries finished).entries ≤ max_retained_terminal_requests
trim_terminal_entries-le_example = trim_terminal_entries-le finished
