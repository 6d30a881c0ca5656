-- ===== src/Learning/Promises.antt =====
-- What the registry of src-tauri/src/learning/registry.rs promises its callers.
use textbook_lens.Base.{
  ℕ, ◌+◌, ◌<◌, ◌≡◌, refl, ◌≢◌, inl, inr, Bool, true, false, not, none, ◌≤◌, ◌==◌, keep, drop,
  length, if◌then◌else◌, some, List, [], ◌∷◌, ◌++◌, map, arith, u32_max, sym, ◌∙◌, ap, some_cancel,
  Bool-cases, Option-cases, ok, err,
}
use textbook_lens.Errors.{database_error}
use textbook_lens.Learning.Panel.{
  LearningRequestStatus, LearningRequestEvent, LearningRequestEventPayload, payload_is_valid,
  LearningRequestSnapshot, snapshot_is_valid,
}
use textbook_lens.Learning.Entry.{
  RegistryEntry, Subscriber, stays, calls, retained, emit, snapshot, subscribe_entry,
}
use textbook_lens.Learning.Registry.{RegistryState, find_entry, gc_locked, snapshot_of}
use textbook_lens.Learning.Sound.{IsSound, UpToDate, snapshot_ok}
use textbook_lens.Learning.Events.{emit_lem, event_of}
use textbook_lens.Learning.Lookups.{find_entry-All}
use textbook_lens.Learning.Invariant.{Runs, gc_locked-Inv}
use textbook_lens.Learning.Histories.{Reach, Reach-Inv}

module _ (takes : ℕ → LearningRequestEvent → Bool) where
  -- In every reachable state a conversation in which a request runs has no other running request, is
  -- registered as that request's, and is not being deleted.
  pub one_request_per_conversation :
      {s : RegistryState} (r c : ℕ)
      → Reach takes s
      → Runs s.entries r c
      → (s.active_conversations c ≡ some r)
        × (s.deleting_conversations c ≡ false)
        × ((r' : ℕ) → Runs s.entries r' c → r' ≡ r)
  one_request_per_conversation {s} r c h k =
      let v = Reach-Inv takes h in
      let mine = v.registered c r k in
      (
        mine,
        elim (Bool-cases (s.deleting_conversations c)) [
          | inl yet ↦ (let gone = v.apart c yet in cc)
          | inr clear ↦ clear
        ],
        λ r' k'. some_cancel r' r (sym (v.registered c r' k') ∙ mine),
      )

  -- In every reachable state the snapshot of a request that is known passes its validation: a look at
  -- a request never returns a database error.
  pub snapshot_of-ne-database_error :
      {s : RegistryState} (id now : ℕ)
      → Reach takes s
      → (snapshot_of id now s).1 ≢ err database_error
  unfolding snapshot_of
  snapshot_of-ne-database_error {s} id now h =
      elim (Option-cases (find_entry id (gc_locked now s).entries)) [
        | inl e ↦ rw (e, snapshot_of) (λ q. cc)
        | inr (x, found) ↦
            rw (found, snapshot_of)
              (snapshot_ok x (
                find_entry-All IsSound id (gc_locked now s).entries
                  (gc_locked-Inv now s (Reach-Inv takes h)).sound found))
      ]

  -- In every reachable state a request that is completed had its database commit authorized, and one
  -- that is cancelled had not.
  pub outcome_agrees_lem :
      {s : RegistryState} (id : ℕ) (e : RegistryEntry)
      → Reach takes s
      → find_entry id s.entries ≡ some e
      → (e.status ≡ LearningRequestStatus.completed → e.commit_irrevocable ≡ true)
        × (e.status ≡ LearningRequestStatus.cancelled → e.commit_irrevocable ≡ false)
  outcome_agrees_lem {s} id e h found =
      let agrees = (find_entry-All IsSound id s.entries (Reach-Inv takes h).sound found).outcome in
      (λ q. ground (arith, agrees, q), λ q. ground (arith, agrees, q))

calls-all :
    (takes : ℕ → LearningRequestEvent → Bool) (event : LearningRequestEvent) (n : ℕ)
    (ks : List Subscriber)
    → n < event.seq
    → UpToDate n ks
    → calls takes event ks ≡ map (λ k. (k.id, event)) ks
calls-all takes event n [] lt u = refl
calls-all takes event n (k ∷ ks) lt u = ground (arith, calls-all takes event n ks)

retained-all :
    (takes : ℕ → LearningRequestEvent → Bool) (event : LearningRequestEvent) (n : ℕ)
    (ks : List Subscriber)
    → n < event.seq
    → UpToDate n ks
    → retained takes event ks
      ≡ map {A = Subscriber}
          (λ k. record k { after_seq = event.seq })
          (keep (λ k. takes k.id event) ks)
retained-all takes event n [] lt u = refl
retained-all takes event n (k ∷ ks) lt u = elim (Bool-cases (takes k.id event)) [
  | inl kept ↦ ground (arith, kept, retained-all takes event n ks)
  | inr lost ↦ ground (arith, lost, retained-all takes event n ks)
]

-- The snapshot of a request, field by field.
abbrev pub shown : RegistryEntry → LearningRequestSnapshot
shown e = record {
  request_id = e.request_id;
  conversation_id = e.conversation_id;
  status = e.status;
  text = e.text;
  usage = e.usage;
  safe_error = e.safe_error;
  last_seq = e.seq;
}

snapshot-shown : (e : RegistryEntry) → IsSound e → snapshot e ≡ ok (shown e)
unfolding snapshot snapshot_is_valid
snapshot-shown e v = ground arith

-- The subscribers other than one, in their order, without the oldest when they are sixteen.
abbrev pub others_of : ℕ → List Subscriber → List Subscriber
others_of subscriber ks =
    let others = keep (λ k. not (k.id == subscriber)) ks in
    if length others == 16 then drop 1 others else others

subscribe_entry-shown :
    (after subscriber : ℕ) (e : RegistryEntry)
    → IsSound e
    → after ≤ e.seq
    → e.terminal_at ≡ none
    → subscribe_entry after subscriber e
      ≡ stays
          (record e {
            subscribers =
                others_of subscriber e.subscribers
                ++ record { id = subscriber; after_seq = e.seq } ∷ [];
          })
          (ok (shown e))
unfolding subscribe_entry
subscribe_entry-shown after subscriber e v le running =
    rw (snapshot-shown e v, running) (ground arith)

-- In every reachable state, a known request hands its events on as follows. An event with a valid
-- payload, while the last number is below 2 ^ 32 - 1, is numbered one above the last and is handed to
-- each subscriber exactly once, in the order of the list of subscribers; the subscribers whose sinks
-- take it stay, in their order, and are noted as having it. Who subscribes while the request runs, and
-- names no later event than the last, is given the snapshot with the number of the last event, and
-- comes last in the list; the others stay, in their order, but for the first of them when they are
-- sixteen.
pub emit-all :
    (takes : ℕ → LearningRequestEvent → Bool) {s : RegistryState} (id : ℕ) (e : RegistryEntry)
    → Reach takes s
    → find_entry id s.entries ≡ some e
    → ((payload : LearningRequestEventPayload)
        → e.seq < u32_max
        → payload_is_valid payload ≡ true
        → let (e', r) = emit takes payload e in
          let event = event_of takes payload e in
          (r ≡ ok tt)
          × (e'.seq ≡ e.seq + 1)
          × (e'.sent ≡ map (λ k. (k.id, event)) e.subscribers ++ e.sent)
          × (e'.subscribers
              ≡ map {A = Subscriber}
                  (λ k. record k { after_seq = e.seq + 1 })
                  (keep (λ k. takes k.id event) e.subscribers)))
      × ((after subscriber : ℕ)
          → after ≤ e.seq
          → e.terminal_at ≡ none
          → subscribe_entry after subscriber e
            ≡ stays
                (record e {
                  subscribers =
                      others_of subscriber e.subscribers
                      ++ record { id = subscriber; after_seq = e.seq } ∷ [];
                })
                (ok (shown e)))
emit-all takes {s} id e h found =
    let v = find_entry-All IsSound id s.entries (Reach-Inv takes h).sound found in
    (
      λ payload lt valid. rw (emit_lem takes payload e valid lt) (
        refl,
        refl,
        ap (λ l. l ++ e.sent)
            (calls-all takes (event_of takes payload e) e.seq e.subscribers (omega arith)
              v.up_to_date),
        retained-all takes (event_of takes payload e) e.seq e.subscribers (omega arith)
            v.up_to_date,
      ),
      λ after subscriber le running. subscribe_entry-shown after subscriber e v le running,
    )
