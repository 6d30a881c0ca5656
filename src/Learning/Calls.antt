-- ===== src/Learning/Calls.antt =====
-- Each call of src-tauri/src/learning/registry.rs on one request keeps what holds of it.
use textbook_lens.Base.{
  ℕ, ◌+◌, ◌≤◌, ◌<◌, ◌≡◌, refl, inl, inr, Bool, true, false, not, ◌||◌, none, some, List, [], ◌∷◌,
  ◌++◌, arith, ltb, is_empty, is_some, u32_max, usize_max, saturating_add, byte_length, ok, err,
  Bool-cases,
}
use textbook_lens.Errors.{context_too_large}
use textbook_lens.Learning.Panel.{
  LearningRequestStatus, LearningUsage, LearningRequestEventPayload, LearningRequestEvent,
  streaming, max_learning_output_bytes, usage_is_valid, error_is_valid, payload_is_valid,
  text_delta, new_safe_error,
}
use textbook_lens.Learning.Entry.{
  RegistryEntry, stays, is_closed, emit, too_large, append_text, record_usage, complete, fail,
  cancel_request, begin_commit, authorize_database_commit,
}
use textbook_lens.Learning.Sound.{IsSound, Keeps}
use textbook_lens.Learning.Events.{retained-UpToDate, event_of, emit_lem, terminal_lem}

byte_length-append : (a b : List ℕ) → byte_length (a ++ b) ≡ byte_length a + byte_length b
byte_length-append [] b = omega arith
byte_length-append (x ∷ a) b = omega (arith, byte_length-append a b)

pub begin_commit-Keeps : (e : RegistryEntry) → IsSound e → Keeps e (begin_commit e)
unfolding begin_commit
begin_commit-Keeps e v = ground arith

pub authorize-Keeps : (e : RegistryEntry) → IsSound e → Keeps e (authorize_database_commit e)
unfolding authorize_database_commit
authorize-Keeps e v = ground arith

module _ (takes : ℕ → LearningRequestEvent → Bool) where
  pub cancel_request-Keeps :
      (now : ℕ) (e : RegistryEntry)
      → IsSound e
      → e.seq < u32_max
      → Keeps e (cancel_request takes now e)
  unfolding cancel_request payload_is_valid
  cancel_request-Keeps now e v lt =
      elim (Bool-cases (is_some e.terminal_at || e.commit_irrevocable)) [
        | inl h ↦ rw h (ground arith)
        | inr h ↦
            rw
              (
                h,
                terminal_lem takes LearningRequestStatus.cancelled none none
                    LearningRequestEventPayload.cancelled now (ok tt) (record e { cancel = true })
                    refl lt,
              )
              (ground arith)
      ]

  pub complete-Keeps :
      (conversation now : ℕ) (e : RegistryEntry)
      → IsSound e
      → e.seq < u32_max
      → Keeps e (complete takes conversation now e)
  unfolding complete payload_is_valid
  complete-Keeps conversation now e v lt =
      elim (Bool-cases
        (not e.commit_started || not e.commit_irrevocable || is_some e.terminal_at)) [
          | inl h ↦ rw h (ground arith)
          | inr h ↦
              rw
                (
                  h,
                  terminal_lem takes LearningRequestStatus.completed (some conversation) none
                      (LearningRequestEventPayload.completed conversation) now (ok tt) e refl lt,
                )
                (ground arith)
        ]

  pub fail-Keeps :
      (code : List ℕ) (now : ℕ) (e : RegistryEntry)
      → IsSound e
      → e.seq < u32_max
      → Keeps e (fail takes code now e)
  unfolding fail payload_is_valid new_safe_error
  fail-Keeps code now e v lt = elim (Bool-cases (is_some e.terminal_at)) [
    | inl h ↦ rw h (ground arith)
    | inr h ↦ elim (Bool-cases (error_is_valid (record { code = code }))) [
      | inl fine ↦
          rw
            (
              h,
              fine,
              terminal_lem takes LearningRequestStatus.failed none (some (record { code = code }))
                  (LearningRequestEventPayload.failed (record { code = code })) now (ok tt) e fine
                  lt,
            )
            (ground arith)
      | inr bad ↦ rw (h, bad) (ground arith)
    ]
  ]

  pub record_usage-Keeps :
      (u : LearningUsage) (e : RegistryEntry)
      → usage_is_valid u ≡ true
      → IsSound e
      → e.seq < u32_max
      → Keeps e (record_usage takes u e)
  unfolding record_usage payload_is_valid
  record_usage-Keeps u e valid v lt = ground (
    arith,
    emit_lem takes (LearningRequestEventPayload.usage u) (record e { usage = some u }),
    retained-UpToDate takes
        (event_of takes (LearningRequestEventPayload.usage u) (record e { usage = some u })) e.seq
        e.subscribers,
  )

  too_large_valid : error_is_valid (too_large takes) ≡ true
  unfolding error_is_valid
  too_large_valid = refl

  append_fits :
      (delta : List ℕ) (e : RegistryEntry)
      → is_empty delta ≡ false
      → IsSound e
      → e.seq < u32_max
      → (is_some e.terminal_at ≡ false) × (e.commit_started ≡ false)
      → byte_length e.text + byte_length delta ≤ max_learning_output_bytes
      → Keeps e (
          let o =
            emit takes
              (text_delta delta)
              (record e { status = streaming; text = e.text ++ delta }) in
          stays o.0 o.1)
  unfolding payload_is_valid
  append_fits delta e some_text v lt h fits = ground (
    arith,
    byte_length-append e.text delta,
    emit_lem takes (text_delta delta) (record e { status = streaming; text = e.text ++ delta }),
    retained-UpToDate takes
        (event_of takes (text_delta delta)
          (record e { status = streaming; text = e.text ++ delta }))
        e.seq e.subscribers,
  )

  delta_valid :
      (delta : List ℕ) (n : ℕ)
      → is_empty delta ≡ false
      → n + byte_length delta ≤ max_learning_output_bytes
      → payload_is_valid (text_delta delta) ≡ true
  unfolding payload_is_valid
  delta_valid delta n some_text fits = ground arith

  pub append_text-Keeps :
      (delta : List ℕ) (now : ℕ) (e : RegistryEntry)
      → is_empty delta ≡ false
      → IsSound e
      → e.seq < u32_max
      → Keeps e (append_text takes delta now e)
  unfolding append_text payload_is_valid error_is_valid
  append_text-Keeps delta now e some_text v lt =
      elim (Bool-cases (is_closed e || e.commit_started)) [
        | inl h ↦ rw h (ground arith)
        | inr h ↦
            elim (Bool-cases (
              ltb max_learning_output_bytes
                (saturating_add usize_max (byte_length e.text) (byte_length delta)))) [
                  | inl big ↦
                      rw
                        (
                          h,
                          big,
                          terminal_lem takes LearningRequestStatus.failed none
                              (some (too_large takes))
                              (LearningRequestEventPayload.failed (too_large takes)) now
                              (err context_too_large) (record e { cancel = true }) too_large_valid
                              lt,
                        )
                        (ground (arith, too_large_valid))
                  | inr fits ↦
                      rw
                        (
                          h,
                          fits,
                          delta_valid delta (byte_length e.text) some_text (ground (arith, fits)),
                        )
                        (append_fits delta e some_text v lt (ground (arith, h))
                          (ground (arith, fits)))
                ]
      ]
