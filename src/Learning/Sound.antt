-- ===== src/Learning/Sound.antt =====
-- What holds of each request in src-tauri/src/learning/registry.rs.
use textbook_lens.Base.{
  ℕ, ◌≤◌, ◌≡◌, ◌≢◌, Bool, true, false, not, List, [], arith, all, All, is_some, is_white_space,
  byte_length, err,
}
use textbook_lens.Errors.{AppErrorCode}
use textbook_lens.Learning.Panel.{
  LearningRequestStatus, streaming, max_learning_output_bytes, usage_is_valid, error_is_valid,
  option_is_valid, status_is_consistent, snapshot_is_valid,
}
use textbook_lens.Learning.Entry.{RegistryEntry, Subscriber, Stepped, stays, ends, snapshot}

abbrev pub is_final : LearningRequestStatus → Bool
is_final LearningRequestStatus.preparing = false
is_final streaming = false
is_final _ = true

-- Every subscriber has been sent all events so far.
abbrev pub UpToDate : ℕ → List Subscriber → Type 0
UpToDate seq = All (λ k. k.after_seq ≡ seq)

-- A request that is completed has been authorized to commit, and one that is cancelled has not.
abbrev pub outcome_agrees : LearningRequestStatus → Bool → Bool
outcome_agrees LearningRequestStatus.completed irrevocable = irrevocable
outcome_agrees LearningRequestStatus.cancelled irrevocable = not irrevocable
outcome_agrees _ irrevocable = true

pub record IsSound (e : RegistryEntry) : Type 0 where
  pub bounded : byte_length e.text ≤ max_learning_output_bytes
  pub usage_valid : option_is_valid usage_is_valid e.usage ≡ true
  pub error_valid : option_is_valid error_is_valid e.safe_error ≡ true
  pub consistent : status_is_consistent e.status e.conversation_id e.text e.safe_error ≡ true
  pub final : is_some e.terminal_at ≡ is_final e.status
  pub up_to_date : UpToDate e.seq e.subscribers
  pub quiet : is_some e.terminal_at ≡ true → e.subscribers ≡ []
  pub released : is_some e.terminal_at ≡ true → e.maintenance_permit ≡ false
  pub ordered : e.commit_irrevocable ≡ true → e.commit_started ≡ true
  pub outcome : outcome_agrees e.status e.commit_irrevocable ≡ true
  pub answered : e.commit_started ≡ true → all is_white_space e.text ≡ false

-- The call keeps a sound entry sound, and its key and target; and it ends the request if the entry
-- says so.
abbrev pub Keeps : {A : Type 0} → RegistryEntry → Stepped A → Type 0
Keeps e (stays e' r) =
    IsSound e'
    × (e'.request_id ≡ e.request_id)
    × (e'.target ≡ e.target)
    × (is_some e'.terminal_at ≡ is_some e.terminal_at)
Keeps e (ends e' r) =
    IsSound e'
    × (e'.request_id ≡ e.request_id)
    × (e'.target ≡ e.target)
    × (is_some e'.terminal_at ≡ true)
    × (is_some e.terminal_at ≡ false)

pub snapshot_ok : (e : RegistryEntry) → IsSound e → snapshot e ≢ err AppErrorCode.database_error
unfolding snapshot snapshot_is_valid
snapshot_ok e v q = ground arith
