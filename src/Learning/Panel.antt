-- ===== src/Learning/Panel.antt =====
-- The records of src-tauri/src/domain/panel.rs, with their `validate` methods as tests. A constructor
-- that fails on an invalid value is an option.
use textbook_lens.Base.{
  ℕ, Bool, true, not, ◌&&◌, ◌||◌, Option, none, some, List, leb, ◌==◌, is_empty, is_some,
  if◌then◌else◌, all, length, u32_max, is_white_space, byte_length,
}

abbrev pub max_learning_output_bytes : ℕ
max_learning_output_bytes = 4194304

abbrev pub max_safe_learning_error_code_chars : ℕ
max_safe_learning_error_code_chars = 64

pub data LearningRequestStatus : Type 0 where
  preparing streaming completed failed cancelled : LearningRequestStatus

pub record LearningUsage : Type 0 where
  pub input_tokens : Option ℕ
  pub output_tokens : Option ℕ

-- `LearningUsage::validate`
abbrev pub usage_is_valid : LearningUsage → Bool
usage_is_valid u = is_some u.input_tokens || is_some u.output_tokens

-- `u32::try_from` under an option.
abbrev pub fits_u32 : Option ℕ → Bool
fits_u32 none = true
fits_u32 (some n) = leb n u32_max

-- `LearningUsage::new`
unfoldable pub new_usage : Option ℕ → Option ℕ → Option LearningUsage
new_usage input output =
    let u : LearningUsage = record { input_tokens = input; output_tokens = output } in
    if usage_is_valid u && fits_u32 input && fits_u32 output then some u else none

-- The text of an error code.
pub record SafeLearningError : Type 0 where
  pub code : List ℕ

abbrev is_code_byte : ℕ → Bool
is_code_byte b = leb b'A' b && leb b b'Z' || leb b'0' b && leb b b'9' || b == b'_'

-- `SafeLearningError::validate`
unfoldable pub error_is_valid : SafeLearningError → Bool
error_is_valid e =
    leb 1 (length e.code)
    && leb (length e.code) max_safe_learning_error_code_chars
    && all is_code_byte e.code

-- `SafeLearningError::new`
unfoldable pub new_safe_error : List ℕ → Option SafeLearningError
new_safe_error code =
    let e : SafeLearningError = record { code = code } in if error_is_valid e then some e else none

pub record LearningRequestSnapshot : Type 0 where
  pub request_id : ℕ
  pub conversation_id : Option ℕ
  pub status : LearningRequestStatus
  pub text : List ℕ
  pub usage : Option LearningUsage
  pub safe_error : Option SafeLearningError
  pub last_seq : ℕ

abbrev pub option_is_valid {ℓ} : {A : Type ℓ} → (A → Bool) → Option A → Bool
option_is_valid p none = true
option_is_valid p (some a) = p a

-- The `match` on the status.
abbrev pub status_is_consistent :
    LearningRequestStatus → Option ℕ → List ℕ → Option SafeLearningError → Bool
status_is_consistent LearningRequestStatus.completed conversation text error =
    is_some conversation && not (all is_white_space text) && not (is_some error)
status_is_consistent LearningRequestStatus.failed conversation text error =
    not (is_some conversation) && is_some error
status_is_consistent LearningRequestStatus.preparing conversation text error =
    not (is_some conversation) && not (is_some error)
status_is_consistent streaming conversation text error =
    not (is_some conversation) && not (is_some error)
status_is_consistent LearningRequestStatus.cancelled conversation text error =
    not (is_some conversation) && not (is_some error)

-- `LearningRequestSnapshot::validate`
unfoldable pub snapshot_is_valid : LearningRequestSnapshot → Bool
snapshot_is_valid s =
    leb (byte_length s.text) max_learning_output_bytes
    && option_is_valid usage_is_valid s.usage
    && option_is_valid error_is_valid s.safe_error
    && status_is_consistent s.status s.conversation_id s.text s.safe_error

pub data LearningRequestEventPayload : Type 0 where
  preparing : LearningRequestEventPayload
  text_delta : List ℕ → LearningRequestEventPayload
  usage : LearningUsage → LearningRequestEventPayload
  completed : ℕ → LearningRequestEventPayload
  failed : SafeLearningError → LearningRequestEventPayload
  cancelled : LearningRequestEventPayload

-- `LearningRequestEventPayload::validate`
unfoldable pub payload_is_valid : LearningRequestEventPayload → Bool
payload_is_valid LearningRequestEventPayload.preparing = true
payload_is_valid (text_delta text) =
    not (is_empty text) && leb (byte_length text) max_learning_output_bytes
payload_is_valid (usage u) = usage_is_valid u
payload_is_valid (LearningRequestEventPayload.completed conversation) = true
payload_is_valid (LearningRequestEventPayload.failed e) = error_is_valid e
payload_is_valid LearningRequestEventPayload.cancelled = true

pub record LearningRequestEvent : Type 0 where
  pub request_id : ℕ
  pub seq : ℕ
  pub event : LearningRequestEventPayload

-- `LearningRequestEvent::new`
unfoldable pub new_event : ℕ → ℕ → LearningRequestEventPayload → Option LearningRequestEvent
new_event request seq payload =
    if seq == 0 || not (payload_is_valid payload)
    then none
    else some (record { request_id = request; seq = seq; event = payload })
