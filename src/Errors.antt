-- ===== src/Errors.antt =====
-- src-tauri/src/errors/app_error.rs: the codes that the operations return.
use Prim.Native.String.{String}

pub data AppErrorCode : Type 0 where
  invalid_api_key : AppErrorCode
  model_not_found : AppErrorCode
  provider_permission_denied : AppErrorCode
  provider_region_restricted : AppErrorCode
  rate_limited : AppErrorCode
  insufficient_quota : AppErrorCode
  context_too_large : AppErrorCode
  network_offline : AppErrorCode
  provider_unavailable : AppErrorCode
  provider_refused : AppErrorCode
  unsupported_file_type : AppErrorCode
  file_corrupted : AppErrorCode
  file_encrypted_or_drm : AppErrorCode
  no_extractable_text : AppErrorCode
  import_cancelled : AppErrorCode
  database_error : AppErrorCode
  credential_store_error : AppErrorCode
  anchor_not_found : AppErrorCode
  invalid_input : AppErrorCode
  not_found : AppErrorCode
  book_not_ready : AppErrorCode
  request_conflict : AppErrorCode
  local_io_error : AppErrorCode

-- `AppErrorCode::stable_code`
unfoldable pub stable_code : AppErrorCode → String
stable_code invalid_api_key = "INVALID_API_KEY"
stable_code model_not_found = "MODEL_NOT_FOUND"
stable_code provider_permission_denied = "PROVIDER_PERMISSION_DENIED"
stable_code provider_region_restricted = "PROVIDER_REGION_RESTRICTED"
stable_code rate_limited = "RATE_LIMITED"
stable_code insufficient_quota = "INSUFFICIENT_QUOTA"
stable_code context_too_large = "CONTEXT_TOO_LARGE"
stable_code network_offline = "NETWORK_OFFLINE"
stable_code provider_unavailable = "PROVIDER_UNAVAILABLE"
stable_code provider_refused = "PROVIDER_REFUSED"
stable_code unsupported_file_type = "UNSUPPORTED_FILE_TYPE"
stable_code file_corrupted = "FILE_CORRUPTED"
stable_code file_encrypted_or_drm = "FILE_ENCRYPTED_OR_DRM"
stable_code no_extractable_text = "NO_EXTRACTABLE_TEXT"
stable_code import_cancelled = "IMPORT_CANCELLED"
stable_code database_error = "DATABASE_ERROR"
stable_code credential_store_error = "CREDENTIAL_STORE_ERROR"
stable_code anchor_not_found = "ANCHOR_NOT_FOUND"
stable_code invalid_input = "INVALID_INPUT"
stable_code not_found = "NOT_FOUND"
stable_code book_not_ready = "BOOK_NOT_READY"
stable_code request_conflict = "REQUEST_CONFLICT"
stable_code local_io_error = "LOCAL_IO_ERROR"
