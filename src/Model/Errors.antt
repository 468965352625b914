-- ===== src/Model/Errors.antt =====
-- internal/utils/error_codes.go: the registry of errors, with the code and the HTTP status of each.
use golang_auth_api.Prelude.{ℕ}

pub data ErrorDetail : Type 0 where
  account_locked account_not_usable admin_protected cannot_target_self code_expired : ErrorDetail
  email_is_taken forbidden incorrect_code internal_server_error invalid_credentials : ErrorDetail
  invalid_email_format invalid_mfa_code invalid_mfa_method invalid_or_expired_token : ErrorDetail
  invalid_password_format invalid_payload invalid_payload_media invalid_payload_size : ErrorDetail
  invalid_role invalid_username_format mfa_already_enabled mfa_not_enabled : ErrorDetail
  new_password_matches_current passkey_already_registered passkey_challenge_failed : ErrorDetail
  passkey_not_configured passkey_not_found route_not_found session_expired : ErrorDetail
  sso_account_conflict sso_email_not_verified sso_not_configured sso_token_invalid : ErrorDetail
  too_many_attempts too_soon_to_request unauthorized user_not_found username_taken : ErrorDetail
  token_generation_failed : ErrorDetail

-- ErrorDetail.Status
unfoldable pub status : ErrorDetail → ℕ
status account_locked = 423
status account_not_usable = 403
status admin_protected = 403
status cannot_target_self = 400
status code_expired = 401
status email_is_taken = 409
status forbidden = 403
status incorrect_code = 401
status internal_server_error = 500
status invalid_credentials = 401
status invalid_email_format = 400
status invalid_mfa_code = 401
status invalid_mfa_method = 400
status invalid_or_expired_token = 401
status invalid_password_format = 400
status invalid_payload = 400
status invalid_payload_size = 413
status invalid_payload_media = 415
status invalid_role = 400
status invalid_username_format = 400
status mfa_already_enabled = 409
status mfa_not_enabled = 400
status new_password_matches_current = 400
status passkey_already_registered = 409
status passkey_challenge_failed = 401
status passkey_not_configured = 503
status passkey_not_found = 404
status route_not_found = 404
status session_expired = 401
status sso_account_conflict = 409
status sso_email_not_verified = 403
status sso_not_configured = 503
status sso_token_invalid = 401
status too_many_attempts = 429
status too_soon_to_request = 429
status unauthorized = 401
status user_not_found = 404
status username_taken = 409
status token_generation_failed = 500
