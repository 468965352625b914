-- ===== src/Http/Routes.antt =====
-- internal/server/routes.go: the paths of the API, and which of them need no access token.
use golang_auth_api.Prelude.{List, [], ◌∷◌, Str, codes}

abbrev pub v1_health_check : Str
v1_health_check = codes "/v1/healthcheck"

abbrev pub v1_login : Str
v1_login = codes "/auth/v1/login"

abbrev pub v1_logout : Str
v1_logout = codes "/auth/v1/logout"

abbrev pub v1_start_email_verification : Str
v1_start_email_verification = codes "/auth/v1/start-email-verification"

abbrev pub v1_verify_email : Str
v1_verify_email = codes "/auth/v1/verify-email"

abbrev pub v1_complete_email_join : Str
v1_complete_email_join = codes "/auth/v1/complete-email-join"

abbrev pub v1_refresh_token : Str
v1_refresh_token = codes "/auth/v1/refresh-token"

abbrev pub v1_request_password_reset : Str
v1_request_password_reset = codes "/auth/v1/request-password-reset"

abbrev pub v1_reset_password : Str
v1_reset_password = codes "/auth/v1/reset-password"

abbrev pub v1_change_password : Str
v1_change_password = codes "/auth/v1/change-password"

abbrev pub v1_mfa_enroll : Str
v1_mfa_enroll = codes "/auth/v1/mfa/enroll"

abbrev pub v1_mfa_verify_enrollment : Str
v1_mfa_verify_enrollment = codes "/auth/v1/mfa/verify"

abbrev pub v1_mfa_disable : Str
v1_mfa_disable = codes "/auth/v1/mfa/disable"

abbrev pub v1_mfa_verify_login : Str
v1_mfa_verify_login = codes "/auth/v1/mfa/verify-login"

abbrev pub v1_mfa_send_login_code : Str
v1_mfa_send_login_code = codes "/auth/v1/mfa/send-login-code"

abbrev pub v1_mfa_email_enroll : Str
v1_mfa_email_enroll = codes "/auth/v1/mfa/email/enroll"

abbrev pub v1_mfa_email_verify : Str
v1_mfa_email_verify = codes "/auth/v1/mfa/email/verify"

abbrev pub v1_mfa_email_disable : Str
v1_mfa_email_disable = codes "/auth/v1/mfa/email/disable"

abbrev pub v1_sso_google : Str
v1_sso_google = codes "/auth/v1/sso/google"

abbrev pub v1_sso_apple : Str
v1_sso_apple = codes "/auth/v1/sso/apple"

abbrev pub v1_admin_users : Str
v1_admin_users = codes "/auth/v1/admin/users"

abbrev pub v1_admin_audit_logs : Str
v1_admin_audit_logs = codes "/auth/v1/admin/audit-logs"

abbrev pub v1_passkey_register_begin : Str
v1_passkey_register_begin = codes "/auth/v1/passkey/register/begin"

abbrev pub v1_passkey_register_finish : Str
v1_passkey_register_finish = codes "/auth/v1/passkey/register/finish"

abbrev pub v1_passkey_login_begin : Str
v1_passkey_login_begin = codes "/auth/v1/passkey/login/begin"

abbrev pub v1_passkey_login_finish : Str
v1_passkey_login_finish = codes "/auth/v1/passkey/login/finish"

abbrev pub v1_passkey_list : Str
v1_passkey_list = codes "/auth/v1/passkey/credentials"

-- OpenRoutes
abbrev pub open_routes : List Str
open_routes =
    v1_health_check
    ∷ (v1_start_email_verification
        ∷ (v1_verify_email
            ∷ (v1_login
                ∷ (v1_request_password_reset
                    ∷ (v1_reset_password
                        ∷ (v1_mfa_verify_login
                            ∷ (v1_mfa_send_login_code
                                ∷ (v1_sso_google
                                    ∷ (v1_sso_apple
                                        ∷ (v1_passkey_login_begin
                                            ∷ (v1_passkey_login_finish ∷ [])))))))))))

-- TemporaryJWTRoutes
abbrev pub temporary_jwt_routes : List Str
temporary_jwt_routes = v1_complete_email_join ∷ []
