-- ===== src/Auth/Session.antt =====
-- internal/auth/session.go: access and temporary sessions in Redis.
use golang_auth_api.Prelude.{ℕ, ◌-◌, Bool, true, false, ltb, leb, ◌++◌, if◌then◌else◌, Str, codes}
use golang_auth_api.Exec.{Exec, pure, ◌>>=◌}
use golang_auth_api.Exec.Outcome.{NeverFails}
use golang_auth_api.Platform.CallLaws.{NeverFails-cache_del_both}
use golang_auth_api.Cache.{text}
use golang_auth_api.Platform.{Env, World}
use golang_auth_api.Platform.Calls.{now, cache_get, cache_set, cache_del, cache_del_both, is_found}

abbrev pub session_key : Str → Str
session_key id = codes "session:" ++ id

abbrev pub refresh_key : Str → Str
refresh_key id = codes "refresh:" ++ id

abbrev pub temporary_session_key : Str → Str
temporary_session_key id = codes "temporary_session:" ++ id

abbrev pub email_code_key : Str → Str
email_code_key email = codes "email_code:" ++ email

module _ {C : Type 0} (env : Env C) {E : Type 0} where
  -- The shared text of IsValidSession and IsValidTemporarySession: EXISTS of the key, false on an
  -- error of Redis.
  unfoldable pub is_live_key : Str → ℕ → Exec (World C) E Bool
  is_live_key key exp = do
    t ← now env
    if ltb exp t then pure false else do reply ← cache_get env key; pure (is_found reply)

  unfoldable pub is_valid_session : Str → ℕ → Exec (World C) E Bool
  unfolding is_live_key
  is_valid_session id exp = is_live_key (session_key id) exp

  unfoldable pub is_valid_temporary_session : Str → ℕ → Exec (World C) E Bool
  unfolding is_live_key
  is_valid_temporary_session id exp = is_live_key (temporary_session_key id) exp

  -- The shared text of GenerateSession and GenerateTemporarySession: true if `err == nil`. A session
  -- that has expired already is not written.
  unfoldable pub store_session : Str → ℕ → Exec (World C) E Bool
  store_session key exp = do
    t ← now env
    if leb exp t then pure true else cache_set env key (text (codes "1")) (exp - t)

  unfoldable pub generate_session : Str → ℕ → Exec (World C) E Bool
  unfolding store_session
  generate_session id exp = store_session (session_key id) exp

  unfoldable pub generate_temporary_session : Str → ℕ → Exec (World C) E Bool
  unfolding store_session
  generate_temporary_session id exp = store_session (temporary_session_key id) exp

  unfoldable pub delete_temporary_session : Str → Exec (World C) E Bool
  delete_temporary_session id = cache_del env (temporary_session_key id)

  -- The session and its refresh token.
  unfoldable pub delete_session : Str → Exec (World C) E Bool
  delete_session id = cache_del_both env (session_key id) (refresh_key id)

  pub NeverFails-delete_session : (id : Str) → NeverFails (delete_session id)
  unfolding delete_session
  NeverFails-delete_session id = NeverFails-cache_del_both env _ _
