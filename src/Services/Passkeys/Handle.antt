-- ===== src/Services/Passkeys/Handle.antt =====
-- The user handle of a passkey: the 16 bytes of the account's identifier.
use golang_auth_api.Prelude.{◌*◌, ℕ, zero, suc}

-- The number of identifiers of n bytes.
abbrev byte_range : ℕ → ℕ
byte_range zero = 1
byte_range (suc n) = byte_range n * 256
