-- ===== src/Auth/Validations.antt =====
-- internal/utils/validations.go: the regular expressions as byte automata.
use golang_auth_api.Prelude.{
  ℕ, ◌==◌, leb, Bool, true, false, ◌&&◌, ◌||◌, List, [], ◌∷◌, length, any, Str, str_eq, all_bytes,
}

abbrev pub is_letter : ℕ → Bool
is_letter c = (leb b'a' c && leb c b'z') || (leb b'A' c && leb c b'Z')

abbrev pub is_digit : ℕ → Bool
is_digit c = leb b'0' c && leb c b'9'

abbrev pub is_alnum : ℕ → Bool
is_alnum c = is_letter c || is_digit c

-- [a-zA-Z0-9._%+-]
abbrev is_local : ℕ → Bool
is_local c = is_alnum c || (c == b'.' || (c == b'_' || (c == b'%' || (c == b'+' || c == b'-'))))

-- [a-zA-Z0-9.-]
abbrev is_domain : ℕ → Bool
is_domain c = is_alnum c || (c == b'.' || c == b'-')

-- [a-zA-Z]{2,}$
unfoldable pub is_tld : Str → Bool
is_tld s = leb 2 (length s) && all_bytes is_letter s

-- [a-zA-Z0-9.-]+\.[a-zA-Z]{2,}$, after at least one byte of the domain if `started`
unfoldable pub is_domain_rest : Bool → Str → Bool
unfolding is_tld
is_domain_rest started [] = false
is_domain_rest started (c ∷ cs) =
    (started && (c == b'.' && is_tld cs)) || (is_domain c && is_domain_rest true cs)

-- [a-zA-Z0-9._%+-]+@…, after at least one byte of the local part if `started`
unfoldable pub is_email_rest : Bool → Str → Bool
unfolding is_domain_rest
is_email_rest started [] = false
is_email_rest started (c ∷ cs) =
    (started && (c == b'@' && is_domain_rest false cs)) || (is_local c && is_email_rest true cs)

unfoldable pub is_valid_email : Str → Bool
unfolding is_email_rest
is_valid_email s = is_email_rest false s

-- [a-zA-Z0-9._]{0,28}[a-zA-Z0-9]$
unfoldable pub is_username_rest : Str → Bool
is_username_rest [] = false
is_username_rest (c ∷ []) = is_alnum c
is_username_rest (c ∷ (d ∷ cs)) =
    (is_alnum c || (c == b'.' || c == b'_')) && is_username_rest (d ∷ cs)

unfoldable pub is_valid_username : Str → Bool
unfolding is_username_rest
is_valid_username [] = false
is_valid_username (c ∷ cs) = is_alnum c && (leb (length cs) 29 && is_username_rest cs)

abbrev pub min_password_len : ℕ
min_password_len = 12

abbrev pub max_password_len : ℕ
max_password_len = 128

unfoldable pub is_valid_password : Str → Bool
is_valid_password s = leb min_password_len (length s) && leb (length s) max_password_len

unfoldable pub is_valid_verification_code : Str → Bool
is_valid_verification_code s = length s == 6 && all_bytes is_digit s

unfoldable pub is_origin_allowed : Str → List Str → Bool
is_origin_allowed origin whitelist = any (λ allowed. str_eq origin allowed) whitelist
