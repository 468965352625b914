-- ===== src/Auth/Password.antt =====
-- internal/auth/password.go, with the pepper manager of hash.go: the PHC string of a password.
-- argon2 and base64 are parameters. The peppers are those that NewStaticPepperManager has loaded;
-- ActivePepperManager fails if the active one is missing.
use golang_auth_api.Prelude.{
  ℕ, ◌+◌, ◌-◌, ◌*◌, Bool, true, false, not, ◌&&◌, ◌||◌, ltb, leb, ◌==◌, Option, none, some, List,
  [], ◌∷◌, ◌++◌, if◌then◌else◌, any, is_some, length, Str, codes, str_eq, has_prefix, drop_prefix,
  split, trim_space,
}
use golang_auth_api.Exec.{pure, ◌>>=◌, ◌>>◌}
use golang_auth_api.Platform.{Env}
use golang_auth_api.Platform.Calls.{draw}
use golang_auth_api.Auth.Validations.{is_valid_password}
use golang_auth_api.Auth.Jwt.{Fallible, ensure, present}

abbrev pub argon_time : ℕ
argon_time = 2

abbrev pub argon_memory : ℕ
argon_memory = 131072

abbrev pub argon_threads : ℕ
argon_threads = 4

abbrev is_digit : ℕ → Bool
is_digit c = leb b'0' c && leb c b'9'

-- A blank that fmt.Sscanf skips before a verb; a newline is none.
abbrev is_blank : ℕ → Bool
is_blank c = c == b' ' || (c == 9 || (c == 11 || (c == 12 || c == 13)))

unfoldable pub skip_blanks : Str → Str
skip_blanks [] = []
skip_blanks (c ∷ cs) = if is_blank c then skip_blanks cs else c ∷ cs

unfoldable pub digits_from : ℕ → Str → ℕ
digits_from acc [] = acc
digits_from acc (c ∷ cs) =
    let rest = digits_from (acc * 10 + (c - b'0')) cs in if is_digit c then rest else acc

abbrev starts_with_digit : Str → Bool
starts_with_digit [] = false
starts_with_digit (c ∷ cs) = is_digit c

-- fmt.Sscanf with %d into an unsigned integer below `bound`; on an error the variable keeps `old`.
unfoldable pub scan_uint : ℕ → ℕ → Str → ℕ
unfolding skip_blanks digits_from
scan_uint bound old s =
    let t = skip_blanks s in
    if starts_with_digit t && ltb (digits_from 0 t) bound then digits_from 0 t else old

unfoldable pub take_word : Str → Str
take_word [] = []
take_word (c ∷ cs) = if is_blank c || c == 10 then [] else c ∷ take_word cs

-- fmt.Sscanf with %s
unfoldable pub scan_word : Str → Str → Str
unfolding skip_blanks take_word
scan_word old s = elim (take_word (skip_blanks s)) [ [] ↦ old | c ∷ cs ↦ c ∷ cs ]

pub record PhcParams : Type 0 where
  pub mem : ℕ
  pub time_cost : ℕ
  pub threads : ℕ
  pub pepper_id : Str

abbrev no_params : PhcParams
no_params = record { mem = 0; time_cost = 0; threads = 0; pepper_id = [] }

-- One round of the loop over the parameters.
unfoldable pub scan_param : PhcParams → Str → PhcParams
unfolding scan_uint scan_word
scan_param p kv =
    if has_prefix kv (codes "m=")
    then record p { mem = scan_uint 4294967296 p.mem (drop_prefix kv (codes "m=")) }
    else if has_prefix kv (codes "t=")
    then record p { time_cost = scan_uint 4294967296 p.time_cost (drop_prefix kv (codes "t=")) }
    else if has_prefix kv (codes "p=")
    then record p { threads = scan_uint 256 p.threads (drop_prefix kv (codes "p=")) }
    else if has_prefix kv (codes "pepper=")
    then record p { pepper_id = scan_word p.pepper_id (drop_prefix kv (codes "pepper=")) }
    else p

unfoldable pub scan_params : (Str → Str) → PhcParams → List Str → PhcParams
unfolding scan_param
scan_params trim p [] = p
scan_params trim p (kv ∷ kvs) = scan_params trim (scan_param p (trim kv)) kvs

-- `strings.Split(phc, "$")` with six parts, the second of them "argon2id": the last three.
unfoldable pub phc_parts : List Str → Option (Str × Str × Str)
phc_parts (_ ∷ (alg ∷ (_ ∷ (params ∷ (salt ∷ (key ∷ [])))))) =
    if str_eq alg (codes "argon2id") then some (params, salt, key) else none
phc_parts _ = none

unfoldable pub get_pepper : Str → List (Str × Str) → Option Str
get_pepper id [] = none
get_pepper id ((k, p) ∷ ps) = if str_eq k id then some p else get_pepper id ps

-- itoa of the parameters that are printed: a decimal numeral
abbrev phc_prefix : Str
phc_prefix = codes "$argon2id$v=19$m=131072,t=2,p=4,pepper="

module _ {C : Type 0} (env : Env C) where
  abbrev argon : Str → Str → PhcParams → Str → ℕ → Str
  argon password pepper p salt len =
      env.argon2_id_key (password ++ pepper) salt p.time_cost p.mem p.threads len

  -- ActivePepperManager succeeds.
  abbrev pub peppers_loaded : Bool
  peppers_loaded = is_some (get_pepper env.config.active_pepper_id env.config.peppers)

  -- The comparison with the pepper that the string names, or with every pepper.
  unfoldable pub compare_key : Str → PhcParams → Str → Str → Bool → Option Str → Bool
  compare_key password p salt want try_all (some pepper) =
      str_eq (argon password pepper p salt (length want)) want
  compare_key password p salt want try_all none =
      try_all
      && any (λ entry. str_eq (argon password entry.1 p salt (length want)) want) env.config.peppers

  unfoldable pub verify_parts : Str → Bool → Str × Str × Str → Option Bool
  unfolding compare_key get_pepper scan_params
  verify_parts password try_all (params, salt, key) =
      let p = scan_params trim_space no_params (split b',' params) in
      if p.mem == 0 || (p.time_cost == 0 || p.threads == 0)
      then none
      else elim (env.base64_decode salt) [
        | none ↦ none
        | some s ↦ elim (env.base64_decode key) [
          | none ↦ none
          | some want ↦
              some
                (compare_key password p s want try_all (get_pepper p.pepper_id env.config.peppers))
        ]
      ]

  -- VerifyPasswordPHC: `none` is an error.
  unfoldable pub verify_password_phc : Str → Str → Bool → Option Bool
  unfolding verify_parts phc_parts get_pepper
  verify_password_phc password phc try_all =
      if not peppers_loaded then none else elim (phc_parts (split b'$' phc)) [
        | none ↦ none
        | some parts ↦ verify_parts password try_all parts
      ]

  abbrev printed : Str → Str → Str
  printed salt key =
      phc_prefix
      ++ (env.config.active_pepper_id
          ++ (codes "$" ++ (env.base64_encode salt ++ (codes "$" ++ env.base64_encode key))))

  -- HashPasswordPHC
  unfoldable pub hash_password_phc : Str → Fallible C Str
  unfolding get_pepper
  hash_password_phc password = do
    pepper ← present (get_pepper env.config.active_pepper_id env.config.peppers)
    ensure (is_valid_password password)
    drawn ← draw env (env.random_bytes 16)
    salt ← present drawn
    let key = env.argon2_id_key (password ++ pepper) salt argon_time argon_memory argon_threads 32
    pure (printed salt key)

  unfoldable pub should_rehash_params : PhcParams → Bool
  should_rehash_params p =
      not (p.mem == argon_memory)
      || (not (p.time_cost == argon_time) || not (p.threads == argon_threads))
      || not (str_eq p.pepper_id env.config.active_pepper_id)

  -- ShouldRehash; it splits the parameters without trimming them.
  unfoldable pub should_rehash : Str → Bool
  unfolding should_rehash_params phc_parts scan_params
  should_rehash phc = elim (phc_parts (split b'$' phc)) [
    | none ↦ true
    | some parts ↦ should_rehash_params (scan_params (λ kv. kv) no_params (split b',' parts.0))
  ]

  -- ShouldRehashActive
  unfoldable pub should_rehash_active : Str → Option Bool
  unfolding should_rehash
  should_rehash_active phc = if peppers_loaded then some (should_rehash phc) else none
