-- ===== src/Services/Sso/Username.antt =====
-- The names that SSO gives to new users.
use mathlib.Core.Path.{subst}
use golang_auth_api.Prelude.{
  ◌+◌, ◌≤◌, ◌≡◌, ◌==◌, refl, ℕ, zero, suc, false, arith, Bool-cases, inl, inr, ltb, List, [], ◌∷◌,
  length, take, Str, codes, ltb→lt,
}
use golang_auth_api.Prelude.Lists.{length-append}
use golang_auth_api.Exec.{ok, pure-eq-ok, raise-ne-ok}
use golang_auth_api.Model.Rows.{Database}
use golang_auth_api.Platform.{Env, World}
use golang_auth_api.Platform.Transactions.{query-found}
use golang_auth_api.Database.Users.{username_exists}
use golang_auth_api.Services.Sso.{
  candidate, digits, shortened, lengthened, sanitized, username_base, first_free,
  generate_unique_username_from_email,
}

length-take : {A : Type 0} (n : ℕ) (xs : List A) → n ≤ length xs → length (take n xs) ≡ n
length-take zero xs h = refl
length-take (suc n) [] h = omega arith
length-take (suc n) (x ∷ xs) h = let rest = length-take n xs (omega arith) in omega arith

shortened_size : (s : Str) → length (shortened s) ≤ 24
shortened_size s = elim (Bool-cases (ltb 24 (length s))) [
  | inl long ↦ (let size = length-take 24 s (ground arith) in rw long (omega arith))
  | inr short ↦ rw short (ground arith)
]

lengthened_size :
    (s : Str) → length s ≤ 24 → (2 ≤ length (lengthened s)) × (length (lengthened s) ≤ 24)
lengthened_size s h = elim (Bool-cases (ltb (length s) 2)) [
  | inl short ↦
      (let size = length-append (codes "user") s in
        let four : length (codes "user") ≡ 4 = refl in
        let few = ltb→lt (length s) 2 short in rw short (omega arith, omega arith))
  | inr long ↦ rw long (ground arith, h)
]

base_size : (email : Str) → (2 ≤ length (username_base email)) × (length (username_base email) ≤ 24)
unfolding username_base
base_size email = lengthened_size (shortened (sanitized email)) (shortened_size (sanitized email))

candidate_size :
    (base : Str) (n : ℕ)
    → 2 ≤ length base
    → length base ≤ 24
    → (2 ≤ length (candidate base n)) × (length (candidate base n) ≤ 26)
unfolding candidate
candidate_size base n low high =
    let size = length-append base (digits n) in
    elim (Bool-cases (n == 0)) [
      | inl first ↦ rw first (low, omega arith)
      | inr later ↦ elim (Bool-cases (ltb n 10)) [
        | inl one ↦ (let s = rw one at size in rw (later, one) (omega arith, omega arith))
        | inr two ↦ (let s = rw two at size in rw (later, two) (omega arith, omega arith))
      ]
    ]

-- A name of 2 to 26 bytes that no user has.
pub record IsFreeName (name : Str) (db : Database) : Type 0 where
  pub low : 2 ≤ length name
  pub high : length name ≤ 26
  pub free : username_exists name db ≡ false

module _ {C : Type 0} (env : Env C) (base : Str) (low : 2 ≤ length base)
    (high : length base ≤ 24) where
  first_free-IsFreeName :
      (n attempt : ℕ) (w : World C) {name : Str}
      → (first_free env base attempt n w).0 ≡ ok name
      → IsFreeName name w.db
  unfolding first_free
  first_free-IsFreeName zero attempt w h = absurd (raise-ne-ok tt w h)
  first_free-IsFreeName (suc n) attempt w h =
      let (taken, is_taken, ran) = query-found env _ w _ h in
      elim (Bool-cases taken) [
        | inl busy ↦
            first_free-IsFreeName n (suc attempt) (record w { calls = w.calls + 1 })
              (rw (ran, busy) at h)
        | inr free ↦
            (let same = pure-eq-ok _ _ (rw (ran, free) at h) in
              let size = candidate_size base attempt low high in
              subst (λ s. IsFreeName s w.db) same
                (record { low = size.0; high = size.1; free = cc }))
      ]

-- A name that SSO finds for a new user has 2 to 26 bytes and belongs to nobody.
pub generate_unique_username_from_email-IsFreeName :
    {C : Type 0} (env : Env C) (email : Str) (w : World C) {name : Str}
    → (generate_unique_username_from_email env email w).0 ≡ ok name
    → IsFreeName name w.db
unfolding generate_unique_username_from_email
generate_unique_username_from_email-IsFreeName env email w h =
    let size = base_size email in
    first_free-IsFreeName env (username_base email) size.0 size.1 20 0 w h
