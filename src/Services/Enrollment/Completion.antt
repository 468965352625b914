-- ===== src/Services/Enrollment/Completion.antt =====
-- The transactions that complete an enrolment.
use mathlib.Core.Path.{subst}
use mathlib.Core.List.{append-nil, append_assoc}
use golang_auth_api.Prelude.{
  any, Bool-cases, inl, inr, ◌≡◌, ◌∙◌, ap, refl, sym, ℕ, Bool, true, Option, none, some, List, [],
  ◌∷◌, ◌++◌, map, ◌==◌, ==-refl, keep, All, Str, arith,
}
use golang_auth_api.Prelude.Lists.{
  All-update_where, All-update_where_self, keep-append, keep-not, map-append,
}
use golang_auth_api.Exec.{ok, pure, ◌>>=◌}
use golang_auth_api.Model.Rows.{MfaRecoveryCode, Database}
use golang_auth_api.Platform.{Env, World, found}
use golang_auth_api.Platform.CallLaws.{draw-bind}
use golang_auth_api.Platform.Transactions.{
  IsPlain, Atomic, with_tx-Atomic, statement-eq-ok, statement-found,
}
use golang_auth_api.Database.Mfa.{record_totp_success, record_otp_factor_success}
use golang_auth_api.Database.Mfa.Enrollment.{
  is_code_conflict, verify_factor, delete_mfa_recovery_codes_by_factor, create_mfa_recovery_code,
}
use golang_auth_api.Services.Enrollment.{
  create_recovery_codes, complete_mfa_enrollment, complete_otp_factor_enrollment,
}

abbrev of_factor : ℕ → MfaRecoveryCode → Bool
of_factor id c = c.factor_id == id

-- The hashes of the recovery codes of a factor, each with the time at which it was used.
abbrev pub issued_codes : ℕ → Database → List (Str × Option ℕ)
issued_codes id db = map (λ c. (c.code_hash, c.used_at)) (keep (of_factor id) db.mfa_recovery_codes)

abbrev pub unused : List Str → List (Str × Option ℕ)
unused hashes = map (λ h. (h, none)) hashes

-- The factor is verified and enabled.
abbrev pub IsActive : ℕ → Database → Type 0
IsActive id db = All (λ f. f.id ≡ id → (f.verified ≡ true) × (f.enabled ≡ true)) db.mfa_factors

-- The factor has been used at the time step.
abbrev pub IsUsedAt : ℕ → ℕ → Database → Type 0
IsUsedAt id step db = All (λ f. f.id ≡ id → f.last_used_step ≡ some step) db.mfa_factors

-- The factor is active, and its recovery codes are those of the hashes, none of them used.
pub record IsEnrolled (id : ℕ) (hashes : List Str) (db : Database) : Type 0 where
  pub active : IsActive id db
  pub codes : issued_codes id db ≡ unused hashes

pub record IsTotpEnrolled (id step : ℕ) (hashes : List Str) (db : Database) : Type 0 where
  pub enrolled : IsEnrolled id hashes db
  pub used_at : IsUsedAt id step db

verify-IsPlain : (id : ℕ) → IsPlain (verify_factor id)
unfolding verify_factor
verify-IsPlain id = record { at = λ t db. refl }

totp-IsPlain : (step id : ℕ) → IsPlain (record_totp_success step id)
unfolding record_totp_success
totp-IsPlain step id = record { at = λ t db. refl }

otp-IsPlain : (id : ℕ) → IsPlain (record_otp_factor_success id)
unfolding record_otp_factor_success
otp-IsPlain id = record { at = λ t db. refl }

delete-IsPlain : (id : ℕ) → IsPlain (delete_mfa_recovery_codes_by_factor id)
unfolding delete_mfa_recovery_codes_by_factor
delete-IsPlain id = record { at = λ t db. refl }

verify-IsActive : (id t : ℕ) (db : Database) → IsActive id (verify_factor id t db).1
unfolding verify_factor
verify-IsActive id t db =
    All-update_where _ _ _ (λ f h e. (refl, refl)) (λ f h e. ground arith) db.mfa_factors

totp-IsActive :
    (step id t : ℕ) (db : Database)
    → IsActive id db
    → IsActive id (record_totp_success step id t db).1
unfolding record_totp_success
totp-IsActive step id t db h = All-update_where_self _ _ _ (λ f q. q) db.mfa_factors h

otp-IsActive :
    (id t : ℕ) (db : Database) → IsActive id db → IsActive id (record_otp_factor_success id t db).1
unfolding record_otp_factor_success
otp-IsActive id t db h = All-update_where_self _ _ _ (λ f q. q) db.mfa_factors h

totp-IsUsedAt :
    (step id t : ℕ) (db : Database) → IsUsedAt id step (record_totp_success step id t db).1
unfolding record_totp_success
totp-IsUsedAt step id t db =
    All-update_where _ _ _ (λ f h e. refl) (λ f h e. ground arith) db.mfa_factors

delete-none :
    (id t : ℕ) (db : Database)
    → issued_codes id (delete_mfa_recovery_codes_by_factor id t db).1 ≡ []
unfolding delete_mfa_recovery_codes_by_factor
delete-none id t db =
    ap (map (λ c. (c.code_hash, c.used_at))) (keep-not (of_factor id) db.mfa_recovery_codes)

one_kept : (c : MfaRecoveryCode) → keep (of_factor c.factor_id) (c ∷ []) ≡ c ∷ []
unfolding keep
one_kept c = rw (==-refl c.factor_id) refl

-- An insert that the constraints let through adds the row.
abbrev with_code : ℕ → ℕ → Str → Database → Database
with_code code_id id hash db = record db {
  mfa_recovery_codes =
      db.mfa_recovery_codes
      ++ record { id = code_id; factor_id = id; code_hash = hash; used_at = none } ∷ [];
}

create-with_code :
    (code_id id : ℕ) (hash : Str) (t : ℕ) (db : Database) {u : Unit {0}}
    → (create_mfa_recovery_code code_id id hash t db).0 ≡ found u
    → (create_mfa_recovery_code code_id id hash t db).1 ≡ with_code code_id id hash db
unfolding create_mfa_recovery_code
create-with_code code_id id hash t db h =
    elim (Bool-cases (any (is_code_conflict code_id hash) db.mfa_recovery_codes)) [
      | inl taken ↦ (let bad = rw taken at h in cc)
      | inr free ↦ rw free refl
    ]

create-one :
    (code_id id : ℕ) (hash : Str) (db : Database)
    → issued_codes id (with_code code_id id hash db) ≡ issued_codes id db ++ (hash, none) ∷ []
create-one code_id id hash db =
    let row : MfaRecoveryCode = record {
      id = code_id;
      factor_id = id;
      code_hash = hash;
      used_at = none;
    } in
    rw (keep-append (of_factor id) db.mfa_recovery_codes, one_kept row, map-append _ _ (row ∷ []))
      refl

module _ {C : Type 0} (env : Env C) where
  -- What the loop leaves: the new codes behind the old ones, and the factors as they were.
  record IsIssued (id : ℕ) (hashes : List Str) (before later : Database) : Type 0 where
    codes : issued_codes id later ≡ issued_codes id before ++ unused hashes
    factors : later.mfa_factors ≡ before.mfa_factors

  nil-IsIssued : (id : ℕ) (u : World C) → IsIssued id [] u.db (pure {E = Unit {0}} (tt {0}) u).1.db
  unfolding ◌>>=◌
  nil-IsIssued id u = record { codes = sym (append-nil _); factors = refl }

  cons-IsIssued :
      (code_id id : ℕ) (hash : Str) (hashes : List Str) (before middle later : Database)
      → middle ≡ with_code code_id id hash before
      → IsIssued id hashes middle later
      → IsIssued id (hash ∷ hashes) before later
  cons-IsIssued code_id id hash hashes before middle later added rest = record {
    codes =
        rest.codes
        ∙ ap (λ d. issued_codes id d ++ unused hashes) added
        ∙ ap (λ cs. cs ++ unused hashes) (create-one code_id id hash before)
        ∙ append_assoc (issued_codes id before) ((hash, none) ∷ []) (unused hashes);
    factors = rest.factors ∙ ap {A = Database} (λ d. d.mfa_factors) added;
  }

  create_recovery_codes-IsIssued :
      (id : ℕ) (hashes : List Str) (u : World C)
      → (create_recovery_codes env id hashes u).0 ≡ ok tt
      → IsIssued id hashes u.db (create_recovery_codes env id hashes u).1.db
  unfolding create_recovery_codes
  create_recovery_codes-IsIssued id [] u h = nil-IsIssued id u
  create_recovery_codes-IsIssued id (hash ∷ hashes) u h =
      let started = rw (draw-bind env _ _ u) at h in
      let (row, got, ran) = statement-found env _ _ _ started in
      rw (draw-bind env _ _ u, ran)
        (cons-IsIssued _ id hash hashes u.db _ _ (create-with_code _ id hash _ u.db got)
          (create_recovery_codes-IsIssued id hashes _ (rw ran at started)))

  same_factors :
      (id : ℕ) (hashes : List Str) (t : ℕ) (before later : Database)
      → IsIssued id hashes (delete_mfa_recovery_codes_by_factor id t before).1 later
      → later.mfa_factors ≡ before.mfa_factors
  same_factors id hashes t before later issued =
      unfold delete_mfa_recovery_codes_by_factor in issued.factors

  -- The deletion of the old codes and the loop, after the statements on the factor.
  replaced-IsEnrolled :
      (id : ℕ) (hashes : List Str) (t : ℕ) (before later : Database)
      → IsActive id before
      → IsIssued id hashes (delete_mfa_recovery_codes_by_factor id t before).1 later
      → IsEnrolled id hashes later
  replaced-IsEnrolled id hashes t before later active issued = record {
    active =
        subst (λ fs. All (λ f. f.id ≡ id → (f.verified ≡ true) × (f.enabled ≡ true)) fs)
          (sym (same_factors id hashes t before later issued)) active;
    codes = issued.codes ∙ ap (λ cs. cs ++ unused hashes) (delete-none id t before);
  }

  -- The statements of the two transactions, one after the other.
  totp-IsEnrolled :
      (id step : ℕ) (hashes : List Str) (t t' t'' : ℕ) (before later : Database)
      → IsIssued id hashes
          (delete_mfa_recovery_codes_by_factor id t''
            (record_totp_success step id t' (verify_factor id t before).1).1).1
          later
      → IsTotpEnrolled id step hashes later
  totp-IsEnrolled id step hashes t t' t'' before later issued = record {
    enrolled =
        replaced-IsEnrolled id hashes t'' _ later
          (totp-IsActive step id t' _ (verify-IsActive id t before)) issued;
    used_at =
        subst (λ fs. All (λ f. f.id ≡ id → f.last_used_step ≡ some step) fs)
          (sym (same_factors id hashes t'' _ later issued))
          (totp-IsUsedAt step id t' (verify_factor id t before).1);
  }

  otp-IsEnrolled :
      (id : ℕ) (hashes : List Str) (t t' t'' : ℕ) (before later : Database)
      → IsIssued id hashes
          (delete_mfa_recovery_codes_by_factor id t''
            (record_otp_factor_success id t' (verify_factor id t before).1).1).1
          later
      → IsEnrolled id hashes later
  otp-IsEnrolled id hashes t t' t'' before later issued =
      replaced-IsEnrolled id hashes t'' _ later (otp-IsActive id t' _ (verify-IsActive id t before))
        issued

-- CompleteMFAEnrollment either fails and leaves the database as it was, or succeeds, and then the
-- factor is verified and enabled and has been used at the matched step, and its recovery codes are
-- those of the hashes, none of them used, with none left over from before.
pub complete_mfa_enrollment-Atomic :
    {C : Type 0} (env : Env C) (id step : ℕ) (hashes : List Str) (w : World C)
    → Atomic (IsTotpEnrolled id step hashes) w.db (complete_mfa_enrollment env id step hashes w)
unfolding complete_mfa_enrollment
complete_mfa_enrollment-Atomic env id step hashes w =
    with_tx-Atomic env (IsTotpEnrolled id step hashes) _ w (λ u same h.
      let (rest, verified) = statement-eq-ok env _ _ u (verify-IsPlain id) h in
      let (rest', recorded) = statement-eq-ok env _ _ _ (totp-IsPlain step id) rest in
      let (loop, deleted) = statement-eq-ok env _ _ _ (delete-IsPlain id) rest' in
      rw (verified, recorded, deleted)
        (totp-IsEnrolled env id step hashes _ _ _ u.db _
          (create_recovery_codes-IsIssued env id hashes _ loop)))

-- The transaction of an email or SMS factor either fails and leaves the database as it was, or succeeds,
-- and then the factor is verified and enabled, and its recovery codes are those of the hashes, none of
-- them used, with none left over from before.
pub complete_otp_factor_enrollment-Atomic :
    {C : Type 0} (env : Env C) (id : ℕ) (hashes : List Str) (w : World C)
    → Atomic (IsEnrolled id hashes) w.db (complete_otp_factor_enrollment env id hashes w)
unfolding complete_otp_factor_enrollment
complete_otp_factor_enrollment-Atomic env id hashes w =
    with_tx-Atomic env (IsEnrolled id hashes) _ w (λ u same h.
      let (rest, verified) = statement-eq-ok env _ _ u (verify-IsPlain id) h in
      let (rest', recorded) = statement-eq-ok env _ _ _ (otp-IsPlain id) rest in
      let (loop, deleted) = statement-eq-ok env _ _ _ (delete-IsPlain id) rest' in
      rw (verified, recorded, deleted)
        (otp-IsEnrolled env id hashes _ _ _ u.db _
          (create_recovery_codes-IsIssued env id hashes _ loop)))
