-- ===== src/Exec/Outcome.antt =====
-- What every run of an action returns, whatever the state.
use golang_auth_api.Prelude.{◌≡◌, refl, Bool, true, false, if◌then◌else◌}
use golang_auth_api.Exec.{Result, ok, err, Exec, pure, raise, ◌>>=◌, ◌>>◌}

-- Every result of `m` has the property `F`.
pub record Always {ℓ κ} {S E A : Type ℓ} (F : Result E A → Type κ) (m : Exec S E A)
    : Type (ℓ ⊔ κ) where
  pub at : (s : S) → F (m s).0

-- `m` never returns an error.
pub record NeverFails {ℓ} {S E A : Type ℓ} (m : Exec S E A) : Type ℓ where
  pub at : (s : S) → (a : A) × ((m s).0 ≡ ok a)

module _ {ℓ κ} {S E A : Type ℓ} {F : Result E A → Type κ} where
  pub Always-pure : (a : A) → F (ok a) → Always {S = S} F (pure a)
  unfolding ◌>>=◌
  Always-pure a h = record { at = λ s. h }

  pub Always-raise : (e : E) → F (err e) → Always {S = S} F (raise e)
  unfolding ◌>>=◌
  Always-raise e h = record { at = λ s. h }

  pub Always-if :
      (b : Bool) (m n : Exec S E A)
      → (b ≡ true → Always F m)
      → (b ≡ false → Always F n)
      → Always F (if b then m else n)
  Always-if true m n km kn = km refl
  Always-if false m n km kn = kn refl

module _ {ℓ κ} {S E A B : Type ℓ} {F : Result E B → Type κ} where
  -- After a step that never fails, the rest decides.
  pub Always-bind :
      (m : Exec S E A) (f : A → Exec S E B)
      → NeverFails m
      → ((a : A) → Always F (f a))
      → Always F (m >>= f)
  unfolding ◌>>=◌
  Always-bind m f km kf = record { at = λ s. let (a, e) = km.at s in rw e ((kf a).at (m s).1) }

module _ {ℓ} {S E A B : Type ℓ} where
  -- A step that never fails, and then an error.
  pub then-raise :
      (m : Exec S E A) (e : E) (s : S) → NeverFails m → (m >> raise {A = B} e) s ≡ (err e, (m s).1)
  unfolding ◌>>=◌
  then-raise m e s km = let (a, r) = km.at s in rw r refl

module _ {ℓ} {S E A : Type ℓ} where
  pub NeverFails-pure : (a : A) → NeverFails {S = S} {E = E} (pure a)
  unfolding ◌>>=◌
  NeverFails-pure a = record { at = λ s. (a, refl) }

  pub NeverFails-if :
      (b : Bool) (m n : Exec S E A) → NeverFails m → NeverFails n → NeverFails (if b then m else n)
  NeverFails-if true m n km kn = km
  NeverFails-if false m n km kn = kn

module _ {ℓ} {S E A B : Type ℓ} where
  pub NeverFails-bind :
      (m : Exec S E A) (f : A → Exec S E B)
      → NeverFails m
      → ((a : A) → NeverFails (f a))
      → NeverFails (m >>= f)
  unfolding ◌>>=◌
  NeverFails-bind m f km kf = record { at = λ s. let (a, e) = km.at s in rw e ((kf a).at (m s).1) }

-- `P` holds if the result is a value.
abbrev pub IfOk {ℓ κ} : {E A : Type ℓ} → Type κ → Result E A → Type κ
IfOk P (ok a) = P
IfOk P (err e) = Unit

module _ {ℓ κ} {E A : Type ℓ} {P : Type κ} where
  IfOk-intro : P → (r : Result E A) → IfOk P r
  IfOk-intro p (ok a) = p
  IfOk-intro p (err e) = tt

  pub IfOk-elim : {r : Result E A} {a : A} → IfOk P r → r ≡ ok a → P
  IfOk-elim h e = rw e at h

module _ {ℓ κ} {S E A : Type ℓ} {P : Type κ} where
  pub Always-IfOk : (m : Exec S E A) → P → Always (IfOk P) m
  Always-IfOk m p = record { at = λ s. IfOk-intro p (m s).0 }

  -- An action that always fails yields no value.
  pub Always-fails : (m : Exec S E A) (e : E) → Always (λ r. r ≡ err e) m → Always (IfOk P) m
  Always-fails m e h = record { at = λ s. rw (h.at s) tt }

pub ruleset outcome_rules = (
  Always-pure, Always-raise, Always-if, Always-bind, NeverFails-pure, NeverFails-if,
  NeverFails-bind,
)
