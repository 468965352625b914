-- ===== src/Exec.antt =====
-- Go functions that return `(T, error)`: a state-passing action whose result is a value or an
-- error. What was written before an error stays written, so the state comes back beside it.
pub mod Outcome
pub mod Preserves
use golang_auth_api.Prelude.{◌≡◌, refl, Bool, true, false, Option, none, some, if◌then◌else◌}

pub data Result {ℓ} (E A : Type ℓ) : Type ℓ where
  ok : A → Result E A
  err : E → Result E A

abbrev pub Exec {ℓ} : Type ℓ → Type ℓ → Type ℓ → Type ℓ
Exec S E A = S → Result E A × S

module _ {ℓ} {S E A : Type ℓ} where
  -- `return a, nil`
  pub pure : A → Exec S E A
  pure a s = (ok a, s)

  -- `return nil, e`
  pub raise : E → Exec S E A
  raise e s = (err e, s)

module _ {ℓ} {S E A : Type ℓ} where
  pub raise-ne-ok : (e : E) (s : S) {a : A} → (raise e s).0 ≡ ok a → ⊥
  unfolding raise
  raise-ne-ok e s h = cc

  pub pure-eq-ok : {b : A} (a : A) (s : S) → (pure {E = E} a s).0 ≡ ok b → a ≡ b
  unfolding pure
  pure-eq-ok a s h = cc

module _ {ℓ} {S A : Type ℓ} where
  pub pure-state : (E : Type ℓ) (a : A) (s : S) → (pure {E = E} a s).1 ≡ s
  unfolding pure
  pure-state E a s = refl

module _ {ℓ} {S E A B : Type ℓ} where
  -- After a call, the code that its error skips.
  abbrev pub proceed : Result E A → (A → Exec S E B) → Exec S E B
  proceed (err e) next t = (err e, t)
  proceed (ok a) next t = next a t

  infixl 5 ◌>>=◌ ◌>>◌
  -- Unfolding this unfolds the two ways to return as well.
  unfoldable pub ◌>>=◌ : Exec S E A → (A → Exec S E B) → Exec S E B
  unfolding raise pure
  ◌>>=◌ act next s = proceed (act s).0 next (act s).1

  abbrev pub ◌>>◌ : Exec S E A → Exec S E B → Exec S E B
  act >> next = act >>= λ skipped. next

  pub pure-bind : (a : A) (f : A → Exec S E B) (s : S) → (pure a >>= f) s ≡ f a s
  unfolding ◌>>=◌
  pure-bind a f s = refl

  proceed-eq-ok :
      (r : Result E A) (f : A → Exec S E B) (t : S) {b : B}
      → (proceed r f t).0 ≡ ok b
      → (a : A) × (r ≡ ok a) × ((f a t).0 ≡ ok b)
  proceed-eq-ok (ok a) f t h = (a, refl, h)
  proceed-eq-ok (err e) f t h = cc

  -- A block that succeeds ran its first step to a value, and the rest from there.
  pub bind-eq-ok :
      (m : Exec S E A) (f : A → Exec S E B) (s : S) {b : B}
      → ((m >>= f) s).0 ≡ ok b
      → (a : A) × ((m s).0 ≡ ok a) × ((f a (m s).1).0 ≡ ok b)
  unfolding ◌>>=◌
  bind-eq-ok m f s h = proceed-eq-ok (m s).0 f (m s).1 h

module _ {ℓ κ} {S E A B : Type ℓ} (Q : Result E B × S → Type κ) where
  holds-proceed :
      (r : Result E A) (f : A → Exec S E B) (t : S)
      → ((e : E) → r ≡ err e → Q (err e, t))
      → ((a : A) → r ≡ ok a → Q (f a t))
      → Q (proceed r f t)
  holds-proceed (ok a) f t bad good = good a refl
  holds-proceed (err e) f t bad good = bad e refl

  -- What a block establishes: in the step's own error, or in the rest after it.
  pub holds-bind :
      (m : Exec S E A) (f : A → Exec S E B) (s : S)
      → ((e : E) → (m s).0 ≡ err e → Q (err e, (m s).1))
      → ((a : A) → (m s).0 ≡ ok a → Q (f a (m s).1))
      → Q ((m >>= f) s)
  unfolding ◌>>=◌
  holds-bind m f s bad good = holds-proceed (m s).0 f (m s).1 bad good

module _ {S E : Type 0} where
  -- `if !b { return e }`
  abbrev pub require : Bool → E → Exec S E (Unit {0})
  require b e = if b then pure tt else raise e

  -- `if !ok { return e }`
  abbrev pub or_raise : {A : Type 0} → Option A → E → Exec S E A
  or_raise none e = raise e
  or_raise (some a) e = pure a

  module _ {B : Type 0} {b : B} where
    pub require-eq-ok :
        (c : Bool) (e : E) (f : Unit {0} → Exec S E B) (s : S)
        → ((require c e >>= f) s).0 ≡ ok b
        → (c ≡ true) × ((f tt s).0 ≡ ok b)
    unfolding ◌>>=◌
    require-eq-ok true e f s h = (refl, h)
    require-eq-ok false e f s h = cc

    pub or_raise-eq-ok :
        {A : Type 0} (o : Option A) (e : E) (f : A → Exec S E B) (s : S)
        → ((or_raise o e >>= f) s).0 ≡ ok b
        → (a : A) × (o ≡ some a) × ((f a s).0 ≡ ok b)
    unfolding ◌>>=◌
    or_raise-eq-ok none e f s h = cc
    or_raise-eq-ok (some a) e f s h = (a, refl, h)

  pub or_raise-value :
      {A : Type 0} (o : Option A) (e : E) (s : S) {a : A} → (or_raise o e s).0 ≡ ok a → o ≡ some a
  unfolding ◌>>=◌
  or_raise-value none e s h = cc
  or_raise-value (some b) e s h = cc

  module _ {κ} {B : Type 0} (Q : Result E B × S → Type κ) where
    pub holds-require :
        (c : Bool) (e : E) (f : Unit {0} → Exec S E B) (s : S)
        → (c ≡ false → Q (err e, s))
        → (c ≡ true → Q (f tt s))
        → Q ((require c e >>= f) s)
    unfolding ◌>>=◌
    holds-require true e f s bad good = good refl
    holds-require false e f s bad good = bad refl

    pub holds-or_raise :
        {A : Type 0} (o : Option A) (e : E) (f : A → Exec S E B) (s : S)
        → (o ≡ none → Q (err e, s))
        → ((a : A) → o ≡ some a → Q (f a s))
        → Q ((or_raise o e >>= f) s)
    unfolding ◌>>=◌
    holds-or_raise none e f s bad good = bad refl
    holds-or_raise (some a) e f s bad good = good a refl
