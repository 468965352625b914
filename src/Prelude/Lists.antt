-- ===== src/Prelude/Lists.antt =====
-- Laws of the row operations of Prelude: what `update_where` and `find` establish.
use mathlib.Core.Path.{subst}
use mathlib.Core.Option.{some-injective}
use golang_auth_api.Prelude.{
  ap, ◌≡◌, refl, ◌+◌, Bool, true, false, not, some, List, [], ◌∷◌, ◌++◌, map, inl, inr, Bool-cases,
  length, take, drop, find, any, keep, update_where, All, arith,
}

module _ {ℓ κ} {A : Type ℓ} (Q : A → Type κ) where
  -- Every row has `Q` after the update, if the changed and the kept ones do.
  pub All-update_where :
      (p : A → Bool) (f : A → A)
      → ((x : A) → p x ≡ true → Q (f x))
      → ((x : A) → p x ≡ false → Q x)
      → (xs : List A) → All Q (update_where p f xs)
  unfolding update_where
  All-update_where p f changed kept [] = tt
  All-update_where p f changed kept (x ∷ xs) = elim (Bool-cases (p x)) [
    | inl e ↦ (rw e (changed x e), All-update_where p f changed kept xs)
    | inr e ↦ (rw e (kept x e), All-update_where p f changed kept xs)
  ]

  -- A property that the change keeps.
  pub All-update_where_self :
      (p : A → Bool) (f : A → A)
      → ((x : A) → Q x → Q (f x))
      → (xs : List A) → All Q xs
      → All Q (update_where p f xs)
  unfolding update_where
  All-update_where_self p f keeps [] h = tt
  All-update_where_self p f keeps (x ∷ xs) (q, h) = elim (Bool-cases (p x)) [
    | inl e ↦ (rw e (keeps x q), All-update_where_self p f keeps xs h)
    | inr e ↦ (rw e q, All-update_where_self p f keeps xs h)
  ]

  pub All-append : (xs ys : List A) → All Q xs → All Q ys → All Q (xs ++ ys)
  All-append [] ys h k = k
  All-append (x ∷ xs) ys (q, h) k = (q, All-append xs ys h k)

  -- What a search finds is a row of the table.
  pub All-find : (p : A → Bool) (xs : List A) {x : A} → All Q xs → find p xs ≡ some x → Q x
  unfolding find
  All-find p [] h e = cc
  All-find p (y ∷ ys) {x} (q, h) e = elim (Bool-cases (p y)) [
    | inl hit ↦ subst Q (some-injective y x (rw hit at e)) q
    | inr miss ↦ All-find p ys h (rw (miss, find) at e)
  ]

module _ {ℓ} {A : Type ℓ} where
  pub find-holds : (p : A → Bool) (xs : List A) {x : A} → find p xs ≡ some x → p x ≡ true
  unfolding find
  find-holds p [] e = cc
  find-holds p (y ∷ ys) e = elim (Bool-cases (p y)) [
    | inl hit ↦ ground (arith)
    | inr miss ↦ find-holds p ys (rw (miss, find) at e)
  ]

  -- What a search finds after an update of what it looks for.
  pub find-update_where :
      (p : A → Bool) (f : A → A)
      → ((x : A) → p (f x) ≡ p x)
      → (xs : List A) {x : A} → find p xs ≡ some x
      → find p (update_where p f xs) ≡ some (f x)
  unfolding find update_where
  find-update_where p f keeps [] e = cc
  find-update_where p f keeps (y ∷ ys) e = elim (Bool-cases (p y)) [
    | inl hit ↦ rw (hit, keeps y, hit) (ap (λ z. some (f z)) (some-injective _ _ (rw hit at e)))
    | inr miss ↦ rw (miss, miss) (find-update_where p f keeps ys (rw miss at e))
  ]

  pub take-append : (xs ys : List A) → take (length xs) (xs ++ ys) ≡ xs
  take-append [] ys = refl
  take-append (x ∷ xs) ys = ap (λ zs. x ∷ zs) (take-append xs ys)

  pub drop-append : (xs ys : List A) → drop (length xs) (xs ++ ys) ≡ ys
  drop-append [] ys = refl
  drop-append (x ∷ xs) ys = drop-append xs ys

  pub length-append : (xs ys : List A) → length (xs ++ ys) ≡ length xs + length ys
  length-append [] ys = omega arith
  length-append (x ∷ xs) ys = let rest = length-append xs ys in omega arith

  pub keep-append : (p : A → Bool) (xs ys : List A) → keep p (xs ++ ys) ≡ keep p xs ++ keep p ys
  unfolding keep
  keep-append p [] ys = refl
  keep-append p (x ∷ xs) ys = elim (Bool-cases (p x)) [
    | inl e ↦ rw (e, keep-append p xs ys) refl
    | inr e ↦ rw (e, keep-append p xs ys) refl
  ]

  -- The rows that a DELETE removed are gone.
  pub keep-not : (p : A → Bool) (xs : List A) → keep p (keep (λ x. not (p x)) xs) ≡ []
  unfolding keep
  keep-not p [] = refl
  keep-not p (x ∷ xs) = elim (Bool-cases (p x)) [
    | inl e ↦ rw e (keep-not p xs)
    | inr e ↦ rw (e, e) (keep-not p xs)
  ]

  -- A search that finds nothing in the front goes on in the rest.
  pub find-append_miss :
      (p : A → Bool) (xs ys : List A) → any p xs ≡ false → find p (xs ++ ys) ≡ find p ys
  unfolding find any
  find-append_miss p [] ys h = refl
  find-append_miss p (x ∷ xs) ys h = elim (Bool-cases (p x)) [
    | inl e ↦ (let bad = rw e at h in cc)
    | inr e ↦ rw e (find-append_miss p xs ys (rw e at h))
  ]

  pub any-find : (p : A → Bool) (xs : List A) → any p xs ≡ true → (x : A) × (find p xs ≡ some x)
  unfolding find any
  any-find p [] h = cc
  any-find p (x ∷ xs) h = elim (Bool-cases (p x)) [
    | inl e ↦ (x, rw e refl)
    | inr e ↦ rw e (any-find p xs (rw e at h))
  ]

module _ {ℓ κ} {A : Type ℓ} {B : Type κ} where
  pub map-append : (f : A → B) (xs ys : List A) → map f (xs ++ ys) ≡ map f xs ++ map f ys
  map-append f [] ys = refl
  map-append f (x ∷ xs) ys = ap (λ zs. f x ∷ zs) (map-append f xs ys)
