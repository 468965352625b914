-- ===== src/Exec/Preserves.antt =====
-- Invariants that an action leaves in place, by the way the action is built.
use golang_auth_api.Prelude.{Bool, true, false, Option, none, some, if◌then◌else◌}
use golang_auth_api.Exec.{Result, ok, err, Exec, pure, raise, proceed, or_raise, ◌>>=◌}

-- The invariant holds after every run that began with it, also one that ended in an error.
pub record Preserves {S E A : Type 0} (Inv : S → Type 0) (act : Exec S E A) : Type 0 where
  pub kept : (w : S) → Inv w → Inv (act w).1

module _ {S E : Type 0} {Inv : S → Type 0} where
  module _ {A B : Type 0} where
    proceed-Preserves :
        (out : Result E A) (next : A → Exec S E B) (w : S)
        → ((a : A) → Preserves Inv (next a))
        → Inv w
        → Inv (proceed out next w).1
    proceed-Preserves (err e) next w each inv = inv
    proceed-Preserves (ok a) next w each inv = (each a).kept w inv

    pub Preserves-bind :
        (act : Exec S E A) (next : A → Exec S E B)
        → Preserves Inv act
        → ((a : A) → Preserves Inv (next a))
        → Preserves Inv (act >>= next)
    unfolding ◌>>=◌
    Preserves-bind act next first each = record {
      kept = λ w inv. proceed-Preserves (act w).0 next (act w).1 each (first.kept w inv);
    }

  module _ {A : Type 0} where
    pub Preserves-raise : (e : E) → Preserves {A = A} Inv (raise e)
    unfolding ◌>>=◌
    Preserves-raise e = record { kept = λ w inv. inv }

    pub Preserves-pure : (a : A) → Preserves {E = E} Inv (pure a)
    unfolding ◌>>=◌
    Preserves-pure a = record { kept = λ w inv. inv }

    pub Preserves-or_raise : (o : Option A) (e : E) → Preserves Inv (or_raise o e)
    Preserves-or_raise none e = Preserves-raise e
    Preserves-or_raise (some a) e = Preserves-pure a

    pub Preserves-if :
        (test : Bool) {yes_act no_act : Exec S E A}
        → Preserves Inv yes_act
        → Preserves Inv no_act
        → Preserves Inv (if test then yes_act else no_act)
    Preserves-if true p q = p
    Preserves-if false p q = q

pub ruleset preserves_rules =
    (Preserves-bind, Preserves-or_raise, Preserves-if, Preserves-pure, Preserves-raise)
