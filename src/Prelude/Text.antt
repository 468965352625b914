-- ===== src/Prelude/Text.antt =====
-- Go strings as lists of bytes, with the functions of package `strings` that the program calls.
-- `trim_space` and `to_lower` are those of ASCII text.
use Prim.Native.Nat.{ℕ, ◌+◌, ◌-◌, compare, Ordering}
use Prim.Native.Char.{code}
use Prim.Native.String.{String}
use mathlib.Core.Path.{◌≡◌, refl}
use mathlib.Core.Logic.{◌↔◌}
use mathlib.Core.Bool.{Bool, true, false, ◌&&◌, ◌||◌, cond}
use mathlib.Core.List.{List, [], ◌∷◌, ◌++◌, map, reverse}
use native.Mathlib.Omega.{arith}

abbrev pub Str : Type 0
Str = List ℕ

-- The bytes of an ASCII literal.
abbrev pub codes : String → Str
codes String.[] = []
codes (String.◌∷◌ c s) = code c ∷ codes s

abbrev byte_eq : ℕ → ℕ → Bool
byte_eq a b = elim (compare a b) [ Ordering.eq ↦ true | _ ↦ false ]

abbrev byte_le : ℕ → ℕ → Bool
byte_le a b = elim (compare a b) [ Ordering.gt ↦ false | _ ↦ true ]

-- a == b
unfoldable pub str_eq : Str → Str → Bool
str_eq [] [] = true
str_eq [] (b ∷ bs) = false
str_eq (a ∷ as') [] = false
str_eq (a ∷ as') (b ∷ bs) = byte_eq a b && str_eq as' bs

pub str_eq_iff : (a b : Str) → (str_eq a b ≡ true) ↔ (a ≡ b)
unfolding str_eq
str_eq_iff [] [] = ground arith
str_eq_iff [] (b ∷ bs) = ground arith
str_eq_iff (a ∷ as') [] = ground arith
str_eq_iff (a ∷ as') (b ∷ bs) = ground (arith, str_eq_iff as' bs)

pub str_eq_refl : (a : Str) → str_eq a a ≡ true
str_eq_refl a = (str_eq_iff a a).1 refl

abbrev is_space : ℕ → Bool
is_space c = byte_eq c b' ' || (byte_le 9 c && byte_le c 13)

unfoldable pub trim_left : Str → Str
trim_left [] = []
trim_left (c ∷ cs) = cond (is_space c) (trim_left cs) (c ∷ cs)

-- strings.TrimSpace
unfoldable pub trim_space : Str → Str
unfolding trim_left
trim_space s = reverse (trim_left (reverse (trim_left s)))

abbrev lower : ℕ → ℕ
lower c = cond (byte_le b'A' c && byte_le c b'Z') (c + 32) c

abbrev upper : ℕ → ℕ
upper c = cond (byte_le b'a' c && byte_le c b'z') (c - 32) c

-- strings.ToLower
unfoldable pub to_lower : Str → Str
to_lower s = map lower s

-- strings.ToUpper
unfoldable pub to_upper : Str → Str
to_upper s = map upper s

-- strings.HasPrefix
unfoldable pub has_prefix : Str → Str → Bool
has_prefix s [] = true
has_prefix [] (p ∷ ps) = false
has_prefix (c ∷ cs) (p ∷ ps) = byte_eq c p && has_prefix cs ps

-- strings.TrimPrefix, after `has_prefix` has answered true
unfoldable pub drop_prefix : Str → Str → Str
drop_prefix s [] = s
drop_prefix [] (p ∷ ps) = []
drop_prefix (c ∷ cs) (p ∷ ps) = drop_prefix cs ps

unfoldable pub all_bytes : (ℕ → Bool) → Str → Bool
all_bytes p [] = true
all_bytes p (c ∷ cs) = p c && all_bytes p cs

unfoldable pub is_empty : Str → Bool
is_empty [] = true
is_empty (c ∷ cs) = false

abbrev cons_part : ℕ → List Str → List Str
cons_part c [] = (c ∷ []) ∷ []
cons_part c (p ∷ ps) = (c ∷ p) ∷ ps

-- strings.Split by one byte
unfoldable pub split : ℕ → Str → List Str
split sep [] = [] ∷ []
split sep (c ∷ cs) = cond (byte_eq c sep) ([] ∷ split sep cs) (cons_part c (split sep cs))

-- strings.Join
unfoldable pub join : Str → List Str → Str
join sep [] = []
join sep (p ∷ []) = p
join sep (p ∷ q ∷ qs) = p ++ (sep ++ join sep (q ∷ qs))
