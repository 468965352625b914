-- ===== src/Cache.antt =====
-- What the services rely on of Redis: SET with an expiry, GET, EXISTS and DEL on string keys. The
-- store is a parameter `C`; its laws are those of the commands' documentation.
use golang_auth_api.Prelude.{
  ℕ, ◌+◌, ◌≡◌, Option, none, some, List, [], ◌∷◌, arith, ltb, if◌then◌else◌, Str, str_eq,
  str_eq_iff,
}
use golang_auth_api.Model.Rows.{OtpMeta}

-- A stored value. The JSON of a record is kept as the record that it decodes to.
pub data Value : Type 0 where
  text : Str → Value
  otp : OtpMeta → Value

pub record Redis (C : Type 0) : Type 0 where
  -- the value of a key at a time
  pub get : C → ℕ → Str → Option Value
  -- at a time, a key is set to a value that lives so long
  pub set : C → ℕ → Str → Value → ℕ → C
  pub del : C → Str → C
  pub get-set :
      (c : C) (now : ℕ) (k : Str) (v : Value) (ttl t : ℕ) (j : Str)
      → get (set c now k v ttl) t j
        ≡ (if str_eq k j then (if ltb t (now + ttl) then some v else none) else get c t j)
  pub get-del :
      (c : C) (k : Str) (t : ℕ) (j : Str)
      → get (del c k) t j ≡ (if str_eq k j then none else get c t j)

-- A store that has the laws: a list of keys with values and expiry times.
pub record Entry : Type 0 where
  pub key : Str
  pub value : Value
  pub expires : ℕ

unfoldable pub entry_get : List Entry → ℕ → Str → Option Value
entry_get [] t j = none
entry_get (e ∷ es) t j =
    let rest = entry_get es t j in
    if str_eq e.key j then (if ltb t e.expires then some e.value else none) else rest

unfoldable pub entry_del : List Entry → Str → List Entry
entry_del [] k = []
entry_del (e ∷ es) k = let rest = entry_del es k in if str_eq e.key k then rest else e ∷ rest

pub entry_get-del :
    (es : List Entry) (k : Str) (t : ℕ) (j : Str)
    → entry_get (entry_del es k) t j ≡ (if str_eq k j then none else entry_get es t j)
unfolding entry_get entry_del
entry_get-del [] k t j = ground arith
entry_get-del (e ∷ es) k t j =
    ground (arith, entry_get-del es k t j, str_eq_iff e.key k, str_eq_iff e.key j, str_eq_iff k j)

pub entry_get-set :
    (es : List Entry) (now : ℕ) (k : Str) (v : Value) (ttl t : ℕ) (j : Str)
    → entry_get (record { key = k; value = v; expires = now + ttl } ∷ es) t j
      ≡ (if str_eq k j then (if ltb t (now + ttl) then some v else none) else entry_get es t j)
unfolding entry_get
entry_get-set es now k v ttl t j = ground arith

abbrev pub redis_list : Redis (List Entry)
redis_list = record {
  get = entry_get;
  set = λ es now k v ttl. record { key = k; value = v; expires = now + ttl } ∷ es;
  del = entry_del;
  get-set = entry_get-set;
  get-del = entry_get-del;
}
