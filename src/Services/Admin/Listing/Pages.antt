-- ===== src/Services/Admin/Listing/Pages.antt =====
-- The size of a page.
use Prim.Native.Nat.{◌%◌}
use native.Mathlib.Nat.{mod-eq_of_lt}
use mathlib.Core.Path.{subst}
use mathlib.Core.List.{reverse}
use golang_auth_api.Prelude.{
  ◌⊎◌, ◌<◌, is_empty, is_some, none, some, keep, ◌≤◌, ◌≡◌, ◌∙◌, ap, refl, sym, ℕ, zero, suc, Bool,
  true, false, Bool-cases, inl, inr, ltb, leb, if◌then◌else◌, List, [], ◌∷◌, length, take, drop,
  Option, Str, trim_space, arith,
}
use golang_auth_api.Prelude.Integers.{ℤ, pos, negsuc, int32}
use golang_auth_api.Exec.{or_raise-eq-ok, ok, ◌>>=◌, bind-eq-ok, pure-eq-ok, raise-ne-ok}
use golang_auth_api.Exec.Preserves.{Preserves, preserves_rules}
use golang_auth_api.Model.Errors.{ErrorDetail, internal_server_error, invalid_payload, invalid_role}
use golang_auth_api.Model.Rows.{UserStatus, UserRole, User, Database}
use golang_auth_api.Platform.{Env, World, Service, Reply, found, no_rows, failed}
use golang_auth_api.Platform.Calls.{query}
use golang_auth_api.Platform.CallLaws.{query-bind}
use golang_auth_api.Platform.Frame.{HasDatabase}
use golang_auth_api.Database.Listing.{fits, UserFilter, page, list_users, count_users}
use golang_auth_api.Services.Common.{must_find}
use golang_auth_api.Services.Admin.{parse_user_status, parse_user_role}
use golang_auth_api.Services.Admin.Listing.{
  AdminListUsersParams, Listed, page_limit, page_offset, filter_of, parse_filter, list_users_page,
}

-- A page holds 1 to 100 rows.
page_limit-bounds : (n : ℤ) → (1 ≤ page_limit n) × (page_limit n ≤ 100)
unfolding page_limit
page_limit-bounds (negsuc n) = (omega arith, omega arith)
page_limit-bounds (pos n) = elim (Bool-cases (leb n 0)) [
  | inl zero_or_less ↦ rw zero_or_less (omega arith, omega arith)
  | inr given ↦ elim (Bool-cases (ltb 100 n)) [
    | inl over ↦ rw (given, over) (omega arith, omega arith)
    | inr within ↦ rw (given, within) (ground arith, ground arith)
  ]
]

int32_small : (n : ℕ) → n ≤ 100 → int32 n ≡ pos n
unfolding int32
int32_small n h =
    let same : n % 4294967296 ≡ n = mod-eq_of_lt (omega arith) in
    let low : ltb n 2147483648 ≡ true = ground arith in rw (same, low) refl

length-take : {A : Type 0} (n : ℕ) (xs : List A) → length (take n xs) ≤ n
length-take zero xs = omega arith
length-take (suc n) [] = omega arith
length-take (suc n) (x ∷ xs) = let rest = length-take n xs in omega arith

found-injective : {A : Type 0} (a b : A) → found a ≡ found b → a ≡ b
found-injective a b h = cc

length-page :
    {A : Type 0} (n : ℕ) (offset : ℤ) (xs rows : List A)
    → page (pos n) offset xs ≡ found rows
    → length rows ≤ n
unfolding page
length-page n (pos k) xs rows h =
    subst (λ ys. length ys ≤ n) (found-injective _ rows h) (length-take n (drop k xs))
length-page n (negsuc k) xs rows h = cc

must_find-found :
    {C A : Type 0} (r : Reply A) (down : Bool) (w : World C) {a : A}
    → (must_find (if down then failed else r) w).0 ≡ ok a
    → r ≡ found a
must_find-found r true w h = absurd (raise-ne-ok internal_server_error w h)
must_find-found (found a) false w h = ap found (pure-eq-ok a w h)
must_find-found no_rows false w h = absurd (raise-ne-ok internal_server_error w h)
must_find-found failed false w h = absurd (raise-ne-ok internal_server_error w h)

-- The limit of a page: the given one within 1 to 100, and 25 otherwise.
abbrev pub IsLimit : ℤ → ℕ → Type 0
IsLimit (negsuc m) n = n ≡ 25
IsLimit (pos m) n = ((1 ≤ m) × (m ≤ 100) × (n ≡ m)) ⊎ (((m ≡ 0) ⊎ (100 < m)) × (n ≡ 25))

-- The rows that a page skips, where the offset fits into 32 bits.
abbrev pub Skips : ℤ → ℕ → Type 0
Skips (negsuc m) k = k ≡ 0
Skips (pos m) k = (m < 2147483648) × (k ≡ m)

-- What a parameter of the query filters by: nothing where it is blank, and else what it is parsed to.
abbrev pub FiltersBy : {A : Type 0} → (Str → Option A) → Str → Option A → Type 0
FiltersBy parse s o =
    ((is_empty (trim_space s) ≡ true) × (o ≡ none))
    ⊎ ((is_empty (trim_space s) ≡ false) × (is_some o ≡ true) × (parse (trim_space s) ≡ o))

-- The page of a filter, newest rows first, and the number of all rows that it lets through.
pub record IsPage (params : AdminListUsersParams) (db : Database) (listed : Listed User)
    : Type 0 where
  pub status : Option UserStatus
  pub by_status : FiltersBy parse_user_status params.status status
  pub role : Option UserRole
  pub by_role : FiltersBy parse_user_role params.role role
  pub limit : ℕ
  pub is_limit : IsLimit params.limit limit
  pub rows :
      (k : ℕ)
      → Skips params.offset k
      → listed.rows
        ≡ take limit (drop k (reverse (keep (fits (filter_of params status role)) db.users)))
  pub size : length listed.rows ≤ limit
  pub total : listed.total ≡ length (keep (fits (filter_of params status role)) db.users)

page_limit-IsLimit : (n : ℤ) → IsLimit n (page_limit n)
unfolding page_limit
page_limit-IsLimit (negsuc m) = refl
page_limit-IsLimit (pos m) = elim (Bool-cases (leb m 0)) [
  | inl none_given ↦ rw none_given (inr (inl (ground arith), refl))
  | inr some_given ↦ elim (Bool-cases (ltb 100 m)) [
    | inl over ↦ rw (some_given, over) (inr (inr (ground arith), refl))
    | inr within ↦ rw (some_given, within) (inl (ground arith, ground arith, refl))
  ]
]

-- int32 of an offset that fits into 32 bits
page_offset-Skips : (n : ℤ) (k : ℕ) → Skips n k → int32 (page_offset n) ≡ pos k
unfolding page_offset int32
page_offset-Skips (negsuc m) k h = rw h refl
page_offset-Skips (pos m) k (fits32, same) =
    let whole : m % 4294967296 ≡ m = mod-eq_of_lt (omega arith) in
    let low : ltb m 2147483648 ≡ true = ground arith in rw (whole, low, same) refl

count_users-found :
    (filter : UserFilter) (db : Database) (n : ℕ)
    → count_users filter db ≡ found n
    → n ≡ length (keep (fits filter) db.users)
unfolding count_users
count_users-found filter db n h = sym (found-injective _ n h)

list_users-found :
    (params : AdminListUsersParams) (filter : UserFilter) (db : Database) (rows : List User) (k : ℕ)
    → Skips params.offset k
    → list_users filter (int32 (page_limit params.limit)) (int32 (page_offset params.offset)) db
      ≡ found rows
    → rows ≡ take (page_limit params.limit) (drop k (reverse (keep (fits filter) db.users)))
unfolding list_users page
list_users-found params filter db rows k skips h =
    let limit = int32_small (page_limit params.limit) (page_limit-bounds params.limit).1 in
    let offset = page_offset-Skips params.offset k skips in
    sym (found-injective _ rows (rw (limit, offset) at h))

page_size :
    (params : AdminListUsersParams) (filter : UserFilter) (db : Database) (rows : List User)
    → list_users filter (int32 (page_limit params.limit)) (int32 (page_offset params.offset)) db
      ≡ found rows
    → length rows ≤ page_limit params.limit
unfolding list_users
page_size params filter db rows h =
    length-page (page_limit params.limit) (int32 (page_offset params.offset)) _ rows
      (rw (int32_small (page_limit params.limit) (page_limit-bounds params.limit).1) at h)

Preserves-must_find :
    {C A : Type 0} (db : Database) (r : Reply A)
    → Preserves {S = World C} (HasDatabase db) (must_find r)
Preserves-must_find db (found a) = search preserves_rules
Preserves-must_find db no_rows = search preserves_rules
Preserves-must_find db failed = search preserves_rules

module _ {C : Type 0} (env : Env C) where
  parse_filter-FiltersBy :
      {A : Type 0} (parse : Str → Option A) (e : ErrorDetail) (s : Str) (w : World C) {o : Option A}
      → (parse_filter env parse e (trim_space s) w).0 ≡ ok o
      → FiltersBy parse s o
  unfolding parse_filter
  parse_filter-FiltersBy parse e s w h = elim (Bool-cases (is_empty (trim_space s))) [
    | inl blank ↦ inl (blank, sym (pure-eq-ok _ w (rw blank at h)))
    | inr given ↦
        let (a, parsed, last) = or_raise-eq-ok _ e _ w (rw given at h) in
        let value = pure-eq-ok (some a) w last in
        inr (given, ap is_some (sym value), parsed ∙ value)
  ]

  Preserves-parse_filter :
      {A : Type 0} (db : Database) (parse : Str → Option A) (e : ErrorDetail) (s : Str)
      → Preserves (HasDatabase db) (parse_filter env parse e s)
  unfolding parse_filter
  Preserves-parse_filter db parse e s = search preserves_rules

  -- A query that a service waits for has an answer of the tables, and leaves them.
  query-must_find :
      {A B : Type 0} (q : Database → Reply A) (f : A → Service C B) (db : Database) (w : World C)
      {b : B}
      → w.db ≡ db
      → ((query env (λ t d. q d) >>= λ r. must_find r >>= f) w).0 ≡ ok b
      → (a : A) × (v : World C) × (q db ≡ found a) × (v.db ≡ db) × ((f a v).0 ≡ ok b)
  query-must_find q f db w same h =
      let (a, got, h1) = bind-eq-ok _ f _ (rw (query-bind env _ _ w) at h) in
      (
        a,
        _,
        (ap q (sym same) ∙ must_find-found _ (env.db_fails w.calls) _ got),
        (Preserves-must_find db _).kept _ same,
        h1,
      )

  -- ListUsers returns the number of all rows that the filter lets through, and at most as many of them as
  -- the limit: with the newest first, those behind the offset, where it fits into 32 bits. The limit is
  -- the given one within 1 to 100 and 25 otherwise, a negative offset is none, and the filter has the
  -- status and the role that the parameters are parsed to, unless they are blank.
  pub list_users_page-IsPage :
      (params : AdminListUsersParams) (w : World C) {listed : Listed User}
      → (list_users_page env params w).0 ≡ ok listed
      → IsPage params w.db listed
  unfolding list_users_page
  list_users_page-IsPage params w h =
      let (status, parsed, h1) = bind-eq-ok _ _ w h in
      let status_filter = trim_space params.status in
      let same =
        (Preserves-parse_filter w.db parse_user_status invalid_payload status_filter).kept w refl in
      let (role, parsed', h2) = bind-eq-ok _ _ _ h1 in
      let role_filter = trim_space params.role in
      let after_status = (parse_filter env parse_user_status invalid_payload status_filter w).1 in
      let same' =
        (Preserves-parse_filter w.db parse_user_role invalid_role role_filter).kept after_status
          same in
      let (rows, v, selected, left, h3) = query-must_find _ _ w.db _ same' h2 in
      let (total, v', counted, left', h4) = query-must_find _ _ w.db _ left h3 in
      let is_listed = pure-eq-ok _ v' h4 in
      subst (IsPage params w.db) is_listed (record {
        status = status;
        by_status = parse_filter-FiltersBy parse_user_status invalid_payload params.status w parsed;
        role = role;
        by_role =
            parse_filter-FiltersBy parse_user_role invalid_role params.role after_status parsed';
        limit = page_limit params.limit;
        is_limit = page_limit-IsLimit params.limit;
        rows = λ k skips. list_users-found params _ w.db rows k skips selected;
        size = page_size params (filter_of params status role) w.db rows selected;
        total = count_users-found _ w.db total counted;
      })
