-- ===== src/Database/Listing.antt =====
-- internal/db/postgres/admin.sql.go: the listings. Rows stand in the order in which they were created, so
-- ORDER BY created_at DESC turns them around.
use mathlib.Core.List.{reverse}
use golang_auth_api.Prelude.{
  ℕ, Bool, true, false, ◌&&◌, ◌||◌, ◌==◌, Option, none, some, List, [], ◌∷◌, ◌++◌, if◌then◌else◌,
  length, take, drop, keep, is_empty, Str, to_lower,
}
use golang_auth_api.Prelude.Integers.{ℤ, pos, negsuc}
use golang_auth_api.Model.Rows.{UserStatus, UserRole, User, AuditLog, Database}
use golang_auth_api.Platform.{Reply, found, failed}

-- A pattern of LIKE against a text: `%` is any text, `_` any character, `\` takes the next one literally.
unfoldable pub some_suffix : (Str → Bool) → Str → Bool
some_suffix p [] = p []
some_suffix p (c ∷ cs) = p (c ∷ cs) || some_suffix p cs

abbrev one_more : (ℕ → Bool) → (Str → Bool) → Str → Bool
one_more test rest [] = false
one_more test rest (c ∷ cs) = test c && rest cs

-- The pattern behind an escape, if `escaped`.
unfoldable pub like_from : Bool → Str → Str → Bool
unfolding some_suffix
like_from escaped [] = is_empty
like_from escaped (p ∷ ps) =
    let plain = like_from false ps in
    let behind_escape = like_from true ps in
    if escaped
    then one_more (λ c. c == p) plain
    else if p == 92
    then behind_escape
    else if p == b'%'
    then some_suffix plain
    else if p == b'_'
    then one_more (λ c. true) plain
    else one_more (λ c. c == p) plain

-- ILIKE '%' || pattern || '%', for ASCII
unfoldable pub ilike_within : Str → Str → Bool
unfolding like_from
ilike_within pattern s = like_from false (to_lower ((b'%' ∷ pattern) ++ b'%' ∷ [])) (to_lower s)

abbrev pub same_status : UserStatus → UserStatus → Bool
same_status UserStatus.active UserStatus.active = true
same_status UserStatus.offline UserStatus.offline = true
same_status UserStatus.disabled UserStatus.disabled = true
same_status UserStatus.banned UserStatus.banned = true
same_status _ _ = false

abbrev pub same_role : UserRole → UserRole → Bool
same_role UserRole.user UserRole.user = true
same_role UserRole.moderator UserRole.moderator = true
same_role UserRole.admin UserRole.admin = true
same_role _ _ = false

-- ListUsersParams and CountUsersParams without the page
pub record UserFilter : Type 0 where
  pub search : Option Str
  pub status : Option UserStatus
  pub role : Option UserRole

abbrev fits_search : Option Str → User → Bool
fits_search none u = true
fits_search (some s) u = ilike_within s u.username || ilike_within s u.email

abbrev fits_status : Option UserStatus → Option UserStatus → Bool
fits_status none s = true
fits_status (some want) none = false
fits_status (some want) (some s) = same_status s want

abbrev fits_role : Option UserRole → UserRole → Bool
fits_role none r = true
fits_role (some want) r = same_role r want

-- The WHERE of ListUsers and CountUsers
unfoldable pub fits : UserFilter → User → Bool
unfolding ilike_within
fits filter u =
    fits_search filter.search u
    && (fits_status filter.status u.status && fits_role filter.role u.role)

-- LIMIT and OFFSET; a negative number is an error of the database.
unfoldable pub page : {A : Type 0} → ℤ → ℤ → List A → Reply (List A)
page (pos limit) (pos offset) rows = found (take limit (drop offset rows))
page (pos limit) (negsuc n) rows = failed
page (negsuc n) offset rows = failed

unfoldable pub list_users : UserFilter → ℤ → ℤ → Database → Reply (List User)
unfolding fits page
list_users filter limit offset db = page limit offset (reverse (keep (fits filter) db.users))

unfoldable pub count_users : UserFilter → Database → Reply ℕ
unfolding fits
count_users filter db = found (length (keep (fits filter) db.users))

abbrev pub of_target : Option ℕ → AuditLog → Bool
of_target none a = true
of_target (some id) a = elim a.target_user_id [ none ↦ false | some target ↦ target == id ]

unfoldable pub list_audit_logs : Option ℕ → ℤ → ℤ → Database → Reply (List AuditLog)
unfolding page
list_audit_logs target limit offset db =
    page limit offset (reverse (keep (of_target target) db.audit_logs))

unfoldable pub count_audit_logs : Option ℕ → Database → Reply ℕ
count_audit_logs target db = found (length (keep (of_target target) db.audit_logs))
