-- ===== src/Validation.antt =====
-- The checks on inputs of backend/src/application/use_cases: auth.rs, guild_channel.rs, message.rs
-- and conversation.rs. The last two have the same `validate_message_content` and `normalize_limit`,
-- and the last and guild_channel.rs the same `validate_max_uses` and `normalize_invite_expiry`.
pub mod Bounds
pub mod Members
mod Tests
use sagiton.Prelude.{
  ℕ, ◌*◌, String, Bool, true, false, not, ◌&&◌, Option, none, some, List, [], ◌∷◌, ltb, ◌==◌,
  if◌then◌else◌, unwrap_or, length, max, min,
}
use sagiton.Prelude.Int.{ℤ, pos, to_nat, is_positive}
use sagiton.Text.{Text, trim, len, is_empty, contains_char}
use sagiton.Shared.{AppResult, ok, err, validation, text, at_least, at_most}

-- `validate_message_content`.
unfoldable pub validate_message_content : Text → AppResult Unit
validate_message_content content =
    let trimmed = trim content in
    if is_empty trimmed
    then err (validation (text "message content is required"))
    else if ltb 4000 (len trimmed)
    then err (validation (text "message content must be at most 4000 characters"))
    else ok tt

abbrev pub default_page_limit : ℤ
default_page_limit = pos 50

abbrev pub max_page_limit : ℕ
max_page_limit = 100

-- `normalize_limit`.
unfoldable pub normalize_limit : Option ℤ → AppResult ℕ
normalize_limit limit =
    let value = unwrap_or limit default_page_limit in
    if not (is_positive value)
    then err (validation (text "limit must be positive"))
    else if ltb max_page_limit (to_nat value)
    then ok max_page_limit
    else ok (to_nat value)

-- `validate_name`; the bounds are those of a guild (2, 80) and of a channel (1, 80).
unfoldable pub validate_name : (field_name : String) → Text → (lo hi : ℕ) → AppResult Unit
validate_name field_name value lo hi =
    let trimmed = trim value in
    if ltb (len trimmed) lo
    then err (validation (at_least field_name lo))
    else if ltb hi (len trimmed)
    then err (validation (at_most field_name hi))
    else ok tt

-- `validate_group_name`.
unfoldable pub validate_group_name : Text → AppResult Unit
validate_group_name name =
    let value = trim name in
    if ltb (len value) 2
    then err (validation (text "group name must be at least 2 characters"))
    else if ltb 80 (len value)
    then err (validation (text "group name must be at most 80 characters"))
    else ok tt

-- `validate_max_uses`.
unfoldable pub validate_max_uses : Option ℤ → AppResult Unit
validate_max_uses none = ok tt
validate_max_uses (some value) =
    if not (is_positive value) then err (validation (text "max_uses must be positive")) else ok tt

abbrev pub default_invite_expires_secs : ℕ
default_invite_expires_secs = 7 * 24 * 60 * 60

abbrev pub max_invite_expires_secs : ℕ
max_invite_expires_secs = 30 * 24 * 60 * 60

-- `Ord::clamp`.
abbrev clamp : ℕ → ℕ → ℕ → ℕ
clamp x lo hi = if ltb x lo then lo else if ltb hi x then hi else x

-- `normalize_invite_expiry`.
unfoldable pub normalize_invite_expiry : Option ℕ → ℕ
normalize_invite_expiry expires_in_seconds =
    clamp (unwrap_or expires_in_seconds default_invite_expires_secs) 60 max_invite_expires_secs

-- `validate_username`.
unfoldable pub validate_username : Text → AppResult Unit
validate_username username =
    let value = trim username in
    if ltb (len value) 3
    then err (validation (text "username must be at least 3 characters"))
    else if ltb 32 (len value)
    then err (validation (text "username must be at most 32 characters"))
    else ok tt

-- `validate_password`.
unfoldable pub validate_password : Text → AppResult Unit
validate_password password =
    if ltb (len (trim password)) 8
    then err (validation (text "password must be at least 8 characters"))
    else ok tt

-- `normalize_optional_email`; `to_lowercase` is the standard library's, by the tables of Unicode.
unfoldable pub normalize_optional_email :
    (to_lowercase : Text → Text) → Option Text → AppResult (Option Text)
normalize_optional_email to_lowercase none = ok none
normalize_optional_email to_lowercase (some raw) =
    let normalized = to_lowercase (trim raw) in
    if is_empty normalized
    then ok none
    else if not (contains_char 64 normalized)
    then err (validation (text "email format is invalid"))
    else ok (some normalized)

-- `BTreeSet::insert` on the ascending list of its elements.
unfoldable pub btree_insert : ℕ → List ℕ → List ℕ
btree_insert x [] = x ∷ []
btree_insert x (y ∷ ys) =
    let rest = btree_insert x ys in
    if ltb x y then x ∷ y ∷ ys else if x == y then y ∷ ys else y ∷ rest

-- The loop of `normalize_member_ids`.
unfoldable pub collect_members : (owner_id : ℕ) → List ℕ → List ℕ → List ℕ
collect_members owner_id [] set = set
collect_members owner_id (m ∷ ms) set =
    collect_members owner_id ms (if m == owner_id then set else btree_insert m set)

-- `normalize_member_ids`.
unfoldable pub normalize_member_ids : (owner_id : ℕ) → List ℕ → AppResult (List ℕ)
unfolding collect_members btree_insert
normalize_member_ids owner_id member_user_ids =
    let normalized = collect_members owner_id member_user_ids [] in
    if is_empty normalized
    then ok []
    else if ltb 30 (length normalized)
    then err (validation (text "group member count must be at most 30"))
    else ok normalized
