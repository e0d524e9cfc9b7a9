-- ===== src/Auth.antt =====
-- backend/src/application/use_cases/auth.rs over
-- backend/src/infrastructure/db/repositories/auth_repository.rs.
pub mod Spent
pub mod SingleUse
pub mod Hex
mod Tests
use sagiton.Prelude.{
  ℕ, ◌+◌, ◌*◌, Bool, true, false, not, ◌&&◌, ◌||◌, Option, none, some, List, [], ◌∷◌, ltb, ◌==◌,
  if◌then◌else◌, is_none,
}
use sagiton.Text.{Text, trim, text_eq, is_empty}
use sagiton.Shared.{
  AppResult, ok, err, text, validation, conflict, unauthorized, not_found, internal,
}
use sagiton.Database.{Tx, pure, lift, gets, or_raise, transaction, ◌>>=◌, ◌>>◌, refuse_if, modify}
use sagiton.Database.Table.{find_where, exists_where, update_where}
use sagiton.Schema.{Env, Db, UserRecord, SessionRow}
use sagiton.Validation.{validate_username, validate_password, normalize_optional_email}

-- The ports of the use case: Argon2, JWT and HMAC, and `str::to_lowercase`.
pub record AuthPorts : Type 0 where
  pub hash_password : Text → AppResult Text
  pub verify_password : Text → Text → AppResult Bool
  pub issue_access_token : ℕ → AppResult Text
  pub hash_refresh_token : Text → Text
  pub to_lowercase : Text → Text

pub record SessionContext : Type 0 where
  pub user_agent : Option Text
  pub ip : Option Text

pub record TokenPair : Type 0 where
  pub access_token : Text
  pub refresh_token : Text

pub record UserProfile : Type 0 where
  pub id : ℕ
  pub username : Text
  pub email : Option Text

abbrev refresh_token_ttl : ℕ
refresh_token_ttl = 30 * 24 * 60 * 60

-- `build_refresh_expiry`.
abbrev pub build_refresh_expiry : Env → ℕ
build_refresh_expiry env = env.now_utc + refresh_token_ttl

abbrev pub email_is : Text → Option Text → Bool
email_is s none = false
email_is s (some e) = text_eq e s

abbrev email_taken : Option Text → List UserRecord → Bool
email_taken none users = false
email_taken (some e) users = exists_where (λ u. email_is e u.email) users

abbrev profile : UserRecord → UserProfile
profile u = record { id = u.id; username = u.username; email = u.email }

-- `create_user`: the three unique violations have one text.
unfoldable pub create_user : Env → Text → Option Text → Text → Tx Db UserProfile
unfolding text_eq
create_user env username email password_hash db =
    let user : UserRecord = record {
      id = env.new_v4 0;
      username = username;
      email = email;
      password_hash = password_hash;
    } in
    if exists_where (λ u. u.id == env.new_v4 0 || text_eq u.username username) db.users
      || email_taken email db.users
    then (err (conflict (text "username or email already exists")), db)
    else (ok (profile user), record db { users = user ∷ db.users })

-- `find_user_by_login_identity`.
unfoldable pub find_user_by_login_identity : Text → Db → Option UserRecord
unfolding text_eq
find_user_by_login_identity identity db =
    find_where (λ u. text_eq u.username identity || email_is identity u.email) db.users

abbrev pub has_hash : Text → SessionRow → Bool
has_hash hash s = text_eq s.refresh_token_hash hash

-- INSERT INTO user_sessions, under its keys and its reference to the user.
unfoldable pub insert_session : (id user_id : ℕ) → Text → ℕ → SessionContext → Tx Db Unit
unfolding text_eq
insert_session id user_id hash expires_at context db =
    let session : SessionRow = record {
      id = id;
      user_id = user_id;
      refresh_token_hash = hash;
      expires_at = expires_at;
      revoked_at = none;
      user_agent = context.user_agent;
      ip = context.ip;
    } in
    if exists_where (λ s. s.id == id) db.user_sessions
    then (err (internal (text "database error")), db)
    else if exists_where (has_hash hash) db.user_sessions
    then (err (internal (text "database error")), db)
    else if exists_where (λ u. u.id == user_id) db.users
    then (ok tt, record db { user_sessions = session ∷ db.user_sessions })
    else (err (internal (text "database error")), db)

abbrev pub revoke : ℕ → SessionRow → SessionRow
revoke now s = record s { revoked_at = some now }

-- WHERE refresh_token_hash = hash AND revoked_at IS NULL
abbrev pub is_open : Text → SessionRow → Bool
is_open hash s = has_hash hash s && is_none s.revoked_at

abbrev user_of : Option SessionRow → Option ℕ
user_of none = none
user_of (some s) = some s.user_id

-- `revoke_old_refresh_token`.
unfoldable pub revoke_old_refresh_token : Env → Text → Tx Db ℕ
unfolding text_eq
revoke_old_refresh_token env hash = do
  user_id ← gets (λ db.
      user_of (find_where (λ s. is_open hash s && ltb env.db_now s.expires_at) db.user_sessions))
  modify (λ db. record db {
    user_sessions =
        update_where (λ s. is_open hash s && ltb env.db_now s.expires_at) (revoke env.db_now)
          db.user_sessions;
  })
  or_raise user_id (unauthorized (text "invalid refresh token"))

-- `rotate_refresh_session`.
unfoldable pub rotate_refresh_session : Env → Text → Text → ℕ → SessionContext → Tx Db ℕ
rotate_refresh_session env old_hash new_hash expires_at context = transaction (do
  user_id ← revoke_old_refresh_token env old_hash
  insert_session (env.new_v4 0) user_id new_hash expires_at context
  pure user_id)

-- `revoke_by_refresh_hash`.
unfoldable pub revoke_by_refresh_hash : Env → Text → Tx Db Unit
unfolding text_eq
revoke_by_refresh_hash env hash = modify (λ db. record db {
  user_sessions = update_where (is_open hash) (revoke env.db_now) db.user_sessions;
})

module _ (ports : AuthPorts) (env : Env) where
  unfoldable pub register : (username : Text) → Option Text → (password : Text) → Tx Db UserProfile
  register username email password = do
    lift (validate_username username)
    lift (validate_password password)
    email ← lift (normalize_optional_email ports.to_lowercase email)
    password_hash ← lift (ports.hash_password (trim password))
    create_user env (trim username) email password_hash

  -- `issue_and_persist_tokens`; `refresh_token` is the token that is generated.
  unfoldable pub issue_and_persist_tokens : Text → ℕ → SessionContext → Tx Db TokenPair
  issue_and_persist_tokens refresh_token user_id context = do
    access_token ← lift (ports.issue_access_token user_id)
    insert_session (env.new_v4 0) user_id (ports.hash_refresh_token refresh_token)
        (build_refresh_expiry env) context
    pure (record { access_token = access_token; refresh_token = refresh_token })

  unfoldable pub login :
      Text → (username_or_email password : Text) → SessionContext → Tx Db TokenPair
  login refresh_token username_or_email password context = do
    refuse_if (is_empty (trim username_or_email))
        (validation (text "username_or_email is required"))
    user ← gets (find_user_by_login_identity (trim username_or_email))
    user ← or_raise user (unauthorized (text "invalid credentials"))
    password_ok ← lift (ports.verify_password (trim password) user.password_hash)
    refuse_if (not password_ok) (unauthorized (text "invalid credentials"))
    issue_and_persist_tokens refresh_token user.id context

  unfoldable pub refresh :
      (new_refresh_token refresh_token : Text) → SessionContext → Tx Db TokenPair
  refresh new_refresh_token refresh_token context = do
    refuse_if (is_empty (trim refresh_token)) (validation (text "refresh_token is required"))
    user_id ←
        rotate_refresh_session env (ports.hash_refresh_token (trim refresh_token))
          (ports.hash_refresh_token new_refresh_token) (build_refresh_expiry env) context
    access_token ← lift (ports.issue_access_token user_id)
    pure (record { access_token = access_token; refresh_token = new_refresh_token })

  unfoldable pub logout : (refresh_token : Text) → Tx Db Unit
  logout refresh_token = do
    refuse_if (is_empty (trim refresh_token)) (validation (text "refresh_token is required"))
    revoke_by_refresh_hash env (ports.hash_refresh_token (trim refresh_token))

abbrev profile_of : Option UserRecord → Option UserProfile
profile_of none = none
profile_of (some u) = some (profile u)

unfoldable pub me : ℕ → Tx Db UserProfile
me user_id = do
  user ← gets (λ db. find_where (λ u. u.id == user_id) db.users)
  or_raise (profile_of user) (not_found (text "user not found"))
