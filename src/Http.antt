-- ===== src/Http.antt =====
-- backend/src/interfaces/http: what the handlers share, with authentication.rs. The path, the query
-- and the body of a request arrive parsed (axum), and a result is given as the value that is written
-- as JSON.
pub mod Messages
pub mod Conversations
pub mod Guilds
pub mod Accounts
pub mod Calls
pub mod Effects
mod Tests
use sagiton.Prelude.{
  ℕ, Bool, true, false, not, Option, none, some, List, [], ◌∷◌, ◌==◌, if◌then◌else◌,
}
use sagiton.Text.{Text, trim, is_empty}
use sagiton.Shared.{AppError, AppResult, ok, err, text, unauthorized, rate_limited}
use sagiton.Database.{Tx}
use sagiton.Schema.{Db}
use sagiton.Gateway.Protocol.{ServerEvent}
use sagiton.Session.{Topic, RateKey}

-- A call of `publish_channel_event`, `publish_thread_event` or `publish_user_event`.
abbrev pub Publication : Type 0
Publication = Topic × ServerEvent

-- A handler from the database to its result, the database it leaves, and what it publishes.
abbrev pub Handler : Type 0 → Type 0
Handler A = Db → AppResult A × Db × List Publication

-- The header `Authorization`, if there is one, and its text, if it has one.
abbrev pub Header : Type 0
Header = Option (Option Text)

-- What a handler asks of the application: `verify_access_token`, `allow_rate_limit`, and the format
-- of a time.
pub record AppState : Type 0 where
  pub verify_access_token : Text → AppResult ℕ
  pub allow_rate_limit : RateKey → (limit window_secs : ℕ) → Bool
  pub rfc3339 : ℕ → Option Text

-- `str::strip_prefix`.
abbrev pub strip_prefix : (prefix : Text) → Text → Option Text
strip_prefix [] s = some s
strip_prefix (c ∷ prefix) [] = none
strip_prefix (c ∷ prefix) (d ∷ s) =
    let rest = strip_prefix prefix s in if c == d then rest else none

-- "Bearer "
abbrev pub bearer : Text
bearer = 66 ∷ 101 ∷ 97 ∷ 114 ∷ 101 ∷ 114 ∷ 32 ∷ []

-- The last part of `extract_bearer_token`.
abbrev pub token_of : Option Text → AppResult Text
token_of none = err (unauthorized (text "bearer token is required"))
token_of (some token) =
    if is_empty (trim token) then err (unauthorized (text "bearer token is required")) else ok token

-- `extract_bearer_token`.
unfoldable pub extract_bearer_token : Header → AppResult Text
extract_bearer_token none = err (unauthorized (text "authorization header is required"))
extract_bearer_token (some none) = err (unauthorized (text "authorization header is invalid"))
extract_bearer_token (some (some value)) = token_of (strip_prefix bearer value)

abbrev pub verified : AppState → AppResult Text → AppResult ℕ
verified state (err e) = err e
verified state (ok token) = state.verify_access_token token

-- `authenticated_user_id`.
unfoldable pub authenticated_user_id : AppState → Header → AppResult ℕ
unfolding extract_bearer_token
authenticated_user_id state header = verified state (extract_bearer_token header)

module _ {A : Type 0} where
  abbrev pub handle_as : (ℕ → Handler A) → AppResult ℕ → Handler A
  handle_as handler (err e) db = (err e, db, [])
  handle_as handler (ok user_id) db = handler user_id db

  -- `let user_id = authenticated_user_id(&state, &headers)?;`
  unfoldable pub authenticated : AppState → Header → (ℕ → Handler A) → Handler A
  unfolding authenticated_user_id
  authenticated state header handler = handle_as handler (authenticated_user_id state header)

  -- `if !allowed { return Err(…); }`
  unfoldable pub limited : (allowed : Bool) → Handler A → Handler A
  limited true handler db = handler db
  limited false handler db = (err (rate_limited (text "message rate limit exceeded")), db, [])

  abbrev pub announced :
      (A → List Publication) → AppResult A × Db → AppResult A × Db × List Publication
  announced events (ok a, db) = (ok a, db, events a)
  announced events (err e, db) = (err e, db, [])

  -- A use case, then the events that follow its success.
  unfoldable pub announce : (A → List Publication) → Tx Db A → Handler A
  announce events use_case db = announced events (use_case db)

  -- A use case that nothing follows.
  unfoldable pub respond : Tx Db A → Handler A
  unfolding announce
  respond use_case = announce (λ _. []) use_case
