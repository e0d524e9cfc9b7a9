-- ===== src/Http/Accounts.antt =====
-- backend/src/interfaces/http/handlers/friendship.rs and auth.rs.
use sagiton.Prelude.{ℕ, Option, none, some, List, [], ◌∷◌, if◌then◌else◌}
use sagiton.Text.{Text, trim, is_empty, text_eq}
use sagiton.Shared.{AppResult, ok, err, text, validation}
use sagiton.Schema.{Env, FriendRequestRecord}
use sagiton.Friendship
use sagiton.Friendship.{FriendSummary}
use sagiton.Friendship.Lists
use sagiton.Friendship.Lists.{FriendRequestSummary, FriendRequestInboxFilter, pending, outbox}
use sagiton.Auth
use sagiton.Auth.{AuthPorts, SessionContext, TokenPair, UserProfile}
use sagiton.Http.{AppState, Handler, Header, authenticated, respond}
use sagiton.Http.Conversations.{to_ascii_lowercase, pending_word}

-- "outbox"
abbrev pub outbox_word : Text
outbox_word = 111 ∷ 117 ∷ 116 ∷ 98 ∷ 111 ∷ 120 ∷ []

abbrev pub request_filter : Text → AppResult FriendRequestInboxFilter
unfolding text_eq
request_filter word =
    if text_eq word pending_word
    then ok pending
    else if text_eq word outbox_word
    then ok outbox
    else err (validation (text "inbox must be one of: pending, outbox"))

-- `parse_friend_request_filter`.
unfoldable pub parse_friend_request_filter : Option Text → AppResult FriendRequestInboxFilter
unfolding request_filter
parse_friend_request_filter none = ok pending
parse_friend_request_filter (some value) = request_filter (to_ascii_lowercase (trim value))

abbrev pub listed :
    (user_id : ℕ) → AppResult FriendRequestInboxFilter → Handler (List FriendRequestSummary)
listed user_id (err e) db = (err e, db, [])
listed user_id (ok filter) db = respond (Lists.list_friend_requests user_id filter) db

module _ (state : AppState) (header : Header) where
  unfoldable pub create_friend_request : Env → (to_user_id : ℕ) → Handler FriendRequestRecord
  create_friend_request env to_user_id =
      authenticated state header
        λ from. respond (Friendship.create_friend_request env from to_user_id)

  unfoldable pub accept_friend_request : Env → (from_user_id : ℕ) → Handler FriendSummary
  accept_friend_request env from =
      authenticated state header
        λ user_id. respond (Friendship.accept_friend_request env user_id from)

  unfoldable pub reject_friend_request : Env → (from_user_id : ℕ) → Handler Unit
  reject_friend_request env from =
      authenticated state header
        λ user_id. respond (Friendship.reject_friend_request env user_id from)

  unfoldable pub list_friends : Handler (List FriendSummary)
  list_friends = authenticated state header λ user_id. respond (Lists.list_friends user_id)

  unfoldable pub list_friend_requests : (inbox : Option Text) → Handler (List FriendRequestSummary)
  unfolding parse_friend_request_filter
  list_friend_requests inbox =
      authenticated state header λ user_id. listed user_id (parse_friend_request_filter inbox)

  unfoldable pub me : Handler UserProfile
  me = authenticated state header λ user_id. respond (Auth.me user_id)

-- `read_header`: the header, if it is there, its text, if it has one, and what is left of it.
unfoldable pub read_header : Header → Option Text
read_header none = none
read_header (some none) = none
read_header (some (some value)) = if is_empty (trim value) then none else some (trim value)

-- `build_session_context`, from the headers `User-Agent` and `x-forwarded-for`.
unfoldable pub build_session_context : (user_agent forwarded_for : Header) → SessionContext
build_session_context user_agent forwarded_for = record {
  user_agent = read_header user_agent;
  ip = read_header forwarded_for;
}

module _ (ports : AuthPorts) (env : Env) where
  unfoldable pub register :
      (username : Text) → Option Text → (password : Text) → Handler UserProfile
  register username email password = respond (Auth.register ports env username email password)

  unfoldable pub login :
      (refresh_token : Text)
      → (user_agent forwarded_for : Header) → (username_or_email password : Text)
      → Handler TokenPair
  login refresh_token user_agent forwarded_for username_or_email password = respond (
      Auth.login ports env refresh_token username_or_email password
        (build_session_context user_agent forwarded_for))

  unfoldable pub refresh :
      (new_refresh_token : Text)
      → (user_agent forwarded_for : Header) → (refresh_token : Text) → Handler TokenPair
  refresh new_refresh_token user_agent forwarded_for refresh_token = respond (
      Auth.refresh ports env new_refresh_token refresh_token
        (build_session_context user_agent forwarded_for))

  unfoldable pub logout : (refresh_token : Text) → Handler Unit
  logout refresh_token = respond (Auth.logout ports env refresh_token)
