-- ===== src/Http/Effects.antt =====
-- What the handlers that authenticate their caller publish, and when.
pub mod Handlers
use sagiton.Prelude.{
  ◌++◌, some, none, Option-cases, ==_iff, ap, ◌==◌, not, ℕ, ◌≡◌, ◌⊎◌, refl, Bool, true, false, ◌&&◌,
  ◌||◌, ◌==◌, List, [], ◌∷◌, arith, Bool-cases, inl, inr, ==_refl,
}
use sagiton.Text.{Text, trim, is_empty}
use sagiton.Shared.{AppResult, ok, err, is_ok}
use sagiton.Database.{Tx}
use sagiton.Database.Table.{All}
use sagiton.Schema.{Env, Db}
use sagiton.Session.{Topic, user}
use sagiton.Gateway.Protocol.{ServerEvent, thread_accepted}
use sagiton.Redis.Fanout.{is_routed}
use sagiton.Http.{
  strip_prefix, bearer, extract_bearer_token, Publication, Handler, Header, AppState,
  authenticated_user_id, handle_as, authenticated, limited, announced, announce, respond,
}
use sagiton.Conversation.Direct
use sagiton.Conversation.Direct.{
  DirectThreadUpsertResult, DirectThreadTransition, DirectInboxFilter,
}
use sagiton.Friendship.Lists
use sagiton.Friendship.Lists.{FriendRequestInboxFilter}
use sagiton.Friendship.{is_pending_direct}
use sagiton.Conversation.Message.{is_requester}
use sagiton.Http.Calls.{
  Call, create_message, update_message, create_thread_message, update_thread_message,
  delete_message, delete_thread_message, create_direct_thread, accept_direct_thread,
  create_friend_request, accept_friend_request, reject_friend_request, list_messages,
  list_thread_messages, mark_channel_read, mark_thread_read, list_direct_threads,
  list_friend_requests, get_direct_thread, reject_direct_thread, get_group_thread,
  leave_group_thread, get_guild, join_guild, leave_guild, list_channels, get_channel,
  create_group_thread, add_group_member, create_group_invite, create_guild_invite,
  join_group_invite, create_guild, join_guild_invite, create_channel, list_group_threads,
  list_guilds, list_friends, me, Outcome, seen, serve, is_accept,
}
use sagiton.Http.Messages
use sagiton.Http.Conversations
use sagiton.Http.Accounts
use sagiton.Http.Effects.Handlers.{
  IsAnnounced, IsSound, Tells, respond_quiet, announce-Tells, limited-Tells, authenticated-IsSound,
  requested_routed, listed_quiet, friends_quiet, accept-Tells,
}

serve-IsSound :
    (state : AppState) (header : Header) (call : Call) (db : Db)
    → IsSound
        (not (is_ok (authenticated_user_id state header)))
        (not (is_accept call))
        db
        (serve state header call db)
unfolding serve is_routed Messages.deleted_event Conversations.deleted_event
serve-IsSound state header (create_message env id content) db =
    authenticated-IsSound true state header _
      (λ u. limited-Tells _ _ (announce-Tells _ _ (λ m. (inl (==_refl id), tt)))) db
serve-IsSound state header (update_message env id content) db =
    authenticated-IsSound true state header _
      (λ u. announce-Tells _ _ (λ m. (inl (==_refl m.scope_id), tt))) db
serve-IsSound state header (delete_message env id) db =
    authenticated-IsSound true state header _
      (λ u. announce-Tells _ _ (λ d. (inl (==_refl d.channel_id), tt))) db
serve-IsSound state header (list_messages id before limit) db =
    authenticated-IsSound true state header _ (λ _. respond_quiet _) db
serve-IsSound state header (mark_channel_read env id last) db =
    authenticated-IsSound true state header _ (λ _. respond_quiet _) db
serve-IsSound state header (create_direct_thread env id) db =
    authenticated-IsSound true state header _ (λ u. announce-Tells _ _ (requested_routed u)) db
serve-IsSound state header (list_direct_threads inbox) db =
    authenticated-IsSound true state header _
      (λ u. listed_quiet u (Conversations.parse_inbox_filter inbox)) db
serve-IsSound state header (get_direct_thread id) db =
    authenticated-IsSound true state header _ (λ _. respond_quiet _) db
serve-IsSound state header (accept_direct_thread env id) db =
    authenticated-IsSound false state header _ (λ u. accept-Tells env id u) db
serve-IsSound state header (reject_direct_thread id) db =
    authenticated-IsSound true state header _ (λ _. respond_quiet _) db
serve-IsSound state header (create_group_thread env name members) db =
    authenticated-IsSound true state header _ (λ _. respond_quiet _) db
serve-IsSound state header (list_group_threads) db =
    authenticated-IsSound true state header _ (λ _. respond_quiet _) db
serve-IsSound state header (get_group_thread id) db =
    authenticated-IsSound true state header _ (λ _. respond_quiet _) db
serve-IsSound state header (add_group_member thread_id user_id) db =
    authenticated-IsSound true state header _ (λ _. respond_quiet _) db
serve-IsSound state header (leave_group_thread id) db =
    authenticated-IsSound true state header _ (λ _. respond_quiet _) db
serve-IsSound state header (create_group_invite env token id expires max_uses) db =
    authenticated-IsSound true state header _ (λ _. respond_quiet _) db
serve-IsSound state header (join_group_invite env token) db =
    authenticated-IsSound true state header _ (λ _. respond_quiet _) db
serve-IsSound state header (mark_thread_read env id last) db =
    authenticated-IsSound true state header _ (λ _. respond_quiet _) db
serve-IsSound state header (create_thread_message env id content) db =
    authenticated-IsSound true state header _
      (λ u. limited-Tells _ _ (announce-Tells _ _ (λ m. (inl (==_refl id), tt)))) db
serve-IsSound state header (list_thread_messages id before limit) db =
    authenticated-IsSound true state header _ (λ _. respond_quiet _) db
serve-IsSound state header (update_thread_message env id content) db =
    authenticated-IsSound true state header _
      (λ u. announce-Tells _ _ (λ m. (inl (==_refl m.scope_id), tt))) db
serve-IsSound state header (delete_thread_message env id) db =
    authenticated-IsSound true state header _
      (λ u. announce-Tells _ _ (λ d. (inl (==_refl d.thread_id), tt))) db
serve-IsSound state header (create_guild env token) db =
    authenticated-IsSound true state header _ (λ _. respond_quiet _) db
serve-IsSound state header (list_guilds) db =
    authenticated-IsSound true state header _ (λ _. respond_quiet _) db
serve-IsSound state header (get_guild id) db =
    authenticated-IsSound true state header _ (λ _. respond_quiet _) db
serve-IsSound state header (join_guild id) db =
    authenticated-IsSound true state header _ (λ _. respond_quiet _) db
serve-IsSound state header (leave_guild id) db =
    authenticated-IsSound true state header _ (λ _. respond_quiet _) db
serve-IsSound state header (create_channel env guild_id name) db =
    authenticated-IsSound true state header _ (λ _. respond_quiet _) db
serve-IsSound state header (list_channels id) db =
    authenticated-IsSound true state header _ (λ _. respond_quiet _) db
serve-IsSound state header (get_channel id) db =
    authenticated-IsSound true state header _ (λ _. respond_quiet _) db
serve-IsSound state header (create_guild_invite env token id expires max_uses) db =
    authenticated-IsSound true state header _ (λ _. respond_quiet _) db
serve-IsSound state header (join_guild_invite env token) db =
    authenticated-IsSound true state header _ (λ _. respond_quiet _) db
serve-IsSound state header (create_friend_request env id) db =
    authenticated-IsSound true state header _ (λ _. respond_quiet _) db
serve-IsSound state header (accept_friend_request env id) db =
    authenticated-IsSound true state header _ (λ _. respond_quiet _) db
serve-IsSound state header (reject_friend_request env id) db =
    authenticated-IsSound true state header _ (λ _. respond_quiet _) db
serve-IsSound state header (list_friends) db =
    authenticated-IsSound true state header _ (λ _. respond_quiet _) db
serve-IsSound state header (list_friend_requests inbox) db =
    authenticated-IsSound true state header _
      (λ u. friends_quiet u (Accounts.parse_friend_request_filter inbox)) db
serve-IsSound state header (me) db =
    authenticated-IsSound true state header _ (λ _. respond_quiet _) db

-- "Bearer "
abbrev pub scheme : Text
scheme = 66 ∷ 101 ∷ 97 ∷ 114 ∷ 101 ∷ 114 ∷ 32 ∷ []

strip_prefix-some : (prefix s rest : Text) → strip_prefix prefix s ≡ some rest → s ≡ prefix ++ rest
strip_prefix-some [] s rest h = ground arith
strip_prefix-some (c ∷ prefix) [] rest h = absurd (ground arith)
strip_prefix-some (c ∷ prefix) (d ∷ s) rest h = elim (Bool-cases (c == d)) [
  | inr e ↦ absurd (ground arith)
  | inl e ↦
      (let same : c ≡ d = (==_iff c d).0 e in
        let tail : s ≡ prefix ++ rest = strip_prefix-some prefix s rest (ground arith) in
        rw (same, tail) refl)
]

-- A caller without a token that is verified is not authenticated.
unverified :
    (state : AppState) (header : Header)
    → ((token : Text)
        → header ≡ some (some (scheme ++ token))
        → is_empty (trim token) ≡ false
        → is_ok (state.verify_access_token token) ≡ false)
    → is_ok (authenticated_user_id state header) ≡ false
unfolding authenticated_user_id extract_bearer_token
unverified state none h = refl
unverified state (some none) h = refl
unverified state (some (some value)) h = elim (Option-cases (strip_prefix bearer value)) [
  | inl e ↦ rw e refl
  | inr (token, e) ↦ elim (Bool-cases (is_empty (trim token))) [
    | inl k ↦ rw (e, k) refl
    | inr k ↦
        (let whole : value ≡ scheme ++ token = strip_prefix-some bearer value token e in
          rw (e, k) (h token (ap (λ (v : Text). some (some v)) whole) k))
  ]
]

-- A call changes nothing, publishes nothing and fails if its header is not "Bearer " followed by a
-- token that is not blank and is verified as the access token of a user.
pub serve_unauthenticated :
    (state : AppState) (header : Header) (call : Call) (db : Db)
    → ((token : Text)
        → header ≡ some (some (scheme ++ token))
        → is_empty (trim token) ≡ false
        → is_ok (state.verify_access_token token) ≡ false)
    → serve state header call db ≡ (false, db, [])
unfolding IsSound
serve_unauthenticated state header call db h =
    (serve-IsSound state header call db).0 (rw (unverified state header h) refl)

abbrev pub is_silent : List Publication → Bool
is_silent [] = true
is_silent (p ∷ ps) = false

-- Whatever a call publishes goes to the scope that its event names, or tells one of the two users of a
-- direct thread that the thread is accepted; a call that fails publishes nothing, but for the one that
-- accepts a direct thread, which reads the thread again after it has told the users.
pub serve_announces :
    (state : AppState) (header : Header) (call : Call) (db : Db)
    → All IsAnnounced (serve state header call db).2
      × (((serve state header call db).0
            || (is_accept call || is_silent (serve state header call db).2))
          ≡ true)
unfolding IsSound Tells
serve_announces state header call db =
    let sound = serve-IsSound state header call db in
    (
      sound.1.0,
      elim (Bool-cases (is_accept call)) [
        | inl e ↦ ground arith
        | inr e ↦ elim (Bool-cases (serve state header call db).0) [
          | inl k ↦ ground arith
          | inr k ↦
              (let none : (serve state header call db).2 ≡ [] = sound.1.1 (rw e refl) k in
                rw (e, k, none) refl)
        ]
      ],
    )
