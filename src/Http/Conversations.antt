-- ===== src/Http/Conversations.antt =====
-- backend/src/interfaces/http/handlers/conversation.rs.
use sagiton.Prelude.{
  ℕ, Bool, ◌&&◌, Option, none, some, List, [], ◌∷◌, ◌+◌, unwrap_or, leb, if◌then◌else◌,
}
use sagiton.Prelude.Int.{ℤ}
use sagiton.Text.{Text, trim, is_empty, text_eq}
use sagiton.Shared.{AppResult, ok, err, text, validation}
use sagiton.Schema.{Env, Db, MessageRecord, ReadRow, InviteRow}
use sagiton.Friendship.{is_pending_direct}
use sagiton.Message.{MessagePage}
use sagiton.Conversation.Direct
use sagiton.Conversation.Direct.{
  DirectThreadUpsertResult, DirectThreadTransition, DirectInboxFilter, all, pending,
}
use sagiton.Conversation.Direct.Summary.{DirectThreadSummary}
use sagiton.Conversation.Group
use sagiton.Conversation.Group.Invite
use sagiton.Conversation.Group.{GroupThreadSummary}
use sagiton.Conversation.Message
use sagiton.Conversation.Message.{ThreadMessageDeleted, is_requester}
use sagiton.Gateway.Protocol.{
  ServerEvent, to_payload, thread_message_create, thread_message_update, thread_message_delete,
  thread_request_received, thread_accepted,
}
use sagiton.Session.{thread, user, RateKey}
use sagiton.Http.{AppState, Publication, Handler, Header, authenticated, limited, announce, respond}

-- `str::eq_ignore_ascii_case`, by the lower case of both sides.
abbrev pub to_ascii_lowercase : Text → Text
to_ascii_lowercase [] = []
to_ascii_lowercase (c ∷ s) = (if leb 65 c && leb c 90 then c + 32 else c) ∷ to_ascii_lowercase s

-- "pending"
abbrev pub pending_word : Text
pending_word = 112 ∷ 101 ∷ 110 ∷ 100 ∷ 105 ∷ 110 ∷ 103 ∷ []

-- The part of `parse_inbox_filter` for a text that is not empty.
abbrev pub filter_word : Text → AppResult DirectInboxFilter
unfolding text_eq
filter_word value =
    if text_eq (to_ascii_lowercase value) pending_word
    then ok pending
    else err (validation (text "invalid inbox filter"))

-- `parse_inbox_filter`.
unfoldable pub parse_inbox_filter : Option Text → AppResult DirectInboxFilter
unfolding filter_word
parse_inbox_filter none = ok all
parse_inbox_filter (some value) = if is_empty (trim value) then ok all else filter_word (trim value)

-- `ServerEvent::from` of a `ThreadMessageDeleted`.
unfoldable pub deleted_event : (ℕ → Option Text) → ThreadMessageDeleted → ServerEvent
deleted_event rfc3339 d =
    thread_message_delete d.thread_id d.message_id (unwrap_or (rfc3339 d.deleted_at) [])

-- What `create_direct_thread` publishes.
unfoldable pub requested_events : (user_id : ℕ) → DirectThreadUpsertResult → List Publication
requested_events user_id r =
    if r.created
      && (is_pending_direct r.thread.status && is_requester user_id r.thread.requested_by)
    then (
      user r.thread.peer_user_id,
      thread_request_received r.thread.id user_id r.thread.peer_user_id,
    )
      ∷ []
    else []

-- What `accept_direct_thread` publishes.
unfoldable pub accepted_events : (user_id thread_id : ℕ) → DirectThreadTransition → List Publication
accepted_events user_id thread_id t =
    let event = thread_accepted thread_id user_id t.requester_user_id t.receiver_user_id in
    (user t.requester_user_id, event) ∷ (user t.receiver_user_id, event) ∷ []

-- The second query of `accept_direct_thread`, after the events.
unfoldable pub then_get :
    (user_id thread_id : ℕ)
    → AppResult DirectThreadTransition × Db
    → AppResult DirectThreadSummary × Db × List Publication
unfolding accepted_events
then_get user_id thread_id (err e, db) = (err e, db, [])
then_get user_id thread_id (ok t, db) =
    let found = Direct.get_direct_thread thread_id user_id db in
    (found.0, found.1, accepted_events user_id thread_id t)

abbrev pub listed : (user_id : ℕ) → AppResult DirectInboxFilter → Handler (List DirectThreadSummary)
listed user_id (err e) db = (err e, db, [])
listed user_id (ok filter) db = respond (Direct.list_direct_threads user_id filter) db

module _ (state : AppState) (header : Header) where
  unfoldable pub create_direct_thread : Env → (peer : ℕ) → Handler DirectThreadUpsertResult
  create_direct_thread env peer =
      authenticated state header λ user_id.
        announce (requested_events user_id) (Direct.create_direct_thread env user_id peer)

  unfoldable pub list_direct_threads : (inbox : Option Text) → Handler (List DirectThreadSummary)
  unfolding parse_inbox_filter
  list_direct_threads inbox =
      authenticated state header λ user_id. listed user_id (parse_inbox_filter inbox)

  unfoldable pub get_direct_thread : (thread_id : ℕ) → Handler DirectThreadSummary
  get_direct_thread thread_id =
      authenticated state header λ user_id. respond (Direct.get_direct_thread thread_id user_id)

  unfoldable pub accept_direct_thread : Env → (thread_id : ℕ) → Handler DirectThreadSummary
  unfolding then_get
  accept_direct_thread env thread_id = authenticated state header λ user_id db.
      then_get user_id thread_id (Direct.accept_direct_thread env user_id thread_id db)

  unfoldable pub reject_direct_thread : (thread_id : ℕ) → Handler DirectThreadTransition
  reject_direct_thread thread_id =
      authenticated state header λ user_id. respond (Direct.reject_direct_thread user_id thread_id)

  unfoldable pub create_group_thread : Env → (name : Text) → List ℕ → Handler GroupThreadSummary
  create_group_thread env name member_user_ids =
      authenticated state header
        λ owner_id. respond (Group.create_group_thread env owner_id name member_user_ids)

  unfoldable pub list_group_threads : Handler (List GroupThreadSummary)
  list_group_threads =
      authenticated state header λ user_id. respond (Group.list_group_threads user_id)

  unfoldable pub get_group_thread : (thread_id : ℕ) → Handler GroupThreadSummary
  get_group_thread thread_id =
      authenticated state header λ user_id. respond (Group.get_group_thread thread_id user_id)

  unfoldable pub add_group_member : (thread_id user_id : ℕ) → Handler Bool
  add_group_member thread_id added =
      authenticated state header λ actor. respond (Group.add_group_member actor thread_id added)

  unfoldable pub leave_group_thread : (thread_id : ℕ) → Handler Unit
  leave_group_thread thread_id =
      authenticated state header λ user_id. respond (Group.leave_group user_id thread_id)

  unfoldable pub create_group_invite :
      Env → (token : Text) → (thread_id : ℕ) → Option ℕ → Option ℤ → Handler InviteRow
  create_group_invite env token thread_id expires_in_seconds max_uses =
      authenticated state header λ actor.
        respond (Invite.create_group_invite env token actor thread_id expires_in_seconds max_uses)

  unfoldable pub join_group_invite : Env → (token : Text) → Handler GroupThreadSummary
  join_group_invite env token =
      authenticated state header λ user_id. respond (Invite.join_group_invite env user_id token)

  unfoldable pub mark_thread_read : Env → (thread_id : ℕ) → Option ℕ → Handler ReadRow
  mark_thread_read env thread_id last_read_message_id =
      authenticated state header
        λ user_id. respond (Message.mark_thread_read env user_id thread_id last_read_message_id)

  unfoldable pub create_thread_message :
      Env → (thread_id : ℕ) → (content : Text) → Handler MessageRecord
  create_thread_message env thread_id content = authenticated state header λ user_id.
      limited (state.allow_rate_limit (RateKey.thread_message user_id thread_id) 30 10) (
        announce
          (λ m.
            (thread thread_id, thread_message_create thread_id (to_payload state.rfc3339 m)) ∷ [])
          (Message.create_thread_message env user_id thread_id content))

  unfoldable pub list_thread_messages : (thread_id : ℕ) → Option ℕ → Option ℤ → Handler MessagePage
  list_thread_messages thread_id before limit =
      authenticated state header
        λ user_id. respond (Message.list_thread_messages user_id thread_id before limit)

  unfoldable pub update_thread_message :
      Env → (message_id : ℕ) → (content : Text) → Handler MessageRecord
  update_thread_message env message_id content = authenticated state header λ user_id.
      announce
        (λ m.
          (thread m.scope_id, thread_message_update m.scope_id (to_payload state.rfc3339 m)) ∷ [])
        (Message.edit_thread_message env user_id message_id content)

  unfoldable pub delete_thread_message : Env → (message_id : ℕ) → Handler ThreadMessageDeleted
  delete_thread_message env message_id = authenticated state header λ user_id.
      announce (λ d. (thread d.thread_id, deleted_event state.rfc3339 d) ∷ [])
        (Message.delete_thread_message env user_id message_id)
