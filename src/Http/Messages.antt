-- ===== src/Http/Messages.antt =====
-- backend/src/interfaces/http/handlers/message.rs.
use sagiton.Prelude.{ℕ, Option, [], ◌∷◌, unwrap_or}
use sagiton.Prelude.Int.{ℤ}
use sagiton.Text.{Text}
use sagiton.Schema.{Env, MessageRecord, ReadRow}
use sagiton.Message
use sagiton.Message.{MessagePage, MessageDeleted}
use sagiton.Gateway.Protocol.{
  ServerEvent, to_payload, message_create, message_update, message_delete,
}
use sagiton.Session.{channel, RateKey}
use sagiton.Http.{AppState, Handler, Header, authenticated, limited, announce, respond}

-- `ServerEvent::from` of a `MessageDeleted`.
unfoldable pub deleted_event : (ℕ → Option Text) → MessageDeleted → ServerEvent
deleted_event rfc3339 d =
    message_delete d.channel_id d.message_id (unwrap_or (rfc3339 d.deleted_at) [])

module _ (state : AppState) (header : Header) where
  unfoldable pub create_message : Env → (channel_id : ℕ) → (content : Text) → Handler MessageRecord
  create_message env channel_id content = authenticated state header λ user_id.
      limited (state.allow_rate_limit (RateKey.message user_id channel_id) 30 10) (
        announce
          (λ m. (channel channel_id, message_create channel_id (to_payload state.rfc3339 m)) ∷ [])
          (Message.create_message env user_id channel_id content))

  unfoldable pub list_messages : (channel_id : ℕ) → Option ℕ → Option ℤ → Handler MessagePage
  list_messages channel_id before limit =
      authenticated state header
        λ user_id. respond (Message.list_messages user_id channel_id before limit)

  unfoldable pub update_message : Env → (message_id : ℕ) → (content : Text) → Handler MessageRecord
  update_message env message_id content = authenticated state header λ user_id.
      announce
        (λ m. (channel m.scope_id, message_update m.scope_id (to_payload state.rfc3339 m)) ∷ [])
        (Message.edit_message env user_id message_id content)

  unfoldable pub delete_message : Env → (message_id : ℕ) → Handler MessageDeleted
  delete_message env message_id = authenticated state header λ user_id.
      announce (λ d. (channel d.channel_id, deleted_event state.rfc3339 d) ∷ [])
        (Message.delete_message env user_id message_id)

  unfoldable pub mark_channel_read : Env → (channel_id : ℕ) → Option ℕ → Handler ReadRow
  mark_channel_read env channel_id last_read_message_id =
      authenticated state header
        λ user_id. respond (Message.mark_channel_read env user_id channel_id last_read_message_id)
