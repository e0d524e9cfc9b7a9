-- ===== src/Gateway/Protocol.antt =====
-- backend/src/interfaces/ws/protocol.rs. A time is formatted by the `time` crate, which is the
-- parameter `rfc3339`: it gives no text where the formatting fails.
use sagiton.Prelude.{ℕ, String, Option, none, some, [], unwrap_or}
use sagiton.Prelude.Int.{ℤ}
use sagiton.Text.{Text}
use sagiton.Shared.{Message}
use sagiton.Schema.{MessageRecord}

pub data PresenceStatus : Type 0 where
  online offline : PresenceStatus

-- `MessagePayload` and `ThreadMessagePayload`; `scope_id` is `channel_id` or `thread_id`.
pub record MessagePayload : Type 0 where
  pub id : ℕ
  pub scope_id : ℕ
  pub author_id : ℕ
  pub content : Text
  pub created_at : Text
  pub edited_at : Option Text

pub data ServerEvent : Type 0 where
  ready : (user_id : ℕ) → ServerEvent
  heartbeat_ack : (ts : ℤ) → ServerEvent
  channel_subscribe_ack : (channel_id : ℕ) → ServerEvent
  thread_subscribe_ack : (thread_id : ℕ) → ServerEvent
  presence_update : (user_id : ℕ) (status : PresenceStatus) → ServerEvent
  message_create message_update : (channel_id : ℕ) (message : MessagePayload) → ServerEvent
  message_delete : (channel_id message_id : ℕ) (deleted_at : Text) → ServerEvent
  thread_message_create thread_message_update :
      (thread_id : ℕ) (message : MessagePayload) → ServerEvent
  thread_message_delete : (thread_id message_id : ℕ) (deleted_at : Text) → ServerEvent
  thread_request_received : (thread_id requester_user_id receiver_user_id : ℕ) → ServerEvent
  thread_accepted :
      (thread_id accepted_by_user_id requester_user_id receiver_user_id : ℕ) → ServerEvent
  typing : (channel_id user_id : ℕ) → ServerEvent
  thread_typing : (thread_id user_id : ℕ) → ServerEvent
  error : (code : String) (message : Message) → ServerEvent

pub data ClientCommand : Type 0 where
  identify : (token : Text) → ClientCommand
  heartbeat : (ts : ℤ) → ClientCommand
  subscribe_channel unsubscribe_channel typing_start : (channel_id : ℕ) → ClientCommand
  subscribe_thread unsubscribe_thread thread_typing_start : (thread_id : ℕ) → ClientCommand

-- `Option::and_then(|ts| ts.format(…).ok())`.
abbrev format_optional : (ℕ → Option Text) → Option ℕ → Option Text
format_optional rfc3339 none = none
format_optional rfc3339 (some ts) = rfc3339 ts

-- `MessagePayload::from`, and the same of `ThreadMessagePayload`.
unfoldable pub to_payload : (ℕ → Option Text) → MessageRecord → MessagePayload
to_payload rfc3339 value = record {
  id = value.id;
  scope_id = value.scope_id;
  author_id = value.author_id;
  content = value.content;
  created_at = unwrap_or (rfc3339 value.created_at) [];
  edited_at = format_optional rfc3339 value.edited_at;
}

-- `server_event_name` of the gateway.
unfoldable pub server_event_name : ServerEvent → String
server_event_name (ready _) = "READY"
server_event_name (heartbeat_ack _) = "HEARTBEAT_ACK"
server_event_name (channel_subscribe_ack _) = "CHANNEL_SUBSCRIBE_ACK"
server_event_name (thread_subscribe_ack _) = "THREAD_SUBSCRIBE_ACK"
server_event_name (presence_update _ _) = "PRESENCE_UPDATE"
server_event_name (message_create _ _) = "MESSAGE_CREATE"
server_event_name (message_update _ _) = "MESSAGE_UPDATE"
server_event_name (message_delete _ _ _) = "MESSAGE_DELETE"
server_event_name (thread_message_create _ _) = "THREAD_MESSAGE_CREATE"
server_event_name (thread_message_update _ _) = "THREAD_MESSAGE_UPDATE"
server_event_name (thread_message_delete _ _ _) = "THREAD_MESSAGE_DELETE"
server_event_name (thread_request_received _ _ _) = "THREAD_REQUEST_RECEIVED"
server_event_name (thread_accepted _ _ _ _) = "THREAD_ACCEPTED"
server_event_name (typing _ _) = "TYPING"
server_event_name (thread_typing _ _) = "THREAD_TYPING"
server_event_name (error _ _) = "ERROR"
