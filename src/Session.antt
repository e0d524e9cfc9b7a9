-- ===== src/Session.antt =====
-- The websocket session of backend/src/interfaces/ws/gateway.rs (`handle_socket`, `handle_command`)
-- with the publishing of backend/src/bootstrap/app_state.rs.
pub mod Authorization
pub mod Lifetime
mod Tests
use sagiton.Prelude.{
  ℕ, Bool, true, false, Option, none, some, List, [], ◌∷◌, ◌++◌, map, String, if◌then◌else◌, ltb,
  not,
}
use sagiton.Text.{Text}
use sagiton.Shared.{Message, AppError, AppResult, ok, err, text, as_http_parts}
use sagiton.Permission.{has, view_channel, send_messages}
use sagiton.Gateway
use sagiton.Gateway.{
  HubState, UnregisterResult, register, unregister, touch_heartbeat, broadcast_to_channel,
  broadcast_to_thread, broadcast_to_user, broadcast_global, send_to_connection,
}
use sagiton.Gateway.Protocol.{
  ServerEvent, ClientCommand, PresenceStatus, ready, heartbeat_ack, channel_subscribe_ack,
  thread_subscribe_ack, presence_update, error, identify, heartbeat, typing_start,
  thread_typing_start, online, offline,
}

-- Where an event is published: the local connections of a scope and the Redis channel of it.
pub data Topic : Type 0 where
  channel thread user : ℕ → Topic
  presence : Topic

-- The keys of the rate limiter.
pub data RateKey : Type 0 where
  typing thread_typing message thread_message : (user_id scope_id : ℕ) → RateKey

-- What a session does beside changing the hub.
pub data Effect : Type 0 where
  deliver : (connection_id : ℕ) (event : ServerEvent) → Effect
  publish_redis : Topic → ServerEvent → Effect
  set_presence : (user_id : ℕ) (status : PresenceStatus) (ttl_secs : ℕ) → Effect

-- What a session asks of the use cases and of Redis; `now` is `Instant::now()`.
pub record Ports : Type 0 where
  pub channel_permissions : (user_id channel_id : ℕ) → AppResult ℕ
  pub can_access_thread : (thread_id user_id : ℕ) → AppResult Bool
  pub allow_rate_limit : RateKey → (limit window_secs : ℕ) → Bool
  pub now : ℕ

abbrev pub heartbeat_timeout_secs : ℕ
heartbeat_timeout_secs = 70

abbrev pub presence_ttl_secs : ℕ
presence_ttl_secs = 90

-- Whom the local half of a publication reaches.
abbrev pub local_targets : Topic → HubState → List ℕ
local_targets (channel k) hub = broadcast_to_channel k hub
local_targets (thread k) hub = broadcast_to_thread k hub
local_targets (user u) hub = broadcast_to_user u hub
local_targets presence hub = broadcast_global hub

-- `publish_channel_event`, `publish_thread_event`, `publish_user_event` and `publish_presence_event`
-- of `AppState`: the local connections first, then Redis, whose failure is only logged.
unfoldable pub publish : Topic → ServerEvent → HubState → List Effect
publish topic event hub =
    map (λ c. deliver c event) (local_targets topic hub) ++ publish_redis topic event ∷ []

-- `GatewayHub::send_to_connection` with its event.
unfoldable pub send : ℕ → ServerEvent → HubState → List Effect
send connection_id event hub = map (λ c. deliver c event) (send_to_connection connection_id hub)

abbrev pub Outcome : Type 0
Outcome = HubState × List Effect

-- `AppError` prints as its message.
abbrev message_of : AppError → Message
message_of e = (as_http_parts e).2

module _ (ports : Ports) (connection_id user_id : ℕ) (hub : HubState) where
  -- The branches of `match perms` under `SubscribeChannel`.
  subscribe_channel_with : (channel_id : ℕ) → AppResult ℕ → Outcome
  subscribe_channel_with channel_id (ok bits) =
      if has bits view_channel
      then (let hub' = Gateway.subscribe_channel connection_id channel_id hub in
          (hub', send connection_id (channel_subscribe_ack channel_id) hub'))
      else (
        hub,
        send connection_id (error "FORBIDDEN" (text "missing VIEW_CHANNEL permission")) hub,
      )
  subscribe_channel_with channel_id (err e) =
      (hub, send connection_id (error "SUBSCRIBE_FAILED" (message_of e)) hub)

  -- The branches of `match can_access_thread` under `SubscribeThread`.
  subscribe_thread_with : (thread_id : ℕ) → AppResult Bool → Outcome
  subscribe_thread_with thread_id (ok true) =
      let hub' = Gateway.subscribe_thread connection_id thread_id hub in
      (hub', send connection_id (thread_subscribe_ack thread_id) hub')
  subscribe_thread_with thread_id (ok false) =
      (hub, send connection_id (error "FORBIDDEN" (text "thread not accessible")) hub)
  subscribe_thread_with thread_id (err e) =
      (hub, send connection_id (error "SUBSCRIBE_FAILED" (message_of e)) hub)

  typing_with : (channel_id : ℕ) → AppResult ℕ → List Effect
  typing_with channel_id (ok bits) =
      if has bits send_messages
      then if ports.allow_rate_limit (RateKey.typing user_id channel_id) 8 5
        then publish (channel channel_id) (ServerEvent.typing channel_id user_id) hub
        else []
      else []
  typing_with channel_id (err e) = []

  thread_typing_with : (thread_id : ℕ) → AppResult Bool → List Effect
  thread_typing_with thread_id (ok true) =
      if ports.allow_rate_limit (RateKey.thread_typing user_id thread_id) 8 5
      then publish (thread thread_id) (ServerEvent.thread_typing thread_id user_id) hub
      else []
  thread_typing_with thread_id (ok false) = []
  thread_typing_with thread_id (err e) = []

  -- `handle_command`.
  unfoldable pub handle_command : ClientCommand → Outcome
  unfolding subscribe_channel_with subscribe_thread_with typing_with thread_typing_with send
  handle_command (identify token) = (hub, send connection_id (ready user_id) hub)
  handle_command (heartbeat ts) =
      let hub' = touch_heartbeat connection_id ports.now hub in
      (
        hub',
        set_presence user_id online presence_ttl_secs ∷ send connection_id (heartbeat_ack ts) hub',
      )
  handle_command (ClientCommand.subscribe_channel channel_id) =
      subscribe_channel_with channel_id (ports.channel_permissions user_id channel_id)
  handle_command (ClientCommand.unsubscribe_channel channel_id) =
      (Gateway.unsubscribe_channel connection_id channel_id hub, [])
  handle_command (typing_start channel_id) =
      (hub, typing_with channel_id (ports.channel_permissions user_id channel_id))
  handle_command (ClientCommand.subscribe_thread thread_id) =
      subscribe_thread_with thread_id (ports.can_access_thread thread_id user_id)
  handle_command (ClientCommand.unsubscribe_thread thread_id) =
      (Gateway.unsubscribe_thread connection_id thread_id hub, [])
  handle_command (thread_typing_start thread_id) =
      (hub, thread_typing_with thread_id (ports.can_access_thread thread_id user_id))

-- What the `select!` of the session loop yields. A text frame comes with its length in bytes and
-- with what `serde_json` makes of it.
pub data Frame : Type 0 where
  shutdown failed ended timed_out close control : Frame
  text_frame : (len : ℕ) (command : Option ClientCommand) → Frame

module _ (ports : Ports) (ws_max_message_bytes connection_id user_id : ℕ) where
  -- One round of the loop; `false` is a `break`.
  unfoldable pub handle_frame : Frame → HubState → Bool × Outcome
  handle_frame (text_frame len command) hub =
      if ltb ws_max_message_bytes len
      then (false, (hub, send connection_id (error "FRAME_TOO_LARGE" (text "frame too large")) hub))
      else elim command [
        | none ↦ (
          true,
          (hub, send connection_id (error "INVALID_COMMAND" (text "failed to parse command")) hub),
        )
        | some cmd ↦ (true, handle_command ports connection_id user_id hub cmd)
      ]
  handle_frame control hub = (true, (hub, []))
  handle_frame shutdown hub = (false, (hub, []))
  handle_frame failed hub = (false, (hub, []))
  handle_frame ended hub = (false, (hub, []))
  handle_frame timed_out hub = (false, (hub, []))
  handle_frame close hub = (false, (hub, []))

  -- The loop, over the frames that arrive; where they run out the socket has ended.
  unfoldable pub session_loop : List Frame → HubState → Outcome
  unfolding handle_frame
  session_loop [] hub = (hub, [])
  session_loop (frame ∷ frames) hub =
      let (again, (hub', effects)) = handle_frame frame hub in
      let rest = session_loop frames hub' in
      if again then (rest.0, effects ++ rest.1) else (hub', effects)

  -- The first part of `handle_socket`, up to the loop.
  unfoldable pub open_session : HubState → Outcome
  open_session hub =
      let (hub', registration) = register connection_id ports.now user_id hub in
      (
        hub',
        (if registration.first_connection
              then set_presence user_id online presence_ttl_secs
                ∷ publish presence (presence_update user_id online) hub'
              else [])
            ++ deliver connection_id (ready user_id) ∷ [],
      )

  offline_effects : HubState → Option UnregisterResult → List Effect
  offline_effects hub none = []
  offline_effects hub (some gone) =
      if gone.became_offline
      then set_presence gone.user_id offline presence_ttl_secs
        ∷ publish presence (presence_update gone.user_id offline) hub
      else []

  -- The last part of `handle_socket`, after the loop.
  unfoldable pub close_session : HubState → Outcome
  unfolding offline_effects
  close_session hub =
      let (hub', gone) = unregister connection_id hub in (hub', offline_effects hub' gone)

  -- `handle_socket`, undisturbed by other sessions.
  unfoldable pub handle_socket : List Frame → HubState → Outcome
  unfolding open_session session_loop close_session
  handle_socket frames hub =
      let (opened, e0) = open_session hub in
      let (looped, e1) = session_loop frames opened in
      let (closed, e2) = close_session looped in (closed, e0 ++ e1 ++ e2)
