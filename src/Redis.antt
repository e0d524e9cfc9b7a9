-- ===== src/Redis.antt =====
-- backend/src/infrastructure/redis/service.rs: events between the instances of the program. Redis
-- itself and `serde_json` are parameters; a random number is an argument.
pub mod Backoff
pub mod Fanout
pub mod RateLimit
pub mod Limit
mod Tests
use sagiton.Prelude.{
  ℕ, ◌+◌, ◌-◌, ◌*◌, ◌^◌, min, Bool, true, false, not, ◌&&◌, String, Option, none, some, List, [],
  ◌∷◌, ◌++◌, map, leb, ◌==◌, if◌then◌else◌,
}
use sagiton.Text.{Text, text_eq, is_empty}
use sagiton.Shared.{AppResult, ok, err, text, internal, rate_limited}
use sagiton.Database.{Tx}
use sagiton.Gateway.{
  HubState, broadcast_to_channel, broadcast_to_thread, broadcast_to_user, broadcast_global,
}
use sagiton.Gateway.Protocol.{
  PresenceStatus, online, offline, ServerEvent, ready, heartbeat_ack, channel_subscribe_ack,
  thread_subscribe_ack, presence_update, message_create, message_update, message_delete,
  thread_message_create, thread_message_update, thread_message_delete, thread_request_received,
  thread_accepted, typing, thread_typing, error,
}
use sagiton.Session.{Effect, deliver}

pub record RealtimeEnvelope : Type 0 where
  pub origin_instance_id : Text
  pub event : ServerEvent

-- What `serde_json` makes of an envelope, and of a payload.
pub record Json : Type 0 where
  pub to_string : RealtimeEnvelope → Option Text
  pub envelope_from_str : Text → Option RealtimeEnvelope
  pub event_from_str : Text → Option ServerEvent

abbrev pub initial_backoff_ms : ℕ
initial_backoff_ms = 250

abbrev pub max_backoff_ms : ℕ
max_backoff_ms = 10000

abbrev pub max_jitter_ms : ℕ
max_jitter_ms = 250

-- `u32::MAX` and `u64::MAX`.
abbrev pub u32_max : ℕ
u32_max = 4294967295

abbrev pub u64_max : ℕ
u64_max = 18446744073709551615

-- `reconnect_delay`, in milliseconds; `jitter` is the number drawn from 0..=MAX_JITTER_MS.
unfoldable pub reconnect_delay : (attempt jitter : ℕ) → ℕ
reconnect_delay attempt jitter =
    let exponent = min (attempt - 1) 7 in
    let base = min (initial_backoff_ms * 2 ^ exponent) u64_max in
    min (min base max_backoff_ms + jitter) u64_max

-- Whom `dispatch_event` hands an event to.
unfoldable pub dispatch_targets : ServerEvent → HubState → List ℕ
dispatch_targets (message_create k _) hub = broadcast_to_channel k hub
dispatch_targets (message_update k _) hub = broadcast_to_channel k hub
dispatch_targets (message_delete k _ _) hub = broadcast_to_channel k hub
dispatch_targets (typing k _) hub = broadcast_to_channel k hub
dispatch_targets (thread_message_create k _) hub = broadcast_to_thread k hub
dispatch_targets (thread_message_update k _) hub = broadcast_to_thread k hub
dispatch_targets (thread_message_delete k _ _) hub = broadcast_to_thread k hub
dispatch_targets (thread_typing k _) hub = broadcast_to_thread k hub
dispatch_targets (thread_request_received _ _ receiver) hub = broadcast_to_user receiver hub
dispatch_targets (thread_accepted _ _ requester receiver) hub =
    broadcast_to_user requester hub
    ++ (if not (requester == receiver) then broadcast_to_user receiver hub else [])
dispatch_targets (presence_update _ _) hub = broadcast_global hub
dispatch_targets (ready _) hub = []
dispatch_targets (heartbeat_ack _) hub = []
dispatch_targets (channel_subscribe_ack _) hub = []
dispatch_targets (thread_subscribe_ack _) hub = []
dispatch_targets (error _ _) hub = []

-- `dispatch_event`.
unfoldable pub dispatch_event : ServerEvent → HubState → List Effect
dispatch_event event hub = map (λ c. deliver c event) (dispatch_targets event hub)

-- `event_name`.
unfoldable pub event_name : ServerEvent → String
event_name (ready _) = "READY"
event_name (heartbeat_ack _) = "HEARTBEAT_ACK"
event_name (channel_subscribe_ack _) = "CHANNEL_SUBSCRIBE_ACK"
event_name (thread_subscribe_ack _) = "THREAD_SUBSCRIBE_ACK"
event_name (presence_update _ _) = "PRESENCE_UPDATE"
event_name (message_create _ _) = "MESSAGE_CREATE"
event_name (message_update _ _) = "MESSAGE_UPDATE"
event_name (message_delete _ _ _) = "MESSAGE_DELETE"
event_name (thread_message_create _ _) = "THREAD_MESSAGE_CREATE"
event_name (thread_message_update _ _) = "THREAD_MESSAGE_UPDATE"
event_name (thread_message_delete _ _ _) = "THREAD_MESSAGE_DELETE"
event_name (thread_request_received _ _ _) = "THREAD_REQUEST_RECEIVED"
event_name (thread_accepted _ _ _ _) = "THREAD_ACCEPTED"
event_name (typing _ _) = "TYPING"
event_name (thread_typing _ _) = "THREAD_TYPING"
event_name (error _ _) = "ERROR"

pub data SessionExit : Type 0 where
  shutdown disconnected : SessionExit

-- What the `select!` of a session yields: the cancellation, or a message with its payload, if that
-- decodes to a text, and the hub as it is then. Where the messages run out, the stream has ended.
pub data Signal : Type 0 where
  cancelled : Signal
  message : (payload : Option Text) (hub : HubState) → Signal

module _ (json : Json) (instance_id : Text) where
  -- The envelope of a payload; a bare event is one without an origin.
  unfoldable pub decode_payload : Text → Option RealtimeEnvelope
  decode_payload payload = elim (json.envelope_from_str payload) [
    | some envelope ↦ some envelope
    | none ↦ elim (json.event_from_str payload) [
      | none ↦ none
      | some event ↦ some (record { origin_instance_id = []; event = event })
    ]
  ]

  abbrev pub is_own : RealtimeEnvelope → Bool
  unfolding text_eq
  is_own envelope =
      not (is_empty envelope.origin_instance_id) && text_eq envelope.origin_instance_id instance_id

  abbrev pub handle_envelope : Option RealtimeEnvelope → HubState → List Effect
  unfolding dispatch_event is_own
  handle_envelope none hub = []
  handle_envelope (some envelope) hub =
      if is_own envelope then [] else dispatch_event envelope.event hub

  -- One round of the loop of a session, for a message.
  unfoldable pub handle_message : Option Text → HubState → List Effect
  unfolding decode_payload handle_envelope
  handle_message none hub = []
  handle_message (some payload) hub = handle_envelope (decode_payload payload) hub

  -- The loop of `run_pubsub_session`.
  unfoldable pub session_stream : List Signal → SessionExit × List Effect
  unfolding handle_message
  session_stream [] = (disconnected, [])
  session_stream (cancelled ∷ signals) = (shutdown, [])
  session_stream (message payload hub ∷ signals) =
      let rest = session_stream signals in (rest.0, handle_message payload hub ++ rest.1)

  -- `run_pubsub_session`; `opened` is what connecting and the four subscriptions come to.
  unfoldable pub run_pubsub_session :
      (opened : AppResult Unit) → List Signal → AppResult SessionExit × List Effect
  unfolding session_stream
  run_pubsub_session (err e) signals = (err e, [])
  run_pubsub_session (ok tt) signals = let run = session_stream signals in (ok run.0, run.1)

  -- The payload that `publish_envelope` sends.
  unfoldable pub publish_payload : ServerEvent → Option Text
  publish_payload event =
      json.to_string (record { origin_instance_id = instance_id; event = event })

-- What happens around one round of the listener: whether the token is cancelled when it starts, its
-- session, the jitter that is drawn, and whether the token is cancelled before the sleep is over.
pub record Round : Type 0 where
  pub cancelled_before : Bool
  pub opened : AppResult Unit
  pub signals : List Signal
  pub jitter : ℕ
  pub cancelled_asleep : Bool

-- What a listener has done: whether it returned, how long it slept each time, what it delivered.
pub record Listened : Type 0 where
  pub returned : Bool
  pub delays : List ℕ
  pub effects : List Effect

-- `reconnect_attempt` after a session.
abbrev pub next_attempt : ℕ → AppResult SessionExit → ℕ
next_attempt attempt (ok exit) = 1
next_attempt attempt (err e) = min (attempt + 1) u32_max

abbrev pub ends_listener : AppResult SessionExit → Bool
ends_listener (ok shutdown) = true
ends_listener (ok disconnected) = false
ends_listener (err e) = false

module _ (json : Json) (instance_id : Text) where
  -- The loop of `run_pubsub_listener`, over the rounds that there is time for.
  unfoldable pub listen : (reconnect_attempt : ℕ) → List Round → Listened
  unfolding run_pubsub_session reconnect_delay
  listen attempt [] = record { returned = false; delays = []; effects = [] }
  listen attempt (r ∷ rounds) =
      let session = run_pubsub_session json instance_id r.opened r.signals in
      let attempt' = next_attempt attempt session.0 in
      let rest = listen attempt' rounds in
      if r.cancelled_before
      then record { returned = true; delays = []; effects = [] }
      else if ends_listener session.0
      then record { returned = true; delays = []; effects = session.1 }
      else if r.cancelled_asleep
      then record {
        returned = true;
        delays = reconnect_delay attempt' r.jitter ∷ [];
        effects = session.1;
      }
      else record {
        returned = rest.returned;
        delays = reconnect_delay attempt' r.jitter ∷ rest.delays;
        effects = session.1 ++ rest.effects;
      }

  -- `run_pubsub_listener`.
  unfoldable pub run_pubsub_listener : List Round → Listened
  unfolding listen
  run_pubsub_listener rounds = listen 0 rounds

-- The command that `set_presence_state` sends.
pub data PresenceCommand : Type 0 where
  set_ex : (user_id : ℕ) (status : String) (ttl_secs : ℕ) → PresenceCommand
  del : (user_id : ℕ) → PresenceCommand

-- `AppState::set_presence_state`, with `set_presence` and `clear_presence`.
unfoldable pub set_presence_state :
    (user_id : ℕ) → PresenceStatus → (ttl_secs : ℕ) → PresenceCommand
set_presence_state u online ttl_secs = set_ex u "ONLINE" ttl_secs
set_presence_state u offline ttl_secs = del u
