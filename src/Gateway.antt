-- ===== src/Gateway.antt =====
-- backend/src/interfaces/ws/gateway.rs, the hub of the local websocket connections. The sender of a
-- connection is its id: a delivery `(connection_id, event)` is an event handed to that sender.
pub mod Protocol
pub mod Wiring
pub mod Invariant
pub mod Presence
pub mod Delivery
mod Tests
use sagiton.Prelude.{
  ℕ, Bool, true, false, Option, none, some, List, [], ◌∷◌, ◌==◌, if◌then◌else◌, length, suc,
}
use sagiton.Collections.{HashMap, HashSet, get, remove, insert, contains, set_insert, set_remove}
use sagiton.Collections.Scope.{join, leave, leave_all, or_default}

pub record ConnectionState : Type 0 where
  pub user_id : ℕ
  pub subscribed_channels : HashSet
  pub subscribed_threads : HashSet
  pub last_heartbeat : ℕ

pub record HubState : Type 0 where
  pub connections : HashMap ConnectionState
  pub user_connections : HashMap HashSet
  pub channel_subscribers : HashMap HashSet
  pub thread_subscribers : HashMap HashSet

pub record RegisterResult : Type 0 where
  pub connection_id : ℕ
  pub first_connection : Bool

pub record UnregisterResult : Type 0 where
  pub user_id : ℕ
  pub became_offline : Bool

-- `GatewayHub::new`.
abbrev pub new_hub : HubState
new_hub = record {
  connections = [];
  user_connections = [];
  channel_subscribers = [];
  thread_subscribers = [];
}

abbrev pub has_length_one : HashSet → Bool
has_length_one [] = false
has_length_one (c ∷ []) = true
has_length_one (c ∷ d ∷ s) = false

-- `GatewayHub::register`; `connection_id` is a fresh UUID and `now` is `Instant::now()`.
unfoldable pub register : (connection_id now user_id : ℕ) → HubState → HubState × RegisterResult
register connection_id now user_id hub =
    let users = join connection_id user_id hub.user_connections in
    (
      record hub {
        connections =
            insert connection_id
              (record {
                user_id = user_id;
                subscribed_channels = [];
                subscribed_threads = [];
                last_heartbeat = now;
              })
              hub.connections;
        user_connections = users;
      },
      record {
        connection_id = connection_id;
        first_connection = has_length_one (or_default (get user_id users));
      },
    )

-- The user set is found, and is empty once the connection left it.
abbrev pub drops_user : (connection_id : ℕ) → Option HashSet → Bool
drops_user c none = false
drops_user c (some s) = elim (set_remove c s) [ [] ↦ true | _ ∷ _ ↦ false ]

-- `GatewayHub::unregister`, on the connection that `connections.remove` found.
unregister_found : ℕ → ConnectionState → HubState → HubState × Option UnregisterResult
unregister_found connection_id conn hub = (
  record {
    connections = remove connection_id hub.connections;
    user_connections = leave connection_id conn.user_id hub.user_connections;
    channel_subscribers = leave_all connection_id conn.subscribed_channels hub.channel_subscribers;
    thread_subscribers = leave_all connection_id conn.subscribed_threads hub.thread_subscribers;
  },
  some (record {
    user_id = conn.user_id;
    became_offline = drops_user connection_id (get conn.user_id hub.user_connections);
  }),
)

-- `GatewayHub::unregister`.
unfoldable pub unregister : ℕ → HubState → HubState × Option UnregisterResult
unfolding unregister_found
unregister connection_id hub = elim (get connection_id hub.connections) [
  | none ↦ (hub, none)
  | some conn ↦ unregister_found connection_id conn hub
]

-- `if let Some(conn) = state.connections.get_mut(id) { … }`
unfoldable pub update_connection :
    ℕ → (ConnectionState → ConnectionState) → HashMap ConnectionState → HashMap ConnectionState
update_connection c f [] = []
update_connection c f ((d, conn) ∷ m) =
    let rest = update_connection c f m in if d == c then (d, f conn) ∷ m else (d, conn) ∷ rest

-- `GatewayHub::subscribe_channel`.
unfoldable pub subscribe_channel : (connection_id channel_id : ℕ) → HubState → HubState
subscribe_channel connection_id channel_id hub = record hub {
  connections =
      update_connection connection_id
        (λ conn. record conn {
          subscribed_channels = set_insert channel_id conn.subscribed_channels;
        })
        hub.connections;
  channel_subscribers = join connection_id channel_id hub.channel_subscribers;
}

-- `GatewayHub::unsubscribe_channel`.
unfoldable pub unsubscribe_channel : (connection_id channel_id : ℕ) → HubState → HubState
unsubscribe_channel connection_id channel_id hub = record hub {
  connections =
      update_connection connection_id
        (λ conn. record conn {
          subscribed_channels = set_remove channel_id conn.subscribed_channels;
        })
        hub.connections;
  channel_subscribers = leave connection_id channel_id hub.channel_subscribers;
}

-- `GatewayHub::subscribe_thread`.
unfoldable pub subscribe_thread : (connection_id thread_id : ℕ) → HubState → HubState
subscribe_thread connection_id thread_id hub = record hub {
  connections =
      update_connection connection_id
        (λ conn. record conn { subscribed_threads = set_insert thread_id conn.subscribed_threads })
        hub.connections;
  thread_subscribers = join connection_id thread_id hub.thread_subscribers;
}

-- `GatewayHub::unsubscribe_thread`.
unfoldable pub unsubscribe_thread : (connection_id thread_id : ℕ) → HubState → HubState
unsubscribe_thread connection_id thread_id hub = record hub {
  connections =
      update_connection connection_id
        (λ conn. record conn { subscribed_threads = set_remove thread_id conn.subscribed_threads })
        hub.connections;
  thread_subscribers = leave connection_id thread_id hub.thread_subscribers;
}

-- `GatewayHub::touch_heartbeat`.
unfoldable pub touch_heartbeat : (connection_id now : ℕ) → HubState → HubState
touch_heartbeat connection_id now hub = record hub {
  connections =
      update_connection connection_id (λ conn. record conn { last_heartbeat = now })
        hub.connections;
}

-- `GatewayHub::shutdown_all`.
unfoldable pub shutdown_all : HubState → HubState
shutdown_all hub = record {
  connections = [];
  user_connections = [];
  channel_subscribers = [];
  thread_subscribers = [];
}

-- The members of a set whose connection is registered: the senders that get the event.
unfoldable pub receivers : HashMap ConnectionState → HashSet → List ℕ
receivers m [] = []
receivers m (c ∷ s) = let rest = receivers m s in elim (get c m) [ none ↦ rest | some _ ↦ c ∷ rest ]

-- `GatewayHub::broadcast_to_channel`: whom an event is handed to.
unfoldable pub broadcast_to_channel : ℕ → HubState → List ℕ
unfolding receivers
broadcast_to_channel channel_id hub = elim (get channel_id hub.channel_subscribers) [
  | none ↦ []
  | some subscribers ↦ receivers hub.connections subscribers
]

-- `GatewayHub::broadcast_to_thread`.
unfoldable pub broadcast_to_thread : ℕ → HubState → List ℕ
unfolding receivers
broadcast_to_thread thread_id hub = elim (get thread_id hub.thread_subscribers) [
  | none ↦ []
  | some subscribers ↦ receivers hub.connections subscribers
]

-- `GatewayHub::broadcast_to_user`.
unfoldable pub broadcast_to_user : ℕ → HubState → List ℕ
unfolding receivers
broadcast_to_user user_id hub = elim (get user_id hub.user_connections) [
  | none ↦ []
  | some ids ↦ receivers hub.connections ids
]

abbrev pub keys : HashMap ConnectionState → List ℕ
keys [] = []
keys ((c, _) ∷ m) = c ∷ keys m

-- `GatewayHub::broadcast_global`.
unfoldable pub broadcast_global : HubState → List ℕ
broadcast_global hub = keys hub.connections

-- `GatewayHub::send_to_connection`.
unfoldable pub send_to_connection : ℕ → HubState → List ℕ
send_to_connection connection_id hub = elim (get connection_id hub.connections) [
  | none ↦ []
  | some _ ↦ connection_id ∷ []
]
