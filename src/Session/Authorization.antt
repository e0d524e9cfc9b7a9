-- ===== src/Session/Authorization.antt =====
-- A subscription rests on a permission.
use sagiton.Prelude.{
  ℕ, ◌≡◌, ◌⊎◌, refl, inl, Bool, true, false, arith, ◌==◌, if◌then◌else◌, ◌&&◌, ◌||◌, is_some,
}
use sagiton.Shared.{AppResult, ok, err}
use sagiton.Permission.{has, view_channel}
use sagiton.Collections.{get, set_insert, set_remove, contains-set_insert, contains-set_remove}
use sagiton.Collections.Scope.{has_member, has_member-join, has_member-leave}
use sagiton.Gateway
use sagiton.Gateway.{ConnectionState, HubState}
use sagiton.Gateway.Wiring.{in_channel, in_thread, get-update_connection}
use sagiton.Gateway.Protocol.{ClientCommand, identify, heartbeat, typing_start, thread_typing_start}
use sagiton.Session.{Ports, Topic, channel, thread, user, presence, handle_command}

-- The use case grants the flag `VIEW_CHANNEL`.
abbrev pub may_view : AppResult ℕ → Bool
may_view (ok bits) = has bits view_channel
may_view (err _) = false

abbrev pub may_access : AppResult Bool → Bool
may_access (ok b) = b
may_access (err _) = false

-- What a connection subscribes after a call that changes the connection `c` at the scope `j`.
module _ (c j d k : ℕ) (hub : HubState) where
  after_subscribe_channel : in_channel k (get d (Gateway.subscribe_channel c j hub).connections) ≡ (
      if c == d && j == k
      then is_some (get d hub.connections)
      else in_channel k (get d hub.connections))
  unfolding Gateway.subscribe_channel
  after_subscribe_channel = grind (
    arith,
    get-update_connection c d
        (λ conn. record conn { subscribed_channels = set_insert j conn.subscribed_channels })
        hub.connections,
    contains-set_insert,
  )

  after_unsubscribe_channel :
      in_channel k (get d (Gateway.unsubscribe_channel c j hub).connections)
      ≡ (if c == d && j == k then false else in_channel k (get d hub.connections))
  unfolding Gateway.unsubscribe_channel
  after_unsubscribe_channel = grind (
    arith,
    get-update_connection c d
        (λ conn. record conn { subscribed_channels = set_remove j conn.subscribed_channels })
        hub.connections,
    contains-set_remove,
  )

  after_subscribe_thread : in_thread k (get d (Gateway.subscribe_thread c j hub).connections) ≡ (
      if c == d && j == k
      then is_some (get d hub.connections)
      else in_thread k (get d hub.connections))
  unfolding Gateway.subscribe_thread
  after_subscribe_thread = grind (
    arith,
    get-update_connection c d
        (λ conn. record conn { subscribed_threads = set_insert j conn.subscribed_threads })
        hub.connections,
    contains-set_insert,
  )

  after_unsubscribe_thread :
      in_thread k (get d (Gateway.unsubscribe_thread c j hub).connections)
      ≡ (if c == d && j == k then false else in_thread k (get d hub.connections))
  unfolding Gateway.unsubscribe_thread
  after_unsubscribe_thread = grind (
    arith,
    get-update_connection c d
        (λ conn. record conn { subscribed_threads = set_remove j conn.subscribed_threads })
        hub.connections,
    contains-set_remove,
  )

  -- The other calls leave the channels, or the threads, alone.
  channels_kept :
      (f : ConnectionState → ConnectionState)
      → ((conn : ConnectionState) → (f conn).subscribed_channels ≡ conn.subscribed_channels)
      → in_channel k (get d (Gateway.update_connection c f hub.connections))
        ≡ in_channel k (get d hub.connections)
  channels_kept f h = grind (arith, get-update_connection c d f hub.connections, h)

  threads_kept :
      (f : ConnectionState → ConnectionState)
      → ((conn : ConnectionState) → (f conn).subscribed_threads ≡ conn.subscribed_threads)
      → in_thread k (get d (Gateway.update_connection c f hub.connections))
        ≡ in_thread k (get d hub.connections)
  threads_kept f h = grind (arith, get-update_connection c d f hub.connections, h)

  channels_touch :
      in_channel k (get d (Gateway.touch_heartbeat c j hub).connections)
      ≡ in_channel k (get d hub.connections)
  unfolding Gateway.touch_heartbeat
  channels_touch = channels_kept (λ conn. record conn { last_heartbeat = j }) (λ conn. refl)

  threads_touch :
      in_thread k (get d (Gateway.touch_heartbeat c j hub).connections)
      ≡ in_thread k (get d hub.connections)
  unfolding Gateway.touch_heartbeat
  threads_touch = threads_kept (λ conn. record conn { last_heartbeat = j }) (λ conn. refl)

  channels_threads :
      (in_channel k (get d (Gateway.subscribe_thread c j hub).connections)
        ≡ in_channel k (get d hub.connections))
      × (in_channel k (get d (Gateway.unsubscribe_thread c j hub).connections)
          ≡ in_channel k (get d hub.connections))
  unfolding Gateway.subscribe_thread Gateway.unsubscribe_thread
  channels_threads = (
    channels_kept
        (λ conn. record conn { subscribed_threads = set_insert j conn.subscribed_threads })
        (λ conn. refl),
    channels_kept
        (λ conn. record conn { subscribed_threads = set_remove j conn.subscribed_threads })
        (λ conn. refl),
  )

  threads_channels :
      (in_thread k (get d (Gateway.subscribe_channel c j hub).connections)
        ≡ in_thread k (get d hub.connections))
      × (in_thread k (get d (Gateway.unsubscribe_channel c j hub).connections)
          ≡ in_thread k (get d hub.connections))
  unfolding Gateway.subscribe_channel Gateway.unsubscribe_channel
  threads_channels = (
    threads_kept
        (λ conn. record conn { subscribed_channels = set_insert j conn.subscribed_channels })
        (λ conn. refl),
    threads_kept
        (λ conn. record conn { subscribed_channels = set_remove j conn.subscribed_channels })
        (λ conn. refl),
  )

module _ (ports : Ports) (c u d k : ℕ) (hub : HubState) where
  channel_authorized :
      (cmd : ClientCommand)
      → in_channel k (get d (handle_command ports c u hub cmd).0.connections) ≡ true
      → (in_channel k (get d hub.connections) ≡ true)
        ⊎ ((d ≡ c) × (may_view (ports.channel_permissions u k) ≡ true))
  unfolding handle_command
  channel_authorized (identify token) h = inl h
  channel_authorized (heartbeat ts) h = ground (arith, channels_touch c ports.now d k hub)
  channel_authorized (ClientCommand.subscribe_channel j) h =
      ground (arith, after_subscribe_channel c j d k hub)
  channel_authorized (ClientCommand.unsubscribe_channel j) h =
      ground (arith, after_unsubscribe_channel c j d k hub)
  channel_authorized (typing_start j) h = inl h
  channel_authorized (ClientCommand.subscribe_thread j) h =
      ground (arith, (channels_threads c j d k hub).0)
  channel_authorized (ClientCommand.unsubscribe_thread j) h =
      ground (arith, (channels_threads c j d k hub).1)
  channel_authorized (thread_typing_start j) h = inl h

  thread_authorized :
      (cmd : ClientCommand)
      → in_thread k (get d (handle_command ports c u hub cmd).0.connections) ≡ true
      → (in_thread k (get d hub.connections) ≡ true)
        ⊎ ((d ≡ c) × (may_access (ports.can_access_thread k u) ≡ true))
  unfolding handle_command
  thread_authorized (identify token) h = inl h
  thread_authorized (heartbeat ts) h = ground (arith, threads_touch c ports.now d k hub)
  thread_authorized (ClientCommand.subscribe_channel j) h =
      ground (arith, (threads_channels c j d k hub).0)
  thread_authorized (ClientCommand.unsubscribe_channel j) h =
      ground (arith, (threads_channels c j d k hub).1)
  thread_authorized (typing_start j) h = inl h
  thread_authorized (ClientCommand.subscribe_thread j) h =
      ground (arith, after_subscribe_thread c j d k hub)
  thread_authorized (ClientCommand.unsubscribe_thread j) h =
      ground (arith, after_unsubscribe_thread c j d k hub)
  thread_authorized (thread_typing_start j) h = inl h

  channel_indexed :
      (cmd : ClientCommand)
      → has_member d k (handle_command ports c u hub cmd).0.channel_subscribers ≡ true
      → (has_member d k hub.channel_subscribers ≡ true)
        ⊎ ((d ≡ c) × (may_view (ports.channel_permissions u k) ≡ true))
  unfolding handle_command Gateway.subscribe_channel Gateway.unsubscribe_channel
      Gateway.subscribe_thread Gateway.unsubscribe_thread Gateway.touch_heartbeat
  channel_indexed (identify token) h = inl h
  channel_indexed (heartbeat ts) h = inl h
  channel_indexed (ClientCommand.subscribe_channel j) h =
      ground (arith, has_member-join c j d k hub.channel_subscribers)
  channel_indexed (ClientCommand.unsubscribe_channel j) h =
      ground (arith, has_member-leave c j d k hub.channel_subscribers)
  channel_indexed (typing_start j) h = inl h
  channel_indexed (ClientCommand.subscribe_thread j) h = ground arith
  channel_indexed (ClientCommand.unsubscribe_thread j) h = inl h
  channel_indexed (thread_typing_start j) h = inl h

  thread_indexed :
      (cmd : ClientCommand)
      → has_member d k (handle_command ports c u hub cmd).0.thread_subscribers ≡ true
      → (has_member d k hub.thread_subscribers ≡ true)
        ⊎ ((d ≡ c) × (may_access (ports.can_access_thread k u) ≡ true))
  unfolding handle_command Gateway.subscribe_channel Gateway.unsubscribe_channel
      Gateway.subscribe_thread Gateway.unsubscribe_thread Gateway.touch_heartbeat
  thread_indexed (identify token) h = inl h
  thread_indexed (heartbeat ts) h = inl h
  thread_indexed (ClientCommand.subscribe_channel j) h = ground arith
  thread_indexed (ClientCommand.unsubscribe_channel j) h = inl h
  thread_indexed (typing_start j) h = inl h
  thread_indexed (ClientCommand.subscribe_thread j) h =
      ground (arith, has_member-join c j d k hub.thread_subscribers)
  thread_indexed (ClientCommand.unsubscribe_thread j) h =
      ground (arith, has_member-leave c j d k hub.thread_subscribers)
  thread_indexed (thread_typing_start j) h = inl h

-- Whether a connection subscribes a channel or a thread, by its own record or by the index of the hub.
abbrev pub is_subscribed : Topic → ℕ → HubState → Bool
is_subscribed (channel k) d hub =
    in_channel k (get d hub.connections) || has_member d k hub.channel_subscribers
is_subscribed (thread k) d hub =
    in_thread k (get d hub.connections) || has_member d k hub.thread_subscribers
is_subscribed _ d hub = false

abbrev pub is_granted : Ports → ℕ → Topic → Bool
is_granted ports u (channel k) = may_view (ports.channel_permissions u k)
is_granted ports u (thread k) = may_access (ports.can_access_thread k u)
is_granted ports u _ = false

-- After a command of the connection `c` of user `u`, a connection `d` subscribes a channel or a
-- thread, by its own record or by the index that broadcasts read, only if it did before, or if it is
-- `c` and the use case grants `u` to view the channel, or to access the thread.
pub subscription_authorized :
    (ports : Ports) (c u d : ℕ) (topic : Topic) (hub : HubState) (cmd : ClientCommand)
    → is_subscribed topic d (handle_command ports c u hub cmd).0 ≡ true
    → (is_subscribed topic d hub ≡ true) ⊎ ((d ≡ c) × (is_granted ports u topic ≡ true))
subscription_authorized ports c u d (channel k) hub cmd h =
    ground (arith, channel_authorized ports c u d k hub cmd, channel_indexed ports c u d k hub cmd)
subscription_authorized ports c u d (thread k) hub cmd h =
    ground (arith, thread_authorized ports c u d k hub cmd, thread_indexed ports c u d k hub cmd)
subscription_authorized ports c u d (user k) hub cmd h = absurd (ground arith)
subscription_authorized ports c u d presence hub cmd h = absurd (ground arith)
