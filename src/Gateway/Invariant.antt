-- ===== src/Gateway/Invariant.antt =====
-- Any sequence of calls on the hub keeps its indices in step.
use sagiton.Prelude.{ℕ, ◌≡◌, ◌≢◌, none}
use sagiton.Collections.{get}
use sagiton.Gateway.{
  HubState, register, unregister, subscribe_channel, unsubscribe_channel, subscribe_thread,
  unsubscribe_thread, touch_heartbeat, shutdown_all, new_hub,
}
use sagiton.Gateway.Wiring.{
  IsWired, register-IsWired, unregister-IsWired, subscribe_channel-IsWired,
  unsubscribe_channel-IsWired, subscribe_thread-IsWired, unsubscribe_thread-IsWired,
  touch_heartbeat-IsWired, new_hub-IsWired,
}

-- The calls that tasks make on the hub. A connection id is fresh when it is registered, and a task
-- subscribes its own connection, which is registered.
pub data Step : HubState → HubState → Type 0 where
  registers :
      (c now u : ℕ) (hub : HubState)
      → get c hub.connections ≡ none
      → Step hub (register c now u hub).0
  unregisters : (c : ℕ) (hub : HubState) → Step hub (unregister c hub).0
  subscribes_channel :
      (c k : ℕ) (hub : HubState)
      → get c hub.connections ≢ none
      → Step hub (subscribe_channel c k hub)
  unsubscribes_channel : (c k : ℕ) (hub : HubState) → Step hub (unsubscribe_channel c k hub)
  subscribes_thread :
      (c k : ℕ) (hub : HubState)
      → get c hub.connections ≢ none
      → Step hub (subscribe_thread c k hub)
  unsubscribes_thread : (c k : ℕ) (hub : HubState) → Step hub (unsubscribe_thread c k hub)
  touches : (c now : ℕ) (hub : HubState) → Step hub (touch_heartbeat c now hub)
  shuts_down : (hub : HubState) → Step hub (shutdown_all hub)

pub data Reach (s : HubState) : HubState → Type 0 where
  here : Reach s s
  next : {t u : HubState} → Reach s t → Step t u → Reach s u

shutdown_all-IsWired : (hub : HubState) → IsWired (shutdown_all hub)
unfolding shutdown_all
shutdown_all-IsWired hub = new_hub-IsWired

Step-IsWired : {t u : HubState} → Step t u → IsWired t → IsWired u
Step-IsWired (registers c now u hub fresh) w = register-IsWired c now u hub fresh w
Step-IsWired (unregisters c hub) w = unregister-IsWired c hub w
Step-IsWired (subscribes_channel c k hub known) w = subscribe_channel-IsWired c k hub w known
Step-IsWired (unsubscribes_channel c k hub) w = unsubscribe_channel-IsWired c k hub w
Step-IsWired (subscribes_thread c k hub known) w = subscribe_thread-IsWired c k hub w known
Step-IsWired (unsubscribes_thread c k hub) w = unsubscribe_thread-IsWired c k hub w
Step-IsWired (touches c now hub) w = touch_heartbeat-IsWired c now hub w
Step-IsWired (shuts_down hub) w = shutdown_all-IsWired hub

-- After any calls on a new hub, each with a fresh id where it registers and a registered connection
-- where it subscribes, the indices are in step: a connection is in the set of a user, of a channel
-- or of a thread exactly when it is registered and its own record says so; no set is empty or has a
-- member twice, and no connection is listed twice.
pub Reach-IsWired : {hub : HubState} → Reach new_hub hub → IsWired hub
Reach-IsWired here = new_hub-IsWired
Reach-IsWired (next r st) = Step-IsWired st (Reach-IsWired r)
