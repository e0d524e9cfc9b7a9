-- ===== src/Gateway/Tests.antt =====
-- The hub with one user on one connection.
use sagiton.Prelude.{◌≡◌, ◌≢◌, refl, arith, none, some, [], ◌∷◌, not, true, is_some}
use sagiton.Collections.{get, insert, set_insert}
use sagiton.Collections.Scope.{count}
use sagiton.Gateway.{
  ConnectionState, HubState, new_hub, register, unregister, subscribe_channel, broadcast_to_channel,
  broadcast_to_thread, broadcast_to_user, broadcast_global, update_connection,
}
use sagiton.Gateway.Wiring.{IsWired, owned_by, in_channel, in_thread}
use sagiton.Gateway.Invariant.{here, next, registers, subscribes_channel, Reach-IsWired}
use sagiton.Gateway.Presence.{online, register_presence, unregister_presence}
use sagiton.Gateway.Delivery.{once, broadcast_exactly_once}

-- Connection 7 of user 1 subscribes channel 3.
abbrev connected : HubState
connected = (register 7 0 1 new_hub).0

abbrev listening : HubState
listening = subscribe_channel 7 3 connected

registered : get 7 connected.connections ≢ none
unfolding register insert get
registered e = absurd (ground arith)

listening-IsWired : IsWired listening
unfolding get
listening-IsWired =
    Reach-IsWired {hub = listening} (
      next (next here (registers 7 0 1 new_hub refl)) (subscribes_channel 7 3 connected registered))

Reach-IsWired_example : IsWired listening
unfolding get
Reach-IsWired_example =
    Reach-IsWired {hub = listening} (
      next (next here (registers 7 0 1 new_hub refl)) (subscribes_channel 7 3 connected registered))

broadcast_exactly_once_example :
    (count 7 (broadcast_to_channel 3 listening) ≡ once (in_channel 3 (get 7 listening.connections)))
    × (count 7 (broadcast_to_thread 3 listening) ≡ once (in_thread 3 (get 7 listening.connections)))
    × (count 7 (broadcast_to_user 3 listening) ≡ once (owned_by 3 (get 7 listening.connections)))
    × (count 7 (broadcast_global listening) ≡ once (is_some (get 7 listening.connections)))
broadcast_exactly_once_example = broadcast_exactly_once listening 7 3 listening-IsWired

register_presence_example :
    ((register 8 0 1 listening).1.first_connection ≡ not (online 1 listening.connections))
    × (online 1 (register 8 0 1 listening).0.connections ≡ true)
unfolding register subscribe_channel update_connection get insert
register_presence_example = register_presence 8 0 1 listening listening-IsWired refl

abbrev conn : ConnectionState
conn = record {
  user_id = 1;
  subscribed_channels = 3 ∷ [];
  subscribed_threads = [];
  last_heartbeat = 0;
}

unregister_presence_example :
    (unregister 7 listening).1
    ≡ some (record {
      user_id = 1;
      became_offline = not (online 1 (unregister 7 listening).0.connections);
    })
unfolding register subscribe_channel update_connection get insert set_insert
unregister_presence_example = unregister_presence 7 listening conn listening-IsWired refl
