-- ===== src/Gateway/Delivery.antt =====
-- Whom a broadcast reaches.
use sagiton.Prelude.{
  ℕ, ◌≡◌, refl, Bool, true, false, [], ◌∷◌, arith, if◌then◌else◌, inl, inr, Option-cases, is_some,
}
use sagiton.Collections.{HashMap, HashSet, get, contains, UniqueKeys}
use sagiton.Collections.Scope.{has_member, or_default, IsTidy, count, count-contains}
use sagiton.Gateway.{
  ConnectionState, HubState, receivers, keys, broadcast_to_channel, broadcast_to_thread,
  broadcast_to_user, broadcast_global,
}
use sagiton.Gateway.Wiring.{IsWired, owned_by, in_channel, in_thread}

abbrev pub once : Bool → ℕ
once true = 1
once false = 0

count-receivers :
    (c : ℕ) (m : HashMap ConnectionState) (s : HashSet)
    → count c (receivers m s) ≡ (if is_some (get c m) then count c s else 0)
unfolding receivers
count-receivers c m [] = ground arith
count-receivers c m (d ∷ s) = ground (arith, count-receivers c m s)

count-receivers_member :
    (c k : ℕ) (m : HashMap ConnectionState) (index : HashMap HashSet)
    → IsTidy index
    → count c (receivers m (or_default (get k index)))
      ≡ once (if is_some (get c m) then has_member c k index else false)
unfolding has_member contains
count-receivers_member c k m index t = elim (Option-cases (get k index)) [
  | inl e ↦ rw e (ground (arith, count-receivers c m []))
  | inr (s, e) ↦ rw e (ground (arith, count-receivers c m s, count-contains c s (t k s e).0))
]

count-keys :
    (c : ℕ) (m : HashMap ConnectionState)
    → UniqueKeys m
    → count c (keys m) ≡ once (is_some (get c m))
unfolding get
count-keys c [] u = refl
count-keys c ((d, conn) ∷ m) u = ground (arith, count-keys c m u.1)

-- In a hub whose indices are in step, a broadcast to a channel, a thread or a user hands the event
-- once to each registered connection that subscribed the channel, subscribed the thread, or belongs
-- to the user, and to no other; a global one hands it once to each registered connection.
pub broadcast_exactly_once :
    (hub : HubState) (c k : ℕ)
    → IsWired hub
    → (count c (broadcast_to_channel k hub) ≡ once (in_channel k (get c hub.connections)))
      × (count c (broadcast_to_thread k hub) ≡ once (in_thread k (get c hub.connections)))
      × (count c (broadcast_to_user k hub) ≡ once (owned_by k (get c hub.connections)))
      × (count c (broadcast_global hub) ≡ once (is_some (get c hub.connections)))
unfolding broadcast_to_channel broadcast_to_thread broadcast_to_user broadcast_global
broadcast_exactly_once hub c k w = (
  ground (
    arith,
    count-receivers_member c k hub.connections hub.channel_subscribers w.tidy_channels,
    w.channels c k,
  ),
  ground (
    arith,
    count-receivers_member c k hub.connections hub.thread_subscribers w.tidy_threads,
    w.threads c k,
  ),
  ground (
    arith,
    count-receivers_member c k hub.connections hub.user_connections w.tidy_users,
    w.users c k,
  ),
  count-keys c hub.connections w.unique,
)
