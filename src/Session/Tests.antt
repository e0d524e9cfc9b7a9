-- ===== src/Session/Tests.antt =====
-- A session with ports that compute.
use sagiton.Prelude.{ℕ, ◌≡◌, refl, none, some, [], ◌∷◌, true, false, ◌⊎◌, List}
use sagiton.Shared.{ok}
use sagiton.Collections.{get}
use sagiton.Collections.{set_insert, insert, contains}
use sagiton.Collections.Scope.{join, has_member}
use sagiton.Permission.{has}
use sagiton.Gateway
use sagiton.Gateway.{HubState, register, new_hub}
use sagiton.Gateway.Protocol.{ClientCommand}
use sagiton.Gateway.Wiring.{IsWired}
use sagiton.Gateway.Invariant.{here, Reach-IsWired}
use sagiton.Session.{Ports, channel, handle_command, handle_socket, Frame, text_frame, close}
use sagiton.Session.Authorization.{is_subscribed, is_granted, subscription_authorized}
use sagiton.Session.Lifetime.{handle_socket_clears}

abbrev ports : Ports
ports = record {
  channel_permissions = λ u c. ok 3;
  can_access_thread = λ t u. ok false;
  allow_rate_limit = λ k n w. true;
  now = 0;
}

abbrev connection : ℕ
connection = 7

abbrev hub : HubState
hub = (register connection 0 1 new_hub).0

subscription_authorized_example :
    (is_subscribed (channel 3) connection hub ≡ true)
    ⊎ ((connection ≡ connection) × (is_granted ports 1 (channel 3) ≡ true))
unfolding handle_command Gateway.subscribe_channel Gateway.update_connection register join
    set_insert insert get has has_member contains
subscription_authorized_example =
    subscription_authorized ports connection 1 connection (channel 3) hub
      (ClientCommand.subscribe_channel 3) refl

abbrev frames : List Frame
frames = text_frame 9 (some (ClientCommand.subscribe_channel 3)) ∷ text_frame 9 none ∷ close ∷ []

handle_socket_clears_example :
    IsWired (handle_socket ports 4096 7 1 frames new_hub).0
    × ((d : ℕ)
        → get d (handle_socket ports 4096 7 1 frames new_hub).0.connections
          ≡ get d new_hub.connections)
unfolding get
handle_socket_clears_example =
    handle_socket_clears ports 4096 7 1 frames new_hub (Reach-IsWired {hub = new_hub} here) refl
