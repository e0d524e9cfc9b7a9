-- ===== src/Session/Lifetime.antt =====
-- A whole session, from the upgrade of the socket to its end.
use sagiton.Prelude.{
  ℕ, ◌≡◌, ◌≢◌, refl, Bool, true, false, none, some, List, [], ◌∷◌, arith, ◌==◌, if◌then◌else◌, inl,
  inr, Bool-cases, ltb,
}
use sagiton.Shared.{AppResult, ok, err}
use sagiton.Permission.{has, view_channel}
use sagiton.Collections.{get, get-insert, get-remove, set_insert, set_remove}
use sagiton.Gateway
use sagiton.Gateway.{ConnectionState, HubState}
use sagiton.Gateway.Wiring.{
  IsWired, get-update_connection, register-IsWired, unregister-IsWired, subscribe_channel-IsWired,
  unsubscribe_channel-IsWired, subscribe_thread-IsWired, unsubscribe_thread-IsWired,
  touch_heartbeat-IsWired,
}
use sagiton.Gateway.Protocol.{ClientCommand, identify, heartbeat, typing_start, thread_typing_start}
use sagiton.Session.{
  Ports, subscribe_channel_with, subscribe_thread_with, handle_command, Frame, handle_frame,
  session_loop, open_session, close_session, handle_socket, text_frame, control, shutdown, failed,
  ended, timed_out, close,
}

-- While the session of `c` runs on a hub that was `start`, the indices are in step, `c` is
-- registered, and the other connections are as they were.
record IsRunning (c : ℕ) (start hub : HubState) : Type 0 where
  wired : IsWired hub
  known : get c hub.connections ≢ none
  others : (d : ℕ) → d ≢ c → get d hub.connections ≡ get d start.connections

module _ (c : ℕ) (start hub : HubState) (r : IsRunning c start hub) where
  -- A call that is well wired and updates the record of `c` goes on.
  updated :
      (f : ConnectionState → ConnectionState) (hub' : HubState)
      → hub'.connections ≡ Gateway.update_connection c f hub.connections
      → IsWired hub'
      → IsRunning c start hub'
  updated f hub' e w = record {
    wired = w;
    known = rw e (ground (arith, get-update_connection c c f hub.connections, r.known));
    others =
        λ d ne. rw e (ground (arith, get-update_connection c d f hub.connections, r.others d ne));
  }

  subscribe_channel_runs : (k : ℕ) → IsRunning c start (Gateway.subscribe_channel c k hub)
  unfolding Gateway.subscribe_channel
  subscribe_channel_runs k =
      updated (λ conn. record conn { subscribed_channels = set_insert k conn.subscribed_channels })
        (Gateway.subscribe_channel c k hub) refl (subscribe_channel-IsWired c k hub r.wired r.known)

  unsubscribe_channel_runs : (k : ℕ) → IsRunning c start (Gateway.unsubscribe_channel c k hub)
  unfolding Gateway.unsubscribe_channel
  unsubscribe_channel_runs k =
      updated (λ conn. record conn { subscribed_channels = set_remove k conn.subscribed_channels })
        (Gateway.unsubscribe_channel c k hub) refl (unsubscribe_channel-IsWired c k hub r.wired)

  subscribe_thread_runs : (k : ℕ) → IsRunning c start (Gateway.subscribe_thread c k hub)
  unfolding Gateway.subscribe_thread
  subscribe_thread_runs k =
      updated (λ conn. record conn { subscribed_threads = set_insert k conn.subscribed_threads })
        (Gateway.subscribe_thread c k hub) refl (subscribe_thread-IsWired c k hub r.wired r.known)

  unsubscribe_thread_runs : (k : ℕ) → IsRunning c start (Gateway.unsubscribe_thread c k hub)
  unfolding Gateway.unsubscribe_thread
  unsubscribe_thread_runs k =
      updated (λ conn. record conn { subscribed_threads = set_remove k conn.subscribed_threads })
        (Gateway.unsubscribe_thread c k hub) refl (unsubscribe_thread-IsWired c k hub r.wired)

  touch_heartbeat_runs : (now : ℕ) → IsRunning c start (Gateway.touch_heartbeat c now hub)
  unfolding Gateway.touch_heartbeat
  touch_heartbeat_runs now =
      updated (λ conn. record conn { last_heartbeat = now }) (Gateway.touch_heartbeat c now hub)
        refl (touch_heartbeat-IsWired c now hub r.wired)

  module _ (ports : Ports) (u : ℕ) where
    channel_runs :
        (k : ℕ) (perms : AppResult ℕ)
        → IsRunning c start (subscribe_channel_with ports c u hub k perms).0
    unfolding subscribe_channel_with
    channel_runs k (ok bits) = elim (Bool-cases (has bits view_channel)) [
      | inl granted ↦ rw granted (subscribe_channel_runs k)
      | inr denied ↦ rw denied r
    ]
    channel_runs k (err e) = r

    thread_runs :
        (k : ℕ) (access : AppResult Bool)
        → IsRunning c start (subscribe_thread_with ports c u hub k access).0
    unfolding subscribe_thread_with
    thread_runs k (ok true) = subscribe_thread_runs k
    thread_runs k (ok false) = r
    thread_runs k (err e) = r

    command_runs : (cmd : ClientCommand) → IsRunning c start (handle_command ports c u hub cmd).0
    unfolding handle_command
    command_runs (identify token) = r
    command_runs (heartbeat ts) = touch_heartbeat_runs ports.now
    command_runs (ClientCommand.subscribe_channel k) =
        channel_runs k (ports.channel_permissions u k)
    command_runs (ClientCommand.unsubscribe_channel k) = unsubscribe_channel_runs k
    command_runs (typing_start k) = r
    command_runs (ClientCommand.subscribe_thread k) = thread_runs k (ports.can_access_thread k u)
    command_runs (ClientCommand.unsubscribe_thread k) = unsubscribe_thread_runs k
    command_runs (thread_typing_start k) = r

module _ (ports : Ports) (limit c u : ℕ) (start : HubState) where
  frame_runs :
      (frame : Frame) (hub : HubState)
      → IsRunning c start hub
      → IsRunning c start (handle_frame ports limit c u frame hub).1.0
  unfolding handle_frame
  frame_runs (text_frame len none) hub r = elim (Bool-cases (ltb limit len)) [
    | inl long ↦ rw long r
    | inr short ↦ rw short r
  ]
  frame_runs (text_frame len (some cmd)) hub r = elim (Bool-cases (ltb limit len)) [
    | inl long ↦ rw long r
    | inr short ↦ rw short (command_runs c start hub r ports u cmd)
  ]
  frame_runs control hub r = r
  frame_runs shutdown hub r = r
  frame_runs failed hub r = r
  frame_runs ended hub r = r
  frame_runs timed_out hub r = r
  frame_runs close hub r = r

  loop_runs :
      (frames : List Frame) (hub : HubState)
      → IsRunning c start hub
      → IsRunning c start (session_loop ports limit c u frames hub).0
  unfolding session_loop
  loop_runs [] hub r = r
  loop_runs (frame ∷ frames) hub r = elim (Bool-cases (handle_frame ports limit c u frame hub).0) [
    | inl again ↦
        rw again
          (loop_runs frames (handle_frame ports limit c u frame hub).1.0 (frame_runs frame hub r))
    | inr left ↦ rw left (frame_runs frame hub r)
  ]

get-register :
    (c now u d : ℕ) (hub : HubState)
    → get d (Gateway.register c now u hub).0.connections ≡ (
        if c == d
        then some (record {
          user_id = u;
          subscribed_channels = [];
          subscribed_threads = [];
          last_heartbeat = now;
        })
        else get d hub.connections)
unfolding Gateway.register
get-register c now u d hub = get-insert c d _ hub.connections

get-unregister :
    (c d : ℕ) (hub : HubState)
    → get d (Gateway.unregister c hub).0.connections
      ≡ (if c == d then none else get d hub.connections)
unfolding Gateway.unregister
get-unregister c d hub = ground (arith, get-remove c d hub.connections)

open_runs :
    (ports : Ports) (limit c u : ℕ) (start : HubState)
    → IsWired start
    → get c start.connections ≡ none
    → IsRunning c start (open_session ports limit c u start).0
unfolding open_session
open_runs ports limit c u start w fresh = record {
  wired = register-IsWired c ports.now u start fresh w;
  known = ground (arith, get-register c ports.now u c start);
  others = λ d ne. ground (arith, get-register c ports.now u d start);
}

close_clears :
    (ports : Ports) (limit c u : ℕ) (start hub : HubState)
    → get c start.connections ≡ none
    → IsRunning c start hub
    → IsWired (close_session ports limit c u hub).0
      × ((d : ℕ)
          → get d (close_session ports limit c u hub).0.connections ≡ get d start.connections)
unfolding close_session
close_clears ports limit c u start hub fresh r =
    (unregister-IsWired c hub r.wired, λ d. ground (arith, get-unregister c d hub, r.others d))

-- A session that gets a fresh connection id, on a hub whose indices are in step, leaves such a hub,
-- whatever frames arrive: its connection is gone, and every other one is as it was.
pub handle_socket_clears :
    (ports : Ports) (limit c u : ℕ) (frames : List Frame) (start : HubState)
    → IsWired start
    → get c start.connections ≡ none
    → IsWired (handle_socket ports limit c u frames start).0
      × ((d : ℕ)
          → get d (handle_socket ports limit c u frames start).0.connections
            ≡ get d start.connections)
unfolding handle_socket
handle_socket_clears ports limit c u frames start w fresh =
    close_clears ports limit c u start
      (session_loop ports limit c u frames (open_session ports limit c u start).0).0 fresh
      (loop_runs ports limit c u start frames (open_session ports limit c u start).0
        (open_runs ports limit c u start w fresh))
