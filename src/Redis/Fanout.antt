-- ===== src/Redis/Fanout.antt =====
-- An event that one instance publishes, on its own connections and on those of the other instances.
use sagiton.Prelude.{
  ap, ℕ, ◌+◌, ◌*◌, ◌≡◌, ◌≢◌, refl, Bool, true, false, ◌==◌, Option, some, is_some, List, [], ◌∷◌,
  ◌++◌, map, arith, if◌then◌else◌, ==_iff,
}
use mathlib.Core.Bool.{false≢true}
use sagiton.Text.{Text, text_eq_iff, is_empty}
use sagiton.Collections.{get}
use sagiton.Collections.Scope.{count}
use sagiton.Gateway.{
  ConnectionState, HubState, broadcast_to_channel, broadcast_to_thread, broadcast_to_user,
}
use sagiton.Gateway.Wiring.{IsWired, owned_by, in_channel, in_thread}
use sagiton.Gateway.Delivery.{once, broadcast_exactly_once}
use sagiton.Gateway.Protocol.{
  ServerEvent, presence_update, message_create, message_update, message_delete,
  thread_message_create, thread_message_update, thread_message_delete, thread_request_received,
  thread_accepted, typing, thread_typing,
}
use sagiton.Session.{
  Effect, deliver, publish_redis, set_presence, Topic, channel, thread, user, presence,
  local_targets, publish,
}
use sagiton.Conversation.Direct.{DirectThreadTransition}
use sagiton.Http.{Publication}
use sagiton.Http.Conversations.{accepted_events}
use sagiton.Redis.{
  Json, RealtimeEnvelope, dispatch_targets, dispatch_event, decode_payload, is_own, handle_envelope,
  handle_message, publish_payload,
}

-- The events whose fields name the scope that they are published to.
unfoldable pub is_routed : Topic → ServerEvent → Bool
is_routed (channel k) (message_create c _) = c == k
is_routed (channel k) (message_update c _) = c == k
is_routed (channel k) (message_delete c _ _) = c == k
is_routed (channel k) (typing c _) = c == k
is_routed (thread k) (thread_message_create t _) = t == k
is_routed (thread k) (thread_message_update t _) = t == k
is_routed (thread k) (thread_message_delete t _ _) = t == k
is_routed (thread k) (thread_typing t _) = t == k
is_routed (user u) (thread_request_received _ _ receiver) = receiver == u
is_routed presence (presence_update _ _) = true
is_routed _ _ = false

-- A broadcast to the scope that an event names.
same :
    (broadcast : ℕ → HubState → List ℕ) (x k : ℕ) (hub : HubState)
    → (x == k) ≡ true
    → broadcast x hub ≡ broadcast k hub
same broadcast x k hub h = ap (λ n. broadcast n hub) ((==_iff x k).0 h)

routed_targets :
    (topic : Topic) (event : ServerEvent) (hub : HubState)
    → is_routed topic event ≡ true
    → dispatch_targets event hub ≡ local_targets topic hub
unfolding is_routed dispatch_targets
routed_targets (channel k) (message_create x _) hub h = same broadcast_to_channel x k hub h
routed_targets (channel k) (message_update x _) hub h = same broadcast_to_channel x k hub h
routed_targets (channel k) (message_delete x _ _) hub h = same broadcast_to_channel x k hub h
routed_targets (channel k) (typing x _) hub h = same broadcast_to_channel x k hub h
routed_targets (thread k) (thread_message_create x _) hub h = same broadcast_to_thread x k hub h
routed_targets (thread k) (thread_message_update x _) hub h = same broadcast_to_thread x k hub h
routed_targets (thread k) (thread_message_delete x _ _) hub h = same broadcast_to_thread x k hub h
routed_targets (thread k) (thread_typing x _) hub h = same broadcast_to_thread x k hub h
routed_targets (user k) (thread_request_received _ _ x) hub h = same broadcast_to_user x k hub h
routed_targets presence (presence_update _ _) hub h = refl
routed_targets topic event hub h = absurd (false≢true h)

-- Whether a connection is one of those that a publication is for.
abbrev pub wants : Topic → Option ConnectionState → Bool
wants (channel k) o = in_channel k o
wants (thread k) o = in_thread k o
wants (user u) o = owned_by u o
wants presence o = is_some o

-- How often an event is handed to a connection.
abbrev pub delivered : ℕ → List Effect → ℕ
delivered c [] = 0
delivered c (deliver d _ ∷ effects) =
    let rest = delivered c effects in if d == c then rest + 1 else rest
delivered c (publish_redis _ _ ∷ effects) = delivered c effects
delivered c (set_presence _ _ _ ∷ effects) = delivered c effects

delivered-append :
    (c : ℕ) (xs ys : List Effect) → delivered c (xs ++ ys) ≡ delivered c xs + delivered c ys
delivered-append c [] ys = omega arith
delivered-append c (deliver d e ∷ xs) ys = ground (arith, delivered-append c xs ys)
delivered-append c (publish_redis t e ∷ xs) ys = delivered-append c xs ys
delivered-append c (set_presence u s t ∷ xs) ys = delivered-append c xs ys

delivered-map :
    (c : ℕ) (event : ServerEvent) (ids : List ℕ)
    → delivered c (map (λ d. deliver d event) ids) ≡ count c ids
delivered-map c event [] = refl
delivered-map c event (d ∷ ids) = ground (arith, delivered-map c event ids)

targets_once :
    (topic : Topic) (hub : HubState) (c : ℕ)
    → IsWired hub
    → count c (local_targets topic hub) ≡ once (wants topic (get c hub.connections))
targets_once (channel k) hub c w = (broadcast_exactly_once hub c k w).0
targets_once (thread k) hub c w = (broadcast_exactly_once hub c k w).1
targets_once (user u) hub c w = (broadcast_exactly_once hub c u w).2
targets_once presence hub c w = (broadcast_exactly_once hub c 0 w).3

publish-delivered :
    (topic : Topic) (event : ServerEvent) (hub : HubState) (c : ℕ)
    → IsWired hub
    → delivered c (publish topic event hub) ≡ once (wants topic (get c hub.connections))
unfolding publish
publish-delivered topic event hub c w = ground (
  arith,
  delivered-append c (map (λ d. deliver d event) (local_targets topic hub))
      (publish_redis topic event ∷ []),
  delivered-map c event (local_targets topic hub),
  targets_once topic hub c w,
)

-- `serde_json` reads back the envelope that it wrote.
abbrev pub ReadsBack : Json → Type 0
ReadsBack json =
    (envelope : RealtimeEnvelope) (payload : Text)
    → json.to_string envelope ≡ some payload
    → json.envelope_from_str payload ≡ some envelope

module _ (json : Json) (a b : Text) (event : ServerEvent) (payload : Text) (reads : ReadsBack json)
    (named : is_empty a ≡ false) (sent : publish_payload json a event ≡ some payload) where
  decoded : decode_payload json b payload ≡ some (record { origin_instance_id = a; event = event })
  unfolding decode_payload publish_payload
  decoded = ground (arith, reads (record { origin_instance_id = a; event = event }) payload sent)

  ignores_own : (hub : HubState) → a ≡ b → handle_message json b (some payload) hub ≡ []
  unfolding handle_message handle_envelope is_own
  ignores_own hub e = ground (arith, decoded, named, (text_eq_iff a b).1 e)

  dispatches_other :
      (hub : HubState) → a ≢ b → handle_message json b (some payload) hub ≡ dispatch_event event hub
  unfolding handle_message handle_envelope is_own
  dispatches_other hub e = ground (arith, decoded, named, (text_eq_iff a b).0)

dispatch_count :
    (event : ServerEvent) (hub : HubState) (c : ℕ)
    → delivered c (dispatch_event event hub) ≡ count c (dispatch_targets event hub)
unfolding dispatch_event
dispatch_count event hub c = delivered-map c event (dispatch_targets event hub)

-- Of an event that an instance publishes to the scope that the event names, each connection of each
-- instance that is meant gets exactly one copy, and no other connection gets any: the instance itself
-- delivers it and passes over the message that comes back from Redis, and any other delivers it when
-- the message comes. This is so where the hubs have their indices in step, the name of the publishing
-- instance is not empty, and `serde_json` reads back what it wrote.
pub publish_exactly_once :
    (json : Json) (a b : Text) (topic : Topic) (event : ServerEvent) (payload : Text)
    → ReadsBack json
    → is_empty a ≡ false
    → a ≢ b
    → publish_payload json a event ≡ some payload
    → is_routed topic event ≡ true
    → (hub : HubState) → IsWired hub
    → (c : ℕ)
    → (delivered c (publish topic event hub ++ handle_message json a (some payload) hub)
        ≡ once (wants topic (get c hub.connections)))
      × (delivered c (handle_message json b (some payload) hub)
          ≡ once (wants topic (get c hub.connections)))
publish_exactly_once json a b topic event payload reads named other sent routed hub w c = (
  rw (ignores_own json a a event payload reads named sent hub refl) (
      ground (
        arith,
        delivered-append c (publish topic event hub) [],
        publish-delivered topic event hub c w,
      )),
  rw (dispatches_other json a b event payload reads named sent hub other) (
      ground (
        arith,
        dispatch_count event hub c,
        routed_targets topic event hub routed,
        targets_once topic hub c w,
      )),
)

count-append : (c : ℕ) (xs ys : List ℕ) → count c (xs ++ ys) ≡ count c xs + count c ys
count-append c [] ys = omega arith
count-append c (d ∷ xs) ys = ground (arith, count-append c xs ys)

-- What publications make the publishing instance deliver at once, and what the messages that they send
-- from one instance make another, or the same, deliver.
abbrev pub delivered_at_once : HubState → List Publication → List Effect
delivered_at_once hub [] = []
delivered_at_once hub (p ∷ ps) = publish p.0 p.1 hub ++ delivered_at_once hub ps

abbrev pub delivered_from : Json → (from to : Text) → HubState → List Publication → List Effect
delivered_from json from to hub [] = []
delivered_from json from to hub (p ∷ ps) =
    handle_message json to (publish_payload json from p.1) hub ++ delivered_from json from to hub ps

-- Of the events that the handler publishes when a direct thread is accepted, a connection of one of its
-- two users gets one copy on the instance that publishes them, and two on any other instance, since
-- each of the messages is delivered to both users; no other connection gets any. The users are
-- distinct, the hubs have their indices in step, the name of the publishing instance is not empty, and
-- `serde_json` writes the event and reads back what it wrote.
pub thread_accepted_copies :
    (json : Json) (a b : Text) (u id : ℕ) (t : DirectThreadTransition) (payload : Text)
    → ReadsBack json
    → is_empty a ≡ false
    → publish_payload json a (thread_accepted id u t.requester_user_id t.receiver_user_id)
      ≡ some payload
    → t.requester_user_id ≢ t.receiver_user_id
    → a ≢ b
    → (hub : HubState) → IsWired hub
    → (c : ℕ)
    → (delivered c (
          delivered_at_once hub (accepted_events u id t)
          ++ delivered_from json a a hub (accepted_events u id t))
        ≡ once (owned_by t.requester_user_id (get c hub.connections))
          + once (owned_by t.receiver_user_id (get c hub.connections)))
      × (delivered c (delivered_from json a b hub (accepted_events u id t))
          ≡ 2
            * (once (owned_by t.requester_user_id (get c hub.connections))
                + once (owned_by t.receiver_user_id (get c hub.connections))))
unfolding dispatch_targets accepted_events
thread_accepted_copies json a b u id t payload reads named sent differ other hub w c =
    let requester = t.requester_user_id in
    let receiver = t.receiver_user_id in
    let event = thread_accepted id u requester receiver in
    let to_both : List ℕ = broadcast_to_user requester hub ++ broadcast_to_user receiver hub in
    let distinct : (requester == receiver) ≡ false =
      ground (arith, (==_iff requester receiver).0) in
    let both : delivered c (dispatch_event event hub) ≡ count c to_both =
      rw (dispatch_count event hub c, distinct) refl in
    let events = accepted_events u id t in
    let at_once : delivered c (delivered_at_once hub events)
        ≡ once (owned_by requester (get c hub.connections))
          + once (owned_by receiver (get c hub.connections)) =
      ground (
        arith,
        delivered-append c (publish (user requester) event hub)
            (publish (user receiver) event hub ++ []),
        delivered-append c (publish (user receiver) event hub) [],
        publish-delivered (user requester) event hub c w,
        publish-delivered (user receiver) event hub c w,
      ) in
    let no_echo : delivered_from json a a hub events ≡ [] =
      rw (sent, ignores_own json a a event payload reads named sent hub refl) refl in
    (
      ground (
        arith,
        delivered-append c (delivered_at_once hub events) (delivered_from json a a hub events),
        at_once,
        no_echo,
      ),
      rw (sent, dispatches_other json a b event payload reads named sent hub other)
          (ground (
            arith,
            delivered-append c (dispatch_event event hub) (dispatch_event event hub ++ []),
            delivered-append c (dispatch_event event hub) [],
            both,
            count-append c (broadcast_to_user requester hub) (broadcast_to_user receiver hub),
            targets_once (user requester) hub c w,
            targets_once (user receiver) hub c w,
          )),
    )
