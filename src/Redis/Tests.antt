-- ===== src/Redis/Tests.antt =====
-- The messages between instances, the listener and the rate limit, at concrete inputs.
use sagiton.Prelude.{
  zero, suc, ℕ, ◌+◌, ◌*◌, ◌≡◌, ◌≢◌, ◌++◌, refl, true, false, ltb, min, Option, none, some, List, [],
  ◌∷◌, arith,
}
use mathlib.Core.Option.{some-injective}
use sagiton.Text.{Text}
use sagiton.Shared.{err, ok, internal, text}
use sagiton.Collections.{get}
use sagiton.Database.Table.{exists_where, All}
use sagiton.Gateway.{HubState, new_hub, register}
use sagiton.Gateway.Wiring.{IsWired, owned_by}
use sagiton.Gateway.Invariant.{here, next, registers, Reach-IsWired}
use sagiton.Gateway.Delivery.{once}
use sagiton.Gateway.Protocol.{ServerEvent, thread_accepted, thread_request_received}
use sagiton.Session.{user, publish}
use sagiton.Redis.{
  Json, RealtimeEnvelope, cancelled, Round, handle_message, publish_payload, run_pubsub_listener,
}
use sagiton.Redis.Fanout.{
  delivered, wants, ReadsBack, is_routed, publish_exactly_once, thread_accepted_copies,
  delivered_at_once, delivered_from,
}
use sagiton.Conversation.Direct.{DirectThreadTransition}
use sagiton.Http.Conversations.{accepted_events}
use sagiton.Redis.Backoff.{IsBounded, is_cancelled_in, run_pubsub_listener_returns}
use sagiton.Redis.RateLimit.{Counter, allow_rate_limit}
use sagiton.Redis.Limit.{IsCounting, granted, allow_rate_limit_up_to_limit}

-- Connection 7 of user 1, on each instance.
abbrev hub : HubState
hub = (register 7 0 1 new_hub).0

hub-IsWired : IsWired hub
unfolding get
hub-IsWired = Reach-IsWired {hub = hub} (next here (registers 7 0 1 new_hub refl))

-- The instances.
abbrev first : Text
first = 97 ∷ []

abbrev second : Text
second = 98 ∷ []

abbrev request : ServerEvent
request = thread_request_received 100 2 1

abbrev acceptance : ServerEvent
acceptance = thread_accepted 100 2 1 2

-- A way to write the envelopes of two events, and to read them back.
abbrev encode : ServerEvent → Text → Option Text
encode (thread_request_received t a b) origin = some (zero ∷ t ∷ a ∷ b ∷ origin)
encode (thread_accepted t by a b) origin = some (suc zero ∷ t ∷ by ∷ a ∷ b ∷ origin)
encode _ origin = none

abbrev decode : Text → Option RealtimeEnvelope
decode (zero ∷ t ∷ a ∷ b ∷ origin) =
    some (record { origin_instance_id = origin; event = thread_request_received t a b })
decode (suc zero ∷ t ∷ by ∷ a ∷ b ∷ origin) =
    some (record { origin_instance_id = origin; event = thread_accepted t by a b })
decode _ = none

abbrev json : Json
json = record {
  to_string = λ envelope. encode envelope.event envelope.origin_instance_id;
  envelope_from_str = decode;
  event_from_str = λ payload. none;
}

json-ReadsBack : ReadsBack json
json-ReadsBack envelope payload h = go envelope.event envelope.origin_instance_id payload h
  where
    go :
        (event : ServerEvent) (origin payload : Text)
        → encode event origin ≡ some payload
        → decode payload ≡ some (record { origin_instance_id = origin; event = event })
    go (thread_request_received t a b) origin payload h = rw (← some-injective _ _ h) refl
    go (thread_accepted t by a b) origin payload h = rw (← some-injective _ _ h) refl
    go event origin payload h = absurd (ground arith)

publish_exactly_once_example :
    (delivered 7 (
        publish (user 1) request hub
        ++ handle_message json first (some (zero ∷ 100 ∷ 2 ∷ 1 ∷ first)) hub)
      ≡ once (wants (user 1) (get 7 hub.connections)))
    × (delivered 7 (handle_message json second (some (zero ∷ 100 ∷ 2 ∷ 1 ∷ first)) hub)
        ≡ once (wants (user 1) (get 7 hub.connections)))
unfolding publish_payload is_routed
publish_exactly_once_example =
    publish_exactly_once json first second (user 1) request (zero ∷ 100 ∷ 2 ∷ 1 ∷ first)
      json-ReadsBack refl other refl refl hub hub-IsWired 7
  where
    other : first ≢ second
    other e = absurd (ground arith)

-- User 1 asked for thread 100, and user 2 accepted it.
abbrev transition : DirectThreadTransition
transition = record {
  thread_id = 100;
  requester_user_id = 1;
  receiver_user_id = 2;
  accepted_at = some 10;
}

thread_accepted_copies_example :
    (delivered 7 (
        delivered_at_once hub (accepted_events 2 100 transition)
        ++ delivered_from json first first hub (accepted_events 2 100 transition))
      ≡ once (owned_by 1 (get 7 hub.connections)) + once (owned_by 2 (get 7 hub.connections)))
    × (delivered 7 (delivered_from json first second hub (accepted_events 2 100 transition))
        ≡ 2
          * (once (owned_by 1 (get 7 hub.connections)) + once (owned_by 2 (get 7 hub.connections))))
unfolding publish_payload
thread_accepted_copies_example =
    thread_accepted_copies json first second 2 100 transition (suc zero ∷ 100 ∷ 2 ∷ 1 ∷ 2 ∷ first)
      json-ReadsBack refl refl one_two other hub hub-IsWired 7
  where
    one_two : ◌≢◌ {A = ℕ} 1 2
    one_two e = absurd (omega (arith, e))

    other : first ≢ second
    other e = absurd (ground arith)

-- A connection fails, a session ends, and the third one is cancelled.
abbrev rounds : List Round
rounds =
    record {
      cancelled_before = false;
      opened = err (internal (text "redis pubsub connect failed"));
      signals = [];
      jitter = 250;
      cancelled_asleep = false;
    }
    ∷ record {
      cancelled_before = false;
      opened = ok tt;
      signals = [];
      jitter = 0;
      cancelled_asleep = false;
    }
    ∷ record {
      cancelled_before = false;
      opened = ok tt;
      signals = cancelled ∷ [];
      jitter = 0;
      cancelled_asleep = false;
    }
    ∷ []

run_pubsub_listener_returns_example :
    ((run_pubsub_listener json first rounds).returned ≡ exists_where is_cancelled_in rounds)
    × All IsBounded (run_pubsub_listener json first rounds).delays
run_pubsub_listener_returns_example =
    run_pubsub_listener_returns json first rounds (omega arith, (omega arith, (omega arith, tt)))

-- A server with one key.
abbrev server : Counter (Unit {0}) ℕ
server = record { connect = λ s. true; incr = λ k s. (some (s + 1), s + 1); expire = λ k w s. s }

abbrev value : Unit {0} → ℕ → ℕ
value k s = s

server-IsCounting : IsCounting server value
server-IsCounting = record {
  connects = λ s. refl;
  counts = λ k s. refl;
  stores = λ k s. refl;
  keeps = λ k w s. refl;
}

allow_rate_limit_up_to_limit_example :
    ((granted server value tt 30 10 31 0).0 ≡ min 31 30)
    × ((allow_rate_limit server tt 30 10 (granted server value tt 30 10 31 0).1).0 ≡ ltb 31 30)
allow_rate_limit_up_to_limit_example =
    allow_rate_limit_up_to_limit server value tt 30 10 31 0 server-IsCounting refl
