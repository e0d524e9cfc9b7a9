-- ===== src/Redis/Backoff.antt =====
-- How long the listener waits before it connects again, and when it stops.
use sagiton.Prelude.{
  ◌-◌, ◌⊎◌, ℕ, zero, suc, ◌+◌, ◌*◌, ◌^◌, ◌≤◌, ◌≡◌, min, Bool, true, false, ◌&&◌, ◌||◌, List, [],
  ◌∷◌, arith, Bool-cases, inl, inr, refl,
}
use sagiton.Text.{Text}
use sagiton.Shared.{AppResult, ok, err, is_ok}
use sagiton.Database.Table.{exists_where, All}
use sagiton.Redis.{
  Json, Round, reconnect_delay, max_jitter_ms, next_attempt, ends_listener, run_pubsub_session,
  listen, run_pubsub_listener, session_stream, Signal, cancelled, message,
}

abbrev pub IsBounded : ℕ → Type 0
IsBounded delay = (250 ≤ delay) × (delay ≤ 10250)

power_bounded : (e : ℕ) → (1 ≤ 2 ^ min e 7) × (2 ^ min e 7 ≤ 128)
power_bounded zero = (omega arith, omega arith)
power_bounded (suc zero) = (omega arith, omega arith)
power_bounded (suc (suc zero)) = (omega arith, omega arith)
power_bounded (suc (suc (suc zero))) = (omega arith, omega arith)
power_bounded (suc (suc (suc (suc zero)))) = (omega arith, omega arith)
power_bounded (suc (suc (suc (suc (suc zero))))) = (omega arith, omega arith)
power_bounded (suc (suc (suc (suc (suc (suc zero)))))) = (omega arith, omega arith)
power_bounded (suc (suc (suc (suc (suc (suc (suc e))))))) =
    let same : min (suc (suc (suc (suc (suc (suc (suc e))))))) 7 ≡ 7 = omega arith in
    rw same (omega arith, omega arith)

-- Twice the power, or the limit of the exponent is reached.
power_doubled :
    (e : ℕ)
    → (2 ^ min (e + 1) 7 ≡ 2 * 2 ^ min e 7) ⊎ ((2 ^ min (e + 1) 7 ≡ 128) × (2 ^ min e 7 ≡ 128))
power_doubled zero = inl (omega arith)
power_doubled (suc zero) = inl (omega arith)
power_doubled (suc (suc zero)) = inl (omega arith)
power_doubled (suc (suc (suc zero))) = inl (omega arith)
power_doubled (suc (suc (suc (suc zero)))) = inl (omega arith)
power_doubled (suc (suc (suc (suc (suc zero))))) = inl (omega arith)
power_doubled (suc (suc (suc (suc (suc (suc zero)))))) = inl (omega arith)
power_doubled (suc (suc (suc (suc (suc (suc (suc e))))))) =
    let same : min (suc (suc (suc (suc (suc (suc (suc e))))))) 7 ≡ 7 = omega arith in
    let next : min (suc (suc (suc (suc (suc (suc (suc e)))))) + 1) 7 ≡ 7 = omega arith in
    inr (rw next (omega arith), rw same (omega arith))

reconnect_delay-IsBounded :
    (attempt jitter : ℕ) → jitter ≤ max_jitter_ms → IsBounded (reconnect_delay attempt jitter)
unfolding reconnect_delay
reconnect_delay-IsBounded attempt jitter h =
    let power = power_bounded (attempt - 1) in
    (omega (arith, power.0, power.1, h), omega (arith, power.0, power.1, h))

delay_doubled :
    (attempt jitter : ℕ)
    → jitter ≤ max_jitter_ms
    → reconnect_delay (attempt + 2) jitter
      ≡ min (2 * reconnect_delay (attempt + 1) 0) 10000 + jitter
unfolding reconnect_delay
delay_doubled attempt jitter h =
    let power = power_bounded attempt in
    let here : attempt + 2 - 1 ≡ attempt + 1 = omega arith in
    let before : attempt + 1 - 1 ≡ attempt = omega arith in
    elim (power_doubled attempt) [
      | inl e ↦ rw (here, before) (omega (arith, power.0, power.1, h, e))
      | inr (e, k) ↦ rw (here, before) (omega (arith, h, e, k))
    ]

-- With a jitter of at most 250 ms, the listener waits at least 250 ms and at most 10250 ms; the first
-- wait is 250 ms and the jitter, and each further one in a row is twice the one before, but at most
-- 10000 ms, and the jitter.
pub reconnect_delay_backoff :
    (attempt jitter : ℕ)
    → jitter ≤ max_jitter_ms
    → IsBounded (reconnect_delay attempt jitter)
      × (reconnect_delay 1 jitter ≡ 250 + jitter)
      × (reconnect_delay (attempt + 2) jitter
          ≡ min (2 * reconnect_delay (attempt + 1) 0) 10000 + jitter)
unfolding reconnect_delay
reconnect_delay_backoff attempt jitter h =
    (reconnect_delay-IsBounded attempt jitter h, omega (arith, h), delay_doubled attempt jitter h)

-- Whether the token is cancelled while a session waits for messages.
abbrev pub is_cancelled : List Signal → Bool
is_cancelled [] = false
is_cancelled (cancelled ∷ signals) = true
is_cancelled (message payload hub ∷ signals) = is_cancelled signals

-- Whether the token is cancelled in a round: before its session, in it if it opens, or asleep.
abbrev pub is_cancelled_in : Round → Bool
is_cancelled_in r =
    r.cancelled_before || (is_ok r.opened && is_cancelled r.signals || r.cancelled_asleep)

module _ (json : Json) (instance_id : Text) where
  stream_ends :
      (signals : List Signal)
      → ends_listener (ok (session_stream json instance_id signals).0) ≡ is_cancelled signals
  unfolding session_stream
  stream_ends [] = refl
  stream_ends (cancelled ∷ signals) = refl
  stream_ends (message payload hub ∷ signals) = stream_ends signals

  session_ends :
      (opened : AppResult Unit) (signals : List Signal)
      → ends_listener (run_pubsub_session json instance_id opened signals).0
        ≡ (is_ok opened && is_cancelled signals)
  unfolding run_pubsub_session
  session_ends (ok tt) signals = stream_ends signals
  session_ends (err e) signals = refl

  listen_returned :
      (attempt : ℕ) (rounds : List Round)
      → (listen json instance_id attempt rounds).returned ≡ exists_where is_cancelled_in rounds
  unfolding listen
  listen_returned attempt [] = refl
  listen_returned attempt (r ∷ rounds) = ground (
    arith,
    session_ends r.opened r.signals,
    listen_returned
        (next_attempt attempt (run_pubsub_session json instance_id r.opened r.signals).0) rounds,
  )

  listen_delays :
      (attempt : ℕ) (rounds : List Round)
      → All (λ r. r.jitter ≤ max_jitter_ms) rounds
      → All IsBounded (listen json instance_id attempt rounds).delays
  unfolding listen
  listen_delays attempt [] h = tt
  listen_delays attempt (r ∷ rounds) h =
      let session = run_pubsub_session json instance_id r.opened r.signals in
      let attempt' = next_attempt attempt session.0 in
      let first = reconnect_delay-IsBounded attempt' r.jitter h.0 in
      elim (Bool-cases r.cancelled_before) [
        | inl e ↦ rw e tt
        | inr e ↦ elim (Bool-cases (ends_listener session.0)) [
          | inl k ↦ rw (e, k) tt
          | inr k ↦ elim (Bool-cases r.cancelled_asleep) [
            | inl m ↦ rw (e, k, m) (first, tt)
            | inr m ↦ rw (e, k, m) (first, listen_delays attempt' rounds h.1)
          ]
        ]
      ]

-- The listener returns exactly if the token is cancelled in one of its rounds: before the session, in
-- one that has opened, or in the sleep after it. Neither a session that cannot be opened nor one that is
-- disconnected makes it return. With jitters of at most 250 ms every wait lasts from 250 ms to 10250 ms.
pub run_pubsub_listener_returns :
    (json : Json) (instance_id : Text) (rounds : List Round)
    → All (λ r. r.jitter ≤ max_jitter_ms) rounds
    → ((run_pubsub_listener json instance_id rounds).returned ≡ exists_where is_cancelled_in rounds)
      × All IsBounded (run_pubsub_listener json instance_id rounds).delays
unfolding run_pubsub_listener
run_pubsub_listener_returns json instance_id rounds h =
    (listen_returned json instance_id 0 rounds, listen_delays json instance_id 0 rounds h)
