-- ===== src/Redis/RateLimit.antt =====
-- `allow` of backend/src/infrastructure/redis/service.rs, over the commands that it sends to Redis.
use sagiton.Prelude.{ℕ, Bool, true, Option, none, some, leb, ◌==◌, if◌then◌else◌}
use sagiton.Shared.{AppResult, ok, err, text, internal}
use sagiton.Database.{Tx}

-- The commands that the rate limit sends to Redis, over the state `S` of the server: whether there is
-- a connection, the count after INCR if it succeeds, and EXPIRE.
pub record Counter (K S : Type 0) : Type 0 where
  pub connect : S → Bool
  pub incr : K → S → Option ℕ × S
  pub expire : K → (window_secs : ℕ) → S → S

module _ {K S : Type 0} (redis : Counter K S) where
  -- EXPIRE is sent for the first count only; its failure is only logged.
  abbrev pub count_allowed : K → (limit window_secs : ℕ) → Option ℕ × S → AppResult Bool × S
  count_allowed key limit window_secs (none, s) =
      (err (internal (text "rate limit increment failed")), s)
  count_allowed key limit window_secs (some count, s) =
      (ok (leb count limit), if count == 1 then redis.expire key window_secs s else s)

  -- `allow`: without a connection the request is allowed.
  unfoldable pub allow : K → (limit window_secs : ℕ) → Tx S Bool
  allow key limit window_secs s =
      if redis.connect s
      then count_allowed key limit window_secs (redis.incr key s)
      else (ok true, s)

  abbrev pub or_allowed : AppResult Bool × S → Bool × S
  or_allowed (ok v, s) = (v, s)
  or_allowed (err e, s) = (true, s)

  -- `AppState::allow_rate_limit`: a failed check allows the request.
  unfoldable pub allow_rate_limit : K → (limit window_secs : ℕ) → S → Bool × S
  unfolding allow
  allow_rate_limit key limit window_secs s = or_allowed (allow key limit window_secs s)
