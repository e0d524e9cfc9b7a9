-- ===== src/Redis/Limit.antt =====
-- What the rate limit allows while the server answers.
use sagiton.Prelude.{
  ℕ, zero, suc, ◌+◌, ◌-◌, ◌≡◌, min, true, Option, none, some, arith, ltb, if◌then◌else◌,
}
use sagiton.Redis.RateLimit.{Counter, count_allowed, or_allowed, allow, allow_rate_limit}

-- A server that answers: INCR adds one to the value of the key, and EXPIRE leaves the values.
pub record IsCounting {K S : Type 0} (redis : Counter K S) (value : K → S → ℕ) : Type 0 where
  pub connects : (s : S) → redis.connect s ≡ true
  pub counts : (k : K) (s : S) → (redis.incr k s).0 ≡ some (value k s + 1)
  pub stores : (k : K) (s : S) → value k (redis.incr k s).1 ≡ value k s + 1
  pub keeps : (k : K) (w : ℕ) (s : S) → value k (redis.expire k w s) ≡ value k s

module _ {K S : Type 0} (redis : Counter K S) (value : K → S → ℕ) where
  -- How many of `n` requests, one after another, are allowed, and the server afterwards.
  unfoldable pub granted : K → (limit window_secs : ℕ) → (n : ℕ) → S → ℕ × S
  unfolding allow_rate_limit
  granted key limit w zero s = (0, s)
  granted key limit w (suc n) s =
      let once = allow_rate_limit redis key limit w s in
      let rest = granted key limit w n once.1 in ((if once.0 then rest.0 + 1 else rest.0), rest.1)

  allow_counts :
      (c : IsCounting redis value) (key : K) (limit w : ℕ) (s : S)
      → ((allow_rate_limit redis key limit w s).0 ≡ ltb (value key s) limit)
        × (value key (allow_rate_limit redis key limit w s).1 ≡ value key s + 1)
  unfolding allow_rate_limit allow
  allow_counts c key limit w s =
      rw (c.connects s) (go (redis.incr key s) (c.counts key s) (c.stores key s))
    where
      go :
          (o : Option ℕ × S)
          → o.0 ≡ some (value key s + 1)
          → value key o.1 ≡ value key s + 1
          → ((or_allowed redis (count_allowed redis key limit w o)).0 ≡ ltb (value key s) limit)
            × (value key (or_allowed redis (count_allowed redis key limit w o)).1 ≡ value key s + 1)
      go (none, t) h k = absurd (ground arith)
      go (some n, t) h k = (ground arith, ground (arith, c.keeps key w t))

  granted_counts :
      (c : IsCounting redis value) (key : K) (limit w n : ℕ) (s : S)
      → ((granted key limit w n s).0 ≡ min n (limit - value key s))
        × (value key (granted key limit w n s).1 ≡ value key s + n)
  unfolding granted
  granted_counts c key limit w zero s = (omega arith, omega arith)
  granted_counts c key limit w (suc n) s =
      let step = allow_counts c key limit w s in
      let rest = granted_counts c key limit w n (allow_rate_limit redis key limit w s).1 in
      (ground (arith, step, rest.0), ground (arith, step.1, rest.1))

-- On a server that answers and drops no count meanwhile, `n` requests under one key that has had none
-- yet are allowed up to the limit, and refused beyond it; the first one past the limit is refused.
pub allow_rate_limit_up_to_limit :
    {K S : Type 0} (redis : Counter K S) (value : K → S → ℕ) (key : K) (limit w n : ℕ) (s : S)
    → IsCounting redis value
    → value key s ≡ 0
    → ((granted redis value key limit w n s).0 ≡ min n limit)
      × ((allow_rate_limit redis key limit w (granted redis value key limit w n s).1).0
          ≡ ltb n limit)
allow_rate_limit_up_to_limit redis value key limit w n s c h =
    let counts = granted_counts redis value c key limit w n s in
    let once = allow_counts redis value c key limit w (granted redis value key limit w n s).1 in
    (omega (arith, counts.0, h), ground (arith, counts.1, once.0, h))
