-- ===== src/RateLimiter.antt =====
-- src/stability/rate_limiter.rs: a token bucket, and a table of buckets by key.
-- Tokens are floating-point numbers, whose type and operations are the parameter `Floats`; `secs` is `as_secs_f64` of
-- a duration in units of the clock.
-- The lock is held for the whole of a call, and the time of the call is an argument.
pub mod Bounds
pub mod Window
use rust_network_system.Base.{
  ◌%◌, ◌==◌, u32_mod, ℕ, zero, suc, ◌+◌, ◌-◌, Bool, true, false, Option, none, some, List, [], ◌∷◌,
  ◌++◌, ltb, leb, if◌then◌else◌, ite, length,
}

pub record RateLimiterConfig : Type 0 where
  pub capacity : ℕ
  pub refill_amount : ℕ
  pub refill_interval : ℕ

unfoldable pub default_config : RateLimiterConfig
default_config = record { capacity = 100; refill_amount = 10; refill_interval = 1000 }

unfoldable pub per_second : ℕ → RateLimiterConfig
per_second rate = record { capacity = rate; refill_amount = rate; refill_interval = 1000 }

unfoldable pub per_minute : ℕ → RateLimiterConfig
per_minute rate = record { capacity = rate; refill_amount = rate; refill_interval = 60000 }

unfoldable pub with_capacity : RateLimiterConfig → ℕ → RateLimiterConfig
with_capacity c n = record c { capacity = n }

unfoldable pub with_refill_amount : RateLimiterConfig → ℕ → RateLimiterConfig
with_refill_amount c n = record c { refill_amount = n }

unfoldable pub with_refill_interval : RateLimiterConfig → ℕ → RateLimiterConfig
with_refill_interval c t = record c { refill_interval = t }

-- The operations on `f64` that the source uses.
pub record Floats : Type 1 where
  pub F : Type 0
  pub of_nat : ℕ → F
  pub secs : ℕ → F
  pub div : F → F → F
  pub mul : F → F → F
  pub add : F → F → F
  pub sub : F → F → F
  pub least_of : F → F → F
  pub at_least : F → F → Bool
  pub floor : F → ℕ

-- How `acquire` ends; `pending` when its rounds end before it does.
pub data Waited : Type 0 where
  granted timed_out panicked pending : Waited

module _ (f : Floats) where
  pub record TokenBucket : Type 0 where
    pub tokens : f.F
    pub last_refill : ℕ

  pub record RateLimiter : Type 0 where
    pub config : RateLimiterConfig
    pub bucket : TokenBucket

  unfoldable pub with_config : RateLimiterConfig → ℕ → RateLimiter
  with_config c now = record {
    config = c;
    bucket = record { tokens = f.of_nat c.capacity; last_refill = now };
  }

  unfoldable pub refill_tokens : RateLimiterConfig → ℕ → TokenBucket → TokenBucket
  refill_tokens c now b =
      let elapsed = now - b.last_refill in
      let intervals = f.div (f.secs elapsed) (f.secs c.refill_interval) in
      let tokens_to_add = f.mul intervals (f.of_nat c.refill_amount) in
      record {
        tokens = f.least_of (f.add b.tokens tokens_to_add) (f.of_nat c.capacity);
        last_refill = now;
      }

  unfoldable pub spend : ℕ → TokenBucket → Bool × TokenBucket
  spend tokens b =
      if f.at_least b.tokens (f.of_nat tokens)
      then (true, record b { tokens = f.sub b.tokens (f.of_nat tokens) })
      else (false, b)

  unfoldable pub try_acquire : ℕ → ℕ → RateLimiter → Bool × RateLimiter
  unfolding spend refill_tokens
  try_acquire tokens now l =
      let r = spend tokens (refill_tokens l.config now l.bucket) in (r.0, record l { bucket = r.1 })

  unfoldable pub try_acquire_one : ℕ → RateLimiter → Bool × RateLimiter
  unfolding try_acquire
  try_acquire_one now l = try_acquire 1 now l

  unfoldable pub available_tokens : ℕ → RateLimiter → ℕ × RateLimiter
  unfolding refill_tokens
  available_tokens now l =
      let b = refill_tokens l.config now l.bucket in (f.floor b.tokens, record l { bucket = b })

  unfoldable pub reset : ℕ → RateLimiter → RateLimiter
  reset now l = record l {
    bucket = record { tokens = f.of_nat l.config.capacity; last_refill = now };
  }

  -- The loop of `acquire`: each round has the time of its attempt and the time of its test against the
  -- deadline. The time to sleep is the refill interval divided by the refill amount as a 32-bit word, and
  -- a division of a duration by 0 panics.
  unfoldable pub acquire : (tokens deadline : ℕ) → List (ℕ × ℕ) → RateLimiter → Waited × RateLimiter
  unfolding try_acquire
  acquire tokens deadline [] l = (pending, l)
  acquire tokens deadline ((now, later) ∷ rounds) l =
      (let r = try_acquire tokens now l in
        let rest = acquire tokens deadline rounds r.1 in
        if r.0
        then (granted, r.1)
        else if leb deadline later
        then (timed_out, r.1)
        else if l.config.refill_amount % u32_mod == 0
        then (panicked, r.1)
        else rest)

module _ (f : Floats) {K : Type 0} (dec : Discrete K) where
  -- `try_acquire` of the table: the bucket of the key, made full when there is none.
  unfoldable pub try_acquire_key :
      RateLimiterConfig
      → K
      → (tokens now : ℕ) → List (K × RateLimiter f)
      → Bool × List (K × RateLimiter f)
  unfolding with_config try_acquire
  try_acquire_key c key tokens now [] =
      (let r = try_acquire f tokens now (with_config f c now) in (r.0, (key, r.1) ∷ []))
  try_acquire_key c key tokens now ((k, l) ∷ table) =
      (let rest = try_acquire_key c key tokens now table in
        let r = try_acquire f tokens now l in
        ite (dec k key) (r.0, (k, r.1) ∷ table) (rest.0, (k, l) ∷ rest.1))

  unfoldable pub remove_key : K → List (K × RateLimiter f) → List (K × RateLimiter f)
  remove_key key [] = []
  remove_key key ((k, l) ∷ table) = ite (dec k key) table ((k, l) ∷ remove_key key table)

  unfoldable pub limiter_of : K → List (K × RateLimiter f) → Option (RateLimiter f)
  limiter_of key [] = none
  limiter_of key ((k, l) ∷ table) = ite (dec k key) (some l) (limiter_of key table)

  -- `acquire` of the table: the bucket of the key, made full at `now` when there is none, waits by itself.
  unfoldable pub acquire_key :
      RateLimiterConfig
      → K
      → (tokens now deadline : ℕ) → List (ℕ × ℕ)
      → List (K × RateLimiter f)
      → Waited × List (K × RateLimiter f)
  unfolding with_config acquire
  acquire_key c key tokens now deadline rounds [] =
      (let r = acquire f tokens deadline rounds (with_config f c now) in (r.0, (key, r.1) ∷ []))
  acquire_key c key tokens now deadline rounds ((k, l) ∷ table) =
      (let rest = acquire_key c key tokens now deadline rounds table in
        let r = acquire f tokens deadline rounds l in
        ite (dec k key) (r.0, (k, r.1) ∷ table) (rest.0, (k, l) ∷ rest.1))

  unfoldable pub key_count : List (K × RateLimiter f) → ℕ
  key_count table = length table

  unfoldable pub clear : List (K × RateLimiter f) → List (K × RateLimiter f)
  clear table = []
