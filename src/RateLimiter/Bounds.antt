-- ===== src/RateLimiter/Bounds.antt =====
-- The tokens of src/stability/rate_limiter.rs stay between 0 and the capacity, and the keys apart.
use rust_network_system.Base.{
  ℕ, ◌<◌, ◌≡◌, ◌≢◌, inl, inr, true, some, List, [], ◌∷◌, arith, Bool-cases,
}
use rust_network_system.RateLimiter.{
  RateLimiterConfig, Floats, TokenBucket, RateLimiter, with_config, refill_tokens, spend,
  try_acquire, reset, try_acquire_key, limiter_of,
}

-- What is documented of the operations on numbers that are not NaN: an order, of which `min` is the lower bound, sums
-- and products of numbers that are not negative, the quotient of a duration by a positive one, and differences of
-- comparable ones.
pub record Ordered (f : Floats) : Type 1 where
  pub Le : f.F → f.F → Type 0
  pub nat_nonneg : (n : ℕ) → Le (f.of_nat 0) (f.of_nat n)
  pub nat_refl : (n : ℕ) → Le (f.of_nat n) (f.of_nat n)
  pub div_nonneg : (t u : ℕ) → 0 < u → Le (f.of_nat 0) (f.div (f.secs t) (f.secs u))
  pub mul_nonneg : (x y : f.F) → Le (f.of_nat 0) x → Le (f.of_nat 0) y → Le (f.of_nat 0) (f.mul x y)
  pub add_nonneg : (x y : f.F) → Le (f.of_nat 0) x → Le (f.of_nat 0) y → Le (f.of_nat 0) (f.add x y)
  pub least_le : (x y : f.F) → Le (f.least_of x y) y
  pub least_glb : (z x y : f.F) → Le z x → Le z y → Le z (f.least_of x y)
  pub sub_nonneg : (x y : f.F) → f.at_least x y ≡ true → Le (f.of_nat 0) (f.sub x y)
  pub sub_le : (x y z : f.F) → Le (f.of_nat 0) y → Le x z → Le (f.sub x y) z

-- A call on a limiter, with its time.
pub data Call : Type 0 where
  acquires : (tokens : ℕ) → Call
  resets : Call

module _ (f : Floats) where
  unfoldable pub run : RateLimiter f → List (ℕ × Call) → RateLimiter f
  unfolding try_acquire reset
  run l [] = l
  run l ((now, acquires tokens) ∷ calls) = run (try_acquire f tokens now l).1 calls
  run l ((now, resets) ∷ calls) = run (reset f now l) calls

module _ (f : Floats) (o : Ordered f) where
  abbrev pub Within : RateLimiterConfig → TokenBucket f → Type 0
  Within c b = o.Le (f.of_nat 0) b.tokens × o.Le b.tokens (f.of_nat c.capacity)

  refill-Within :
      (c : RateLimiterConfig) (now : ℕ) (b : TokenBucket f)
      → 0 < c.refill_interval
      → Within c b
      → Within c (refill_tokens f c now b)
  unfolding refill_tokens
  refill-Within c now b some_time v = (
    o.least_glb _ _ _
        (o.add_nonneg _ _ v.0
          (o.mul_nonneg _ _ (o.div_nonneg _ _ some_time) (o.nat_nonneg c.refill_amount)))
        (o.nat_nonneg c.capacity),
    o.least_le _ _,
  )

  spend-Within :
      (c : RateLimiterConfig) (tokens : ℕ) (b : TokenBucket f)
      → Within c b
      → Within c (spend f tokens b).1
  unfolding spend
  spend-Within c tokens b v = elim (Bool-cases (f.at_least b.tokens (f.of_nat tokens))) [
    | inl h ↦ rw (h) (o.sub_nonneg _ _ h, o.sub_le _ _ _ (o.nat_nonneg tokens) v.1)
    | inr h ↦ rw (h) v
  ]

  keeps-Within :
      (l : RateLimiter f) (calls : List (ℕ × Call))
      → 0 < l.config.refill_interval
      → Within l.config l.bucket
      → Within l.config (run f l calls).bucket
  unfolding run try_acquire reset
  keeps-Within l [] some_time v = v
  keeps-Within l ((now, acquires tokens) ∷ calls) some_time v =
      keeps-Within (try_acquire f tokens now l).1 calls some_time
        (spend-Within l.config tokens _ (refill-Within l.config now l.bucket some_time v))
  keeps-Within l ((now, resets) ∷ calls) some_time v =
      keeps-Within (reset f now l) calls some_time
        (o.nat_nonneg l.config.capacity, o.nat_refl l.config.capacity)

  -- For numbers with the documented order and a positive refill interval, after any calls on a new limiter its tokens lie between 0 and
  -- the capacity.
  pub run-Within :
      (c : RateLimiterConfig) (now : ℕ) (calls : List (ℕ × Call))
      → 0 < c.refill_interval
      → Within c (run f (with_config f c now) calls).bucket
  unfolding with_config
  run-Within c now calls some_time =
      keeps-Within (with_config f c now) calls some_time
        (o.nat_nonneg c.capacity, o.nat_refl c.capacity)

module _ (f : Floats) {K : Type 0} (dec : Discrete K) where
  -- A call for a key that has a limiter leaves what another key has as it is, and it answers and changes the
  -- limiter of its key as a call on that limiter alone does.
  pub try_acquire_key_lem :
      (c : RateLimiterConfig) (key other : K) (tokens now : ℕ) (table : List (K × RateLimiter f))
      (l : RateLimiter f)
      → key ≢ other
      → limiter_of f dec key table ≡ some l
      → (limiter_of f dec other (try_acquire_key f dec c key tokens now table).1
          ≡ limiter_of f dec other table)
        × (limiter_of f dec key (try_acquire_key f dec c key tokens now table).1
            ≡ some (try_acquire f tokens now l).1)
        × ((try_acquire_key f dec c key tokens now table).0 ≡ (try_acquire f tokens now l).0)
  unfolding try_acquire_key limiter_of
  try_acquire_key_lem c key other tokens now [] l ne h = absurd (cc)
  try_acquire_key_lem c key other tokens now ((k, m) ∷ table) l ne h = elim (dec k key) [
    | yes p ↦ grind (arith, p, h)
    | no q ↦ grind (arith, try_acquire_key_lem c key other tokens now table l ne)
  ]
