-- ===== src/RateLimiter/Window.antt =====
-- How much src/stability/rate_limiter.rs grants in a time, with numbers that round.
use rust_network_system.Base.{
  ℕ, ◌+◌, ◌-◌, ◌*◌, ◌≤◌, ◌<◌, ◌≡◌, refl, sym, ap, ◌∙◌, subst, inl, inr, true, List, [], ◌∷◌, arith,
  Bool-cases, length, if◌then◌else◌,
}
use native.Mathlib.Nat.{le_of_mul-le-mul_right, mul-le-mul_right}
use rust_network_system.RateLimiter.{
  RateLimiterConfig, Floats, TokenBucket, RateLimiter, with_config, refill_tokens, spend,
  try_acquire,
}

-- Numbers in parts: one has as many parts as the refill interval has units of time. On values up to `most`, each operation
-- gives at most `error` parts more than the exact result: the quotient of two durations, the product with a whole
-- number, the sum, and the difference together with what was taken. Whole numbers are exact, and `min` is none above its
-- arguments.
pub record Rounded (f : Floats) (interval error most : ℕ) : Type 0 where
  pub parts : f.F → ℕ
  pub of_nat : (n : ℕ) → n * interval ≤ most → parts (f.of_nat n) ≡ n * interval
  pub div :
      (t u : ℕ)
      → 0 < u
      → t * interval ≤ most * u
      → parts (f.div (f.secs t) (f.secs u)) * u ≤ t * interval + error * u
  pub div_nonneg : (t u : ℕ) → 0 < u → f.at_least (f.div (f.secs t) (f.secs u)) (f.of_nat 0) ≡ true
  pub mul :
      (x : f.F) (n : ℕ)
      → f.at_least x (f.of_nat 0) ≡ true
      → parts x * n ≤ most
      → n * interval ≤ most
      → parts (f.mul x (f.of_nat n)) ≤ parts x * n + error
  pub add : (x y : f.F) → parts x + parts y ≤ most → parts (f.add x y) ≤ parts x + parts y + error
  pub least_left : (x y : f.F) → parts (f.least_of x y) ≤ parts x
  pub least_right : (x y : f.F) → parts (f.least_of x y) ≤ parts y
  pub sub :
      (x : f.F) (n : ℕ)
      → parts x ≤ most
      → n * interval ≤ most
      → f.at_least x (f.of_nat n) ≡ true
      → parts (f.sub x (f.of_nat n)) + n * interval ≤ parts x + error

-- A call of `try_acquire`: its time, and the tokens it asks for.
pub record Request : Type 0 where
  pub now : ℕ
  pub tokens : ℕ

-- The tokens that a sequence of calls is granted.
unfoldable pub granted : (f : Floats) → RateLimiter f → List Request → ℕ
granted f l [] = 0
granted f l (q ∷ qs) =
    let r = try_acquire f q.tokens q.now l in (if r.0 then q.tokens else 0) + granted f r.1 qs

-- The times do not fall, from `from` to `until`, and no call asks for more than `most` parts.
abbrev pub InTime : (interval most from until : ℕ) → List Request → Type 0
InTime interval most from until [] = from ≤ until
InTime interval most from until (q ∷ qs) =
    (from ≤ q.now) × (q.tokens * interval ≤ most) × InTime interval most q.now until qs

InTime-le :
    (interval most from until : ℕ) (qs : List Request)
    → InTime interval most from until qs
    → from ≤ until
InTime-le interval most from until [] h = h
InTime-le interval most from until (q ∷ qs) h =
    omega (arith, h.0, InTime-le interval most q.now until qs h.2)

add_mul : (m n k : ℕ) → (m + n) * k ≡ m * k + n * k
add_mul m n k = grind arith

split_time :
    (from now until a : ℕ)
    → from ≤ now
    → now ≤ until
    → (until - from) * a ≡ (now - from) * a + (until - now) * a
split_time from now until a h k =
    let spans : until - from ≡ (now - from) + (until - now) = omega (arith, h, k) in
    ap (λ (t : ℕ). t * a) spans ∙ add_mul (now - from) (until - now) a

-- What the roundings of one call can add: one for the number of intervals, which is then multiplied, and one each for the
-- product, the sum and the difference.
unfoldable pub slack : RateLimiterConfig → (error : ℕ) → ℕ
slack c error = error * c.refill_amount + 3 * error

slack_is : (c : RateLimiterConfig) (error : ℕ) → slack c error ≡ error * c.refill_amount + 3 * error
unfolding slack
slack_is c error = refl

-- The interval is positive, and from `from` to `until` a limiter works on values of at most `most` parts.
pub record HasRoom (c : RateLimiterConfig) (error most from until : ℕ) : Type 0 where
  pub some_time : 0 < c.refill_interval
  pub span : until - from ≤ most
  pub amount : c.refill_amount * c.refill_interval ≤ most
  pub whole :
      c.capacity * c.refill_interval + (until - from) * c.refill_amount + slack c error ≤ most

later-HasRoom :
    (c : RateLimiterConfig) (error most from now until : ℕ)
    → from ≤ now
    → now ≤ until
    → HasRoom c error most from until
    → HasRoom c error most now until
later-HasRoom c error most from now until after before room = record {
  some_time = room.some_time;
  span = omega (arith, room.span, after);
  amount = room.amount;
  whole = omega (arith, room.whole, split_time from now until c.refill_amount after before);
}

module _ (f : Floats) (c : RateLimiterConfig) (error most : ℕ)
    (r : Rounded f c.refill_interval error most) where
  -- The number of intervals in an elapsed time, and the tokens for it, as `refill_tokens` computes them.
  abbrev intervals : ℕ → f.F
  intervals elapsed = f.div (f.secs elapsed) (f.secs c.refill_interval)

  abbrev brought : ℕ → f.F
  brought elapsed = f.mul (intervals elapsed) (f.of_nat c.refill_amount)

  intervals-le :
      (elapsed : ℕ)
      → 0 < c.refill_interval
      → elapsed ≤ most
      → r.parts (intervals elapsed) ≤ elapsed + error
  intervals-le elapsed some_time few =
      le_of_mul-le-mul_right
        (subst (λ n. r.parts (intervals elapsed) * c.refill_interval ≤ n)
          (sym (add_mul elapsed error c.refill_interval))
          (r.div elapsed c.refill_interval some_time (mul-le-mul_right c.refill_interval few)))
        some_time

  brought-le :
      (elapsed : ℕ)
      → 0 < c.refill_interval
      → elapsed ≤ most
      → c.refill_amount * c.refill_interval ≤ most
      → elapsed * c.refill_amount + error * c.refill_amount ≤ most
      → r.parts (brought elapsed) ≤ elapsed * c.refill_amount + error * c.refill_amount + error
  brought-le elapsed some_time few amount whole =
      let scaled : r.parts (intervals elapsed) * c.refill_amount
          ≤ elapsed * c.refill_amount + error * c.refill_amount =
        subst (λ n. r.parts (intervals elapsed) * c.refill_amount ≤ n)
          (add_mul elapsed error c.refill_amount)
          (mul-le-mul_right c.refill_amount (intervals-le elapsed some_time few)) in
      let product =
        r.mul (intervals elapsed) c.refill_amount (r.div_nonneg elapsed c.refill_interval some_time)
          (omega (arith, scaled, whole)) amount in
      omega (arith, product, scaled)

  -- What a refill adds.
  refilled :
      (now until : ℕ) (b : TokenBucket f)
      → r.parts b.tokens ≤ c.capacity * c.refill_interval + error
      → b.last_refill ≤ now
      → now ≤ until
      → HasRoom c error most b.last_refill until
      → let b' = refill_tokens f c now b in
        (r.parts b'.tokens + error
          ≤ r.parts b.tokens + (now - b.last_refill) * c.refill_amount + slack c error)
        × (r.parts b'.tokens ≤ c.capacity * c.refill_interval)
        × (b'.last_refill ≡ now)
  unfolding refill_tokens
  refilled now until b full after before room =
      let elapsed = now - b.last_refill in
      let time = split_time b.last_refill now until c.refill_amount after before in
      let each = slack_is c error in
      let new =
        brought-le elapsed room.some_time (omega (arith, room.span, before)) room.amount
          (omega (arith, room.whole, time, each)) in
      let sum =
        r.add b.tokens (brought elapsed) (omega (arith, new, full, room.whole, time, each)) in
      let added = f.add b.tokens (brought elapsed) in
      (
        omega (arith, r.least_left added (f.of_nat c.capacity), sum, new, each),
        omega (
          arith,
          r.least_right added (f.of_nat c.capacity),
          r.of_nat c.capacity (omega (arith, room.whole)),
        ),
        refl,
      )

  -- What a grant takes.
  spent :
      (k : ℕ) (b : TokenBucket f)
      → r.parts b.tokens ≤ most
      → k * c.refill_interval ≤ most
      → let x = spend f k b in
        (r.parts x.1.tokens + (if x.0 then k else 0) * c.refill_interval ≤ r.parts b.tokens + error)
        × (x.1.last_refill ≡ b.last_refill)
  unfolding spend
  spent k b few asked = elim (Bool-cases (f.at_least b.tokens (f.of_nat k))) [
    | inl yes_there ↦ rw yes_there (omega (arith, r.sub b.tokens k few asked yes_there), refl)
    | inr none_there ↦ rw none_there (omega arith, refl)
  ]

  abbrev limiter : TokenBucket f → RateLimiter f
  limiter b = record { config = c; bucket = b }

  -- One call, in front of those that follow it.
  granted_from :
      (until : ℕ) (qs : List Request) (b : TokenBucket f)
      → r.parts b.tokens ≤ c.capacity * c.refill_interval + error
      → HasRoom c error most b.last_refill until
      → InTime c.refill_interval most b.last_refill until qs
      → granted f (limiter b) qs * c.refill_interval
        ≤ r.parts b.tokens + (until - b.last_refill) * c.refill_amount + length qs * slack c error
  unfolding granted try_acquire
  granted_from until [] b full room times = omega arith
  granted_from until (q ∷ qs) b full room (after, asked, later) =
      let before = InTime-le c.refill_interval most q.now until qs later in
      let time = split_time b.last_refill q.now until c.refill_amount after before in
      let (more, most_there, when) = refilled q.now until b full after before room in
      let b' = refill_tokens f c q.now b in
      let (less, when') = spent q.tokens b' (omega (arith, most_there, room.whole)) asked in
      let x = spend f q.tokens b' in
      let moved : x.1.last_refill ≡ q.now = when' ∙ when in
      let rest =
        granted_from until qs x.1 (omega (arith, less, most_there))
          (subst (λ t. HasRoom c error most t until) (sym moved)
            (later-HasRoom c error most b.last_refill q.now until after before room))
          (subst (λ t. InTime c.refill_interval most t until qs) (sym moved) later) in
      let rest' =
        subst
          (λ t.
            granted f (limiter x.1) qs * c.refill_interval
            ≤ r.parts x.1.tokens + (until - t) * c.refill_amount + length qs * slack c error)
          moved rest in
      omega (
        arith,
        add_mul (if x.0 then q.tokens else 0) (granted f (limiter x.1) qs) c.refill_interval,
        add_mul 1 (length qs) (slack c error),
        rest',
        less,
        more,
        time,
      )

  -- However calls of `try_acquire` come, a new limiter grants in a time at most its capacity, what the configured rate
  -- refills in that time, and for each call the roundings of its quotient (times the refill amount), product,
  -- sum and difference. The times do not fall, and the refill interval is positive; each operation on the
  -- numbers of the limiter gives at most `error` parts too much on values up to `most`, one having as many
  -- parts as the refill interval has units of time; and the time, the parts of the refill amount, those of
  -- each call's tokens, and those of the capacity with what the time refills and the roundings of a
  -- call are not above `most`.
  pub granted-le :
      (start until : ℕ) (qs : List Request)
      → HasRoom c error most start until
      → InTime c.refill_interval most start until qs
      → granted f (with_config f c start) qs * c.refill_interval
        ≤ c.capacity * c.refill_interval
          + (until - start) * c.refill_amount
          + length qs * (error * c.refill_amount + 3 * error)
  unfolding with_config slack
  granted-le start until qs room times =
      let full = r.of_nat c.capacity (omega (arith, room.whole)) in
      let bound =
        granted_from until qs (record { tokens = f.of_nat c.capacity; last_refill = start })
          (omega (arith, full)) room times in
      omega (arith, bound, full)
