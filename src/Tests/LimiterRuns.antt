-- ===== src/Tests/LimiterRuns.antt =====
-- src/stability/rate_limiter.rs with natural numbers for its tokens.
use rust_network_system.Base.{
  ℕ, ◌+◌, ◌-◌, ◌*◌, ◌/◌, ◌≤◌, ◌≡◌, ap, List, [], ◌∷◌, leb, arith, min, refl,
}
use native.Mathlib.Nat.{div-mul-le_self}
use rust_network_system.RateLimiter.{RateLimiterConfig, Floats, RateLimiter, with_config}
use rust_network_system.RateLimiter.Window
use rust_network_system.RateLimiter.Window.{Rounded, Request, granted}
use rust_network_system.RateLimiter.Bounds.{Ordered}

abbrev numbers : Floats
numbers = record {
  F = ℕ;
  of_nat = λ n. n;
  add = λ x y. x + y;
  sub = λ x y. x - y;
  least_of = λ x y. min x y;
  at_least = λ x y. leb y x;
  floor = λ x. x;
  secs = λ t. t;
  div = λ x y. x / y;
  mul = λ x y. x * y;
}

numbers-Ordered : Ordered numbers
numbers-Ordered = record {
  Le = λ x y. x ≤ y;
  nat_nonneg = λ n. omega arith;
  nat_refl = λ n. omega arith;
  div_nonneg = λ t u h. omega arith;
  mul_nonneg = λ x y h k. omega arith;
  add_nonneg = λ x y h k. omega arith;
  least_le = λ x y. omega arith;
  least_glb = λ z x y h k. omega arith;
  sub_nonneg = λ x y h. omega arith;
  sub_le = λ x y z h k. omega arith;
}

abbrev config : RateLimiterConfig
config = record { capacity = 5; refill_amount = 2; refill_interval = 10 }

abbrev limiter : ℕ → RateLimiter numbers
limiter n = record { config = config; bucket = record { tokens = n; last_refill = 0 } }

abbrev table : List (ℕ × RateLimiter numbers)
table = (1, limiter 5) ∷ (2, limiter 1) ∷ []

-- Numbers in tenths; a unit of the clock is a tenth of a second.
abbrev tenths : Floats
tenths = record {
  F = ℕ;
  of_nat = λ n. n * 10;
  add = λ x y. x + y;
  sub = λ x y. x - y;
  least_of = λ x y. min x y;
  at_least = λ x y. leb y x;
  floor = λ x. x / 10;
  secs = λ t. t;
  div = λ x y. (x * 10) / y;
  mul = λ x y. (x * y) / 10;
}

tenths_product : (x n : ℕ) → x * (n * 10) ≡ (x * n) * 10
tenths_product x n = grind arith

tenths-Rounded : Rounded tenths 10 1 1000
tenths-Rounded = record {
  parts = λ x. x;
  of_nat = λ n h. refl;
  div = λ t u h k. omega (arith, div-mul-le_self (t * 10) u);
  div_nonneg = λ t u h. ground arith;
  mul = λ x n g h k. omega (arith, tenths_product x n, ap (λ k. k / 10) (tenths_product x n));
  add = λ x y h. omega arith;
  least_left = λ x y. omega arith;
  least_right = λ x y. omega arith;
  sub = λ x n h k l. ground arith;
}

abbrev requests : List Request
requests =
    record { now = 1; tokens = 4 }
    ∷ record { now = 2; tokens = 3 }
    ∷ record { now = 30; tokens = 1 }
    ∷ []

granted-le_example :
    granted tenths (with_config tenths config 0) requests * 10
    ≤ 5 * 10 + (30 - 0) * 2 + 3 * (1 * 2 + 3 * 1)
unfolding Window.slack
granted-le_example =
    Window.granted-le tenths config 1 1000 tenths-Rounded 0 30 requests
      (record {
        some_time = omega arith;
        span = omega arith;
        amount = omega arith;
        whole = omega arith;
      })
      (omega arith)
