-- ===== src/Client/Reconnect.antt =====
-- The attempts of `reconnect` in src/core/client.rs: how many there are, and how long it waits.
use rust_network_system.Base.{
  ℕ, zero, suc, ◌+◌, ◌-◌, ◌*◌, ◌^◌, ◌≤◌, ◌<◌, ◌≡◌, refl, ap, ◌∙◌, ◌⊎◌, inl, inr, true, false, List,
  [], ◌∷◌, arith, min,
}
use rust_network_system.Error.{NetworkError, Result, ok, err, connection, invalid_state}
use rust_network_system.Client.{
  TcpClient, disconnected, connected, reconnecting, Environment, establish, settle,
  connect_internal, connect, is_connected, is_connecting, after_attempt, reconnect_loop, reconnect,
  max_delay_ms, up,
}
use native.Mathlib.Nat.{pow-suc, one-le-pow}

-- The wait after the attempt `i`, without its jitter: 100 ms doubled `i` times, and at most 30 s.
unfoldable pub backoff : ℕ → ℕ
backoff i = min (100 * 2 ^ i) max_delay_ms

-- The waits after `n` attempts, the first of which is `i`.
unfoldable pub waits_from : (ℕ → ℕ) → ℕ → ℕ → List ℕ
waits_from jitter i zero = []
waits_from jitter i (suc n) = (backoff i + jitter i) ∷ waits_from jitter (suc i) n

abbrev pub Succeeds : TcpClient → Environment → Type 0
Succeeds c e = establish c.config.keep_alive e ≡ ok tt

abbrev pub Fails : TcpClient → Environment → Type 0
Fails c e = (x : NetworkError) × (establish c.config.keep_alive e ≡ err x)

-- The attempts from `i` on: `n` of them fail.
abbrev pub FailTimes : TcpClient → (ℕ → Environment) → ℕ → ℕ → Type 0
FailTimes c env i zero = Unit
FailTimes c env i (suc n) = Fails c (env i) × FailTimes c env (suc i) n

-- The attempts from `i` on: `n` of them fail, and the next one succeeds.
abbrev pub SucceedsAfter : TcpClient → (ℕ → Environment) → ℕ → ℕ → Type 0
SucceedsAfter c env i zero = Succeeds c (env i)
SucceedsAfter c env i (suc n) = Fails c (env i) × SucceedsAfter c env (suc i) n

double : (i : ℕ) → min (backoff i * 2) max_delay_ms ≡ backoff (suc i)
unfolding backoff
double i = ground (arith, pow-suc 2 i)

reconnects_ok :
    (c : TcpClient) (e : Environment)
    → Succeeds c e
    → connect_internal true c e ≡ (ok tt, record c { stream = true; state = connected })
unfolding connect_internal settle
reconnects_ok c e h = rw (h, settle) refl

reconnects_err :
    (c : TcpClient) (e : Environment) (x : NetworkError)
    → establish c.config.keep_alive e ≡ err x
    → connect_internal true c e ≡ (err x, record c { state = reconnecting })
unfolding connect_internal settle
reconnects_err c e x h = rw (h, settle) refl

-- The loop after a failed attempt that is not the last.
loop_again :
    (env : ℕ → Environment) (jitter : ℕ → ℕ) (c : TcpClient) (i left : ℕ)
    → Fails c (env i)
    → let r =
        reconnect_loop env jitter
          (suc left)
          (suc i)
          (backoff (suc i))
          (record c { state = reconnecting }) in
      reconnect_loop env jitter (suc (suc left)) i (backoff i) c
      ≡ (r.0, r.1, (backoff i + jitter i) ∷ r.2)
unfolding reconnect_loop after_attempt
loop_again env jitter c i left (x, fails) =
    ap
      (after_attempt (suc left) (backoff i + jitter i)
        (reconnect_loop env jitter (suc left) (suc i) (min (backoff i * 2) max_delay_ms)))
      (reconnects_err c (env i) x fails)
    ∙ ap
        (λ d.
          let r =
            reconnect_loop env jitter (suc left) (suc i) d (record c { state = reconnecting }) in
          (r.0, r.1, (backoff i + jitter i) ∷ r.2))
        (double i)

loop_connects :
    (env : ℕ → Environment) (jitter : ℕ → ℕ) (c : TcpClient) (i n left : ℕ)
    → SucceedsAfter c env i n
    → n < left
    → reconnect_loop env jitter left i (backoff i) c ≡ (ok tt, up c, waits_from jitter i n)
unfolding reconnect_loop after_attempt waits_from
loop_connects env jitter c i n zero there room = absurd (omega (arith, room))
loop_connects env jitter c i zero (suc left) there room =
    ap (after_attempt left (backoff i + jitter i) _) (reconnects_ok c (env i) there)
loop_connects env jitter c i (suc n) (suc zero) (fails, there) room = absurd (omega (arith, room))
loop_connects env jitter c i (suc n) (suc (suc left)) (fails, there) room =
    loop_again env jitter c i left fails
    ∙ ap (λ r. (r.0, r.1, (backoff i + jitter i) ∷ r.2))
        (loop_connects env jitter (record c { state = reconnecting }) (suc i) n (suc left) there
          (omega (arith, room)))

-- There is one wait less than there are attempts.
abbrev pub pauses : ℕ → ℕ
pauses zero = zero
pauses (suc left) = left

pauses_lem : (n : ℕ) → pauses n ≡ n - 1
pauses_lem zero = refl
pauses_lem (suc n) = omega arith

-- The error of `reconnect` when `left` attempts have failed.
abbrev pub exhausted : (left : ℕ) → NetworkError
exhausted zero = connection "Max reconnection attempts reached"
exhausted (suc left) = connection "Failed to reconnect"

loop_gives_up :
    (env : ℕ → Environment) (jitter : ℕ → ℕ) (c : TcpClient) (i left : ℕ)
    → FailTimes c env i left
    → reconnect_loop env jitter left i (backoff i) c
      ≡ (err (exhausted left), record c { state = disconnected }, waits_from jitter i (pauses left))
unfolding reconnect_loop after_attempt waits_from
loop_gives_up env jitter c i zero fails = refl
loop_gives_up env jitter c i (suc zero) ((x, fails), _) =
    ap
      (after_attempt zero (backoff i + jitter i)
        (reconnect_loop env jitter zero (suc i) (min (backoff i * 2) max_delay_ms)))
      (reconnects_err c (env i) x fails)
loop_gives_up env jitter c i (suc (suc left)) (fails, more) =
    loop_again env jitter c i left fails
    ∙ ap (λ r. (r.0, r.1, (backoff i + jitter i) ∷ r.2))
        (loop_gives_up env jitter (record c { state = reconnecting }) (suc i) (suc left) more)

establish_cases : (c : TcpClient) (e : Environment) → Succeeds c e ⊎ Fails c e
establish_cases c e = result_cases (establish c.config.keep_alive e)
  where
    result_cases : (r : Result (Unit {0})) → (r ≡ ok tt) ⊎ ((x : NetworkError) × (r ≡ err x))
    result_cases (ok tt) = inl refl
    result_cases (err x) = inr (x, refl)

-- Of any number of attempts either one is the first to succeed, or all fail.
attempt_cases :
    (c : TcpClient) (env : ℕ → Environment) (i left : ℕ)
    → ((n : ℕ) × (n < left) × SucceedsAfter c env i n) ⊎ FailTimes c env i left
attempt_cases c env i zero = inr tt
attempt_cases c env i (suc left) = elim (establish_cases c (env i)) [
  | inl there ↦ inl (0, omega arith, there)
  | inr fails ↦ elim (attempt_cases c env (suc i) left) [
    | inl (n, room, there) ↦ inl (suc n, omega (arith, room), (fails, there))
    | inr more ↦ inr (fails, more)
  ]
]

pub reconnect_connects :
    (env : ℕ → Environment) (jitter : ℕ → ℕ) (c : TcpClient) (n : ℕ)
    → SucceedsAfter c env 0 n
    → n < c.config.max_reconnect_attempts
    → reconnect env jitter c ≡ (ok tt, up c, waits_from jitter 0 n)
unfolding reconnect backoff
reconnect_connects env jitter c n there room = loop_connects env jitter c 0 n _ there room

-- `reconnect` always comes to an end after at most `max_reconnect_attempts` attempts. If some attempt succeeds,
-- the first that does makes the client connected with a stream; otherwise it ends disconnected, with an error. Before each further
-- attempt it has waited once: 100 ms, then each time twice as long up to 30 s, and the jitter.
pub reconnect_lem :
    (env : ℕ → Environment) (jitter : ℕ → ℕ) (c : TcpClient)
    → ((n : ℕ) × (n < c.config.max_reconnect_attempts)
        × SucceedsAfter c env 0 n
        × (reconnect env jitter c ≡ (ok tt, up c, waits_from jitter 0 n)))
      ⊎ (FailTimes c env 0 c.config.max_reconnect_attempts
          × (reconnect env jitter c ≡ (
            err (exhausted c.config.max_reconnect_attempts),
            record c { state = disconnected },
            waits_from jitter 0 (pauses c.config.max_reconnect_attempts),
          )))
unfolding reconnect backoff
reconnect_lem env jitter c = elim (attempt_cases c env 0 c.config.max_reconnect_attempts) [
  | inl (n, room, there) ↦ inl (n, room, there, reconnect_connects env jitter c n there room)
  | inr fails ↦ inr (fails, loop_gives_up env jitter c 0 _ fails)
]

abbrev pub sum : List ℕ → ℕ
sum [] = 0
sum (x ∷ xs) = x + sum xs

sum-waits_from :
    (jitter : ℕ → ℕ) (i n : ℕ)
    → ((j : ℕ) → jitter j < 100)
    → (100 * n ≤ sum (waits_from jitter i n)) × (sum (waits_from jitter i n) ≤ 30099 * n)
unfolding waits_from backoff
sum-waits_from jitter i zero small = (omega arith, omega arith)
sum-waits_from jitter i (suc n) small =
    let (lower, upper) = sum-waits_from jitter (suc i) n small in
    let one = small i in
    let many = one-le-pow i 2 in (omega (arith, lower, many), omega (arith, upper, one))

-- With a jitter below 100 ms, the whole of `reconnect` waits for at most 30.099 s between two attempts: less than
-- `max_reconnect_attempts` times that.
pub reconnect_time :
    (env : ℕ → Environment) (jitter : ℕ → ℕ) (c : TcpClient)
    → ((j : ℕ) → jitter j < 100)
    → sum (reconnect env jitter c).2 ≤ 30099 * (c.config.max_reconnect_attempts - 1)
reconnect_time env jitter c small = elim (reconnect_lem env jitter c) [
  | inl (n, room, there, e) ↦
      omega (arith, ap (λ r. sum r.2) e, (sum-waits_from jitter 0 n small).1, room)
  | inr (fails, e) ↦ omega (
    arith,
    ap (λ r. sum r.2) e,
    (sum-waits_from jitter 0 (pauses c.config.max_reconnect_attempts) small).1,
    pauses_lem c.config.max_reconnect_attempts,
  )
]

-- When a client that is neither connected nor connecting fails to connect, it stays connecting: no
-- later `connect` reaches the network, each fails with an invalid state and changes nothing,
-- whatever it would meet.
pub failed_connect_sticks :
    (c : TcpClient) (e : Environment) (x : NetworkError) (e' : Environment)
    → establish c.config.keep_alive e ≡ err x
    → is_connected c.state ≡ false
    → is_connecting c.state ≡ false
    → ((connect c e).0 ≡ err x)
      × (connect (connect c e).1 e'
          ≡ (err (invalid_state "Client is already connected or connecting"), (connect c e).1))
unfolding connect connect_internal settle is_connected is_connecting
failed_connect_sticks c e x e' h a b = (rw (a, b, h, settle) refl, rw (a, b, h, settle) refl)
