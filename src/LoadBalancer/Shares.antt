-- ===== src/LoadBalancer/Shares.antt =====
-- The share of each backend in src/pooling/load_balancer.rs: by turns, by weights, by connections.
use rust_network_system.Base.{
  ℕ, zero, suc, ◌+◌, ◌-◌, ◌%◌, ◌≤◌, ◌<◌, ◌≡◌, refl, sym, ap, ◌∙◌, inl, inr, subst, some, List, [],
  ◌∷◌, ◌++◌, arith, ◌==◌, if◌then◌else◌, length, get_elem?, u32_mod, u64_mod, add_u32_small,
  add_u64_small,
}
use rust_network_system.LoadBalancer.{
  BackendState, LoadBalancer, round_robin, least_connections, weighted_round_robin, update, active,
  is_healthy, weight_of, healthy_backends,
}
use rust_network_system.LoadBalancer.Store.{check-update}
use rust_network_system.LoadBalancer.Choice.{
  Outcome, no_backend, panicked, picked, take_turn, outcome, select_round_robin, least,
  select_least_connections, total_weight, walk, or_first, select_weighted_round_robin, choose,
  connect, count_connection, select_among, select,
}
use rust_network_system.LoadBalancer.Select.{
  count_outcome, Among, head_or_tail, picked_inj, select_weighted_panics,
}

least_le :
    (states : List BackendState) (best : ℕ) (is : List ℕ) (j : ℕ)
    → Among j (best ∷ is)
    → active states (least states best is) ≤ active states j
unfolding least
least_le states best [] j (zero, e) = ground (arith, e)
least_le states best [] j (suc k, e) = absurd (cc)
least_le states best (i ∷ is) j m = elim (head_or_tail j best (i ∷ is) m) [
  | inl e ↦
      ground (arith, e, least_le states best is best (0, refl), least_le states i is i (0, refl))
  | inr later ↦ elim (head_or_tail j i is later) [
    | inl e ↦
        ground (arith, e, least_le states best is best (0, refl), least_le states i is i (0, refl))
    | inr (k, e) ↦
        ground (arith, least_le states best is j (suc k, e), least_le states i is j (suc k, e))
  ]
]

-- The sum of the weights, not as words.
unfoldable pub sum_weights : List BackendState → List ℕ → ℕ
sum_weights states [] = 0
sum_weights states (i ∷ is) = weight_of states i + sum_weights states is

total_weight_small :
    (states : List BackendState) (is : List ℕ)
    → sum_weights states is < u32_mod
    → total_weight states is ≡ sum_weights states is
unfolding total_weight sum_weights
total_weight_small states [] h = refl
total_weight_small states (i ∷ is) h = ground (
  arith,
  total_weight_small states is (omega arith),
  add_u32_small (weight_of states i) (sum_weights states is),
)

walk_finds :
    (states : List BackendState) (before : List ℕ) (i : ℕ) (after : List ℕ) (r : ℕ)
    → r < weight_of states i
    → walk states (sum_weights states before + r) (before ++ (i ∷ after)) ≡ some i
unfolding walk sum_weights
walk_finds states [] i after r h = ground arith
walk_finds states (b ∷ before) i after r h =
    let shift : weight_of states b + sum_weights states before + r - weight_of states b
        ≡ sum_weights states before + r =
      omega arith in
    ground (
      arith,
      walk_finds states before i after r h,
      ap (λ t. walk states t (before ++ (i ∷ after))) shift,
    )

healthy-connect :
    (i : ℕ) (states : List BackendState) (bs : List ℕ)
    → healthy_backends (update i connect states) bs ≡ healthy_backends states bs
unfolding healthy_backends is_healthy connect
healthy-connect i states [] = refl
healthy-connect i states (b ∷ bs) = ground (
  arith,
  healthy-connect i states bs,
  check-update i b connect (λ b. b.healthy) states (λ c. refl),
)

least-Among_lem :
    (draw : ℕ) (l : LoadBalancer) (hs : List ℕ) (i j : ℕ)
    → l.config.strategy ≡ least_connections
    → (select_among draw l hs).0 ≡ picked i
    → Among j hs
    → active l.states i ≤ active l.states j
unfolding select_among choose select_least_connections count_connection
least-Among_lem draw l [] i j s e (k, f) = absurd (cc)
least-Among_lem draw l (h ∷ hs) i j s e m =
    let chosen =
      picked_inj (least l.states h hs) i
        (sym (ap (λ t. (count_connection (choose t draw l (h ∷ hs))).0) s) ∙ e) in
    subst (λ x. active l.states x ≤ active l.states j) chosen (least_le l.states h hs j m)

-- Under least connections, the backend that `select` picks has no more active connections than any
-- healthy backend of the balancer.
pub select_least :
    (draw : ℕ) (l : LoadBalancer) (i j : ℕ)
    → l.config.strategy ≡ least_connections
    → (select draw l).0 ≡ picked i
    → Among j (healthy_backends l.states l.backends)
    → active l.states i ≤ active l.states j
unfolding select
select_least draw l i j s e m =
    least-Among_lem draw l (healthy_backends l.states l.backends) i j s e m

sum_weights_pos :
    (states : List BackendState) (before : List ℕ) (i : ℕ) (after : List ℕ) (r : ℕ)
    → r < weight_of states i
    → 0 < sum_weights states (before ++ (i ∷ after))
unfolding sum_weights
sum_weights_pos states [] i after r h = omega arith
sum_weights_pos states (b ∷ before) i after r h =
    omega (arith, sum_weights_pos states before i after r h)

positive_picks : (n i : ℕ) → 0 < n → (if n == 0 then panicked else picked i) ≡ picked i
positive_picks n i h = ground arith

-- Under the weighted strategy, where the healthy backends' weights add up to less than 2 ^ 32, each
-- backend owns as many consecutive remainders of the index as its weight: those from the sum of the
-- weights before it. An index with such a remainder picks that backend.
pub weighted_share :
    (states : List BackendState) (index : ℕ) (before : List ℕ) (i : ℕ) (after : List ℕ) (r : ℕ)
    → sum_weights states (before ++ (i ∷ after)) < u32_mod
    → r < weight_of states i
    → index % u32_mod % sum_weights states (before ++ (i ∷ after)) ≡ sum_weights states before + r
    → select_weighted_round_robin states index (before ++ (i ∷ after)) ≡ picked i
unfolding select_weighted_round_robin or_first
weighted_share states index before i after r small h target =
    let total = total_weight_small states (before ++ (i ∷ after)) small in
    let found =
      ap (λ t. walk states t (before ++ (i ∷ after))) target
      ∙ walk_finds states before i after r h in
    rw (total, found) (positive_picks _ i (sum_weights_pos states before i after r h))

-- Under the weighted strategy, `select` panics when there are healthy backends and their weights add
-- up to 0: the remainder by the total weight has no guard.
pub weighted_panics :
    (draw : ℕ) (l : LoadBalancer) (b : ℕ) (bs : List ℕ)
    → l.config.strategy ≡ weighted_round_robin
    → healthy_backends l.states l.backends ≡ b ∷ bs
    → sum_weights l.states (b ∷ bs) ≡ 0
    → (select draw l).0 ≡ panicked
unfolding select select_among choose select_weighted_round_robin count_connection
weighted_panics draw l b bs s e none_weighs =
    let zero_total : total_weight l.states (b ∷ bs) ≡ 0 =
      ground
        (arith, total_weight_small l.states (b ∷ bs) (omega (arith, none_weighs)), none_weighs) in
    ap (λ hs. (select_among draw l hs).0) e
    ∙ ap (λ t. (count_connection (choose t draw l (b ∷ bs))).0) s
    ∙ ap (λ o. (count_connection (o, take_turn l)).0)
        (select_weighted_panics l.states l.round_robin_index b bs (ground (arith, zero_total)))

-- What counting a connection leaves alone.
record Turned (l l' : LoadBalancer) : Type 0 where
  strategy : l'.config.strategy ≡ l.config.strategy
  index : l'.round_robin_index ≡ l.round_robin_index
  healthy : healthy_backends l'.states l'.backends ≡ healthy_backends l.states l.backends

count-Turned : (r : Outcome × LoadBalancer) → Turned r.1 (count_connection r).1
unfolding count_connection
count-Turned (no_backend, l) = record { strategy = refl; index = refl; healthy = refl }
count-Turned (panicked, l) = record { strategy = refl; index = refl; healthy = refl }
count-Turned (picked i, l) = record {
  strategy = refl;
  index = refl;
  healthy = healthy-connect i l.states l.backends;
}

round_robin_call :
    (l : LoadBalancer) (b : ℕ) (bs : List ℕ)
    → l.config.strategy ≡ round_robin
    → healthy_backends l.states l.backends ≡ b ∷ bs
    → select 0 l ≡ count_connection (select_round_robin l.round_robin_index (b ∷ bs), take_turn l)
unfolding select select_among choose
round_robin_call l b bs s e =
    ap (select_among 0 l) e ∙ ap (λ t. count_connection (choose t 0 l (b ∷ bs))) s

round_robin-Turned :
    (l : LoadBalancer) (b : ℕ) (bs : List ℕ)
    → l.config.strategy ≡ round_robin
    → healthy_backends l.states l.backends ≡ b ∷ bs
    → Turned (take_turn l) (select 0 l).1
round_robin-Turned l b bs s e =
    subst (λ r. Turned (take_turn l) r.1) (sym (round_robin_call l b bs s e))
      (count-Turned (select_round_robin l.round_robin_index (b ∷ bs), take_turn l))

-- `n` calls of `select`, one after the other.
abbrev pub selects : ℕ → LoadBalancer → LoadBalancer
selects zero l = l
selects (suc n) l = selects n (select 0 l).1

-- Round robin takes turns: after `n` calls on a balancer whose healthy backends are `b ∷ bs`, and while
-- the index does not wrap, the next call picks the healthy backend at the position (index + n) modulo their number.
pub turns :
    (n : ℕ) (l : LoadBalancer) (b : ℕ) (bs : List ℕ)
    → l.config.strategy ≡ round_robin
    → healthy_backends l.states l.backends ≡ b ∷ bs
    → l.round_robin_index + n < u64_mod
    → (select 0 (selects n l)).0
      ≡ outcome (get_elem? (b ∷ bs) ((l.round_robin_index + n) % length (b ∷ bs)))
unfolding select_round_robin take_turn
turns zero l b bs s e small =
    ap (λ r. r.0) (round_robin_call l b bs s e)
    ∙ count_outcome (select_round_robin l.round_robin_index (b ∷ bs), take_turn l)
    ∙ ap (λ n. outcome (get_elem? (b ∷ bs) (n % length (b ∷ bs)))) (omega arith)
turns (suc n) l b bs s e small =
    let t = round_robin-Turned l b bs s e in
    let next : (select 0 l).1.round_robin_index ≡ l.round_robin_index + 1 =
      t.index ∙ add_u64_small l.round_robin_index 1 (omega (arith, small)) in
    turns n (select 0 l).1 b bs (t.strategy ∙ s) (t.healthy ∙ e) (omega (arith, next, small))
    ∙ ap (λ n. outcome (get_elem? (b ∷ bs) (n % length (b ∷ bs)))) (omega (arith, next))
