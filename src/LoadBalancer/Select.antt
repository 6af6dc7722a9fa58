-- ===== src/LoadBalancer/Select.antt =====
-- What `LoadBalancer::select` of src/pooling/load_balancer.rs chooses, for each strategy.
use rust_network_system.Base.{
  ℕ, zero, suc, ◌-◌, ◌%◌, ◌<◌, ◌≡◌, refl, sym, ap, ◌∙◌, ◌⊎◌, inl, inr, subst, true, Option, none,
  some, List, [], ◌∷◌, arith, ltb, ◌==◌, if◌then◌else◌, length, get_elem?, get_elem?_of_lt, u32_mod,
  Bool-cases,
}
use rust_network_system.LoadBalancer.{
  BackendState, Strategy, LoadBalancer, round_robin, least_connections, weighted_round_robin,
  random, update, active, is_healthy, weight_of, healthy_backends,
}
use rust_network_system.LoadBalancer.Choice.{
  Outcome, no_backend, panicked, picked, take_turn, outcome, select_round_robin, least,
  select_least_connections, total_weight, walk, or_first, select_weighted_round_robin,
  select_random, choose, connect, count_connection, select_among, select,
}
use native.Mathlib.Nat.{mod-lt}

-- A position in the list that holds `i`.
abbrev pub Among : ℕ → List ℕ → Type 0
Among i is = (k : ℕ) × (get_elem? is k ≡ some i)

there : (i j : ℕ) (is : List ℕ) → Among i is → Among i (j ∷ is)
there i j is (k, e) = (suc k, e)

-- An element of a list with a new head is the head or stands in the tail.
pub head_or_tail : (i j : ℕ) (is : List ℕ) → Among i (j ∷ is) → (i ≡ j) ⊎ Among i is
head_or_tail i j is (zero, e) = inl (cc)
head_or_tail i j is (suc k, e) = inr (k, e)

kept_or_skipped :
    (states : List BackendState) (b : ℕ) (bs : List ℕ) (i : ℕ)
    → Among i (healthy_backends states (b ∷ bs))
    → ((i ≡ b) × (is_healthy states b ≡ true)) ⊎ Among i (healthy_backends states bs)
unfolding healthy_backends
kept_or_skipped states b bs i m = elim (Bool-cases (is_healthy states b)) [
  | inl h ↦
      elim (head_or_tail i b _ (
        subst
          (λ t. Among i (if t then b ∷ healthy_backends states bs else healthy_backends states bs))
          h m)) [ inl e ↦ inl (e, h) | inr r ↦ inr r ]
  | inr h ↦ inr (
      subst
        (λ t. Among i (if t then b ∷ healthy_backends states bs else healthy_backends states bs)) h
        m)
]

pub healthy-Among :
    (states : List BackendState) (bs : List ℕ) (i : ℕ)
    → Among i (healthy_backends states bs)
    → Among i bs × (is_healthy states i ≡ true)
unfolding healthy_backends
healthy-Among states [] i (k, e) = absurd (cc)
healthy-Among states (b ∷ bs) i m = elim (kept_or_skipped states b bs i m) [
  | inl (e, h) ↦ ((0, ap some (sym e)), ap (is_healthy states) e ∙ h)
  | inr r ↦ let (found, well) = healthy-Among states bs i r in (there i b bs found, well)
]

least-Among :
    (states : List BackendState) (best : ℕ) (is : List ℕ) → Among (least states best is) (best ∷ is)
unfolding least
least-Among states best [] = (0, refl)
least-Among states best (i ∷ is) = elim (Bool-cases (ltb (active states i) (active states best))) [
  | inl h ↦ rw (h) (there _ best (i ∷ is) (least-Among states i is))
  | inr h ↦ rw (h) (skip _ (least-Among states best is))
]
  where
    skip : (j : ℕ) → Among j (best ∷ is) → Among j (best ∷ i ∷ is)
    skip j (zero, e) = (zero, e)
    skip j (suc k, e) = (suc (suc k), e)

walk-Among :
    (states : List BackendState) (target : ℕ) (is : List ℕ) (i : ℕ)
    → walk states target is ≡ some i
    → Among i is
unfolding walk
walk-Among states target [] i e = absurd (cc)
walk-Among states target (j ∷ is) i e = elim (Bool-cases (ltb target (weight_of states j))) [
  | inl h ↦ (0, ground (arith, h, e))
  | inr h ↦
      there i j is (walk-Among states (target - weight_of states j) is i (ground (arith, h, e)))
]

Served : Strategy → ℕ → LoadBalancer → List ℕ → Type 0
Served s draw l hs =
    (i : ℕ) × ((choose s draw l hs).0 ≡ picked i)
    × Among i hs
    × ((choose s draw l hs).1.states ≡ l.states)

or_first-Among :
    (o : Option ℕ) (b : ℕ) (bs : List ℕ)
    → ((i : ℕ) → o ≡ some i → Among i (b ∷ bs))
    → (i : ℕ) × (or_first o (b ∷ bs) ≡ picked i) × Among i (b ∷ bs)
unfolding or_first
or_first-Among none b bs h = (b, refl, (0, refl))
or_first-Among (some i) b bs h = (i, refl, h i refl)

pub picked_inj : (i j : ℕ) → picked i ≡ picked j → i ≡ j
picked_inj i j e = cc

panics_not_picked : (o : Outcome) (i : ℕ) → o ≡ panicked → ¬ (o ≡ picked i)
panics_not_picked o i p e = cc

pub select_weighted_panics :
    (states : List BackendState) (index b : ℕ) (bs : List ℕ)
    → (total_weight states (b ∷ bs) == 0) ≡ true
    → select_weighted_round_robin states index (b ∷ bs) ≡ panicked
unfolding select_weighted_round_robin
select_weighted_panics states index b bs z =
    ap
      (λ t.
        if t
        then panicked
        else or_first (walk states ((index % u32_mod) % total_weight states (b ∷ bs)) (b ∷ bs))
            (b ∷ bs))
      z

select_weighted-Among :
    (states : List BackendState) (index b : ℕ) (bs : List ℕ)
    → 0 < total_weight states (b ∷ bs)
    → (i : ℕ) × (select_weighted_round_robin states index (b ∷ bs) ≡ picked i) × Among i (b ∷ bs)
unfolding select_weighted_round_robin
select_weighted-Among states index b bs h =
    let t = index % u32_mod % total_weight states (b ∷ bs) in
    let r = or_first-Among (walk states t (b ∷ bs)) b bs (walk-Among states t (b ∷ bs)) in
    (r.0, ground (arith, h, r.1), r.2)

choose_lem :
    (s : Strategy) (draw : ℕ) (l : LoadBalancer) (b : ℕ) (bs : List ℕ)
    → draw < length (b ∷ bs)
    → (s ≡ weighted_round_robin → 0 < total_weight l.states (b ∷ bs))
    → Served s draw l (b ∷ bs)
unfolding Served choose select_round_robin select_least_connections select_random outcome take_turn
choose_lem round_robin draw l b bs h w =
    let (i, e) =
      get_elem?_of_lt (b ∷ bs) (l.round_robin_index % length (b ∷ bs))
        (mod-lt l.round_robin_index (omega arith)) in
    (i, ap outcome e, (l.round_robin_index % length (b ∷ bs), e), refl)
choose_lem least_connections draw l b bs h w =
    (least l.states b bs, refl, least-Among l.states b bs, refl)
choose_lem weighted_round_robin draw l b bs h w =
    let (i, e, m) = select_weighted-Among l.states l.round_robin_index b bs (w refl) in
    (i, e, m, refl)
choose_lem random draw l b bs h w =
    let (i, e) = get_elem?_of_lt (b ∷ bs) draw h in (i, ap outcome e, (draw, e), refl)

select_weighted_picked :
    (states : List BackendState) (index b : ℕ) (bs : List ℕ) (i : ℕ)
    → select_weighted_round_robin states index (b ∷ bs) ≡ picked i
    → Among i (b ∷ bs)
select_weighted_picked states index b bs i e =
    elim (Bool-cases (total_weight states (b ∷ bs) == 0)) [
      | inl z ↦ absurd (panics_not_picked _ _ (select_weighted_panics states index b bs z) e)
      | inr p ↦
          let (j, f, m) = select_weighted-Among states index b bs (ground (arith, p)) in
          subst (λ x. Among x (b ∷ bs)) (picked_inj j i (sym f ∙ e)) m
    ]

outcome-some : (o : Option ℕ) (i : ℕ) → outcome o ≡ picked i → o ≡ some i
unfolding outcome
outcome-some none i e = absurd (cc)
outcome-some (some j) i e = cc

pub choose-states :
    (s : Strategy) (draw : ℕ) (l : LoadBalancer) (hs : List ℕ)
    → (choose s draw l hs).1.states ≡ l.states
unfolding choose take_turn
choose-states round_robin draw l hs = refl
choose-states least_connections draw l hs = refl
choose-states weighted_round_robin draw l hs = refl
choose-states random draw l hs = refl

-- What a strategy picks is one of the backends it is given.
pub choose_picked :
    (s : Strategy) (draw : ℕ) (l : LoadBalancer) (b : ℕ) (bs : List ℕ) (i : ℕ)
    → (choose s draw l (b ∷ bs)).0 ≡ picked i
    → Among i (b ∷ bs)
unfolding choose select_round_robin select_least_connections select_random
choose_picked round_robin draw l b bs i e = (_, outcome-some _ i e)
choose_picked least_connections draw l b bs i e =
    subst (λ x. Among x (b ∷ bs)) (cc) (least-Among l.states b bs)
choose_picked weighted_round_robin draw l b bs i e =
    select_weighted_picked l.states l.round_robin_index b bs i e
choose_picked random draw l b bs i e = (draw, outcome-some _ i e)

pub count_connection_lem :
    (r : Outcome × LoadBalancer) (i : ℕ)
    → r.0 ≡ picked i
    → ((count_connection r).0 ≡ picked i)
      × ((count_connection r).1.states ≡ update i connect r.1.states)
unfolding count_connection
count_connection_lem (no_backend, l) i e = absurd (cc)
count_connection_lem (panicked, l) i e = absurd (cc)
count_connection_lem (picked j, l) i e = (e, ap (λ k. update k connect l.states) (cc))

pub count_outcome : (r : Outcome × LoadBalancer) → (count_connection r).0 ≡ r.0
unfolding count_connection
count_outcome (no_backend, l) = refl
count_outcome (panicked, l) = refl
count_outcome (picked i, l) = refl

-- Whenever some backend is healthy, and, under the weighted strategy, the healthy ones' weights do not
-- add up to 0 as words, and the random index is in range, `select` returns a guard: its backend is one
-- of the balancer's and healthy, and the states change by one more active connection of that backend.
pub select_serves :
    (draw : ℕ) (l : LoadBalancer) (b : ℕ) (bs : List ℕ)
    → healthy_backends l.states l.backends ≡ b ∷ bs
    → draw < length (b ∷ bs)
    → (l.config.strategy ≡ weighted_round_robin → 0 < total_weight l.states (b ∷ bs))
    → (i : ℕ) × ((select draw l).0 ≡ picked i)
      × Among i l.backends
      × (is_healthy l.states i ≡ true)
      × ((select draw l).1.states ≡ update i connect l.states)
unfolding select select_among Served
select_serves draw l b bs e h w =
    let (i, picks, member, same) = choose_lem l.config.strategy draw l b bs h w in
    let counted = count_connection_lem (choose l.config.strategy draw l (b ∷ bs)) i picks in
    let (listed, well) = healthy-Among l.states l.backends i (subst (Among i) (sym e) member) in
    (
      i,
      ap (λ hs. (select_among draw l hs).0) e ∙ counted.0,
      listed,
      well,
      ap (λ hs. (select_among draw l hs).1.states) e ∙ counted.1 ∙ ap (update i connect) same,
    )

-- When every backend is unhealthy, or there is none, `select` returns no guard and changes nothing.
pub select_none :
    (draw : ℕ) (l : LoadBalancer)
    → healthy_backends l.states l.backends ≡ []
    → select draw l ≡ (no_backend, l)
unfolding select select_among
select_none draw l e = ap (select_among draw l) e
