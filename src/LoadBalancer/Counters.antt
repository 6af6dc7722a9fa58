-- ===== src/LoadBalancer/Counters.antt =====
-- Reads of the counters of src/pooling/load_balancer.rs after one operation.
use rust_network_system.Base.{
  ℕ, ◌+◌, ◌≤◌, ◌<◌, ◌≡◌, refl, sym, ap, ◌∙◌, ◌≢◌, inl, inr, true, some, List, [], ◌∷◌, ◌++◌, arith,
  length, get_elem?, Option-cases,
}
use rust_network_system.LoadBalancer.{
  BackendState, LoadBalancer, update, active, is_healthy, healthy_backends, number, check,
}
use rust_network_system.LoadBalancer.Store.{get-update_self, get-update_ne}
use rust_network_system.LoadBalancer.Choice.{picked, choose, connect, select_among, select}
use rust_network_system.LoadBalancer.Select.{
  Among, healthy-Among, choose_picked, choose-states, count_connection_lem, count_outcome,
}
use rust_network_system.LoadBalancer.Guards.{live_on, IsCounted}

pub live_on_le : (i : ℕ) (live : List ℕ) → live_on i live ≤ length live
unfolding live_on
live_on_le i [] = omega arith
live_on_le i (j ∷ live) = ground (arith, live_on_le i live)

pub live_on-append :
    (i : ℕ) (front back : List ℕ) → live_on i (front ++ back) ≡ live_on i front + live_on i back
unfolding live_on
live_on-append i [] back = omega arith
live_on-append i (j ∷ front) back = omega (arith, live_on-append i front back)

pub active-update_self :
    (i : ℕ) (f : BackendState → BackendState) (states : List BackendState) (b : BackendState)
    → get_elem? states i ≡ some b
    → active (update i f states) i ≡ (f b).active_connections
unfolding active number
active-update_self i f states b h = rw (get-update_self i f states b h) refl

pub active-update_ne :
    (i j : ℕ) (f : BackendState → BackendState) (states : List BackendState)
    → i ≢ j
    → active (update i f states) j ≡ active states j
unfolding active
active-update_ne i j f states h =
    ap (λ o. number o (λ b. b.active_connections)) (get-update_ne i j f states h)

pub active_found :
    (i : ℕ) (states : List BackendState) (b : BackendState)
    → get_elem? states i ≡ some b
    → active states i ≡ b.active_connections
unfolding active number
active_found i states b h = rw (h) refl

pub found_of_active :
    (i : ℕ) (states : List BackendState)
    → 0 < active states i
    → (b : BackendState) × (get_elem? states i ≡ some b)
unfolding active number
found_of_active i states h = elim (Option-cases (get_elem? states i)) [
  | inl e ↦ absurd (ground (arith, e))
  | inr r ↦ r
]

pub found_of_healthy :
    (i : ℕ) (states : List BackendState)
    → is_healthy states i ≡ true
    → (b : BackendState) × (get_elem? states i ≡ some b)
unfolding is_healthy check
found_of_healthy i states h = elim (Option-cases (get_elem? states i)) [
  | inl e ↦ absurd (ground (arith, e))
  | inr r ↦ r
]

-- An operation that leaves every counter alone keeps the agreement.
pub keeps :
    (l l' : LoadBalancer) (live : List ℕ)
    → ((i : ℕ) → active l'.states i ≡ active l.states i)
    → IsCounted (l, live)
    → IsCounted (l', live)
keeps l l' live same v = (v.0, λ i. same i ∙ v.1 i)

select_among-connect :
    (draw i : ℕ) (l : LoadBalancer) (hs : List ℕ)
    → (select_among draw l hs).0 ≡ picked i
    → ((select_among draw l hs).1.states ≡ update i connect l.states) × Among i hs
unfolding select_among
select_among-connect draw i l [] e = absurd (cc)
select_among-connect draw i l (b ∷ bs) e =
    let r = choose l.config.strategy draw l (b ∷ bs) in
    let picks = sym (count_outcome r) ∙ e in
    (
      (count_connection_lem r i picks).1
          ∙ ap (update i connect) (choose-states l.config.strategy draw l (b ∷ bs)),
      choose_picked l.config.strategy draw l b bs i picks,
    )

pub active-connect :
    (draw i : ℕ) (l : LoadBalancer)
    → (select draw l).0 ≡ picked i
    → ((select draw l).1.states ≡ update i connect l.states) × (is_healthy l.states i ≡ true)
unfolding select
active-connect draw i l e =
    let (changed, m) = select_among-connect draw i l (healthy_backends l.states l.backends) e in
    (changed, (healthy-Among l.states l.backends i m).1)
