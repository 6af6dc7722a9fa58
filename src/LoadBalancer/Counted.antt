-- ===== src/LoadBalancer/Counted.antt =====
-- The counters of src/pooling/load_balancer.rs against the live guards.
use rust_network_system.Base.{
  ℕ, zero, suc, ◌+◌, ◌-◌, ◌%◌, ◌<◌, ◌≡◌, refl, ap, ◌∙◌, inl, inr, Bool, true, false, Option, none,
  some, List, [], ◌∷◌, ◌++◌, arith, ◌==◌, length, length-append, u64_mod, add_u64_small, Bool-cases,
}
use rust_network_system.LoadBalancer.{
  Backend, BackendState, LoadBalancer, update, active, is_healthy, healthy_backends, number,
  new_state, record_request, add_backend, remove_backend, set_backend_health, probe, mark_healthy,
  mark_unhealthy, set_health,
}
use rust_network_system.LoadBalancer.Store.{number-update}
use rust_network_system.LoadBalancer.Choice.{
  Outcome, no_backend, panicked, picked, choose, connect, count_connection, select_among, select,
}
use rust_network_system.LoadBalancer.Select.{choose-states}
use rust_network_system.LoadBalancer.Guards.{
  disconnect, drop_guard, record_on, probe_on, live_on, Step, IsCounted, selects, selects_none,
  drops, records, probes, sets_health, adds, removes,
}
use rust_network_system.LoadBalancer.Counters.{
  live_on_le, live_on-append, active-update_self, active-update_ne, active_found, found_of_active,
  found_of_healthy, keeps, active-connect,
}

connect_counts :
    (i : ℕ) (states : List BackendState) (live : List ℕ)
    → length live + 1 < u64_mod
    → is_healthy states i ≡ true
    → ((j : ℕ) → active states j ≡ live_on j live)
    → (j : ℕ) → active (update i connect states) j ≡ live_on j (i ∷ live)
unfolding connect live_on
connect_counts i states live small well same j = elim (Bool-cases (j == i)) [
  | inl e ↦
      let (b, found) = found_of_healthy i states well in
      ground (
        arith,
        e,
        same j,
        active_found i states b found,
        live_on_le j live,
        active-update_self i connect states b found,
        add_u64_small b.active_connections 1,
      )
  | inr ne ↦ ground (arith, ne, same j, active-update_ne i j connect states)
]

drop_counts :
    (i : ℕ) (states : List BackendState) (front back : List ℕ)
    → length (front ++ (i ∷ back)) < u64_mod
    → ((j : ℕ) → active states j ≡ live_on j (front ++ (i ∷ back)))
    → (j : ℕ) → active (update i disconnect states) j ≡ live_on j (front ++ back)
unfolding disconnect live_on
drop_counts i states front back small same j = elim (Bool-cases (j == i)) [
  | inl e ↦
      let held : active states i ≡ live_on i front + suc (live_on i back) =
        ground (arith, same i, live_on-append i front (i ∷ back)) in
      let (b, found) = found_of_active i states (omega (arith, held)) in
      ground (
        arith,
        e,
        held,
        live_on-append i front back,
        active_found i states b found,
        live_on_le i (front ++ (i ∷ back)),
        same i,
        active-update_self i
            (λ c. record c {
              active_connections = (c.active_connections + (u64_mod - 1)) % u64_mod;
            })
            states b found,
      )
  | inr ne ↦ ground (
    arith,
    ne,
    same j,
    active-update_ne i j
        (λ c. record c { active_connections = (c.active_connections + (u64_mod - 1)) % u64_mod })
        states,
    live_on-append j front back,
    live_on-append j front (i ∷ back),
  )
]

same-update :
    (i : ℕ) (f : BackendState → BackendState) (states : List BackendState)
    → ((b : BackendState) → (f b).active_connections ≡ b.active_connections)
    → (j : ℕ) → active (update i f states) j ≡ active states j
unfolding active
same-update i f states h j = number-update i j f (λ b. b.active_connections) states h

active-append :
    (states : List BackendState) (b : Backend) (now j : ℕ)
    → active (states ++ (new_state b now ∷ [])) j ≡ active states j
unfolding active number new_state
active-append [] b now zero = refl
active-append [] b now (suc j) = refl
active-append (c ∷ cs) b now zero = refl
active-append (c ∷ cs) b now (suc j) = active-append cs b now j

record_request-active :
    (success : Bool) (b : BackendState)
    → (record_request success b).active_connections ≡ b.active_connections
unfolding record_request
record_request-active true b = refl
record_request-active false b = refl

probe-active :
    (threshold now : ℕ) (answer : Bool) (b : BackendState)
    → (probe threshold now answer b).active_connections ≡ b.active_connections
unfolding probe mark_healthy mark_unhealthy
probe-active threshold now true b = refl
probe-active threshold now false b = ground arith

set_health-active :
    (healthy : Bool) (now : ℕ) (o : Option ℕ) (states : List BackendState) (j : ℕ)
    → active (set_health healthy now o states) j ≡ active states j
unfolding set_health mark_healthy mark_unhealthy
set_health-active healthy now none states j = refl
set_health-active true now (some i) states j = same-update i (mark_healthy now) states (λ b. refl) j
set_health-active false now (some i) states j =
    same-update i (mark_unhealthy now) states (λ b. refl) j

count_unpicked :
    (r : Outcome × LoadBalancer)
    → ((i : ℕ) → ¬ ((count_connection r).0 ≡ picked i))
    → (count_connection r).1.states ≡ r.1.states
unfolding count_connection
count_unpicked (no_backend, l) h = refl
count_unpicked (panicked, l) h = refl
count_unpicked (picked i, l) h = absurd (h i refl)

select_among_unpicked :
    (draw : ℕ) (l : LoadBalancer) (hs : List ℕ)
    → ((i : ℕ) → ¬ ((select_among draw l hs).0 ≡ picked i))
    → (select_among draw l hs).1.states ≡ l.states
unfolding select_among
select_among_unpicked draw l [] h = refl
select_among_unpicked draw l (b ∷ bs) h =
    count_unpicked (choose l.config.strategy draw l (b ∷ bs)) h
    ∙ choose-states l.config.strategy draw l (b ∷ bs)

select_unpicked :
    (draw : ℕ) (l : LoadBalancer)
    → ((i : ℕ) → ¬ ((select draw l).0 ≡ picked i))
    → (select draw l).1.states ≡ l.states
unfolding select select_among
select_unpicked draw l = select_among_unpicked draw l (healthy_backends l.states l.backends)

-- Let there be fewer than 2 ^ 64 live guards, and let the counter of each backend's state be the number of
-- live guards on that state, for removed and for unhealthy backends too. Then every operation keeps this, with
-- the guard that it makes or drops.
pub step-IsCounted : (x y : LoadBalancer × List ℕ) → Step x y → IsCounted x → IsCounted y
unfolding remove_backend drop_guard record_on probe_on add_backend set_backend_health
step-IsCounted _ _ (selects draw i l live small e) v =
    let (changed, well) = active-connect draw i l e in
    (
      omega (arith, small),
      λ j. ap (λ s. active s j) changed ∙ connect_counts i l.states live small well v.1 j,
    )
step-IsCounted _ _ (selects_none draw l live none_picked) v =
    keeps l (select draw l).1 live (λ j. ap (λ s. active s j) (select_unpicked draw l none_picked))
      v
step-IsCounted _ _ (drops l i front back) v = (
  omega (arith, v.0, length-append front (i ∷ back), length-append front back),
  drop_counts i l.states front back v.0 v.1,
)
step-IsCounted _ _ (records i success l live) v =
    keeps l (record_on i success l) live
      (same-update i (record_request success) l.states (record_request-active success)) v
step-IsCounted _ _ (probes i threshold now answer l live) v =
    keeps l (probe_on i threshold now answer l) live
      (same-update i (probe threshold now answer) l.states (probe-active threshold now answer)) v
step-IsCounted _ _ (sets_health address healthy now l live) v =
    keeps l (set_backend_health address healthy now l) live
      (set_health-active healthy now _ l.states) v
step-IsCounted _ _ (adds b now l live) v =
    keeps l (add_backend b now l) live (active-append l.states b now) v
step-IsCounted _ _ (removes address l live) v = v
