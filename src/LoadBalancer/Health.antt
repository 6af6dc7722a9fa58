-- ===== src/LoadBalancer/Health.antt =====
-- The health of a backend in src/pooling/load_balancer.rs under probes and reported requests.
use rust_network_system.Base.{
  ℕ, zero, suc, ◌+◌, ◌<◌, ◌≡◌, refl, ap, ◌∙◌, Bool, true, false, List, [], ◌∷◌, arith, ltb, u32_mod,
  add_u32_small,
}
use rust_network_system.LoadBalancer.{BackendState, mark_unhealthy, record_request, probe}

-- The answers of probes, one after the other, each with the time of its mark.
abbrev pub probes : ℕ → List (ℕ × Bool) → BackendState → BackendState
probes threshold [] b = b
probes threshold ((now, answer) ∷ rest) b = probes threshold rest (probe threshold now answer b)

abbrev pub Failing : List (ℕ × Bool) → Type 0
Failing [] = Unit
Failing ((now, answer) ∷ rest) = (answer ≡ false) × Failing rest

pub probe_kept :
    (threshold now : ℕ) (answer : Bool) (b : BackendState)
    → answer ≡ false
    → b.consecutive_failures < threshold
    → probe threshold now answer b ≡ b
unfolding probe
probe_kept threshold now answer b e small = ground (arith, e)

-- A probe that fails is not counted: while the consecutive failures of the reported requests are under
-- the threshold, no number of failed probes changes anything in a backend's state.
pub failed_probes :
    (threshold : ℕ) (answers : List (ℕ × Bool)) (b : BackendState)
    → Failing answers
    → b.consecutive_failures < threshold
    → probes threshold answers b ≡ b
failed_probes threshold [] b h small = refl
failed_probes threshold ((now, answer) ∷ rest) b (e, h) small =
    let kept = probe_kept threshold now answer b e small in
    ap (probes threshold rest) kept ∙ failed_probes threshold rest b h small

-- `n` requests that are reported as failed.
abbrev pub fails : ℕ → BackendState → BackendState
fails zero b = b
fails (suc n) b = fails n (record_request false b)

fails_lem :
    (n : ℕ) (b : BackendState)
    → b.consecutive_failures + n < u32_mod
    → ((fails n b).consecutive_failures ≡ b.consecutive_failures + n)
      × ((fails n b).healthy ≡ b.healthy)
unfolding record_request
fails_lem zero b h = (omega arith, refl)
fails_lem (suc n) b h =
    let one = add_u32_small b.consecutive_failures 1 (omega (arith, h)) in
    let (counted, same) = fails_lem n (record_request false b) (omega (arith, one, h)) in
    (omega (arith, counted, one), same)

-- A backend without a failure since its last success is marked unhealthy by a failed probe once as many
-- failed requests were reported as the threshold says, and by no probe before that.
pub probe_after_failures :
    (threshold now n : ℕ) (b : BackendState)
    → n < u32_mod
    → b.consecutive_failures ≡ 0
    → b.healthy ≡ true
    → (probe threshold now false (fails n b)).healthy ≡ ltb n threshold
unfolding probe mark_unhealthy
probe_after_failures threshold now n b small zero_failures well =
    let (counted, same) = fails_lem n b (omega (arith, small, zero_failures)) in
    ground (arith, counted, same, zero_failures, well)
