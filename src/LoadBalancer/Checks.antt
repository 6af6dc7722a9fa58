-- ===== src/LoadBalancer/Checks.antt =====
-- The rounds of `start_health_checks` in src/pooling/load_balancer.rs.
use rust_network_system.Base.{
  ℕ, zero, suc, ◌<◌, ◌≡◌, refl, ap, ◌∙◌, Bool, false, Option, none, some, List, [], ◌∷◌, All,
  All-weaken,
}
use rust_network_system.LoadBalancer.{BackendState, LoadBalancer, HealthCheckConfig, update, probe}
use rust_network_system.LoadBalancer.Guards.{probe_on}
use rust_network_system.LoadBalancer.Health.{probe_kept}

-- The probes of one tick, one for each backend of the snapshot.
unfoldable pub probe_listed :
    (threshold now : ℕ) → (ℕ → Bool) → List ℕ → LoadBalancer → LoadBalancer
unfolding probe_on
probe_listed threshold now answers [] l = l
probe_listed threshold now answers (i ∷ is) l =
    probe_listed threshold now answers is (probe_on i threshold now (answers i) l)

on_tick : Option HealthCheckConfig → (now : ℕ) → (ℕ → Bool) → LoadBalancer → LoadBalancer
on_tick none now answers l = l
on_tick (some h) now answers l = probe_listed h.unhealthy_threshold now answers l.backends l

-- The ticks, each with its time and the answers of the checks of that tick, by the backend.
unfoldable pub health_checks : List (ℕ × (ℕ → Bool)) → LoadBalancer → LoadBalancer
unfolding on_tick probe_listed
health_checks [] l = l
health_checks ((now, answers) ∷ ticks) l =
    health_checks ticks (on_tick l.config.health_check now answers l)

update_unchanged :
    (i : ℕ) (f : BackendState → BackendState) (states : List BackendState)
    → All (λ b. f b ≡ b) states
    → update i f states ≡ states
unfolding update
update_unchanged i f [] h = refl
update_unchanged zero f (b ∷ states) h = ap (λ c. c ∷ states) h.0
update_unchanged (suc i) f (b ∷ states) h = ap (◌∷◌ b) (update_unchanged i f states h.1)

-- Every check of every tick fails.
abbrev pub AllFail : List (ℕ × (ℕ → Bool)) → Type 0
AllFail [] = Unit
AllFail ((now, answers) ∷ ticks) = ((i : ℕ) → answers i ≡ false) × AllFail ticks

-- The consecutive failures of each state are under the threshold.
abbrev pub Below : Option HealthCheckConfig → List BackendState → Type 0
Below none states = Unit
Below (some h) states = All (λ b. b.consecutive_failures < h.unhealthy_threshold) states

probe_listed_unchanged :
    (threshold now : ℕ) (answers : ℕ → Bool) (is : List ℕ) (l : LoadBalancer)
    → ((i : ℕ) → answers i ≡ false)
    → All (λ b. b.consecutive_failures < threshold) l.states
    → probe_listed threshold now answers is l ≡ l
unfolding probe_listed probe_on
probe_listed_unchanged threshold now answers [] l fail low = refl
probe_listed_unchanged threshold now answers (i ∷ is) l fail low =
    let same =
      update_unchanged i (probe threshold now (answers i)) l.states
        (All-weaken l.states (λ b. probe_kept threshold now (answers i) b (fail i)) low) in
    ap (λ states. probe_listed threshold now answers is (record l { states = states })) same
    ∙ probe_listed_unchanged threshold now answers is l fail low

on_tick_unchanged :
    (o : Option HealthCheckConfig) (now : ℕ) (answers : ℕ → Bool) (l : LoadBalancer)
    → ((i : ℕ) → answers i ≡ false)
    → Below o l.states
    → on_tick o now answers l ≡ l
unfolding on_tick
on_tick_unchanged none now answers l fail low = refl
on_tick_unchanged (some h) now answers l fail low =
    probe_listed_unchanged h.unhealthy_threshold now answers l.backends l fail low

-- Health checks alone never find a backend unhealthy: however many rounds there are in which every check fails, they
-- change nothing in the balancer, unless reported requests have brought some backend to the threshold.
pub health_checks_blind :
    (ticks : List (ℕ × (ℕ → Bool))) (l : LoadBalancer)
    → AllFail ticks
    → Below l.config.health_check l.states
    → health_checks ticks l ≡ l
unfolding health_checks
health_checks_blind [] l fail low = refl
health_checks_blind ((now, answers) ∷ ticks) l (fail, more) low =
    ap (health_checks ticks) (on_tick_unchanged l.config.health_check now answers l fail low)
    ∙ health_checks_blind ticks l more low
