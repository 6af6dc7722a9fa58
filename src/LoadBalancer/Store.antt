-- ===== src/LoadBalancer/Store.antt =====
-- Reads of the store of src/pooling/load_balancer.rs's shared states after a change.
use rust_network_system.Base.{
  ℕ, zero, suc, ◌≡◌, refl, ◌≢◌, Bool, some, List, [], ◌∷◌, ◌++◌, arith, length, get_elem?, ◌<◌, ap,
}
use rust_network_system.LoadBalancer.{BackendState, update, check, number}

pub get-update_self :
    (i : ℕ) (f : BackendState → BackendState) (states : List BackendState) (b : BackendState)
    → get_elem? states i ≡ some b
    → get_elem? (update i f states) i ≡ some (f b)
unfolding update
get-update_self i f [] b h = absurd (cc)
get-update_self zero f (c ∷ cs) b h = cc
get-update_self (suc i) f (c ∷ cs) b h = get-update_self i f cs b h

pub get-update_ne :
    (i j : ℕ) (f : BackendState → BackendState) (states : List BackendState)
    → i ≢ j
    → get_elem? (update i f states) j ≡ get_elem? states j
unfolding update
get-update_ne i j f [] h = refl
get-update_ne zero zero f (c ∷ cs) h = absurd (h refl)
get-update_ne zero (suc j) f (c ∷ cs) h = refl
get-update_ne (suc i) zero f (c ∷ cs) h = refl
get-update_ne (suc i) (suc j) f (c ∷ cs) h = get-update_ne i j f cs (λ e. h (ap suc e))

pub length-update :
    (i : ℕ) (f : BackendState → BackendState) (states : List BackendState)
    → length (update i f states) ≡ length states
unfolding update
length-update i f [] = refl
length-update zero f (c ∷ cs) = refl
length-update (suc i) f (c ∷ cs) = ap suc (length-update i f cs)

-- A change that leaves a field alone leaves its readings alone.
pub number-update :
    (i j : ℕ) (f : BackendState → BackendState) (g : BackendState → ℕ) (states : List BackendState)
    → ((b : BackendState) → g (f b) ≡ g b)
    → number (get_elem? (update i f states) j) g ≡ number (get_elem? states j) g
unfolding update number
number-update i j f g [] h = refl
number-update zero zero f g (c ∷ cs) h = h c
number-update zero (suc j) f g (c ∷ cs) h = refl
number-update (suc i) zero f g (c ∷ cs) h = refl
number-update (suc i) (suc j) f g (c ∷ cs) h = number-update i j f g cs h

pub check-update :
    (i j : ℕ) (f : BackendState → BackendState) (g : BackendState → Bool)
    (states : List BackendState)
    → ((b : BackendState) → g (f b) ≡ g b)
    → check (get_elem? (update i f states) j) g ≡ check (get_elem? states j) g
unfolding update check
check-update i j f g [] h = refl
check-update zero zero f g (c ∷ cs) h = h c
check-update zero (suc j) f g (c ∷ cs) h = refl
check-update (suc i) zero f g (c ∷ cs) h = refl
check-update (suc i) (suc j) f g (c ∷ cs) h = check-update i j f g cs h

pub get-append_front :
    (states more : List BackendState) (i : ℕ)
    → i < length states
    → get_elem? (states ++ more) i ≡ get_elem? states i
get-append_front [] more i h = elim h [ ]
get-append_front (b ∷ bs) more zero h = refl
get-append_front (b ∷ bs) more (suc i) h = get-append_front bs more i (ground arith)
