-- ===== src/Server/Weights.antt =====
-- Counts over the tasks and the list of sessions of src/core/server.rs.
use rust_network_system.Base.{ℕ, ◌+◌, ◌≤◌, ◌≡◌, ap, List, [], ◌∷◌, ◌++◌, arith, ◌==◌, if◌then◌else◌}
use rust_network_system.Server.{
  Phase, spawned, starting, serving, leaving, ended, aborted, Task, remove_session,
}
use rust_network_system.Server.Callbacks.{serves}

-- The sum of a weight over the tasks.
unfoldable pub weigh : (Task → ℕ) → List Task → ℕ
weigh w [] = 0
weigh w (t ∷ ts) = w t + weigh w ts

weigh-append : (w : Task → ℕ) (xs ys : List Task) → weigh w (xs ++ ys) ≡ weigh w xs + weigh w ys
unfolding weigh
weigh-append w [] ys = omega arith
weigh-append w (t ∷ xs) ys = omega (arith, weigh-append w xs ys)

-- A task of the list becomes another one.
pub weigh_swap :
    (w : Task → ℕ) (ts front back : List Task) (t u : Task)
    → ts ≡ front ++ (t ∷ back)
    → weigh w (front ++ (u ∷ back)) + w t ≡ weigh w ts + w u
unfolding weigh
weigh_swap w ts front back t u e =
    omega (arith, ap (weigh w) e, weigh-append w front (t ∷ back), weigh-append w front (u ∷ back))

pub weigh_last :
    (w : Task → ℕ) (ts : List Task) (t : Task) → weigh w (ts ++ (t ∷ [])) ≡ weigh w ts + w t
unfolding weigh
weigh_last w ts t = omega (arith, weigh-append w ts (t ∷ []))

pub weigh_has :
    (w : Task → ℕ) (ts front back : List Task) (t : Task)
    → ts ≡ front ++ (t ∷ back)
    → w t ≤ weigh w ts
unfolding weigh
weigh_has w ts front back t e = omega (arith, ap (weigh w) e, weigh-append w front (t ∷ back))

abbrev pub is_task : ℕ → Task → ℕ
is_task i t = if t.id == i then 1 else 0

abbrev pub serves_as : ℕ → Task → ℕ
serves_as i t = if t.id == i then serves t.phase else 0

abbrev pub to_abort : Task → ℕ
to_abort t = if t.abort then 1 else 0

-- How often the list has a number.
unfoldable pub listed : ℕ → List ℕ → ℕ
listed i [] = 0
listed i (j ∷ js) = (if j == i then 1 else 0) + listed i js

pub listed_last :
    (i j : ℕ) (js : List ℕ) → listed i (js ++ (j ∷ [])) ≡ listed i js + (if j == i then 1 else 0)
unfolding listed
listed_last i j [] = omega arith
listed_last i j (k ∷ js) = omega (arith, listed_last i j js)

pub listed-remove_session :
    (i j : ℕ) (js : List ℕ) → listed i (remove_session j js) ≡ (if j == i then 0 else listed i js)
unfolding listed remove_session
listed-remove_session i j [] = ground arith
listed-remove_session i j (k ∷ js) = ground (arith, listed-remove_session i j js)

serves-le : (p : Phase) → serves p ≤ 1
unfolding serves
serves-le spawned = omega arith
serves-le starting = omega arith
serves-le serving = omega arith
serves-le leaving = omega arith
serves-le ended = omega arith
serves-le aborted = omega arith

pub serves_as-le : (i : ℕ) (ts : List Task) → weigh (serves_as i) ts ≤ weigh (is_task i) ts
unfolding weigh
serves_as-le i [] = omega arith
serves_as-le i (t ∷ ts) = ground (arith, serves-le t.phase, serves_as-le i ts)
