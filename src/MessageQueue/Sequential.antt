-- ===== src/MessageQueue/Sequential.antt =====
-- The methods of src/core/message_queue.rs, one at a time, against a bounded list.
use rust_network_system.Base.{
  ℕ, ◌+◌, ◌≤◌, ◌<◌, ◌≡◌, refl, ap, ap₂, ◌∙◌, false, Option, none, some, List, [], ◌∷◌, ◌++◌, arith,
  ltb, ◌==◌, if◌then◌else◌, length, length-append, u64_mod, add_u64,
}
use rust_network_system.Error.{Result, ok, err}
use rust_network_system.MessageQueue.{
  MessageQueue, MessageQueueConfig, new, enqueue, try_enqueue, try_dequeue, dequeue, is_empty,
  is_full, depth, stats,
}

-- No task is in the middle of a call: every permit is free or stands for a message in the channel, and
-- the counters differ by the number of messages there.
pub record IsValid {A : Type 0} (q : MessageQueue A) : Type 0 where
  pub permits : q.permits + length q.channel ≡ q.config.max_size
  pub counted : q.enqueued_count ≡ q.dequeued_count + length q.channel

pub data Call (A : Type 0) : Type 0 where
  enqueues tries : A → Call A
  takes waits : Call A

-- What the caller sees: whether the message was accepted, or the message that was taken. A `dequeue` that takes
-- none waits; it has changed nothing, and the caller drops it or calls again.
pub data Answer (A : Type 0) : Type 0 where
  accepted refused : Answer A
  taken : Option A → Answer A

module _ {A : Type 0} where
  accepts : Result (Unit {0}) → Answer A
  accepts (ok _) = accepted
  accepts (err _) = refused

  unfoldable pub step : MessageQueue A → Call A → Answer A × MessageQueue A
  unfolding accepts
  step q (enqueues m) = let r = enqueue q m in (accepts r.0, r.1)
  step q (tries m) = let r = try_enqueue q m in (accepts r.0, r.1)
  step q takes = let r = try_dequeue q false in (taken r.0, r.1)
  step q waits = let r = dequeue q in (taken r.0, r.1)

  unfoldable pub run : MessageQueue A → List (Call A) → List (Answer A) × MessageQueue A
  run q [] = ([], q)
  run q (c ∷ cs) = let r = step q c in let rest = run r.1 cs in (r.0 ∷ rest.0, rest.1)

  -- The bounded list.
  spec_put : ℕ → List A → A → Answer A × List A
  spec_put max xs m = if ltb (length xs) max then (accepted, xs ++ (m ∷ [])) else (refused, xs)

  spec_take : List A → Answer A × List A
  spec_take [] = (taken none, [])
  spec_take (x ∷ xs) = (taken (some x), xs)

  unfoldable pub spec_step : ℕ → List A → Call A → Answer A × List A
  unfolding spec_put spec_take
  spec_step max xs (enqueues m) = spec_put max xs m
  spec_step max xs (tries m) = spec_put max xs m
  spec_step max xs takes = spec_take xs
  spec_step max xs waits = spec_take xs

  unfoldable pub spec_run : ℕ → List A → List (Call A) → List (Answer A) × List A
  spec_run max xs [] = ([], xs)
  spec_run max xs (c ∷ cs) =
      let r = spec_step max xs c in let rest = spec_run max r.1 cs in (r.0 ∷ rest.0, rest.1)

  -- What one call does, next to what it does to the list.
  record Refines (q : MessageQueue A) (c : Call A) : Type 0 where
    answer : (step q c).0 ≡ (spec_step q.config.max_size q.channel c).0
    channel : (step q c).1.channel ≡ (spec_step q.config.max_size q.channel c).1
    config : (step q c).1.config ≡ q.config
    valid : IsValid (step q c).1
    bound : (step q c).1.enqueued_count ≤ q.enqueued_count + 1

  takes-Refines :
      (q : MessageQueue A) (xs : List A)
      → q.channel ≡ xs
      → IsValid q
      → q.dequeued_count + 1 < u64_mod
      → Refines q takes
  unfolding step spec_step try_dequeue add_u64
  takes-Refines q [] e v h = ground arith
  takes-Refines q (x ∷ xs) e v h = ground arith

  waits-Refines :
      (q : MessageQueue A) (xs : List A)
      → q.channel ≡ xs
      → IsValid q
      → q.dequeued_count + 1 < u64_mod
      → Refines q waits
  unfolding step spec_step dequeue add_u64
  waits-Refines q [] e v h = ground arith
  waits-Refines q (x ∷ xs) e v h = ground arith

  step-Refines :
      (q : MessageQueue A) (c : Call A) → IsValid q → q.enqueued_count + 1 < u64_mod → Refines q c
  unfolding step spec_step enqueue try_enqueue add_u64
  step-Refines q (enqueues m) v h = ground (arith, length-append q.channel (m ∷ []))
  step-Refines q (tries m) v h = ground (arith, length-append q.channel (m ∷ []))
  step-Refines q takes v h = takes-Refines q q.channel refl v (omega arith)
  step-Refines q waits v h = waits-Refines q q.channel refl v (omega arith)

  run-spec :
      (q : MessageQueue A) (cs : List (Call A))
      → IsValid q
      → q.enqueued_count + length cs < u64_mod
      → ((run q cs).0 ≡ (spec_run q.config.max_size q.channel cs).0)
        × ((run q cs).1.channel ≡ (spec_run q.config.max_size q.channel cs).1)
        × IsValid (run q cs).1
        × ((run q cs).1.config ≡ q.config)
  unfolding run spec_run
  run-spec q [] v h = (refl, refl, v, refl)
  run-spec q (c ∷ cs) v h =
      let r = step-Refines q c v (omega arith) in
      let (answers, channel, valid, kept) =
        run-spec (step q c).1 cs r.valid (omega (arith, r.bound)) in
      let same =
        ap₂ (λ (n : ℕ) xs. spec_run n xs cs) (ap (λ (k : MessageQueueConfig). k.max_size) r.config)
          r.channel in
      (
        ap₂ (λ x xs. x ∷ xs) r.answer (answers ∙ ap (λ p. p.0) same),
        channel ∙ ap (λ p. p.1) same,
        valid,
        kept ∙ r.config,
      )

  record Start (c : MessageQueueConfig) (q : MessageQueue A) : Type 0 where
    valid : IsValid q
    channel : q.channel ≡ []
    config : q.config ≡ c
    counter : q.enqueued_count ≡ 0

  new_state : (c : MessageQueueConfig) {q : MessageQueue A} → new c ≡ some q → Start c q
  unfolding new
  new_state c e = ground arith

  -- A new queue of capacity at least 1 answers any sequence of fewer than 2 ^ 64 calls of `enqueue`, `try_enqueue`,
  -- `try_dequeue` and `dequeue`, made one after another with none of them busy, like a first-in first-out list of
  -- at most `max_size` messages: a message is accepted exactly when there is room, and messages are taken in
  -- the order in which they were accepted, where a `dequeue` that finds none is left waiting. At the end
  -- `depth` is the number of messages in the queue, and `is_empty` and `is_full` say whether it is 0 or the
  -- capacity.
  pub run_lem :
      (c : MessageQueueConfig) (cs : List (Call A)) {q : MessageQueue A}
      → new c ≡ some q
      → length cs < u64_mod
      → let r = run q cs in
        let spec = spec_run c.max_size [] cs in
        (r.0 ≡ spec.0)
        × (r.1.channel ≡ spec.1)
        × (depth r.1 ≡ length spec.1)
        × (is_empty r.1 ≡ (length spec.1 == 0))
        × (is_full r.1 ≡ (c.max_size == length spec.1))
  unfolding new is_empty is_full depth stats
  run_lem c cs {q} e h =
      let start = new_state c e in
      let (answers, channel, valid, kept) =
        run-spec q cs start.valid (omega (arith, start.counter)) in
      let same =
        ap₂ (λ (n : ℕ) xs. spec_run n xs cs)
          (ap (λ (k : MessageQueueConfig). k.max_size) start.config) start.channel in
      let size = ap length channel in
      let size' = ap (λ (p : List (Answer A) × List A). length p.1) same in
      let cap = ap (λ (k : MessageQueueConfig). k.max_size) (kept ∙ start.config) in
      (
        answers ∙ ap (λ p. p.0) same,
        channel ∙ ap (λ p. p.1) same,
        omega (arith, size, size', valid.counted),
        ground (arith, size, size', valid.counted),
        ground (arith, size, size', valid.permits, cap),
      )
