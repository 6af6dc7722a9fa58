-- ===== src/MessageQueue.antt =====
-- src/core/message_queue.rs: a bounded queue of outbound messages.
-- The channel is a list, oldest first; the semaphore is the number of its free permits. Nothing
-- closes either, so the errors for a closed channel or semaphore cannot arise. The functions here run
-- a method with no other task in between; `MessageQueue/System.antt` has the interleavings.
pub mod Sequential
pub mod System
pub mod Safety
use rust_network_system.Base.{
  ℕ, ◌+◌, ◌-◌, ◌*◌, ◌^◌, Bool, true, false, Option, none, some, List, [], ◌∷◌, ◌++◌, ◌==◌,
  if◌then◌else◌, add_u64,
}
use rust_network_system.Error.{Result, ok, err, timeout, other}

pub record MessageQueueConfig : Type 0 where
  pub max_size : ℕ
  pub enqueue_timeout : ℕ
  pub drop_on_full : Bool

unfoldable pub default_config : MessageQueueConfig
default_config = record { max_size = 1000; enqueue_timeout = 5 * 10 ^ 9; drop_on_full = false }

unfoldable pub with_max_size : MessageQueueConfig → ℕ → MessageQueueConfig
with_max_size c size = record c { max_size = size }

unfoldable pub with_enqueue_timeout : MessageQueueConfig → ℕ → MessageQueueConfig
with_enqueue_timeout c limit = record c { enqueue_timeout = limit }

unfoldable pub with_drop_on_full : MessageQueueConfig → Bool → MessageQueueConfig
with_drop_on_full c drop = record c { drop_on_full = drop }

pub record MessageQueue {ℓ} (A : Type ℓ) : Type ℓ where
  pub config : MessageQueueConfig
  pub channel : List A
  pub permits : ℕ
  pub enqueued_count : ℕ
  pub dequeued_count : ℕ
  pub dropped_count : ℕ

pub record MessageQueueStats : Type 0 where
  pub depth : ℕ
  pub max_size : ℕ
  pub enqueued : ℕ
  pub dequeued : ℕ
  pub dropped : ℕ

module _ {ℓ} {A : Type ℓ} where
  -- `none` is the panic of `mpsc::channel` at capacity 0.
  unfoldable pub new : MessageQueueConfig → Option (MessageQueue A)
  new c =
      if c.max_size == 0
      then none
      else some (record {
        config = c;
        channel = [];
        permits = c.max_size;
        enqueued_count = 0;
        dequeued_count = 0;
        dropped_count = 0;
      })

  -- A permit is taken, or the count of the drops goes up.
  unfoldable pub take_permit : MessageQueue A → MessageQueue A
  take_permit q = record q { permits = q.permits - 1 }

  unfoldable pub count_drop : MessageQueue A → MessageQueue A
  count_drop q = record q { dropped_count = add_u64 q.dropped_count 1 }

  -- What both ways to enqueue do with the permit in hand: send, count, and forget the permit.
  unfoldable pub send_permitted : MessageQueue A → A → MessageQueue A
  send_permitted q m = record q {
    channel = q.channel ++ (m ∷ []);
    enqueued_count = add_u64 q.enqueued_count 1;
  }

  unfoldable pub enqueue : MessageQueue A → A → Result (Unit {0}) × MessageQueue A
  unfolding take_permit count_drop send_permitted
  enqueue q m =
      if q.permits == 0
      then (if q.config.drop_on_full
          then (err (other "Message queue full, message dropped"), count_drop q)
          else (err (timeout "Enqueue timeout: queue full"), q))
      else (ok tt, send_permitted (take_permit q) m)

  unfoldable pub try_enqueue : MessageQueue A → A → Result (Unit {0}) × MessageQueue A
  unfolding take_permit count_drop send_permitted
  try_enqueue q m =
      if q.permits == 0
      then (err (other "Message queue full"), count_drop q)
      else (ok tt, send_permitted (take_permit q) m)

  -- After a message was received: count it, and give a permit back.
  unfoldable pub release : MessageQueue A → List A → MessageQueue A
  release q rest = record q {
    channel = rest;
    dequeued_count = add_u64 q.dequeued_count 1;
    permits = q.permits + 1;
  }

  receive_from : MessageQueue A → List A → Option A × MessageQueue A
  receive_from q [] = (none, q)
  receive_from q (m ∷ rest) = (some m, release q rest)

  -- `none`: the call waits for a message.
  unfoldable pub dequeue : MessageQueue A → Option A × MessageQueue A
  unfolding receive_from release
  dequeue q = receive_from q q.channel

  -- `busy`: another task holds the lock on the receiver.
  unfoldable pub try_dequeue : MessageQueue A → Bool → Option A × MessageQueue A
  unfolding receive_from release
  try_dequeue q busy = if busy then (none, q) else receive_from q q.channel

  unfoldable pub stats : MessageQueue A → MessageQueueStats
  stats q = record {
    depth = q.enqueued_count - q.dequeued_count;
    max_size = q.config.max_size;
    enqueued = q.enqueued_count;
    dequeued = q.dequeued_count;
    dropped = q.dropped_count;
  }

  unfoldable pub is_empty : MessageQueue A → Bool
  unfolding stats
  is_empty q = (stats q).depth == 0

  unfoldable pub is_full : MessageQueue A → Bool
  is_full q = q.permits == 0

  unfoldable pub depth : MessageQueue A → ℕ
  unfolding stats
  depth q = (stats q).depth
