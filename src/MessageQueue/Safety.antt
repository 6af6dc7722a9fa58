-- ===== src/MessageQueue/Safety.antt =====
-- What holds of src/core/message_queue.rs whatever tasks share the queue.
use rust_network_system.Base.{
  ◌+◌, ◌≤◌, ◌<◌, ◌≡◌, ap, ◌∙◌, arith, length, length-append, u64_mod, ◌==◌,
}
use rust_network_system.MessageQueue.{MessageQueueConfig, depth, stats, is_full, is_empty}
use rust_network_system.MessageQueue.System.{System, Reach, Reach-Inv}

module _ {A : Type 0} (c : MessageQueueConfig) {s : System A} where
  -- Before 2 ^ 64 messages were sent, a task that has a permit finds room in the channel: after its
  -- permit `enqueue` never waits, and `try_enqueue` never blocks.
  pub send_has_room :
      Reach c s → length s.sent < u64_mod → 0 < s.holding → length s.channel < s.config.max_size
  send_has_room r b h =
      let v = Reach-Inv c r b in
      omega (arith, v.permits, ap (λ (k : MessageQueueConfig). k.max_size) v.config, h)

  -- Before 2 ^ 64 messages were sent, `depth` is off by the calls in progress only: by at most the receivers that have not counted above,
  -- and by at most the senders that have not counted below.
  pub depth_bounds :
      Reach c s
      → length s.sent < u64_mod
      → (depth s.queue ≤ length s.channel + s.popped)
        × (length s.channel ≤ depth s.queue + s.uncounted)
  unfolding depth stats
  depth_bounds r b =
      let v = Reach-Inv c r b in
      omega
        (arith, v.counted_in, v.counted_out, ap length v.order, length-append s.received s.channel)

  -- In every reachable state of the shared queue, before 2 ^ 64 messages were sent, and when no call is in progress
  -- (no permit is held, and every message that was sent or taken is counted and its permit given back), `depth` is
  -- the number of messages in the channel, `is_full` holds exactly when that is `max_size`, and `is_empty` exactly
  -- when it is zero.
  pub at_rest :
      Reach c s
      → length s.sent < u64_mod
      → s.holding + s.uncounted + s.popped + s.uncredited ≡ 0
      → (depth s.queue ≡ length s.channel)
        × (is_full s.queue ≡ (c.max_size == length s.channel))
        × (is_empty s.queue ≡ (length s.channel == 0))
  unfolding depth stats is_full is_empty
  at_rest r b quiet =
      let v = Reach-Inv c r b in
      let sizes = ap length v.order ∙ length-append s.received s.channel in
      (
        omega (arith, v.counted_in, v.counted_out, sizes),
        ground (arith, v.permits, quiet),
        ground (arith, v.counted_in, v.counted_out, sizes, quiet),
      )
