-- ===== src/Tests/QueueRuns.antt =====
-- src/core/message_queue.rs with a capacity of two.
use rust_network_system.Base.{
  ℕ, ◌<◌, ◌≡◌, refl, List, [], ◌∷◌, some, arith, true, length, ◌==◌, add_u64,
}
use rust_network_system.MessageQueue.{
  MessageQueueConfig, MessageQueue, new, depth, is_empty, is_full,
}
use rust_network_system.MessageQueue.Sequential.{
  Call, accepted, refused, taken, run, spec_run, spec_step, run_lem,
}
use rust_network_system.MessageQueue.System.{System, Step, Reach, here, next, start}
use rust_network_system.MessageQueue.Safety

abbrev config : MessageQueueConfig
config = record { max_size = 2; enqueue_timeout = 5; drop_on_full = true }

abbrev fresh : MessageQueue ℕ
fresh = record {
  config = config;
  channel = [];
  permits = 2;
  enqueued_count = 0;
  dequeued_count = 0;
  dropped_count = 0;
}

new-fresh : new config ≡ some fresh
unfolding new
new-fresh = refl

abbrev calls : List (Call ℕ)
calls =
    Call.enqueues 7 ∷ Call.tries 8 ∷ Call.enqueues 9 ∷ Call.takes ∷ Call.tries 10 ∷ Call.waits ∷ []

spec_calls :
    spec_run 2 [] calls
    ≡ (accepted ∷ accepted ∷ refused ∷ taken (some 7) ∷ accepted ∷ taken (some 8) ∷ [], 10 ∷ [])
unfolding spec_run spec_step
spec_calls = refl

run_lem_example :
    let r = run fresh calls in
    let spec = spec_run 2 [] calls in
    (r.0 ≡ spec.0)
    × (r.1.channel ≡ spec.1)
    × (depth r.1 ≡ length spec.1)
    × (is_empty r.1 ≡ (length spec.1 == 0))
    × (is_full r.1 ≡ (2 == length spec.1))
run_lem_example = run_lem config calls new-fresh (omega arith)

-- One task has sent 7 and has yet to count it; another has a permit for its message.
abbrev in_progress : System ℕ
in_progress = record {
  queue = record fresh { channel = 7 ∷ []; permits = 0 };
  holding = 1;
  uncounted = 1;
  popped = 0;
  uncredited = 0;
  sent = 7 ∷ [];
  received = [];
}

in_progress-Reach : Reach config in_progress
unfolding start
in_progress-Reach =
    next
      (next (next (here fresh new-fresh) (Step.acquire (start fresh) (omega arith)))
        (Step.send _ 7 (omega arith) (omega arith)))
      (Step.acquire _ (omega arith))

send_has_room_example : length in_progress.queue.channel < in_progress.queue.config.max_size
send_has_room_example = Safety.send_has_room config in_progress-Reach (omega arith) (omega arith)

-- Both messages counted, and one taken out again.
abbrev settled : System ℕ
settled = record {
  queue = record fresh { channel = 8 ∷ []; permits = 1; enqueued_count = 2; dequeued_count = 1 };
  holding = 0;
  uncounted = 0;
  popped = 0;
  uncredited = 0;
  sent = 7 ∷ 8 ∷ [];
  received = 7 ∷ [];
}

settled-Reach : Reach config settled
unfolding add_u64
settled-Reach =
    next
      (next
        (next
          (next
            (next (next in_progress-Reach (Step.send _ 8 (omega arith) (omega arith)))
              (Step.count _ (omega arith)))
            (Step.receive _ 7 (8 ∷ []) refl))
          (Step.count _ (omega arith)))
        (Step.count_out _ (omega arith)))
      (Step.credit _ (omega arith))

at_rest_example :
    (depth settled.queue ≡ length settled.queue.channel)
    × (is_full settled.queue ≡ (2 == length settled.queue.channel))
    × (is_empty settled.queue ≡ (length settled.queue.channel == 0))
at_rest_example = Safety.at_rest config settled-Reach (omega arith) (omega arith)
