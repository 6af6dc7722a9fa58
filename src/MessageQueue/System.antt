-- ===== src/MessageQueue/System.antt =====
-- Tasks that share a queue of src/core/message_queue.rs, interleaved between any two accesses to the
-- channel, the semaphore and the counters.
use rust_network_system.Base.{
  ℕ, ◌+◌, ◌-◌, ◌≤◌, ◌<◌, ◌≡◌, sym, ap, ◌∙◌, List, [], ◌∷◌, ◌++◌, append_assoc, arith, length,
  length-append, u64_mod, add_u64, some,
}
use rust_network_system.MessageQueue.{MessageQueue, MessageQueueConfig, new, count_drop}

-- `holding` tasks have a permit and have not sent; `uncounted` have sent and have not counted it.
-- `popped` tasks have received and have not counted it; `uncredited` have not given the permit back.
-- `sent` and `received` are the messages that went through the channel, in order.
pub record System (A : Type 0) : Type 0 where
  pub queue : MessageQueue A
  pub open queue use *
  pub holding : ℕ
  pub uncounted : ℕ
  pub popped : ℕ
  pub uncredited : ℕ
  pub sent : List A
  pub received : List A

unfoldable pub start : {A : Type 0} → MessageQueue A → System A
start q = record {
  queue = q;
  holding = 0;
  uncounted = 0;
  popped = 0;
  uncredited = 0;
  sent = [];
  received = [];
}

-- One access of one task. `enqueue` and `try_enqueue` acquire or refuse, send, and count; the permit is
-- forgotten, so no step gives it back. `enqueue` may be cancelled while it waits to send, which gives the
-- permit back. `dequeue` and `try_dequeue` receive, count, and credit the semaphore.
pub data Step {A : Type 0} : System A → System A → Type 0 where
  acquire :
      (s : System A)
      → 0 < s.permits
      → Step s
          (record s { queue = record s.queue { permits = s.permits - 1 }; holding = s.holding + 1 })
  refuse : (s : System A) → s.permits ≡ 0 → Step s (record s { queue = count_drop s.queue })
  cancel :
      (s : System A)
      → 0 < s.holding
      → Step s
          (record s { queue = record s.queue { permits = s.permits + 1 }; holding = s.holding - 1 })
  send :
      (s : System A) (m : A)
      → 0 < s.holding
      → length s.channel < s.config.max_size
      → Step s (record s {
        queue = record s.queue { channel = s.channel ++ (m ∷ []) };
        holding = s.holding - 1;
        uncounted = s.uncounted + 1;
        sent = s.sent ++ (m ∷ []);
      })
  count :
      (s : System A)
      → 0 < s.uncounted
      → Step s (record s {
        queue = record s.queue { enqueued_count = add_u64 s.enqueued_count 1 };
        uncounted = s.uncounted - 1;
      })
  receive :
      (s : System A) (m : A) (rest : List A)
      → s.channel ≡ m ∷ rest
      → Step s (record s {
        queue = record s.queue { channel = rest };
        popped = s.popped + 1;
        received = s.received ++ (m ∷ []);
      })
  count_out :
      (s : System A)
      → 0 < s.popped
      → Step s (record s {
        queue = record s.queue { dequeued_count = add_u64 s.dequeued_count 1 };
        popped = s.popped - 1;
        uncredited = s.uncredited + 1;
      })
  credit :
      (s : System A)
      → 0 < s.uncredited
      → Step s (record s {
        queue = record s.queue { permits = s.permits + 1 };
        uncredited = s.uncredited - 1;
      })

pub data Reach {A : Type 0} (c : MessageQueueConfig) : System A → Type 0 where
  here : (q : MessageQueue A) → new c ≡ some q → Reach c (start q)
  next : {s t : System A} → Reach c s → Step s t → Reach c t

-- Every permit is free, held, or stands for a message on its way; nothing is lost, made up or
-- reordered; and the counters lag behind by the tasks that have yet to count.
pub record Inv {A : Type 0} (c : MessageQueueConfig) (s : System A) : Type 0 where
  pub config : s.config ≡ c
  pub permits : s.permits + s.holding + length s.channel + s.popped + s.uncredited ≡ c.max_size
  pub order : s.sent ≡ s.received ++ s.channel
  pub counted_in : s.enqueued_count + s.uncounted ≡ length s.sent
  pub counted_out : s.dequeued_count + s.popped ≡ length s.received

module _ {A : Type 0} (c : MessageQueueConfig) where
  start-Inv : {q : MessageQueue A} → new c ≡ some q → Inv c (start q)
  unfolding new start
  start-Inv e = ground arith

  -- The count of what was sent never falls.
  sent_grows : {s t : System A} → Step s t → length s.sent ≤ length t.sent
  sent_grows (acquire s h) = omega arith
  sent_grows (refuse s h) = omega arith
  sent_grows (cancel s h) = omega arith
  sent_grows (send s m h k) = omega (arith, length-append s.sent (m ∷ []))
  sent_grows (count s h) = omega arith
  sent_grows (receive s m rest e) = omega arith
  sent_grows (count_out s h) = omega arith
  sent_grows (credit s h) = omega arith

  Step-Inv : {s t : System A} → Step s t → length t.sent < u64_mod → Inv c s → Inv c t
  unfolding count_drop add_u64
  Step-Inv (acquire s h) b v = ground arith
  Step-Inv (refuse s h) b v = ground arith
  Step-Inv (cancel s h) b v = ground arith
  Step-Inv (send s m h k) b v = record {
    config = v.config;
    permits = omega (arith, v.permits, length-append s.channel (m ∷ []));
    order = ap (λ (l : List A). l ++ (m ∷ [])) v.order ∙ append_assoc s.received s.channel (m ∷ []);
    counted_in = omega (arith, v.counted_in, length-append s.sent (m ∷ []));
    counted_out = v.counted_out;
  }
  Step-Inv (count s h) b v = ground arith
  Step-Inv (receive s m rest e) b v = record {
    config = v.config;
    permits = omega (arith, v.permits, ap length e);
    order =
        v.order
        ∙ ap (λ (l : List A). s.received ++ l) e
        ∙ sym (append_assoc s.received (m ∷ []) rest);
    counted_in = v.counted_in;
    counted_out = omega (arith, v.counted_out, length-append s.received (m ∷ []));
  }
  Step-Inv (count_out s h) b v =
      ground (arith, ap length v.order, length-append s.received s.channel)
  Step-Inv (credit s h) b v = ground arith

  -- The invariant holds in every reachable state with fewer than 2^64 messages sent.
  pub Reach-Inv : {s : System A} → Reach c s → length s.sent < u64_mod → Inv c s
  Reach-Inv (here q e) b = start-Inv e
  Reach-Inv (next r st) b = Step-Inv st b (Reach-Inv r (omega (arith, sent_grows st)))
