-- ===== src/Handlers/Transparency.antt =====
-- The wrappers of src/integration/logger.rs, src/integration/monitor.rs and src/integration/thread_pool.rs do
-- nothing to what the handler inside them does.
use rust_network_system.Base.{
  ℕ, zero, suc, ◌≡◌, refl, ap, ap₂, ◌∙◌, none, some, List, [], ◌∷◌, ◌++◌, map, ◌⊎◌, inl, inr,
  append-nil,
}
use rust_network_system.Error.{ok, err}
use rust_network_system.Monitor
use rust_network_system.Monitor.{MetricCall}
use rust_network_system.Message.{Message, size}
use rust_network_system.Session.{Session, Receipt, receive, uptime}
use rust_network_system.Session.Assembly.{ReadEvent}
use rust_network_system.ThreadPool.{completed, identity_processor, on_message}
use rust_network_system.Handlers.{
  LogLine, SessionHandler, default_session_handler, wrap, monitoring, with_pool, handle_receipt,
  session_loop, session_task,
}

module _ {A B : Type 0} where
  -- The acts of the inner handler among those of a wrapper, in order.
  abbrev pub inner_acts : List (B ⊎ A) → List A
  inner_acts [] = []
  inner_acts (inl b ∷ acts) = inner_acts acts
  inner_acts (inr a ∷ acts) = a ∷ inner_acts acts

  abbrev pub own_acts : List (B ⊎ A) → List B
  own_acts [] = []
  own_acts (inl b ∷ acts) = b ∷ own_acts acts
  own_acts (inr a ∷ acts) = own_acts acts

  pub inner_acts-append :
      (xs ys : List (B ⊎ A)) → inner_acts (xs ++ ys) ≡ inner_acts xs ++ inner_acts ys
  inner_acts-append [] ys = refl
  inner_acts-append (inl b ∷ xs) ys = inner_acts-append xs ys
  inner_acts-append (inr a ∷ xs) ys = ap (◌∷◌ a) (inner_acts-append xs ys)

  pub own_acts-append : (xs ys : List (B ⊎ A)) → own_acts (xs ++ ys) ≡ own_acts xs ++ own_acts ys
  own_acts-append [] ys = refl
  own_acts-append (inl b ∷ xs) ys = ap (◌∷◌ b) (own_acts-append xs ys)
  own_acts-append (inr a ∷ xs) ys = own_acts-append xs ys

inner_acts-inr :
    {A : Type 0} (B : Type 0) (xs : List A) → inner_acts {A = A} {B = B} (map inr xs) ≡ xs
inner_acts-inr B [] = refl
inner_acts-inr B (x ∷ xs) = ap (◌∷◌ x) (inner_acts-inr B xs)

pub own_acts-inr :
    {A : Type 0} (B : Type 0) (xs : List A) → own_acts {A = A} {B = B} (map inr xs) ≡ []
own_acts-inr B [] = refl
own_acts-inr B (x ∷ xs) = own_acts-inr B xs

-- What one sees of the acts of a handler: a part that the concatenation of lists keeps apart.
pub record View (A B : Type 0) : Type 0 where
  pub see : List B → List A
  pub see_none : see [] ≡ []
  pub see_append : (xs ys : List B) → see (xs ++ ys) ≡ see xs ++ see ys

abbrev pub inner_view : {A B : Type 0} → View A (B ⊎ A)
inner_view = record { see = inner_acts; see_none = refl; see_append = inner_acts-append }

abbrev pub own_view : {A B : Type 0} → View B (B ⊎ A)
own_view = record { see = own_acts; see_none = refl; see_append = own_acts-append }

abbrev pub whole_view : {A : Type 0} → View A A
whole_view = record { see = λ xs. xs; see_none = refl; see_append = λ xs ys. refl }

-- What one sees of each call of the one handler is that call of the other.
pub record Looks {A B : Type 0} (v : View A B) (g : SessionHandler B) (h : SessionHandler A)
    : Type 0 where
  pub connected : (s : Session) → v.see (g.on_connected s) ≡ h.on_connected s
  pub message : (s : Session) (m : Message) → v.see (g.on_message s m) ≡ h.on_message s m
  pub disconnected :
      (s : Session) (now : ℕ) → v.see (g.on_disconnected s now) ≡ h.on_disconnected s now

module _ {A B : Type 0} (v : View A B) (g : SessionHandler B) (h : SessionHandler A)
    (l : Looks v g h) where
  see-handle_receipt :
      (now : ℕ) (r : Receipt) (again : Session → List ReadEvent → List B)
      (again' : Session → List ReadEvent → List A)
      → ((s : Session) (reads : List ReadEvent) → v.see (again s reads) ≡ again' s reads)
      → v.see (handle_receipt g now r again) ≡ handle_receipt h now r again'
  unfolding handle_receipt
  see-handle_receipt now (some (ok m), s, reads) again again' e =
      v.see_append (g.on_message s m) (again s reads) ∙ ap₂ ◌++◌ (l.message s m) (e s reads)
  see-handle_receipt now (some (err x), s, reads) again again' e = l.disconnected s now
  see-handle_receipt now (none, s, reads) again again' e = v.see_none

  see-session_loop :
      (n c : ℕ) (s : Session) (clocks : ℕ → ℕ → ℕ) (reads : List ReadEvent)
      → v.see (session_loop g n c s clocks reads) ≡ session_loop h n c s clocks reads
  unfolding session_loop
  see-session_loop zero c s clocks reads = v.see_none
  see-session_loop (suc n) c s clocks reads =
      see-handle_receipt (clocks (suc c) 0) (receive s (clocks c) reads) _ _
        (λ s' reads'. see-session_loop n (suc c) s' clocks reads')

  pub see-session_task :
      (n : ℕ) (s : Session) (clocks : ℕ → ℕ → ℕ) (reads : List ReadEvent)
      → v.see (session_task g n s clocks reads) ≡ session_task h n s clocks reads
  unfolding session_task
  see-session_task n s clocks reads =
      v.see_append (g.on_connected s) (session_loop g n 0 s clocks reads)
      ∙ ap₂ ◌++◌ (l.connected s) (see-session_loop n 0 s clocks reads)

module _ {A : Type 0} (h : SessionHandler A) where
  wrap-Looks : Looks inner_view (wrap h) h
  unfolding wrap
  wrap-Looks = record {
    connected = λ s. inner_acts-inr LogLine (h.on_connected s);
    message = λ s m. inner_acts-inr LogLine (h.on_message s m);
    disconnected = λ s now. inner_acts-inr LogLine (h.on_disconnected s now);
  }

  log-Looks : Looks own_view (wrap h) default_session_handler
  unfolding wrap default_session_handler
  log-Looks = record {
    connected = λ s.
        ap (◌∷◌ (LogLine.connected s.id s.peer_addr)) (own_acts-inr LogLine (h.on_connected s));
    message =
        λ s m. ap (◌∷◌ (LogLine.received s.id (size m))) (own_acts-inr LogLine (h.on_message s m));
    disconnected = λ s now.
        ap (◌∷◌ (LogLine.disconnected s.id (uptime s now)))
          (own_acts-inr LogLine (h.on_disconnected s now));
  }

  monitoring-Looks : Looks inner_view (monitoring h) h
  unfolding monitoring Monitor.on_connected Monitor.on_message Monitor.on_disconnected
  monitoring-Looks = record {
    connected = λ s. inner_acts-inr MetricCall (h.on_connected s);
    message = λ s m. inner_acts-inr MetricCall (h.on_message s m);
    disconnected = λ s now. inner_acts-inr MetricCall (h.on_disconnected s now);
  }

  with_pool-Looks : Looks whole_view (with_pool identity_processor (λ m. completed) h) h
  unfolding with_pool on_message identity_processor
  with_pool-Looks = record {
    connected = λ s. refl;
    message = λ s m. append-nil (h.on_message s m);
    disconnected = λ s now. refl;
  }

  -- For every handler, session, clock and sequence of reads, a handler that logs, one that counts, and one that runs the
  -- identity processor on a pool that finishes every job leave what the handler inside them does
  -- over the whole connection as it is without them. The log lines of the first are those that
  -- the default handler writes.
  pub wrapped_task :
      (n : ℕ) (s : Session) (clocks : ℕ → ℕ → ℕ) (reads : List ReadEvent)
      → let plain = session_task h n s clocks reads in
        let logged = session_task (wrap h) n s clocks reads in
        (inner_acts logged ≡ plain)
        × (own_acts logged ≡ session_task default_session_handler n s clocks reads)
        × (inner_acts (session_task (monitoring h) n s clocks reads) ≡ plain)
        × (session_task (with_pool identity_processor (λ m. completed) h) n s clocks reads ≡ plain)
  wrapped_task n s clocks reads = (
    see-session_task inner_view (wrap h) h wrap-Looks n s clocks reads,
    see-session_task own_view (wrap h) default_session_handler log-Looks n s clocks reads,
    see-session_task inner_view (monitoring h) h monitoring-Looks n s clocks reads,
    see-session_task whole_view (with_pool identity_processor (λ m. completed) h) h with_pool-Looks
        n s clocks reads,
  )
