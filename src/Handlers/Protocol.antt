-- ===== src/Handlers/Protocol.antt =====
-- The order in which the task of a connection of src/core/server.rs calls its handler, and what the metrics of
-- src/integration/monitor.rs and the client's stream have to do with it.
use rust_network_system.Base.{
  ℕ, zero, suc, ◌≡◌, refl, sym, ap, ap₂, ◌∙◌, Option, none, some, List, [], ◌∷◌, ◌++◌, map, ◌⊎◌,
  inl, inr, flatten, append_assoc,
}
use rust_network_system.Error.{Result, ok, err}
use rust_network_system.Message.{Message}
use rust_network_system.Session.{Session, Receipt, receive}
use rust_network_system.Session.Assembly.{ReadEvent}
use rust_network_system.Session.Stream.{receive_times}
use rust_network_system.Server.Sessions.{Served, serve, after_receipt}
use rust_network_system.Handlers.{SessionHandler, handle_receipt, session_loop, session_task}

module _ {A : Type 0} (h : SessionHandler A) (f : Message → List A) (d : List A)
    (message : (s : Session) (m : Message) → h.on_message s m ≡ f m)
    (disconnected : (s : Session) (now : ℕ) → h.on_disconnected s now ≡ d) where
  -- The acts for the messages `ms`, and after them those of the end or nothing.
  abbrev Follows : List A → List Message → Type 0
  Follows acts ms = (e : List A) × (acts ≡ flatten (map f ms) ++ e) × ((e ≡ []) ⊎ (e ≡ d))

  handle_receipt-Follows :
      (now : ℕ) (r : Receipt) (again : Session → List ReadEvent → List A)
      (again' : Session → List ReadEvent → Served)
      → ((s : Session) (reads : List ReadEvent) → Follows (again s reads) (again' s reads).0)
      → Follows (handle_receipt h now r again) (after_receipt r again').0
  unfolding handle_receipt after_receipt
  handle_receipt-Follows now (some (ok m), s, reads) again again' next =
      let (e, acts, last) = next s reads in
      (
        e,
        ap₂ ◌++◌ (message s m) acts
            ∙ sym (append_assoc (f m) (flatten (map f (again' s reads).0)) e),
        last,
      )
  handle_receipt-Follows now (some (err x), s, reads) again again' next =
      (d, disconnected s now, inr refl)
  handle_receipt-Follows now (none, s, reads) again again' next = ([], refl, inl refl)

  pub session_loop-serve :
      (n c : ℕ) (s : Session) (clocks : ℕ → ℕ → ℕ) (reads : List ReadEvent)
      → Follows (session_loop h n c s clocks reads) (serve n c s clocks reads).0
  unfolding session_loop serve
  session_loop-serve zero c s clocks reads = ([], refl, inl refl)
  session_loop-serve (suc n) c s clocks reads =
      handle_receipt-Follows (clocks (suc c) 0) (receive s (clocks c) reads) _ _
        (λ s' reads'. session_loop-serve n (suc c) s' clocks reads')

-- The calls of a handler.
pub data Call : Type 0 where
  on_connected on_disconnected : Call
  on_message : Message → Call

unfoldable pub recorder : SessionHandler Call
recorder = record {
  on_connected = λ s. on_connected ∷ [];
  on_message = λ s m. on_message m ∷ [];
  on_disconnected = λ s now. on_disconnected ∷ [];
}

-- What the results of successive calls of `receive` should make of a handler: a message is passed on, the first error
-- ends the session, and a call that waits for data is the last.
unfoldable pub calls_of : List (Option (Result Message)) → List Call
calls_of [] = []
calls_of (some (ok m) ∷ rs) = on_message m ∷ calls_of rs
calls_of (some (err e) ∷ rs) = on_disconnected ∷ []
calls_of (none ∷ rs) = []

handle_receipt-calls_of :
    (now : ℕ) (r : Receipt) (again : Session → List ReadEvent → List Call)
    (rest : List (Option (Result Message)))
    → again r.1 r.2 ≡ calls_of rest
    → handle_receipt recorder now r again ≡ calls_of (r.0 ∷ rest)
unfolding handle_receipt recorder calls_of
handle_receipt-calls_of now (some (ok m), s, reads) again rest e = ap (◌∷◌ (on_message m)) e
handle_receipt-calls_of now (some (err x), s, reads) again rest e = refl
handle_receipt-calls_of now (none, s, reads) again rest e = refl

session_loop-calls_of :
    (n c : ℕ) (s : Session) (clocks : ℕ → ℕ → ℕ) (reads : List ReadEvent)
    → session_loop recorder n c s clocks reads ≡ calls_of (receive_times n c s clocks reads).0
unfolding session_loop receive_times calls_of
session_loop-calls_of zero c s clocks reads = refl
session_loop-calls_of (suc n) c s clocks reads =
    let r = receive s (clocks c) reads in
    handle_receipt-calls_of (clocks (suc c) 0) r _ _
      (session_loop-calls_of n (suc c) r.1 clocks r.2)

-- Whatever the socket and the clock do, the task of a connection calls `on_connected` first, and then its handler
-- follows the results of the successive calls of `receive`: `on_message` for each message in turn, up to the first
-- result that is not a message; if that is an error, `on_disconnected` is called once and is the last call; if it is
-- a call that waits for data, no other call is made.
pub session_task_lem :
    (n : ℕ) (s : Session) (clocks : ℕ → ℕ → ℕ) (reads : List ReadEvent)
    → session_task recorder n s clocks reads
      ≡ on_connected ∷ calls_of (receive_times n 0 s clocks reads).0
unfolding session_task recorder
session_task_lem n s clocks reads = ap (◌∷◌ on_connected) (session_loop-calls_of n 0 s clocks reads)
