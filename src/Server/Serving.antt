-- ===== src/Server/Serving.antt =====
-- The session loop of src/core/server.rs on the session that the task of a connection opens: what the handler gets
-- of the bytes that a peer sends.
use rust_network_system.Base.{
  ℕ, zero, suc, ◌*◌, ◌≤◌, ◌≡◌, refl, ap, sym, ◌∙◌, none, List, [], ◌∷◌, ◌++◌, map, arith, length,
  append-nil, length-append, All, flatten,
}
use rust_network_system.Error.{ok}
use rust_network_system.Message.{Message}
use rust_network_system.Message.Stream.{encode_all, encode_all_ok, Fits, wires}
use rust_network_system.Session.{Session, Receipt, receive}
use rust_network_system.Session.Assembly.{ReadEvent, bytes}
use rust_network_system.Session.Delivery.{NonEmpty}
use rust_network_system.Session.Stream.{Within, Ready, receive_quiet, receive-Next}
use rust_network_system.Server.{ServerConfig}
use rust_network_system.Server.Sessions.{
  Served, serve, after_receipt, after_receipt_ok, open_session,
}

open_session-Ready :
    (g : ServerConfig) (id peer_addr now d : ℕ)
    → d ≤ g.idle_timeout
    → d ≤ g.read_timeout * 3
    → Ready now d (open_session g id peer_addr now)
unfolding open_session
open_session-Ready g id peer_addr now d patient unhurried = record {
  active = refl;
  open_half = refl;
  recent = omega arith;
  patient = patient;
  unhurried = unhurried;
}

after_receipt-none :
    (r : Receipt) (again : Session → List ReadEvent → Served)
    → r.0 ≡ none
    → (after_receipt r again).0 ≡ []
unfolding after_receipt
after_receipt-none (x, s, reads) again e = rw (e, after_receipt) refl

serve_quiet :
    (t d : ℕ) (clocks : ℕ → ℕ → ℕ)
    → ((c : ℕ) → Within t d (clocks c))
    → (n c : ℕ) (s : Session) (chunks : List (List ℕ)) → Ready t d s
    → All NonEmpty chunks
    → [] ≡ s.read_buffer ++ flatten chunks
    → (serve n c s clocks (map bytes chunks)).0 ≡ []
unfolding serve
serve_quiet t d clocks within zero c s chunks ready ne e = refl
serve_quiet t d clocks within (suc n) c s [] ready ne e =
    after_receipt-none _ _
      (receive_quiet t d s (clocks c) ready (within c) (sym (append-nil s.read_buffer) ∙ sym e))
serve_quiet t d clocks within (suc n) c s ([] ∷ chunks) ready ne e = absurd (ne.0 refl)
serve_quiet t d clocks within (suc n) c s ((y ∷ l) ∷ chunks) ready ne e =
    absurd (omega (arith, ap length e, length-append s.read_buffer (y ∷ (l ++ flatten chunks))))

serve-wires :
    (t d : ℕ) (clocks : ℕ → ℕ → ℕ)
    → ((c : ℕ) → Within t d (clocks c))
    → (ms : List Message) (n c : ℕ) (s : Session) (chunks : List (List ℕ)) → Ready t d s
    → All Fits ms
    → All NonEmpty chunks
    → length ms ≤ n
    → wires ms ≡ s.read_buffer ++ flatten chunks
    → (serve n c s clocks (map bytes chunks)).0 ≡ ms
unfolding serve
serve-wires t d clocks within [] n c s chunks ready fits ne enough e =
    serve_quiet t d clocks within n c s chunks ready ne e
serve-wires t d clocks within (m ∷ ms) zero c s chunks ready fits ne enough e =
    absurd (omega (arith, enough))
serve-wires t d clocks within (m ∷ ms) (suc n) c s chunks ready fits ne enough e =
    let got = receive-Next t d s (clocks c) chunks m (wires ms) ready (within c) fits.0 ne e in
    let r = receive s (clocks c) (map bytes chunks) in
    after_receipt_ok r (λ s' reads'. serve n (suc c) s' clocks reads') m got.result
    ∙ ap (◌∷◌ m) (
        ap (λ reads. (serve n (suc c) r.1 clocks reads).0) got.unread
        ∙ serve-wires t d clocks within ms n (suc c) r.1 got.chunks got.ready fits.1 got.non_empty
            (omega (arith, enough)) (sym got.left))

-- A server that opens a session with the timeouts of its configuration, and whose clock stays within `d`
-- nanoseconds from then on, neither more than the idle timeout nor than three times the read timeout,
-- serves exactly the messages whose frames arrive, in order and no others, however the
-- network cuts the bytes into non-empty chunks, as soon as it has made one call of `receive` for each.
pub serve-open_session :
    (g : ServerConfig) (id peer_addr at d : ℕ) (clocks : ℕ → ℕ → ℕ) (ms : List Message) (n : ℕ)
    (chunks : List (List ℕ)) {w : List ℕ}
    → d ≤ g.idle_timeout
    → d ≤ g.read_timeout * 3
    → ((c : ℕ) → Within at d (clocks c))
    → encode_all ms ≡ ok w
    → All NonEmpty chunks
    → flatten chunks ≡ w
    → length ms ≤ n
    → (serve n 0 (open_session g id peer_addr at) clocks (map bytes chunks)).0 ≡ ms
unfolding open_session
serve-open_session g id peer_addr at d clocks ms n chunks patient unhurried within sent ne e
      enough =
    let (fits, same) = encode_all_ok ms sent in
    serve-wires at d clocks within ms n 0 (open_session g id peer_addr at) chunks
      (open_session-Ready g id peer_addr at d patient unhurried) fits ne enough (sym same ∙ sym e)
