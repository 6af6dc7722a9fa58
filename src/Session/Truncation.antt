-- ===== src/Session/Truncation.antt =====
-- `send` of src/session/mod.rs after a write that timed out: what the peer then reads.
use rust_network_system.Base.{
  ℕ, zero, suc, ◌+◌, ◌-◌, ◌≤◌, ◌<◌, ◌≡◌, sym, ap, ◌∙◌, true, false, some, List, ◌++◌, append_assoc,
  arith, length, take, drop, length-append, length-take, take-append-drop,
}
use rust_network_system.Error.{ok, err, timeout}
use rust_network_system.Message.{Message, put_u32, size, max_message_size, encode, decode}
use rust_network_system.Message.Codec.{wire, encode_ok, decode-wire, length-wire}
use rust_network_system.Session.{Session, written, write_timed_out, is_idle, write, send}

-- The message that is read from `n` bytes of the frame of `m` with the frame `w` behind them.
unfoldable pub mixed : Message → ℕ → List ℕ → Message
mixed m n w = record { payload = take (n - 4) m.payload ++ take (4 + size m - n) w }

take-wire :
    (m : Message) (n : ℕ)
    → 4 ≤ n
    → take n (wire m) ≡ put_u32 (length m.payload) ++ take (n - 4) m.payload
unfolding put_u32
take-wire m (suc (suc (suc (suc n)))) h =
    ap (λ (k : ℕ). put_u32 (length m.payload) ++ take k m.payload) (omega arith)
take-wire m zero h = absurd (omega arith)
take-wire m (suc zero) h = absurd (omega arith)
take-wire m (suc (suc zero)) h = absurd (omega arith)
take-wire m (suc (suc (suc zero))) h = absurd (omega arith)

length-mixed :
    (m : Message) (n : ℕ) (w : List ℕ)
    → 4 ≤ n
    → n < 4 + size m
    → 4 + size m ≤ n + length w
    → length (mixed m n w).payload ≡ length m.payload
unfolding mixed size
length-mixed m n w h k l = omega (
  arith,
  length-append (take (n - 4) m.payload) (take (4 + length m.payload - n) w),
  length-take (n - 4) m.payload,
  length-take (4 + length m.payload - n) w,
)

pub decode-mixed :
    (m : Message) (n : ℕ) (w : List ℕ)
    → size m ≤ max_message_size
    → 4 ≤ n
    → n < 4 + size m
    → 4 + size m ≤ n + length w
    → decode (take n (wire m) ++ w) ≡ (ok (some (mixed m n w)), drop (4 + size m - n) w)
unfolding mixed
decode-mixed m n w fits h k l =
    let same = length-mixed m n w h k l in
    ap decode (shape same) ∙ decode-wire (mixed m n w) _ (unfold size in omega (arith, same, fits))
  where
    a : List ℕ
    a = take (n - 4) m.payload

    b : List ℕ
    b = take (4 + size m - n) w

    c : List ℕ
    c = drop (4 + size m - n) w

    shape :
        length (mixed m n w).payload ≡ length m.payload
        → take n (wire m) ++ w ≡ wire (mixed m n w) ++ c
    shape same =
        ap (λ (x : List ℕ). x ++ w) (take-wire m n h)
        ∙ append_assoc (put_u32 (length m.payload)) a w
        ∙ ap (λ (x : List ℕ). put_u32 (length m.payload) ++ (a ++ x))
            (sym (take-append-drop (4 + size m - n) w))
        ∙ ap (λ (x : List ℕ). put_u32 (length m.payload) ++ x) (sym (append_assoc a b c))
        ∙ ap (λ (k : ℕ). put_u32 k ++ ((a ++ b) ++ c)) (sym same)
        ∙ sym (append_assoc (put_u32 (length (a ++ b))) (a ++ b) c)

-- Let an active session with its write half send two messages that both encode, neither when it is idle. Let the write of the
-- first time out after at least the four bytes of its length and before the end of its frame, and let the frame of
-- the second be at least as long as the bytes that are missing. Then the first `send` reports the timeout and
-- the second reports success, and the peer, which still waits for the rest of the first frame, takes the
-- missing bytes from the second frame and reads a message that mixes the two.
pub send_after_timeout :
    (s : Session) (m m₂ : Message) (now now₂ : ℕ → ℕ) (n : ℕ) {w w₂ : List ℕ}
    → s.is_active ≡ true
    → s.write_half ≡ true
    → is_idle s (now 0) ≡ false
    → is_idle s (now₂ 0) ≡ false
    → encode m ≡ ok w
    → encode m₂ ≡ ok w₂
    → 4 ≤ n
    → n < length w
    → length w ≤ n + length w₂
    → let first = send s m now (write_timed_out n) in
      let second = send first.1 m₂ now₂ written in
      (first.0 ≡ err (timeout "Write timed out"))
      × (second.0 ≡ ok tt)
      × (decode (first.2 ++ second.2) ≡ (ok (some (mixed m n w₂)), drop (length w - n) w₂))
unfolding send write
send_after_timeout s m m₂ now now₂ n {w} {w₂} on half fresh fresh₂ e e₂ h k l =
    let (fits, same) = encode_ok m e in
    let sized : length w ≡ 4 + size m = ap length same ∙ length-wire m in
    ground (
      arith,
      ap (take n) same,
      decode-mixed m n w₂ fits h (omega arith) (omega arith),
      ap (λ (j : ℕ). drop (j - n) w₂) sized,
    )
