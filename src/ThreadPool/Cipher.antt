-- ===== src/ThreadPool/Cipher.antt =====
-- The encryption of src/integration/thread_pool.rs undoes itself.
use rust_network_system.Base.{
  ℕ, zero, suc, ◌+◌, ◌*◌, ◌/◌, ◌%◌, ◌^◌, ◌<◌, ◌≡◌, refl, ap, ap₂, List, [], ◌∷◌, arith, All, subst,
}
use rust_network_system.Error.{ok}
use rust_network_system.Message.{Message}
use rust_network_system.ThreadPool.{bit_xor, key_byte, encrypt_from, encryption_processor}
use native.Mathlib.Nat.{pow-suc}

abbrev pub IsByte : ℕ → Type 0
IsByte b = b < 256

abbrev pub IsBytes : Message → Type 0
IsBytes m = All IsByte m.payload

bit_xor-bound : (w a b : ℕ) → bit_xor w a b < 2 ^ w
unfolding bit_xor
bit_xor-bound zero a b = omega arith
bit_xor-bound (suc w) a b = omega (arith, bit_xor-bound w (a / 2) (b / 2), pow-suc 2 w)

bit_xor-bit_xor : (w a b : ℕ) → a < 2 ^ w → bit_xor w (bit_xor w a b) b ≡ a
unfolding bit_xor
bit_xor-bit_xor zero a b h = omega (arith, h)
bit_xor-bit_xor (suc w) a b h =
    let rest = bit_xor w (a / 2) (b / 2) in
    let half : ((a % 2 + b % 2) % 2 + 2 * rest) / 2 ≡ rest = omega arith in
    let back = bit_xor-bit_xor w (a / 2) (b / 2) (omega (arith, h, pow-suc 2 w)) in
    omega (arith, ap (λ (q : ℕ). bit_xor w q (b / 2)) half, back)

encrypt_from-encrypt_from :
    (key : List ℕ) (i : ℕ) (bytes : List ℕ)
    → All IsByte bytes
    → encrypt_from key i (encrypt_from key i bytes) ≡ bytes
unfolding encrypt_from
encrypt_from-encrypt_from key i [] h = refl
encrypt_from-encrypt_from key i (byte ∷ bytes) h =
    ap₂ (◌∷◌) (bit_xor-bit_xor 8 byte (key_byte key i) h.0)
      (encrypt_from-encrypt_from key (suc i) bytes h.1)

encrypt_from-IsBytes :
    (key : List ℕ) (i : ℕ) (bytes : List ℕ) → All IsByte (encrypt_from key i bytes)
unfolding encrypt_from
encrypt_from-IsBytes key i [] = tt
encrypt_from-IsBytes key i (byte ∷ bytes) =
    (bit_xor-bound 8 byte (key_byte key i), encrypt_from-IsBytes key (suc i) bytes)

-- What an encryption with some key succeeds to make of a message is again made of bytes, and a second encryption with the
-- same key gives the message back.
pub encrypt_twice :
    (key : List ℕ) (m m' : Message)
    → IsBytes m
    → encryption_processor key m ≡ ok m'
    → IsBytes m' × (encryption_processor key m' ≡ ok m)
unfolding encryption_processor
encrypt_twice [] m m' h e = absurd (cc)
encrypt_twice (k ∷ key) m m' h e =
    let same : record { payload = encrypt_from (k ∷ key) 0 m.payload } ≡ m' = cc in
    subst (λ x. IsBytes x × (encryption_processor (k ∷ key) x ≡ ok m)) same
      (
        encrypt_from-IsBytes (k ∷ key) 0 m.payload,
        ap (λ (bytes : List ℕ). ok (record { payload = bytes }))
            (encrypt_from-encrypt_from (k ∷ key) 0 m.payload h),
      )
