-- ===== src/Tls/Fingerprint.antt =====
-- What the fingerprints of src/tls/config.rs write: a reader of them, against what `add_fingerprint` keeps.
use rust_network_system.Base.{
  ℕ, ◌+◌, ◌-◌, ◌*◌, ◌/◌, ◌%◌, ◌<◌, ◌≡◌, refl, sym, ap, ap₂, ◌∙◌, inl, inr, ◌&&◌, Option, none, some,
  List, [], ◌∷◌, ◌==◌, if◌then◌else◌, leb, arith, All, Bool-cases, drop,
}
use rust_network_system.Hex.{Text, hex, digit}
use rust_network_system.Tls.{without_colons, upper_ascii, to_uppercase, hex_bytes}

-- The number that a character stands for as a hexadecimal digit, in either case.
unfoldable pub nibble : ℕ → Option ℕ
nibble c =
    if leb 48 c && leb c 57
    then some (c - 48)
    else if leb 65 c && leb c 70
    then some (c - 55)
    else if leb 97 c && leb c 102
    then some (c - 87)
    else none

joined : Option ℕ → Option ℕ → Option (List ℕ) → Option (List ℕ)
joined (some a) (some b) (some bytes) = some ((16 * a + b) ∷ bytes)
joined _ _ _ = none

-- The bytes that a text of pairs of digits writes.
unfoldable pub read_pairs : Text → Option (List ℕ)
unfolding joined nibble
read_pairs [] = some []
read_pairs (c ∷ []) = none
read_pairs (c ∷ d ∷ cs) = joined (nibble c) (nibble d) (read_pairs cs)

-- The bytes of a fingerprint: pairs of digits in either case, with colons anywhere.
unfoldable pub read_fingerprint : Text → Option (List ℕ)
unfolding read_pairs joined nibble
read_fingerprint text = read_pairs (without_colons text)

abbrev pub IsAscii : ℕ → Type 0
IsAscii c = c < 128

nibble_upper : (c n : ℕ) → n < 16 → upper_ascii c ≡ digit 65 n → nibble c ≡ some n
unfolding nibble upper_ascii digit
nibble_upper c n h e = ground (arith, h, e)

upper_nibble : (c n : ℕ) → nibble c ≡ some n → (n < 16) × (upper_ascii c ≡ digit 65 n)
unfolding nibble upper_ascii digit
upper_nibble c n e = ground (arith, e)

abbrev pub IsByte : ℕ → Type 0
IsByte b = b < 256

to_uppercase-IsAscii :
    (other : ℕ → Text) (c : ℕ) (cs : Text)
    → IsAscii c
    → to_uppercase other (c ∷ cs) ≡ upper_ascii c ∷ to_uppercase other cs
unfolding to_uppercase
to_uppercase-IsAscii other c cs h = ground (arith, h)

hex_byte :
    (b : ℕ) (bs : List ℕ)
    → b < 256
    → hex_bytes (b ∷ bs) ≡ digit 65 (b / 16) ∷ digit 65 (b % 16) ∷ hex_bytes bs
unfolding hex_bytes hex
hex_byte b bs h =
    let small : b / 16 % 16 ≡ b / 16 = omega (arith, h) in
    ap (λ (n : ℕ). digit 65 n ∷ digit 65 (b % 16) ∷ hex_bytes bs) small

to_uppercase-nil : (other : ℕ → Text) → to_uppercase other [] ≡ []
unfolding to_uppercase
to_uppercase-nil other = refl

hex_bytes-nil : hex_bytes [] ≡ []
unfolding hex_bytes
hex_bytes-nil = refl

pub read_pairs-hex_bytes :
    (other : ℕ → Text) (l : Text) (h : List ℕ)
    → All IsAscii l
    → All IsByte h
    → to_uppercase other l ≡ hex_bytes h
    → read_pairs l ≡ some h
unfolding read_pairs
read_pairs-hex_bytes other [] [] a k e = refl
read_pairs-hex_bytes other [] (b ∷ bs) a k e =
    let same = sym (to_uppercase-nil other) ∙ e ∙ hex_byte b bs k.0 in absurd (cc)
read_pairs-hex_bytes other (c ∷ []) [] a k e =
    let same = sym (to_uppercase-IsAscii other c [] a.0) ∙ e ∙ hex_bytes-nil in absurd (cc)
read_pairs-hex_bytes other (c ∷ []) (b ∷ bs) a k e =
    let same =
      ap (◌∷◌ (upper_ascii c)) (sym (to_uppercase-nil other))
      ∙ sym (to_uppercase-IsAscii other c [] a.0)
      ∙ e
      ∙ hex_byte b bs k.0 in
    absurd (cc)
read_pairs-hex_bytes other (c ∷ d ∷ cs) [] a k e =
    let same = sym (to_uppercase-IsAscii other c (d ∷ cs) a.0) ∙ e ∙ hex_bytes-nil in absurd (cc)
read_pairs-hex_bytes other (c ∷ d ∷ cs) (b ∷ bs) a k e =
    let upper =
      to_uppercase-IsAscii other c (d ∷ cs) a.0
      ∙ ap (◌∷◌ (upper_ascii c)) (to_uppercase-IsAscii other d cs a.1.0) in
    let same = sym upper ∙ e ∙ hex_byte b bs k.0 in
    let first : upper_ascii c ≡ digit 65 (b / 16) = cc in
    let second : upper_ascii d ≡ digit 65 (b % 16) = cc in
    let rest = read_pairs-hex_bytes other cs bs a.1.1 k.1 (ap (drop 2) same) in
    rw
      (
        nibble_upper c (b / 16) (omega (arith, k.0)) first,
        nibble_upper d (b % 16) (omega arith) second,
        rest,
        joined,
      )
      (ap (λ (n : ℕ). some (n ∷ bs)) (omega arith))

joined-some :
    (x y : Option ℕ) (z : Option (List ℕ)) (h : List ℕ)
    → joined x y z ≡ some h
    → (a b : ℕ) × (bs : List ℕ) × (x ≡ some a)
      × (y ≡ some b)
      × (z ≡ some bs)
      × ((16 * a + b) ∷ bs ≡ h)
unfolding joined
joined-some (some a) (some b) (some bs) h e = (a, b, bs, refl, refl, refl, cc)
joined-some none y z h e = absurd (cc)
joined-some (some a) none z h e = absurd (cc)
joined-some (some a) (some b) none h e = absurd (cc)

pub hex_bytes-read_pairs :
    (other : ℕ → Text) (l : Text) (h : List ℕ)
    → All IsAscii l
    → read_pairs l ≡ some h
    → to_uppercase other l ≡ hex_bytes h
unfolding read_pairs
hex_bytes-read_pairs other [] h a e =
    let nothing : [] ≡ h = cc in to_uppercase-nil other ∙ sym hex_bytes-nil ∙ ap hex_bytes nothing
hex_bytes-read_pairs other (c ∷ []) h a e = absurd (cc)
hex_bytes-read_pairs other (c ∷ d ∷ cs) h a e =
    let (x, y, bs, first, second, rest, whole) =
      joined-some (nibble c) (nibble d) (read_pairs cs) h e in
    let (small, upper) = upper_nibble c x first in
    let (small', upper') = upper_nibble d y second in
    let high : (16 * x + y) / 16 ≡ x = omega (arith, small') in
    let low : (16 * x + y) % 16 ≡ y = omega (arith, small') in
    to_uppercase-IsAscii other c (d ∷ cs) a.0
    ∙ ap (◌∷◌ (upper_ascii c)) (to_uppercase-IsAscii other d cs a.1.0)
    ∙ ap₂ (λ (m n : ℕ). m ∷ n ∷ to_uppercase other cs) (upper ∙ ap (digit 65) (sym high))
        (upper' ∙ ap (digit 65) (sym low))
    ∙ ap (λ t. digit 65 ((16 * x + y) / 16) ∷ digit 65 ((16 * x + y) % 16) ∷ t)
        (hex_bytes-read_pairs other cs bs a.1.1 rest)
    ∙ sym (hex_byte (16 * x + y) bs (omega (arith, small, small')))
    ∙ ap hex_bytes whole

pub without_colons-IsAscii : (text : Text) → All IsAscii text → All IsAscii (without_colons text)
unfolding without_colons
without_colons-IsAscii [] h = tt
without_colons-IsAscii (c ∷ cs) h = elim (Bool-cases (c == 58)) [
  | inl e ↦ rw (e) (without_colons-IsAscii cs h.1)
  | inr e ↦ rw (e) (h.0, without_colons-IsAscii cs h.1)
]
