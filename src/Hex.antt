-- ===== src/Hex.antt =====
-- Hexadecimal texts, as `format!` writes them; a text is the list of the codes of its characters.
use rust_network_system.Base.{
  ℕ, zero, suc, ◌+◌, ◌-◌, ◌*◌, ◌/◌, ◌%◌, ◌^◌, ◌<◌, ◌≡◌, refl, sym, ap, ◌∙◌, List, [], ◌∷◌, ◌++◌,
  arith, ltb, if◌then◌else◌,
}
use native.Mathlib.Nat.{pow-suc}

abbrev pub Text : Type 0
Text = List ℕ

-- The digits of `{:x}` have the letter `a`, 97, for ten; those of `{:X}` have `A`, 65.
unfoldable pub digit : (letter : ℕ) → ℕ → ℕ
digit letter n = if ltb n 10 then 48 + n else letter + (n - 10)

-- The last `w` digits of a number, the first one first: `{:0wx}` for a number below `16 ^ w`.
unfoldable pub hex : (letter w : ℕ) → ℕ → Text
unfolding digit
hex letter zero n = []
hex letter (suc w) n = hex letter w (n / 16) ++ (digit letter (n % 16) ∷ [])

-- The digit that a code of `{:x}` stands for.
digit_value : ℕ → ℕ
digit_value c = if ltb c 58 then c - 48 else c - 87

read_from : ℕ → Text → ℕ
read_from acc [] = acc
read_from acc (c ∷ cs) = read_from (acc * 16 + digit_value c) cs

read_from-append :
    (acc : ℕ) (cs : Text) (c : ℕ)
    → read_from acc (cs ++ (c ∷ [])) ≡ read_from acc cs * 16 + digit_value c
unfolding read_from
read_from-append acc [] c = refl
read_from-append acc (b ∷ cs) c = read_from-append (acc * 16 + digit_value b) cs c

digit_value-digit : (n : ℕ) → n < 16 → digit_value (digit 97 n) ≡ n
unfolding digit_value digit
digit_value-digit n h = ground (arith, h)

read_from-hex : (w n : ℕ) → n < 16 ^ w → read_from 0 (hex 97 w n) ≡ n
unfolding read_from hex
read_from-hex zero n h = omega (arith, h)
read_from-hex (suc w) n h =
    read_from-append 0 (hex 97 w (n / 16)) (digit 97 (n % 16))
    ∙ omega (
      arith,
      read_from-hex w (n / 16) (omega (arith, h, pow-suc 16 w)),
      digit_value-digit (n % 16) (omega arith),
    )

-- Two numbers below `16 ^ w` with one text are equal.
pub hex_injective : (w n m : ℕ) → n < 16 ^ w → m < 16 ^ w → hex 97 w n ≡ hex 97 w m → n ≡ m
hex_injective w n m h k e = sym (read_from-hex w n h) ∙ ap (read_from 0) e ∙ read_from-hex w m k
