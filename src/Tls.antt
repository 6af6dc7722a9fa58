-- ===== src/Tls.antt =====
-- The pins of src/tls/config.rs. A text is the list of the codes of its characters. The hash of a certificate is
-- another crate's, and an argument.
pub mod Fingerprint
pub mod Pins
pub mod Config
pub mod Files
pub mod Verifiers
use rust_network_system.Base.{
  ℕ, zero, suc, ◌+◌, ◌-◌, ◌/◌, ◌%◌, Bool, true, false, ◌&&◌, ◌||◌, Option, none, some, List, [],
  ◌∷◌, ◌++◌, ltb, ◌==◌, if◌then◌else◌, leb, flatten, map, String,
}
use rust_network_system.Hex.{Text, hex}

-- `fingerprints`.
abbrev pub CertificatePins : Type 0
CertificatePins = List Text

unfoldable pub new : CertificatePins
new = []

-- `replace(':', "")`.
unfoldable pub without_colons : Text → Text
without_colons [] = []
without_colons (c ∷ cs) = (let rest = without_colons cs in if c == 58 then rest else (c ∷ rest))

-- The ASCII upper case of one character.
unfoldable pub upper_ascii : ℕ → ℕ
upper_ascii c = if leb 97 c && leb c 122 then c - 32 else c

-- `to_uppercase`; `upper_other` is what it makes of a character that is not ASCII.
unfoldable pub to_uppercase : (upper_other : ℕ → Text) → Text → Text
unfolding upper_ascii
to_uppercase upper_other [] = []
to_uppercase upper_other (c ∷ cs) =
    (if ltb c 128 then upper_ascii c ∷ [] else upper_other c) ++ to_uppercase upper_other cs

unfoldable pub add_fingerprint : (ℕ → Text) → CertificatePins → Text → CertificatePins
unfolding without_colons to_uppercase upper_ascii
add_fingerprint upper_other pins fingerprint =
    pins ++ (to_uppercase upper_other (without_colons fingerprint) ∷ [])

-- Each byte by `{:02X}`, joined.
unfoldable pub hex_bytes : List ℕ → Text
hex_bytes bytes = flatten (map (hex 65 2) bytes)

unfoldable pub same_text : Text → Text → Bool
same_text [] [] = true
same_text [] (d ∷ ds) = false
same_text (c ∷ cs) [] = false
same_text (c ∷ cs) (d ∷ ds) = c == d && same_text cs ds

unfoldable pub any_same : Text → List Text → Bool
unfolding same_text
any_same text [] = false
any_same text (pin ∷ pins) = same_text pin text || any_same text pins

unfoldable pub matches : (sha256 : List ℕ → List ℕ) → CertificatePins → (cert : List ℕ) → Bool
unfolding any_same hex_bytes same_text
matches sha256 pins cert = any_same (hex_bytes (sha256 cert)) pins

pub data Verified : Type 0 where
  assertion : Verified
  general : String → Verified

unfoldable pub verify_server_cert : (List ℕ → List ℕ) → CertificatePins → List ℕ → Verified
unfolding matches any_same hex_bytes same_text
verify_server_cert sha256 pins cert =
    if matches sha256 pins cert
    then assertion
    else general "Certificate does not match any pinned fingerprint"
