-- ===== src/Tls/Pins.antt =====
-- Which certificates the pins of src/tls/config.rs accept.
use rust_network_system.Base.{
  ℕ, ◌≡◌, refl, sym, ap, ap₂, ◌∙◌, ◌⊎◌, ◌↔◌, inl, inr, true, some, List, [], ◌∷◌, ◌++◌, ◌==◌, map,
  arith, All, append-nil, append_assoc, Bool-cases, subst,
}
use rust_network_system.Hex.{Text}
use rust_network_system.Tls.{
  CertificatePins, new, without_colons, to_uppercase, add_fingerprint, hex_bytes, same_text,
  any_same, matches, assertion, verify_server_cert,
}
use rust_network_system.Tls.Fingerprint.{
  IsAscii, IsByte, read_fingerprint, read_pairs-hex_bytes, hex_bytes-read_pairs,
  without_colons-IsAscii,
}

equal_of_same_text : (cs ds : Text) → same_text cs ds ≡ true → cs ≡ ds
unfolding same_text
equal_of_same_text [] [] h = refl
equal_of_same_text [] (d ∷ ds) h = absurd (cc)
equal_of_same_text (c ∷ cs) [] h = absurd (cc)
equal_of_same_text (c ∷ cs) (d ∷ ds) h = elim (Bool-cases (c == d)) [
  | inl e ↦ ap₂ (◌∷◌) (ground (arith, e)) (equal_of_same_text cs ds (ground (arith, e, h)))
  | inr e ↦ absurd (ground (arith, e, h))
]

same_text_refl : (cs : Text) → same_text cs cs ≡ true
unfolding same_text
same_text_refl [] = refl
same_text_refl (c ∷ cs) = ground (arith, same_text_refl cs)

-- The pins that result from adding the fingerprints `fs` in turn.
unfoldable pub add_all : (ℕ → Text) → List Text → CertificatePins → CertificatePins
add_all other [] pins = pins
add_all other (f ∷ fs) pins = add_all other fs (add_fingerprint other pins f)

-- Some element of the list has the property.
abbrev pub Any : (Text → Type 0) → List Text → Type 0
Any P [] = ⊥
Any P (f ∷ fs) = P f ⊎ Any P fs

-- What `add_fingerprint` keeps of a fingerprint.
abbrev kept : (ℕ → Text) → Text → Text
kept other f = to_uppercase other (without_colons f)

add_all_lem :
    (other : ℕ → Text) (fs : List Text) (pins : CertificatePins)
    → add_all other fs pins ≡ pins ++ map (kept other) fs
unfolding add_all add_fingerprint
add_all_lem other [] pins = sym (append-nil pins)
add_all_lem other (f ∷ fs) pins =
    add_all_lem other fs (pins ++ (kept other f ∷ []))
    ∙ append_assoc pins (kept other f ∷ []) (map (kept other) fs)

-- The pins keep the hash exactly when some fingerprint writes it.
any_same-kept :
    (other : ℕ → Text) (fs : List Text) (h : List ℕ)
    → All (All IsAscii) fs
    → All IsByte h
    → (any_same (hex_bytes h) (map (kept other) fs) ≡ true
        → Any (λ f. read_fingerprint f ≡ some h) fs)
      × (Any (λ f. read_fingerprint f ≡ some h) fs
          → any_same (hex_bytes h) (map (kept other) fs) ≡ true)
unfolding any_same read_fingerprint
any_same-kept other [] h a k = ((λ e. absurd (cc)), λ e. elim e [ ])
any_same-kept other (f ∷ fs) h a k =
    let (to, fro) = any_same-kept other fs h a.1 k in
    let ascii = without_colons-IsAscii f a.0 in
    (
      λ e. elim (Bool-cases (same_text (kept other f) (hex_bytes h))) [
        | inl same ↦ inl (
            read_pairs-hex_bytes other (without_colons f) h ascii k
              (equal_of_same_text (kept other f) (hex_bytes h) same))
        | inr differs ↦ inr (to (ground (arith, e, differs)))
      ],
      λ c. elim c [
        | inl e ↦
            let same =
              subst (λ t. same_text (kept other f) t ≡ true)
                (hex_bytes-read_pairs other (without_colons f) h ascii e)
                (same_text_refl (kept other f)) in
            ground (arith, same)
        | inr c' ↦ ground (arith, fro c')
      ],
    )

-- The verifier accepts a certificate exactly when one of the fingerprints that were added, read as pairs of hexadecimal
-- digits in either case with colons anywhere, writes the hash of the certificate. The
-- fingerprints are ASCII texts, and the hash is made of bytes.
pub verify_server_cert_lem :
    (other : ℕ → Text) (sha256 : List ℕ → List ℕ) (fs : List Text) (cert : List ℕ)
    → All (All IsAscii) fs
    → All IsByte (sha256 cert)
    → (verify_server_cert sha256 (add_all other fs new) cert ≡ assertion)
      ↔ Any (λ f. read_fingerprint f ≡ some (sha256 cert)) fs
unfolding new verify_server_cert matches
verify_server_cert_lem other sha256 fs cert a k =
    let (to, fro) = any_same-kept other fs (sha256 cert) a k in
    let pins = add_all_lem other fs [] in
    let match_is = ap (any_same (hex_bytes (sha256 cert))) pins in
    (
      λ e. elim (Bool-cases (any_same (hex_bytes (sha256 cert)) (add_all other fs []))) [
        | inl same ↦ to (sym match_is ∙ same)
        | inr differs ↦ absurd (ground (arith, e, differs))
      ],
      λ c. rw (match_is ∙ fro c) refl,
    )
