-- ===== src/Message/Codec.antt =====
-- `encode` and `decode` of src/core/message.rs on one message: round trip, prefixes, soundness.
use rust_network_system.Base.{
  ℕ, ◌+◌, ◌%◌, ◌^◌, ◌≤◌, ◌<◌, ◌≡◌, sym, ap, ◌∙◌, ◌⊎◌, inl, inr, none, some, List, [], ◌∷◌, ◌++◌,
  arith, ltb, Bool-cases, length, take, drop, All, length-append, take-append_length,
  drop-append_length, take-append-drop, length-take,
}
use rust_network_system.Error.{ok, err, message_too_large}
use rust_network_system.Message.{
  Message, IsByte, max_message_size, size, put_u32, from_be_bytes, encode, decode_body, decode,
}

pub u32_round : (n : ℕ) → n < 2 ^ 32 → from_be_bytes (put_u32 n) ≡ n
unfolding put_u32 from_be_bytes
u32_round n h = omega arith

-- Four bytes are the encoding of the number that they stand for.
pub put_u32-from_be_bytes :
    (a b c d : ℕ)
    → IsByte a
    → IsByte b
    → IsByte c
    → IsByte d
    → put_u32 (from_be_bytes (a ∷ b ∷ c ∷ d ∷ [])) ≡ a ∷ b ∷ c ∷ d ∷ []
unfolding put_u32 from_be_bytes
put_u32-from_be_bytes a b c d ha hb hc hd = ground arith

ok-injective {ℓ} : {A : Type ℓ} {x y : A} → ok x ≡ ok y → x ≡ y
ok-injective e = cc

-- The wire form of a message within the limit.
abbrev pub wire : Message → List ℕ
wire m = put_u32 (length m.payload) ++ m.payload

pub encode-wire : (m : Message) → size m ≤ max_message_size → encode m ≡ ok (wire m)
unfolding encode size
encode-wire m h =
    let small : length m.payload % 2 ^ 32 ≡ length m.payload = omega arith in
    ground (arith, ap (λ (n : ℕ). put_u32 n ++ m.payload) small)

pub encode_ok :
    (m : Message) {w : List ℕ} → encode m ≡ ok w → (size m ≤ max_message_size) × (w ≡ wire m)
unfolding encode size
encode_ok m {w} e = elim (Bool-cases (ltb max_message_size (length m.payload))) [
  | inl big ↦ absurd (ground arith)
  | inr small ↦ (ground arith, sized (ground arith))
]
  where
    sized : length m.payload ≤ max_message_size → w ≡ wire m
    sized h = ok-injective (sym e ∙ encode-wire m h)

pub length-wire : (m : Message) → length (wire m) ≡ 4 + size m
unfolding put_u32 size
length-wire m = omega arith

wire-IsByte : (m : Message) → All IsByte m.payload → All IsByte (wire m)
unfolding put_u32
wire-IsByte m h = (omega arith, (omega arith, (omega arith, (omega arith, h))))

decode_framed :
    (a b c d : ℕ) (body : List ℕ)
    → decode (a ∷ b ∷ c ∷ d ∷ body)
      ≡ decode_body (from_be_bytes (a ∷ b ∷ c ∷ d ∷ [])) (a ∷ b ∷ c ∷ d ∷ body)
unfolding decode
decode_framed a b c d body = ground arith

-- The body read, once the header has announced `n` bytes and they are there.
decode_body_complete :
    (a b c d : ℕ) (payload rest : List ℕ)
    → length payload ≤ max_message_size
    → decode_body (length payload) (a ∷ b ∷ c ∷ d ∷ (payload ++ rest))
      ≡ (ok (some (record { payload = payload })), rest)
unfolding decode_body
decode_body_complete a b c d payload rest h = ground (
  arith,
  length-append payload rest,
  take-append_length payload rest,
  drop-append_length payload rest,
)

pub decode-wire :
    (m : Message) (rest : List ℕ)
    → size m ≤ max_message_size
    → decode (wire m ++ rest) ≡ (ok (some m), rest)
unfolding size put_u32
decode-wire m rest h =
    decode_framed _ _ _ _ (m.payload ++ rest)
    ∙ rw (u32_round (length m.payload) (omega arith))
        (decode_body_complete _ _ _ _ m.payload rest h)

-- What `encode` writes, `decode` reads back, and it leaves whatever follows in the buffer.
pub decode-encode :
    (m : Message) (rest : List ℕ) {w : List ℕ}
    → encode m ≡ ok w
    → decode (w ++ rest) ≡ (ok (some m), rest)
decode-encode m rest e = let (small, same) = encode_ok m e in rw same (decode-wire m rest small)

-- `encode` either frames the message in four more bytes, each byte in range if the payload's are, or
-- the payload is over the limit and the error reports both numbers.
pub encode_cases :
    (m : Message)
    → ((size m ≤ max_message_size)
        × ((w : List ℕ) × (encode m ≡ ok w)
            × (length w ≡ 4 + size m)
            × (All IsByte m.payload → All IsByte w)))
      ⊎ ((max_message_size < size m)
          × (encode m ≡ err (message_too_large (size m) max_message_size)))
unfolding size
encode_cases m = elim (Bool-cases (ltb max_message_size (length m.payload))) [
  | inl big ↦ inr (ground arith, unfold encode in rw big)
  | inr small ↦
      inl (ground arith, (wire m, encode-wire m (ground arith), length-wire m, wire-IsByte m))
]

-- The three ways a buffer can be read, by its length and the length that it announces.
pub decode_short : (buf : List ℕ) → length buf < 4 → decode buf ≡ (ok none, buf)
unfolding decode
decode_short buf h = ground arith

header-wire :
    (m : Message) (a b c d : ℕ) (tail : List ℕ)
    → size m ≤ max_message_size
    → a ∷ b ∷ c ∷ d ∷ tail ≡ wire m
    → (from_be_bytes (a ∷ b ∷ c ∷ d ∷ []) ≡ length m.payload) × (tail ≡ m.payload)
unfolding put_u32 size
header-wire m a b c d tail h same = (
  ap (λ (l : List ℕ). from_be_bytes (take 4 l)) same ∙ u32_round (length m.payload) (omega arith),
  ap (drop 4) same,
)

decode_body_waits :
    (len : ℕ) (buf : List ℕ)
    → len ≤ max_message_size
    → length buf < 4 + len
    → decode_body len buf ≡ (ok none, buf)
unfolding decode_body
decode_body_waits len buf h k = ground arith

-- Nothing is decoded from a proper prefix of an encoding, and the buffer is kept.
pub decode_prefix :
    (m : Message) (x : ℕ) (front back : List ℕ)
    → encode m ≡ ok (front ++ (x ∷ back))
    → decode front ≡ (ok none, front)
decode_prefix m x [] back e = decode_short [] (omega arith)
decode_prefix m x (a ∷ []) back e = decode_short _ (omega arith)
decode_prefix m x (a ∷ b ∷ []) back e = decode_short _ (omega arith)
decode_prefix m x (a ∷ b ∷ c ∷ []) back e = decode_short _ (omega arith)
decode_prefix m x (a ∷ b ∷ c ∷ d ∷ body) back e =
    let (small, same) = encode_ok m e in
    let (announced, tail) = header-wire m a b c d (body ++ (x ∷ back)) small same in
    decode_framed a b c d body
    ∙ decode_body_waits _ (a ∷ b ∷ c ∷ d ∷ body) (unfold size in omega (arith, announced, small))
        (omega (arith, announced, ap length tail, length-append body (x ∷ back)))

decode_body-some :
    (len : ℕ) (buf rest : List ℕ) (m : Message)
    → decode_body len buf ≡ (ok (some m), rest)
    → (len ≤ max_message_size)
      × (4 + len ≤ length buf)
      × (m.payload ≡ take len (drop 4 buf))
      × (rest ≡ drop len (drop 4 buf))
unfolding decode_body
decode_body-some len buf rest m e = ground arith

-- From a buffer of bytes `decode` accepts encodings only: the bytes that it takes are what `encode` writes
-- for the message.
pub encode-decode :
    (buf : List ℕ) {m : Message} {rest : List ℕ}
    → All IsByte buf
    → decode buf ≡ (ok (some m), rest)
    → (w : List ℕ) × (encode m ≡ ok w) × (buf ≡ w ++ rest)
encode-decode [] h e = absurd (cc (decode_short [] (omega arith)))
encode-decode (a ∷ []) h e = absurd (cc (decode_short (a ∷ []) (omega arith)))
encode-decode (a ∷ b ∷ []) h e = absurd (cc (decode_short (a ∷ b ∷ []) (omega arith)))
encode-decode (a ∷ b ∷ c ∷ []) h e = absurd (cc (decode_short (a ∷ b ∷ c ∷ []) (omega arith)))
encode-decode (a ∷ b ∷ c ∷ d ∷ body) {m} {rest} h e =
    let buf : List ℕ = a ∷ b ∷ c ∷ d ∷ body in
    let len : ℕ = from_be_bytes (a ∷ b ∷ c ∷ d ∷ []) in
    let (small, there, front, back) =
      decode_body-some len buf rest m (sym (decode_framed a b c d body) ∙ e) in
    let sized : length m.payload ≡ len = ap length front ∙ length-take len body ∙ omega arith in
    let header : put_u32 (length m.payload) ≡ a ∷ b ∷ c ∷ d ∷ [] =
      ap put_u32 sized ∙ put_u32-from_be_bytes a b c d h.0 h.1.0 h.1.1.0 h.1.1.1.0 in
    (
      wire m,
      encode-wire m (unfold size in omega arith),
      rw (header, front, back)
          (ap (λ (l : List ℕ). a ∷ b ∷ c ∷ d ∷ l) (sym (take-append-drop len body))),
    )

-- Where `decode` asks for more, the buffer is as before, and shorter than a frame of maximal size.
pub decode_waits :
    (buf buf' : List ℕ)
    → decode buf ≡ (ok none, buf')
    → (buf' ≡ buf) × (length buf < max_message_size + 4)
unfolding decode decode_body
decode_waits buf buf' e = ground arith
