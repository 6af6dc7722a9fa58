-- ===== src/Session/Delivery.antt =====
-- `receive` of src/session/mod.rs over a byte stream that the network cuts anywhere.
use rust_network_system.Base.{
  ℕ, suc, ◌-◌, ◌<◌, ◌≡◌, refl, sym, ap, ◌∙◌, ◌≢◌, inl, inr, some, List, [], ◌∷◌, ◌++◌, map,
  append_assoc, append-nil, arith, leb, not-leb, Bool-cases, length, All, flatten, append_split,
}
use rust_network_system.Error.{ok}
use rust_network_system.Message.{Message, decode}
use rust_network_system.Message.Codec.{wire, encode-wire, decode-wire, decode_prefix, decode_waits}
use rust_network_system.Message.Stream.{Fits}
use rust_network_system.Session.Assembly.{
  bytes, Received, finished, need_more, attempt, after_decode, receive_loop,
}

abbrev pub NonEmpty : List ℕ → Type 0
NonEmpty c = c ≢ []

-- Every reading of the clock in a call comes before the assembly timeout.
abbrev pub Timely : (assembly start : ℕ) → (ℕ → ℕ) → Type 0
Timely assembly start now = (i : ℕ) → now i - start < assembly

pub attempt-wire :
    (assembly elapsed : ℕ) (m : Message) (rest : List ℕ)
    → elapsed < assembly
    → Fits m
    → attempt assembly elapsed (wire m ++ rest) ≡ finished (ok m) rest
unfolding attempt
attempt-wire assembly elapsed m rest h fits =
    rw (not-leb assembly elapsed h, decode-wire m rest fits) refl

pub attempt-nil :
    (assembly elapsed : ℕ) → elapsed < assembly → attempt assembly elapsed [] ≡ need_more []
unfolding attempt after_decode decode
attempt-nil assembly elapsed h = rw (not-leb assembly elapsed h) refl

attempt_prefix :
    (assembly elapsed : ℕ) (m : Message) (x : ℕ) (front back : List ℕ)
    → elapsed < assembly
    → Fits m
    → wire m ≡ front ++ (x ∷ back)
    → attempt assembly elapsed front ≡ need_more front
unfolding attempt
attempt_prefix assembly elapsed m x front back h fits e =
    let waits = decode_prefix m x front back (encode-wire m fits ∙ ap ok e) in
    rw (not-leb assembly elapsed h, waits) (ground (arith, (decode_waits front front waits).1))

-- What one run of the loop leaves when it returns the message `m`, with `rest` still to be read.
pub record Delivered (m : Message) (rest : List ℕ) (r : Received) : Type 0 where
  pub chunks : List (List ℕ)
  pub result : r.result ≡ some (ok m)
  pub unread : r.unread ≡ map bytes chunks
  pub left : r.buffer ++ flatten chunks ≡ rest
  pub non_empty : All NonEmpty chunks

-- A buffer in front of `ys` holds the whole frame and more, or a proper prefix of it.
data Cut (m : Message) (rest buf ys : List ℕ) : Type 0 where
  whole : (more : List ℕ) → buf ≡ wire m ++ more → rest ≡ more ++ ys → Cut m rest buf ys
  prefix :
      (x : ℕ) (back : List ℕ)
      → wire m ≡ buf ++ (x ∷ back)
      → ys ≡ x ∷ (back ++ rest)
      → Cut m rest buf ys

cut : (m : Message) (rest buf ys : List ℕ) → wire m ++ rest ≡ buf ++ ys → Cut m rest buf ys
cut m rest buf ys e = elim (Bool-cases (leb (length (wire m)) (length buf))) [
  | inl there ↦
      let (more, front, back) = append_split (wire m) buf rest ys e (ground arith) in
      whole more front back
  | inr short ↦
      let (ws, front, back) = append_split buf (wire m) ys rest (sym e) (ground arith) in
      proper ws front back (ground arith)
]
  where
    proper :
        (ws : List ℕ)
        → wire m ≡ buf ++ ws
        → ys ≡ ws ++ rest
        → length buf < length (wire m)
        → Cut m rest buf ys
    proper [] front back h = absurd (omega (arith, ap length front, ap length (append-nil buf), h))
    proper (x ∷ ws) front back h = prefix x ws front back

pub receive_loop-Delivered :
    (assembly start : ℕ) (now : ℕ → ℕ) (m : Message) (rest : List ℕ)
    → Fits m
    → Timely assembly start now
    → (k : ℕ) (buf : List ℕ) (chunks : List (List ℕ)) → All NonEmpty chunks
    → wire m ++ rest ≡ buf ++ flatten chunks
    → Delivered m rest (receive_loop assembly start now k buf (map bytes chunks))
unfolding receive_loop
receive_loop-Delivered assembly start now m rest fits timely k buf [] ne e =
    elim (cut m rest buf [] e) [
      | whole more front back ↦
          rw (front, attempt-wire assembly (now k - start) m more (timely k) fits, receive_loop)
            (record { chunks = []; result = refl; unread = refl; left = sym back; non_empty = tt })
      | prefix x back front gone ↦ absurd (cc gone)
    ]
receive_loop-Delivered assembly start now m rest fits timely k buf ([] ∷ chunks) ne e =
    absurd (ne.0 refl)
receive_loop-Delivered assembly start now m rest fits timely k buf ((y ∷ c) ∷ chunks) ne e =
    let again =
      receive_loop-Delivered assembly start now m rest fits timely (suc k) (buf ++ (y ∷ c)) chunks
        ne.1 (e ∙ sym (append_assoc buf (y ∷ c) (flatten chunks))) in
    elim (cut m rest buf (flatten ((y ∷ c) ∷ chunks)) e) [
      | whole more front back ↦
          rw (front, attempt-wire assembly (now k - start) m more (timely k) fits, receive_loop)
            (record {
              chunks = (y ∷ c) ∷ chunks;
              result = refl;
              unread = refl;
              left = sym back;
              non_empty = ne;
            })
      | prefix x back front gone ↦
          rw
            (
              attempt_prefix assembly (now k - start) m x buf back (timely k) fits front,
              receive_loop,
            )
            again
    ]
