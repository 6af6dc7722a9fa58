-- ===== src/Message/Stream.antt =====
-- Several messages on one byte stream: what a sender writes by calling `encode` of
-- src/core/message.rs for one message after the other.
use rust_network_system.Base.{ℕ, ◌≤◌, ◌≡◌, refl, List, [], ◌∷◌, ◌++◌, All}
use rust_network_system.Error.{Result, ok, err, ◌>>=◌}
use rust_network_system.Message.{Message, max_message_size, size, encode}
use rust_network_system.Message.Codec.{wire, encode_ok}

-- The first message over the limit stops the sender.
unfoldable pub encode_all : List Message → Result (List ℕ)
encode_all [] = ok []
encode_all (m ∷ ms) = do w ← encode m; ws ← encode_all ms; ok (w ++ ws)

abbrev pub wires : List Message → List ℕ
wires [] = []
wires (m ∷ ms) = wire m ++ wires ms

abbrev pub Fits : Message → Type 0
Fits m = size m ≤ max_message_size

-- A chain of two that ends in a value has one in the first place.
>>=-ok :
    {T U : Type 0} (r : Result T) (after : T → Result U) {u : U}
    → (r >>= after) ≡ ok u
    → (t : T) × (r ≡ ok t) × (after t ≡ ok u)
>>=-ok (err error) after e = cc
>>=-ok (ok value) after e = (value, refl, e)

pub encode_all_ok :
    (ms : List Message) {w : List ℕ} → encode_all ms ≡ ok w → All Fits ms × (w ≡ wires ms)
unfolding encode_all
encode_all_ok [] e = (tt, cc)
encode_all_ok (m ∷ ms) {w} e =
    let (u, first, more) = >>=-ok (encode m) _ e in
    let (v, others, last) = >>=-ok (encode_all ms) _ more in
    let (fits, here) = encode_ok m first in
    let (all_fit, there) = encode_all_ok ms others in ((fits, all_fit), cc)
