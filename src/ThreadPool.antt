-- ===== src/ThreadPool.antt =====
-- src/integration/thread_pool.rs: the processors of messages, the pipeline, and the handler that runs a processor
-- on a thread pool. The gzip encoder and decoder are another crate's, and so is the pool; they are arguments.
pub mod Cipher
pub mod Pipelines
use rust_network_system.Base.{
  ℕ, zero, suc, ◌+◌, ◌*◌, ◌/◌, ◌%◌, Bool, true, false, Option, none, some, ◌⊎◌, inl, inr, List, [],
  ◌∷◌, ◌++◌, String, get_elem?, length,
}
use rust_network_system.Error.{Result, ok, err, other, ◌>>=◌}
use rust_network_system.Message.{Message}

-- `MessageProcessor::process`.
abbrev pub Processor : Type 0
Processor = Message → Result Message

unfoldable pub identity_processor : Processor
identity_processor m = ok m

-- What a coder makes of bytes: an error, whose text is given, or other bytes.
abbrev pub Coded : Type 0
Coded = String ⊎ List ℕ

coded : Coded → Result Message
coded (inl text) = err (other text)
coded (inr bytes) = ok (record { payload = bytes })

-- `encode level` is the gzip encoder at a level of compression.
unfoldable pub compression_processor : (encode : ℕ → List ℕ → Coded) → (level : ℕ) → Processor
unfolding coded
compression_processor encode level m = coded (encode level m.payload)

unfoldable pub decompression_processor : (decode : List ℕ → Coded) → Processor
unfolding coded
decompression_processor decode m = coded (decode m.payload)

-- The exclusive or of the low `w` bits.
unfoldable pub bit_xor : (w : ℕ) → ℕ → ℕ → ℕ
bit_xor zero a b = 0
bit_xor (suc w) a b = (a % 2 + b % 2) % 2 + 2 * bit_xor w (a / 2) (b / 2)

or_zero : Option ℕ → ℕ
or_zero none = 0
or_zero (some b) = b

-- `self.key[i % self.key.len()]`, which is in range for a key that is not empty.
unfoldable pub key_byte : List ℕ → ℕ → ℕ
unfolding or_zero
key_byte key i = or_zero (get_elem? key (i % length key))

-- The loop over the bytes from the index `i` on.
unfoldable pub encrypt_from : List ℕ → ℕ → List ℕ → List ℕ
unfolding key_byte bit_xor
encrypt_from key i [] = []
encrypt_from key i (byte ∷ bytes) = bit_xor 8 byte (key_byte key i) ∷ encrypt_from key (suc i) bytes

unfoldable pub encryption_processor : (key : List ℕ) → Processor
unfolding encrypt_from
encryption_processor [] m = err (other "Encryption key is empty")
encryption_processor (k ∷ key) m = ok (record { payload = encrypt_from (k ∷ key) 0 m.payload })

-- `ProcessorPipeline::process`, and `add` and `add_arc`.
unfoldable pub pipeline : List Processor → Processor
pipeline [] m = ok m
pipeline (p ∷ ps) m = p m >>= pipeline ps

unfoldable pub add : List Processor → Processor → List Processor
add ps p = ps ++ (p ∷ [])

-- How the pool takes the job, and whether it finishes.
pub data Job : Type 0 where
  rejected cancelled completed : Job

pub passed_on : Result Message → List Message
passed_on (ok m) = m ∷ []
passed_on (err e) = []

-- `on_message`: the calls of `on_message` of the inner handler.
unfoldable pub on_message : Processor → Job → Message → List Message
unfolding passed_on
on_message p completed m = passed_on (p m)
on_message p rejected m = []
on_message p cancelled m = []
