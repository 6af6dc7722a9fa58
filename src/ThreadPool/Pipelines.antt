-- ===== src/ThreadPool/Pipelines.antt =====
-- Pipelines of src/integration/thread_pool.rs that undo one another.
use rust_network_system.Base.{◌≡◌, refl, sym, ap, subst, ◌∙◌, List, [], ◌∷◌, ◌++◌, All}
use rust_network_system.Error.{Result, ok, err, ◌>>=◌}
use rust_network_system.Message.{Message}
use rust_network_system.ThreadPool.{Processor, pipeline, add}
use rust_network_system.ThreadPool.Cipher.{IsBytes}

-- `q` undoes what `p` did, whenever `p` succeeds on a message of bytes.
abbrev pub Undoes : Processor → Processor → Type 0
Undoes p q = (m m' : Message) → IsBytes m → p m ≡ ok m' → IsBytes m' × (q m' ≡ ok m)

-- The pipeline of the second processors, in the reverse order, as `add` builds it.
unfoldable pub backwards : List (Processor × Processor) → List Processor
unfolding add
backwards [] = []
backwards ((p, q) ∷ ps) = add (backwards ps) q

abbrev pub forwards : List (Processor × Processor) → List Processor
forwards [] = []
forwards ((p, q) ∷ ps) = p ∷ forwards ps

assoc : (r : Result Message) (f g : Processor) → ((r >>= f) >>= g) ≡ (r >>= (λ m. f m >>= g))
assoc (ok m) f g = refl
assoc (err e) f g = refl

same_after :
    (r : Result Message) (f g : Processor) → ((m : Message) → f m ≡ g m) → (r >>= f) ≡ (r >>= g)
same_after (ok m) f g h = h m
same_after (err e) f g h = refl

pub pipeline-append :
    (ps qs : List Processor) (m : Message) → pipeline (ps ++ qs) m ≡ (pipeline ps m >>= pipeline qs)
unfolding pipeline
pipeline-append [] qs m = refl
pipeline-append (p ∷ ps) qs m =
    same_after (p m) (pipeline (ps ++ qs)) (λ x. pipeline ps x >>= pipeline qs)
      (pipeline-append ps qs)
    ∙ sym (assoc (p m) (pipeline ps) (pipeline qs))

bind_ok :
    (r : Result Message) (f : Processor) (m : Message)
    → (r >>= f) ≡ ok m
    → (x : Message) × (r ≡ ok x) × (f x ≡ ok m)
bind_ok (ok x) f m e = (x, refl, e)
bind_ok (err x) f m e = absurd (cc)

-- When each processor of a pipeline has one that undoes it, the pipeline of those in the reverse order gives back every
-- message of bytes that went through.
pub pipeline-backwards :
    (ps : List (Processor × Processor)) (m m' : Message)
    → All (λ x. Undoes x.0 x.1) ps
    → IsBytes m
    → pipeline (forwards ps) m ≡ ok m'
    → IsBytes m' × (pipeline (backwards ps) m' ≡ ok m)
unfolding pipeline backwards
pipeline-backwards [] m m' undo h e = (subst IsBytes (cc) h, cc)
pipeline-backwards ((p, q) ∷ ps) m m' undo h e =
    let (x, first, rest) = bind_ok (p m) (pipeline (forwards ps)) m' e in
    let (clean, undone) = undo.0 m x h first in
    let (clean', back) = pipeline-backwards ps x m' undo.1 clean rest in
    (
      clean',
      pipeline-append (backwards ps) (q ∷ []) m'
          ∙ ap (λ r. r >>= pipeline (q ∷ [])) back
          ∙ ap (λ r. r >>= pipeline []) undone,
    )
