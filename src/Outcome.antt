-- ===== src/Outcome.antt =====
-- How a C function ends: it returns, it stops the process through `fatalx` (log.c), it touches
-- memory that it does not own, or its loop runs past the rounds it was given.
use fdm.Prelude.{Bool, true, false}

pub data Outcome {ℓ} (A : Type ℓ) : Type ℓ where
  ok : A → Outcome A
  fatal : Outcome A
  fault : Outcome A
  diverge : Outcome A

infixl 5 ◌>>=◌ ◌>>◌
abbrev pub ◌>>=◌ {ℓ κ} : {A : Type ℓ} {B : Type κ} → Outcome A → (A → Outcome B) → Outcome B
ok a >>= f = f a
fatal >>= f = fatal
fault >>= f = fault
diverge >>= f = diverge

abbrev pub ◌>>◌ {ℓ} : {B : Type ℓ} → Outcome (Unit {0}) → Outcome B → Outcome B
m >> k = m >>= λ _. k

-- `if (b) fatalx(...)`
abbrev pub fatal_if : Bool → Outcome (Unit {0})
fatal_if true = fatal
fatal_if false = ok tt

-- What the function returns satisfies `P`, and where it stops the process `F` holds. It neither
-- faults nor loops for ever.
abbrev pub Ends : {A : Type 0} → Type 0 → (A → Type 0) → Outcome A → Type 0
Ends F P (ok a) = P a
Ends F P fatal = F
Ends F P fault = ⊥
Ends F P diverge = ⊥

-- The function returns, and what it returns satisfies `P`.
abbrev pub Returns : {A : Type 0} → (A → Type 0) → Outcome A → Type 0
Returns P m = Ends ⊥ P m

pub Ends->>= :
    {A B : Type 0} (F : Type 0) (P : A → Type 0) (Q : B → Type 0) (m : Outcome A)
    (f : A → Outcome B)
    → Ends F P m
    → ((a : A) → P a → Ends F Q (f a))
    → Ends F Q (m >>= f)
Ends->>= F P Q (ok a) f h k = k a h
Ends->>= F P Q fatal f h k = h
Ends->>= F P Q fault f h k = absurd h
Ends->>= F P Q diverge f h k = absurd h

pub Ends-mono :
    {A : Type 0} (F G : Type 0) (P Q : A → Type 0) (m : Outcome A)
    → Ends F P m
    → (F → G)
    → ((a : A) → P a → Q a)
    → Ends G Q m
Ends-mono F G P Q (ok a) h g k = k a h
Ends-mono F G P Q fatal h g k = g h
Ends-mono F G P Q fault h g k = absurd h
Ends-mono F G P Q diverge h g k = absurd h
