-- ===== src/Buffer/Fifo.antt =====
-- Runs of writes and reads on one buffer against an abstract queue of bytes.
use fdm.Buffer.Invariant.{IsValid, contents, Stops, Refuses, length-contents}
use fdm.Buffer.Queue.{Appended, write-Appended, read-contents}
use fdm.Buffer.{Allocator, Buffer, create, xmalloc, write, read}
use fdm.Buffer.Memory.{length-fresh}
use mathlib.Core.Path.{ap₂, subst}
use fdm.Outcome.{Outcome, ok, ◌>>=◌, Ends, Ends->>=, Ends-mono}
use fdm.Prelude.{
  ℕ, zero, suc, ◌+◌, ◌-◌, ◌≤◌, ◌<◌, ◌≡◌, refl, sym, ap, ◌∙◌, ◌⊎◌, inl, inr, false, Option, none,
  some, List, [], ◌∷◌, ◌++◌, arith, ltb, ◌==◌, if◌then◌else◌, Bool-cases, Option-cases, length,
  take, drop, length-append, length-drop, take-append_exact, drop-append_exact, Bytes, size_max,
}

pub data Op : Type 0 where
  put : Bytes → Op
  get : ℕ → Op

-- The calls one after the other, with what the reads hand out.
unfoldable pub run : Allocator → List Op → Buffer → Outcome (List Bytes × Buffer)
run al [] b = ok ([], b)
run al (put bs ∷ ops) b = do c ← write al b bs; run al ops c
run al (get n ∷ ops) b = do (bs, c) ← read b n; (out, d) ← run al ops c; ok (bs ∷ out, d)

-- The queue: bytes go in at the end and come out at the front. A read of nothing, a read of more
-- than there is and a write of nothing have no result.
unfoldable pub queue : List Op → Bytes → Option (List Bytes × Bytes)
queue [] q = some ([], q)
queue (put bs ∷ ops) q = elim (length bs) [ zero ↦ none | suc _ ↦ queue ops (q ++ bs) ]
queue (get n ∷ ops) q = elim n [
  | zero ↦ none
  | suc m ↦ if ltb (length q) (suc m) then none else elim (queue ops (drop (suc m) q)) [
    | none ↦ none
    | some (out, r) ↦ some (take (suc m) q ∷ out, r)
  ]
]

-- The buffer ended where the queue did.
abbrev pub Agrees : List Bytes → Bytes → List Bytes × Buffer → Type 0
Agrees out r p = (p.0 ≡ out) × IsValid p.1 × (contents p.1 ≡ r)

-- Why a run of calls on a buffer with `n` bytes of data may stop the process: one of its writes is
-- refused the space for the data there are then.
abbrev pub Fails : Allocator → List Op → ℕ → Type 0
Fails al [] n = ⊥
Fails al (put bs ∷ ops) n = Refuses al (n + length bs) ⊎ Fails al ops (n + length bs)
Fails al (get k ∷ ops) n = Fails al ops (n - k)

Stops-put : (al : Allocator) (b : Buffer) (n : ℕ) → Stops al b (suc n) → Refuses al (b.size + suc n)
Stops-put al b n (inl z) = absurd (omega arith)
Stops-put al b n (inr f) = f

-- What a result of the queue says of a read in front.
queue-get :
    (m : ℕ) (ops : List Op) (q : Bytes) (out : List Bytes) (r : Bytes)
    → queue (get (suc m) ∷ ops) q ≡ some (out, r)
    → (o : List Bytes) × (suc m ≤ length q)
      × (queue ops (drop (suc m) q) ≡ some (o, r))
      × (out ≡ take (suc m) q ∷ o)
unfolding queue
queue-get m ops q out r h = elim (Bool-cases (ltb (length q) (suc m))) [
  | inl short ↦ (let h' = rw (short, queue) at h in cc)
  | inr enough ↦ elim (Option-cases (queue ops (drop (suc m) q))) [
    | inl stuck ↦ (let h' = rw (enough, stuck, queue) at h in cc)
    | inr ((o, r'), rest) ↦
        (let h' = rw (enough, rest, queue) at h in (o, ground arith, rest ∙ (cc), cc))
  ]
]

-- A fresh buffer is valid and holds nothing.
create-empty :
    (al : Allocator) (n : ℕ)
    → 0 < n
    → n ≤ size_max
    → Ends (al.grants n ≡ false) (λ b. IsValid b × (contents b ≡ [])) (create al n)
unfolding create xmalloc
create-empty al n pos le =
    let nonzero : (n == 0) ≡ false = ground arith in
    elim (Bool-cases (al.grants n)) [
      | inl granted ↦
          rw (nonzero, granted)
            (
              record {
                block = length-fresh al 0 n;
                room = omega arith;
                positive = pos;
                bounded = le;
              },
              refl,
            )
      | inr refused ↦ rw (nonzero, refused) refl
    ]

run-queue :
    (al : Allocator) (ops : List Op) (b : Buffer) (q : Bytes) (out : List Bytes) (r : Bytes)
    → IsValid b
    → contents b ≡ q
    → queue ops q ≡ some (out, r)
    → Ends (Fails al ops (length q)) (Agrees out r) (run al ops b)
unfolding run queue
run-queue al [] b q out r v e h = (cc, v, e ∙ cc)
run-queue al (put [] ∷ ops) b q out r v e h = cc
run-queue al (put (x ∷ bs) ∷ ops) b q out r v e h =
    let F = Fails al (put (x ∷ bs) ∷ ops) (length q) in
    let n : b.size ≡ length q = sym (ap length (sym e) ∙ length-contents b v) in
    let len = length-append q (x ∷ bs) in
    Ends->>= F (Appended b (x ∷ bs)) (Agrees out r) (write al b (x ∷ bs)) _
      (Ends-mono _ F _ _ (write al b (x ∷ bs)) (write-Appended al b (x ∷ bs) v)
        (λ f. inl (subst (λ k. Refuses al (k + suc (length bs))) n (Stops-put al b (length bs) f)))
        (λ c a. a))
      (λ c a.
        Ends-mono _ F (Agrees out r) (Agrees out r) (run al ops c)
          (run-queue al ops c (q ++ (x ∷ bs)) out r a.0 (a.1 ∙ ap (λ w. w ++ (x ∷ bs)) e) h)
          (λ f. inr (subst (Fails al ops) len f)) (λ p k. k))
run-queue al (get zero ∷ ops) b q out r v e h = cc
run-queue al (get (suc m) ∷ ops) b q out r v e h =
    let (o, le, rest, whole) = queue-get m ops q out r h in
    let n : length q ≡ b.size = ap length (sym e) ∙ length-contents b v in
    let F = Fails al ops (length q - suc m) in
    Ends->>= F (λ p. (length p.0 ≡ suc m) × IsValid p.1 × (p.0 ++ contents p.1 ≡ contents b))
      (Agrees out r) (read b (suc m)) _
      (Ends-mono _ _ _ _ (read b (suc m)) (read-contents b (suc m) v (omega arith) (omega arith))
        (λ f. absurd f) (λ p k. k))
      (λ (bs, c) (l, w, cut).
        let split = cut ∙ e in
        let first : bs ≡ take (suc m) q =
          sym (take-append_exact bs (contents c) (suc m) l) ∙ ap (take (suc m)) split in
        let left : contents c ≡ drop (suc m) q =
          sym (drop-append_exact bs (contents c) (suc m) l) ∙ ap (drop (suc m)) split in
        Ends->>= F (Agrees o r) (Agrees out r) (run al ops c) _
          (Ends-mono _ F (Agrees o r) (Agrees o r) (run al ops c)
            (run-queue al ops c (drop (suc m) q) o r w left rest)
            (λ f. subst (Fails al ops) (length-drop (suc m) q) f) (λ p k. k))
          (λ (o', d) a. (ap₂ ◌∷◌ first a.0 ∙ sym whole, a.1, a.2)))

-- A run of `buffer_write` and `buffer_read` on a fresh buffer hands out what the queue hands out,
-- and its data are what is left in the queue, wherever the queue has a result. It stops the process
-- only where the allocator refuses the first block, or, at one of the writes, the data with what is
-- written pass half the address space or the allocator refuses a block of less than twice their size.
pub run-implements_queue :
    (al : Allocator) (n : ℕ) (ops : List Op) (out : List Bytes) (r : Bytes)
    → 0 < n
    → n ≤ size_max
    → queue ops [] ≡ some (out, r)
    → Ends
        ((al.grants n ≡ false) ⊎ Fails al ops 0)
        (Agrees out r)
        (create al n >>= λ b. run al ops b)
run-implements_queue al n ops out r pos le h =
    let F = (al.grants n ≡ false) ⊎ Fails al ops 0 in
    Ends->>= F (λ b. IsValid b × (contents b ≡ [])) (Agrees out r) (create al n) _
      (Ends-mono _ F (λ b. IsValid b × (contents b ≡ [])) (λ b. IsValid b × (contents b ≡ []))
        (create al n) (create-empty al n pos le) (λ f. inl f) (λ b k. k))
      (λ b (v, e).
        Ends-mono _ F (Agrees out r) (Agrees out r) (run al ops b)
          (run-queue al ops b [] out r v e h) (λ f. inr f) (λ p k. k))
