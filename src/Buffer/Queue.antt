-- ===== src/Buffer/Queue.antt =====
-- The buffer as a first-in first-out queue of bytes: what writing and reading do to its contents.
use fdm.Buffer.Invariant.{IsValid, contents, Holds, Stops, length-contents, ensure-Holds}
use fdm.Buffer.Memory.{
  splice, write_at_lem, read_at_lem, length-splice, window-splice_end, length-window,
}
use fdm.Buffer.{Allocator, Buffer, ensure, add, remove, put_bytes, write, read, write16, read16}
use fdm.Outcome.{ok, ◌>>=◌, Ends, Returns, Ends->>=, Ends-mono}
use fdm.Prelude.{
  ℕ, ◌+◌, ◌-◌, ◌/◌, ◌%◌, ◌≤◌, ◌<◌, ◌≡◌, refl, sym, ap, ◌∙◌, inl, inr, false, [], ◌∷◌, ◌++◌, arith,
  ltb, ◌==◌, Bool-cases, length, take, drop, drop-append_exact, drop-drop, take-add, take-take_le,
  Bytes, size_mod, sub_size,
}

-- The data of `c` are those of `b` with `bs` behind them.
abbrev pub Appended : Buffer → Bytes → Buffer → Type 0
Appended b bs c = IsValid c × (contents c ≡ contents b ++ bs)

-- `memcpy(BUFFER_IN(b), bs)` and `buffer_add`, where the space suffices.
put_add :
    (b c : Buffer) (bs : Bytes) (n : ℕ)
    → Holds b n c
    → 0 < n
    → length bs ≡ n
    → Returns (Appended b bs) (put_bytes c bs >>= λ d. add d n)
unfolding put_bytes add
put_add b c bs n h pos e =
    let v = h.valid in
    let fits : c.off + c.size + length bs ≤ length c.base = omega (arith, h.free, v.block) in
    let mem = splice c.base (c.off + c.size) bs in
    let guard : ltb (sub_size c.space c.size) n ≡ false = ground (arith, h.free, v.bounded) in
    let sum : (c.size + n) % size_mod ≡ c.size + n = omega (arith, h.free, v.bounded) in
    let nonzero : (n == 0) ≡ false = ground arith in
    rw (write_at_lem c.base (c.off + c.size) bs fits, nonzero, guard, sum)
      (
        record {
          block = length-splice c.base (c.off + c.size) bs fits ∙ v.block;
          room = omega (arith, h.free);
          positive = v.positive;
          bounded = v.bounded;
        },
        window-splice_end c.base c.off c.size (c.size + n) bs fits (omega arith)
            ∙ ap (λ w. w ++ bs) h.same,
      )

-- `buffer_write` appends its data to what a valid buffer holds, and keeps it valid. It stops the
-- process only if there is nothing to write, if the result passes half the address space, or if the
-- allocator refuses.
pub write-Appended :
    (al : Allocator) (b : Buffer) (bs : Bytes)
    → IsValid b
    → Ends (Stops al b (length bs)) (Appended b bs) (write al b bs)
unfolding write
write-Appended al b bs v = elim (Bool-cases (length bs == 0)) [
  | inl zero_size ↦ rw zero_size (inl (ground arith))
  | inr some_size ↦ rw some_size (
      Ends->>= _ (Holds b (length bs)) (Appended b bs) (ensure al b (length bs)) _
        (ensure-Holds al b (length bs) v)
        (λ c h.
          Ends-mono _ _ _ (Appended b bs) (put_bytes c bs >>= λ d. add d (length bs))
            (put_add b c bs (length bs) h (ground arith) refl) (λ f. absurd f) (λ d a. a)))
]

pub write16-Appended :
    (al : Allocator) (b : Buffer) (n : ℕ)
    → IsValid b
    → Ends (Stops al b 2) (Appended b (n % 256 ∷ n / 256 ∷ [])) (write16 al b n)
unfolding write16
write16-Appended al b n v =
    Ends->>= _ (Holds b 2) (Appended b (n % 256 ∷ n / 256 ∷ [])) (ensure al b 2) _
      (ensure-Holds al b 2 v)
      (λ c h.
        Ends-mono _ _ _ (Appended b (n % 256 ∷ n / 256 ∷ []))
          (put_bytes c (n % 256 ∷ n / 256 ∷ []) >>= λ d. add d 2)
          (put_add b c (n % 256 ∷ n / 256 ∷ []) 2 h (omega arith) refl) (λ f. absurd f) (λ d a. a))

remove_lem :
    (b : Buffer) (n : ℕ)
    → IsValid b
    → 0 < n
    → n ≤ b.size
    → remove b n ≡ ok (record b { size = b.size - n; off = b.off + n })
unfolding remove
remove_lem b n v pos le = ground arith

-- Cutting `n` bytes off the front.
abbrev advanced : Buffer → ℕ → Buffer
advanced b n = record b { size = b.size - n; off = b.off + n }

advanced-contents :
    (b : Buffer) (n : ℕ)
    → n ≤ b.size
    → take n (drop b.off b.base) ++ contents (advanced b n) ≡ contents b
advanced-contents b n le =
    rw (← drop-drop n b.off (b.off + n) b.base refl)
      (take-add n (b.size - n) b.size (drop b.off b.base) (omega arith))

-- `buffer_remove` of at most what a valid buffer holds takes that off its front.
pub remove-contents :
    (b : Buffer) (n : ℕ)
    → IsValid b
    → 0 < n
    → n ≤ b.size
    → Returns (λ c. IsValid c × (contents c ≡ drop n (contents b))) (remove b n)
unfolding remove
remove-contents b n v pos le = rw (remove_lem b n v pos le) (
  record { block = v.block; room = omega arith; positive = v.positive; bounded = v.bounded },
  sym (
        drop-append_exact (take n (drop b.off b.base)) (contents (advanced b n)) n
          (length-window b.base b.off n (omega (arith, v.block, v.room, le))))
      ∙ ap (drop n) (advanced-contents b n le),
)

-- `buffer_read` of at most what a valid buffer holds returns: it hands out the first `n` bytes,
-- leaves the others in a valid buffer, and does nothing else.
pub read-contents :
    (b : Buffer) (n : ℕ)
    → IsValid b
    → 0 < n
    → n ≤ b.size
    → Returns (λ r. (length r.0 ≡ n) × IsValid r.1 × (r.0 ++ contents r.1 ≡ contents b)) (read b n)
unfolding read
read-contents b n v pos le =
    let nonzero : (n == 0) ≡ false = ground arith in
    let within : ltb b.size n ≡ false = ground arith in
    rw (nonzero, within, read_at_lem b.base b.off n (omega arith), remove_lem b n v pos le)
      (
        length-window b.base b.off n (omega arith),
        record { block = v.block; room = omega arith; positive = v.positive; bounded = v.bounded },
        advanced-contents b n le,
      )

-- A value whose two bytes stand first in a valid buffer is read back by `buffer_read16`, which
-- returns, and only they are taken off.
pub read16-contents :
    (b : Buffer) (n : ℕ) (rest : Bytes)
    → IsValid b
    → contents b ≡ n % 256 ∷ n / 256 ∷ rest
    → Returns (λ r. (r.0 ≡ n) × IsValid r.1 × (contents r.1 ≡ rest)) (read16 b)
unfolding read16
read16-contents b n rest v e =
    let le : 2 ≤ b.size = omega (arith, ap length e, length-contents b v) in
    let first : take 2 (drop b.off b.base) ≡ n % 256 ∷ n / 256 ∷ [] =
      sym (take-take_le 2 b.size (drop b.off b.base) le) ∙ ap (take 2) e in
    let whole = advanced-contents b 2 le in
    rw (read_at_lem b.base b.off 2 (omega arith), remove_lem b 2 v (omega arith) le, first)
      (
        omega arith,
        record { block = v.block; room = omega arith; positive = v.positive; bounded = v.bounded },
        ap (drop 2) (rw first at whole ∙ e),
      )
