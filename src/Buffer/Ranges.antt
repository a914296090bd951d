-- ===== src/Buffer/Ranges.antt =====
-- Gaps made and cut in the middle of a buffer's data.
use fdm.Buffer.Invariant.{IsValid, contents, Holds, Stops, ensure-Holds}
use fdm.Buffer.Memory.{
  splice, memmove_lem, length-splice, length-window, window-splice_end, window-splice_before,
  window-splice_self,
}
use fdm.Buffer.{Allocator, Buffer, ensure, memmove, insert_range, delete_range}
use fdm.Outcome.{ok, ◌>>=◌, Ends, Returns, Ends->>=, Ends-mono}
use fdm.Prelude.{
  ℕ, ◌+◌, ◌-◌, ◌%◌, ◌≤◌, ◌<◌, ◌≡◌, refl, sym, ap, ◌∙◌, inl, inr, false, ◌++◌, arith, ltb, ◌==◌,
  Bool-cases, length, take, drop, take-append-drop, drop-drop, drop-take, take-take_le, Bytes,
  size_mod, sub_size,
}

-- `c` holds the data of `b` with a gap of `n` bytes at `at`.
pub record Gapped (b : Buffer) (at n : ℕ) (c : Buffer) : Type 0 where
  pub valid : IsValid c
  pub size_is : c.size ≡ b.size + n
  pub before : take at (contents c) ≡ take at (contents b)
  pub after : drop (at + n) (contents c) ≡ drop at (contents b)

-- The end of a window, as a window.
window-in :
    (off at j k n : ℕ) (mem : Bytes)
    → off + at ≡ j
    → at + k ≡ n
    → drop at (take n (drop off mem)) ≡ take k (drop j mem)
window-in off at j k n mem e f =
    drop-take k at n (drop off mem) f ∙ ap (take k) (drop-drop at off j mem e)

gap :
    (b c : Buffer) (at n : ℕ)
    → IsValid b
    → Holds b n c
    → at ≤ b.size
    → Returns (Gapped b at n) (
        memmove c.base (c.off + at + n) (c.off + at) (c.size - at) >>= λ base.
        ok (record c { base = base; size = (c.size + n) % size_mod }))
gap b c at n v h le =
    let w = h.valid in
    let k = c.size - at in
    let moved = take k (drop (c.off + at) c.base) in
    let l : length moved ≡ k = length-window c.base (c.off + at) k (omega (arith, h.same_size)) in
    let fits : c.off + at + n + length moved ≤ length c.base = omega (arith, h.free, h.same_size) in
    let sum : (c.size + n) % size_mod ≡ c.size + n = omega (arith, h.free, w.bounded) in
    let mem = splice c.base (c.off + at + n) moved in
    rw
      (
        memmove_lem c.base (c.off + at + n) (c.off + at) k (omega (arith, h.same_size))
            (omega (arith, h.free, h.same_size)),
        sum,
      )
      (record {
        valid = record {
          block = length-splice c.base (c.off + at + n) moved fits ∙ w.block;
          room = omega (arith, h.free);
          positive = w.positive;
          bounded = w.bounded;
        };
        size_is = omega (arith, h.same_size);
        before =
            take-take_le at (c.size + n) (drop c.off mem) (omega (arith, h.same_size))
            ∙ window-splice_before c.base c.off at (c.off + at + n) moved (omega arith)
                (omega arith)
            ∙ sym (take-take_le at c.size (drop c.off c.base) (omega (arith, h.same_size)))
            ∙ ap (take at) h.same;
        after =
            window-in (c.off) (at + n) (c.off + at + n) k (c.size + n) mem (omega arith)
              (omega (arith, h.same_size))
            ∙ window-splice_self c.base (c.off + at + n) k moved (omega arith) l
            ∙ sym
                (window-in c.off at (c.off + at) k c.size c.base refl (omega (arith, h.same_size)))
            ∙ ap (drop at) h.same;
      })

-- `buffer_delete_range` inside the data of a valid buffer returns: it cuts out the `n` bytes at
-- `at`, keeps those on either side, and keeps the buffer valid.
pub delete_range-contents :
    (b : Buffer) (at n : ℕ)
    → IsValid b
    → 0 < n
    → at + n ≤ b.size
    → Returns
        (λ c. IsValid c × (contents c ≡ take at (contents b) ++ drop (at + n) (contents b)))
        (delete_range b at n)
unfolding delete_range
delete_range-contents b at n v pos le =
    let nonzero : (n == 0) ≡ false = ground arith in
    let within : ltb b.size n ≡ false = ground arith in
    let sum : (at + n) % size_mod ≡ at + n = omega arith in
    let inside : ltb b.size (at + n) ≡ false = ground arith in
    let k = b.size - at - n in
    let e : sub_size (sub_size b.size at) n ≡ k = omega arith in
    let tail = take k (drop (b.off + at + n) b.base) in
    let l : length tail ≡ k = length-window b.base (b.off + at + n) k (omega arith) in
    rw
      (
        nonzero,
        within,
        sum,
        inside,
        e,
        memmove_lem b.base (b.off + at) (b.off + at + n) k (omega arith) (omega arith),
      )
      (
        record {
          block = length-splice b.base (b.off + at) tail (omega arith) ∙ v.block;
          room = omega arith;
          positive = v.positive;
          bounded = v.bounded;
        },
        window-splice_end b.base b.off at (b.size - n) tail (omega arith) (omega arith)
            ∙ ap (λ x. x ++ tail) (sym (take-take_le at b.size (drop b.off b.base) (omega arith)))
            ∙ ap (λ x. take at (contents b) ++ x)
                (sym (
                  window-in b.off (at + n) (b.off + at + n) k b.size b.base (omega arith)
                    (omega arith))),
      )

-- A gap made by `buffer_insert_range` inside the data of a valid buffer: the bytes before it and
-- behind it are those of the old data, in a valid buffer that is `n` bytes longer. It stops the
-- process only if the gap is empty, if the result passes half the address space, or if the allocator
-- refuses.
pub insert_range-Gapped :
    (al : Allocator) (b : Buffer) (at n : ℕ)
    → IsValid b
    → at ≤ b.size
    → Ends (Stops al b n) (Gapped b at n) (insert_range al b at n)
unfolding insert_range
insert_range-Gapped al b at n v le = elim (Bool-cases (n == 0)) [
  | inl zero_size ↦ rw zero_size (inl (ground arith))
  | inr some_size ↦
      let inside : ltb b.size at ≡ false = ground arith in
      rw (some_size, inside)
        (Ends->>= _ (Holds b n) (Gapped b at n) (ensure al b n) _ (ensure-Holds al b n v) (λ c h.
          Ends-mono _ _ _ (Gapped b at n) _ (gap b c at n v h le) (λ f. absurd f) (λ d a. a)))
]

-- Cutting out the gap that `buffer_insert_range` has made in a valid buffer returns, and gives back
-- the data.
pub delete_range-insert_range :
    (al : Allocator) (b c : Buffer) (at n : ℕ)
    → IsValid b
    → 0 < n
    → at ≤ b.size
    → insert_range al b at n ≡ ok c
    → Returns (λ d. IsValid d × (contents d ≡ contents b)) (delete_range c at n)
delete_range-insert_range al b c at n v pos le e =
    let g : Gapped b at n c = rw e at (insert_range-Gapped al b at n v le) in
    Ends-mono _ _ _ (λ d. IsValid d × (contents d ≡ contents b)) (delete_range c at n)
      (delete_range-contents c at n g.valid pos (omega (arith, g.size_is))) (λ f. f)
      (λ d (w, cut). (
        w,
        cut
            ∙ ap (λ x. x ++ drop (at + n) (contents c)) g.before
            ∙ ap (λ x. take at (contents b) ++ x) g.after
            ∙ take-append-drop at (contents b),
      ))
