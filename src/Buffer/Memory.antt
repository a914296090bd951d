-- ===== src/Buffer/Memory.antt =====
-- Blocks of memory under the operations of buffer.c: which bytes a window `take n (drop i mem)`
-- holds after a write, a move or a reallocation.
use fdm.Buffer.{Allocator, fresh, realloc, write_at, read_at, memmove}
use fdm.Outcome.{ok}
use fdm.Prelude.{
  ℕ, zero, suc, ◌+◌, ◌-◌, ◌≤◌, ◌≡◌, refl, ap, ◌++◌, append_assoc, arith, length, take, drop,
  length-append, length-drop, take-append_exact, drop-append_exact, take-all, take-append_le,
  drop-append_le, drop-take, take-take_le, length-take_le, Bytes,
}

pub length-fresh : (al : Allocator) (i n : ℕ) → length (fresh al i n) ≡ n
unfolding fresh
length-fresh al i zero = refl
length-fresh al i (suc n) = ap suc (length-fresh al (i + 1) n)

-- The block with `bs` in place of the bytes at `i`.
abbrev pub splice : Bytes → ℕ → Bytes → Bytes
splice mem i bs = take i mem ++ (bs ++ drop (i + length bs) mem)

pub length-splice :
    (mem : Bytes) (i : ℕ) (bs : Bytes)
    → i + length bs ≤ length mem
    → length (splice mem i bs) ≡ length mem
length-splice mem i bs h = omega (
  arith,
  length-append (take i mem) (bs ++ drop (i + length bs) mem),
  length-append bs (drop (i + length bs) mem),
  length-take_le i mem,
  length-drop (i + length bs) mem,
)

pub write_at_lem :
    (mem : Bytes) (i : ℕ) (bs : Bytes)
    → i + length bs ≤ length mem
    → write_at mem i bs ≡ ok (splice mem i bs)
unfolding write_at
write_at_lem mem i bs h = ground arith

pub read_at_lem :
    (mem : Bytes) (i n : ℕ) → i + n ≤ length mem → read_at mem i n ≡ ok (take n (drop i mem))
unfolding read_at
read_at_lem mem i n h = ground arith

pub length-window : (mem : Bytes) (i n : ℕ) → i + n ≤ length mem → length (take n (drop i mem)) ≡ n
length-window mem i n h = length-take_le n (drop i mem) (omega (arith, length-drop i mem))

pub memmove_lem :
    (mem : Bytes) (dst src n : ℕ)
    → src + n ≤ length mem
    → dst + n ≤ length mem
    → memmove mem dst src n ≡ ok (splice mem dst (take n (drop src mem)))
unfolding memmove
memmove_lem mem dst src n h k = rw (read_at_lem mem src n h) (
    write_at_lem mem dst (take n (drop src mem)) (let e = length-window mem src n h in omega arith))

pub length-realloc :
    (al : Allocator) (mem : Bytes) (n : ℕ) → length mem ≤ n → length (realloc al mem n) ≡ n
unfolding realloc
length-realloc al mem n h = rw (take-all n mem h) (
    omega (
      arith,
      length-append mem (fresh al (length mem) (n - length mem)),
      length-fresh al (length mem) (n - length mem),
    ))

-- Growing a block keeps every window of it.
pub window-realloc :
    (al : Allocator) (mem : Bytes) (n i k : ℕ)
    → length mem ≤ n
    → i + k ≤ length mem
    → take k (drop i (realloc al mem n)) ≡ take k (drop i mem)
unfolding realloc
window-realloc al mem n i k h w = rw (take-all n mem h) (
    rw (drop-append_le i mem (fresh al (length mem) (n - length mem)) (omega arith)) (
      take-append_le k (drop i mem) (fresh al (length mem) (n - length mem))
        (omega (arith, length-drop i mem))))

-- What is written right behind a window extends it.
pub window-splice_end :
    (mem : Bytes) (i n k : ℕ) (bs : Bytes)
    → i + n + length bs ≤ length mem
    → n + length bs ≡ k
    → take k (drop i (splice mem (i + n) bs)) ≡ take n (drop i mem) ++ bs
window-splice_end mem i n k bs h e =
    let rest = bs ++ drop (i + n + length bs) mem in
    rw (drop-append_le i (take (i + n) mem) rest (omega (arith, length-take_le (i + n) mem))) (
      rw (drop-take n i (i + n) mem refl) (
        rw (← append_assoc) (
          take-append_exact (take n (drop i mem) ++ bs) (drop (i + n + length bs) mem) k
            (omega (arith, length-append (take n (drop i mem)) bs, length-window mem i n)))))

-- A write further on leaves a window alone.
pub window-splice_before :
    (mem : Bytes) (i n j : ℕ) (bs : Bytes)
    → i + n ≤ j
    → j ≤ length mem
    → take n (drop i (splice mem j bs)) ≡ take n (drop i mem)
window-splice_before mem i n j bs h l =
    let rest = bs ++ drop (j + length bs) mem in
    rw (drop-append_le i (take j mem) rest (omega (arith, length-take_le j mem))) (
      rw (drop-take (j - i) i j mem (omega arith)) (
        rw
          (take-append_le n (take (j - i) (drop i mem)) rest
            (omega (arith, length-window mem i (j - i))))
          (take-take_le n (j - i) (drop i mem) (omega arith))))

-- What was written is found where it was written.
pub window-splice_self :
    (mem : Bytes) (i n : ℕ) (bs : Bytes)
    → i ≤ length mem
    → length bs ≡ n
    → take n (drop i (splice mem i bs)) ≡ bs
window-splice_self mem i n bs l e =
    rw (drop-append_exact (take i mem) (bs ++ drop (i + length bs) mem) i (length-take_le i mem l))
      (take-append_exact bs (drop (i + length bs) mem) n e)

-- Bytes behind the block leave its windows alone.
pub window-append :
    (mem more : Bytes) (i n : ℕ)
    → i + n ≤ length mem
    → take n (drop i (mem ++ more)) ≡ take n (drop i mem)
window-append mem more i n w =
    rw (drop-append_le i mem more (omega arith))
      (take-append_le n (drop i mem) more (omega (arith, length-drop i mem)))
