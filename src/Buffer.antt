-- ===== src/Buffer.antt =====
-- buffer.c: a growing byte buffer. `base` is the allocated block, whose length is `space`; `off`
-- and `size` are the offset and the size of the data in it.
pub mod Memory
pub mod Invariant
pub mod Queue
pub mod Ranges
pub mod Fifo
use fdm.Outcome.{Outcome, ok, fatal, fault, diverge, ◌>>=◌, ◌>>◌, fatal_if}
use fdm.Prelude.{
  ℕ, zero, suc, ◌+◌, ◌-◌, ◌*◌, ◌/◌, ◌%◌, ◌^◌, ◌≤◌, ◌<◌, ◌≡◌, refl, sym, ap, ◌∙◌, ◌≢◌, ◌↔◌, ◌⊎◌, inl,
  inr, Bool, true, false, not, ◌&&◌, ◌||◌, Option, none, some, List, [], ◌∷◌, ◌++◌, map, append-nil,
  append_assoc, arith, ltb, leb, ◌==◌, if◌then◌else◌, ==_iff, Bool-cases, Option-cases, length,
  get_elem?, take, drop, length-append, length-take, length-drop, take-append-drop,
  take-append_exact, drop-append_exact, take-all, take-append_le, drop-append_le, drop-drop,
  drop-take, take-add, take-take_le, length-take_le, list_cases, All, All-append, get_elem-All,
  Bytes, codes, size_mod, size_max, sub_size, add_size, u32_mod, memchr, to_lower, is_space,
  is_blank, is_digit, bytes_eq, starts_with_case, starts_with, eq_self, bytes_eq_refl,
}

-- The C library's allocator: whether `malloc` or `realloc` grants a block of that many bytes, and
-- which byte a fresh block holds at an index.
pub record Allocator : Type 0 where
  pub grants : ℕ → Bool
  pub junk : ℕ → ℕ

-- `n` fresh bytes from index `i` on.
pub fresh : Allocator → ℕ → ℕ → Bytes
fresh al i zero = []
fresh al i (suc n) = al.junk i ∷ fresh al (i + 1) n

-- A block that is cut or extended to `n` bytes, as `realloc` leaves it.
unfoldable pub realloc : Allocator → Bytes → ℕ → Bytes
realloc al mem n = take n mem ++ fresh al (length mem) (n - length mem)

unfoldable pub xmalloc : Allocator → ℕ → Outcome Bytes
xmalloc al size = do fatal_if (size == 0); if al.grants size then ok (fresh al 0 size) else fatal

unfoldable pub xrealloc : Allocator → Bytes → ℕ → ℕ → Outcome Bytes
xrealloc al mem nmemb size = do
  let newsize = (nmemb * size) % size_mod
  fatal_if (newsize == 0)
  fatal_if (ltb (size_max / nmemb) size)
  if al.grants newsize then ok (realloc al mem newsize) else fatal

-- Bytes `bs` written at index `i` of a block; past its end is a fault.
unfoldable pub write_at : Bytes → ℕ → Bytes → Outcome Bytes
write_at mem i bs =
    if leb (i + length bs) (length mem)
    then ok (take i mem ++ (bs ++ drop (i + length bs) mem))
    else fault

-- `n` bytes read from index `i` of a block.
unfoldable pub read_at : Bytes → ℕ → ℕ → Outcome Bytes
read_at mem i n = if leb (i + n) (length mem) then ok (take n (drop i mem)) else fault

-- `memmove` inside one block.
unfoldable pub memmove : Bytes → ℕ → ℕ → ℕ → Outcome Bytes
memmove mem dst src n = do bs ← read_at mem src n; write_at mem dst bs

pub record Buffer : Type 0 where
  pub base : Bytes
  pub space : ℕ
  pub size : ℕ
  pub off : ℕ

-- BUFFER_FREE, in `size_t`.
abbrev pub free_space : Buffer → ℕ
free_space b = sub_size (sub_size b.space b.off) b.size

-- The memory of the struct itself is there.
unfoldable pub create : Allocator → ℕ → Outcome Buffer
create al size = do
  fatal_if (size == 0)
  base ← xmalloc al size
  ok (record { base = base; space = size; size = 0; off = 0 })

unfoldable pub clear : Buffer → Buffer
clear b = record b { size = 0; off = 0 }

-- The loop of `buffer_ensure`; each round doubles the block.
unfoldable pub grow : Allocator → ℕ → ℕ → Buffer → Outcome Buffer
grow al zero need b = diverge
grow al (suc fuel) need b = elim (ltb b.space need) [
  | false ↦ ok b
  | true ↦
      xrealloc al b.base 2 b.space
      >>= (λ base. grow al fuel need (record b { base = base; space = b.space * 2 }))
]

-- The data is moved down to the start of the block.
unfoldable pub rewind : Buffer → Outcome Buffer
rewind b =
    if ltb 0 b.off
    then (if ltb 0 b.size then memmove b.base 0 b.off b.size else ok b.base)
      >>= (λ base. ok (record b { base = base; off = 0 }))
    else ok b

unfoldable pub ensure : Allocator → Buffer → ℕ → Outcome Buffer
ensure al b size = do
  fatal_if (size == 0)
  if leb size (free_space b)
      then ok b
      else rewind b
        >>= (λ r. fatal_if (ltb (size_max - r.size) size) >> grow al 65 (r.size + size) r)

unfoldable pub add : Buffer → ℕ → Outcome Buffer
add b size = do
  fatal_if (size == 0)
  fatal_if (ltb (sub_size b.space b.size) size)
  ok (record b { size = add_size b.size size })

unfoldable pub reverse_add : Buffer → ℕ → Outcome Buffer
reverse_add b size = do
  fatal_if (size == 0)
  fatal_if (ltb b.size size)
  ok (record b { size = b.size - size })

unfoldable pub remove : Buffer → ℕ → Outcome Buffer
remove b size = do
  fatal_if (size == 0)
  fatal_if (ltb b.size size)
  ok (record b { size = b.size - size; off = add_size b.off size })

unfoldable pub reverse_remove : Buffer → ℕ → Outcome Buffer
reverse_remove b size = do
  fatal_if (size == 0)
  fatal_if (ltb b.off size)
  ok (record b { size = add_size b.size size; off = b.off - size })

-- Makes a gap of `size` bytes at index `at` of the data.
unfoldable pub insert_range : Allocator → Buffer → ℕ → ℕ → Outcome Buffer
insert_range al b at size = do
  fatal_if (size == 0)
  fatal_if (ltb b.size at)
  c ← ensure al b size
  base ← memmove c.base (c.off + at + size) (c.off + at) (c.size - at)
  ok (record c { base = base; size = add_size c.size size })

unfoldable pub delete_range : Buffer → ℕ → ℕ → Outcome Buffer
delete_range b at size = do
  fatal_if (size == 0)
  fatal_if (ltb b.size size)
  fatal_if (ltb b.size (add_size at size))
  base ← memmove b.base (b.off + at) (b.off + at + size) (sub_size (sub_size b.size at) size)
  ok (record b { base = base; size = b.size - size })

-- `memcpy(BUFFER_IN(b), bs)`.
unfoldable pub put_bytes : Buffer → Bytes → Outcome Buffer
put_bytes b bs = do base ← write_at b.base (b.off + b.size) bs; ok (record b { base = base })

-- `size` is the length of the data handed in.
unfoldable pub write : Allocator → Buffer → Bytes → Outcome Buffer
write al b bs = do
  fatal_if (length bs == 0)
  c ← ensure al b (length bs)
  d ← put_bytes c bs
  add d (length bs)

unfoldable pub read : Buffer → ℕ → Outcome (Bytes × Buffer)
read b size = do
  fatal_if (size == 0)
  fatal_if (ltb b.size size)
  bs ← read_at b.base b.off size
  c ← remove b size
  ok (bs, c)

unfoldable pub write8 : Allocator → Buffer → ℕ → Outcome Buffer
write8 al b n = do c ← ensure al b 1; d ← put_bytes c (n ∷ []); add d 1

-- `n & 0xff` and `n >> 8`.
unfoldable pub write16 : Allocator → Buffer → ℕ → Outcome Buffer
write16 al b n = do c ← ensure al b 2; d ← put_bytes c (n % 256 ∷ n / 256 ∷ []); add d 2

unfoldable pub read8 : Buffer → Outcome (ℕ × Buffer)
read8 b = do bs ← read_at b.base b.off 1; c ← remove b 1; elim bs [ [] ↦ fault | x ∷ _ ↦ ok (x, c) ]

-- The two bytes do not overlap, so `|` is a sum.
unfoldable pub read16 : Buffer → Outcome (ℕ × Buffer)
read16 b = do
  bs ← read_at b.base b.off 2
  c ← remove b 2
  elim bs [ [] ↦ fault | x ∷ r ↦ elim r [ [] ↦ fault | y ∷ _ ↦ ok (x + y * 256, c) ] ]
