-- ===== src/Buffer/Invariant.antt =====
-- The well-formed buffers, and what `buffer_ensure` does to one.
use fdm.Buffer.Memory.{
  splice, memmove_lem, length-splice, window-splice_self, length-window, length-realloc,
  window-realloc,
}
use fdm.Buffer.{Allocator, Buffer, xrealloc, realloc, grow, rewind, ensure, free_space}
use fdm.Outcome.{Ends, Returns, Ends->>=, Ends-mono}
use native.Mathlib.Nat.{pow-suc}
use fdm.Prelude.{
  ℕ, zero, suc, ◌+◌, ◌-◌, ◌*◌, ◌/◌, ◌%◌, ◌^◌, ◌≤◌, ◌<◌, ◌≡◌, refl, ◌∙◌, ◌⊎◌, inl, inr, false, arith,
  ltb, leb, ◌==◌, Bool-cases, length, take, drop, Bytes, size_mod, size_max,
}

-- The data lies inside the block, whose recorded size is right and fits a `size_t`.
pub record IsValid (b : Buffer) : Type 0 where
  pub block : length b.base ≡ b.space
  pub room : b.off + b.size ≤ b.space
  pub positive : 0 < b.space
  pub bounded : b.space ≤ size_max

-- The bytes that the buffer holds, first in first.
abbrev pub contents : Buffer → Bytes
contents b = take b.size (drop b.off b.base)

-- `c` is a valid buffer with the data of `b`, and `n` free bytes behind it.
pub record Holds (b : Buffer) (n : ℕ) (c : Buffer) : Type 0 where
  pub valid : IsValid c
  pub same_size : c.size ≡ b.size
  pub same : contents c ≡ contents b
  pub free : c.off + c.size + n ≤ c.space

pub length-contents : (b : Buffer) → IsValid b → length (contents b) ≡ b.size
length-contents b v = length-window b.base b.off b.size (omega arith)

-- The data of a valid buffer, moved to the start of its block.
rewound : Buffer → Bytes → Buffer
rewound b mem = record b { base = mem; off = 0 }

-- Why a buffer of `n` bytes may be refused: it passes half the address space, or the allocator
-- says no to a block of less than twice that size.
abbrev pub Refuses : Allocator → ℕ → Type 0
Refuses al n = (9223372036854775808 < n) ⊎ ((k : ℕ) × (k < 2 * n) × (al.grants k ≡ false))

rewind-Holds : (b : Buffer) → IsValid b → Returns (λ c. Holds b 0 c × (c.off ≡ 0)) (rewind b)
unfolding rewind
rewind-Holds b v = elim (Bool-cases (ltb 0 b.off)) [
  | inl moved ↦ elim (Bool-cases (ltb 0 b.size)) [
    | inl some_data ↦
        let mem = splice b.base 0 (contents b) in
        let fits : 0 + length (contents b) ≤ length b.base = omega (arith, length-contents b v) in
        rw (moved, some_data, memmove_lem b.base 0 b.off b.size (omega arith) (omega arith))
          (
            record {
              valid = record {
                block = length-splice b.base 0 (contents b) fits ∙ v.block;
                room = omega arith;
                positive = v.positive;
                bounded = v.bounded;
              };
              same_size = refl;
              same =
                  window-splice_self b.base 0 b.size (contents b) (omega arith)
                    (length-contents b v);
              free = omega arith;
            },
            refl,
          )
    | inr no_data ↦
        let none_left : b.size ≡ 0 = ground arith in
        rw (moved, no_data)
          (
            record {
              valid = record {
                block = v.block;
                room = omega arith;
                positive = v.positive;
                bounded = v.bounded;
              };
              same_size = refl;
              same = rw none_left;
              free = omega arith;
            },
            refl,
          )
  ]
  | inr unmoved ↦
      rw unmoved
        (record { valid = v; same_size = refl; same = refl; free = omega arith }, ground arith)
]

-- A block of at most half the address space is doubled, if the allocator grants it.
xrealloc_double :
    (al : Allocator) (mem : Bytes) (n need : ℕ)
    → 0 < n
    → n < need
    → Ends
        (Refuses al need)
        (λ r. (r ≡ realloc al mem (2 * n)) × (2 * n ≤ size_max))
        (xrealloc al mem 2 n)
unfolding xrealloc
xrealloc_double al mem n need h l = elim (Bool-cases (ltb (size_max / 2) n)) [
  | inl big ↦
      let too_big : 9223372036854775808 < need = ground arith in
      elim (Bool-cases ((2 * n) % size_mod == 0)) [
        | inl wraps ↦ rw wraps (inl too_big)
        | inr some_size ↦ rw (some_size, big) (inl too_big)
      ]
  | inr small ↦
      let e : (2 * n) % size_mod ≡ 2 * n = ground arith in
      let z : (2 * n == 0) ≡ false = ground arith in
      elim (Bool-cases (al.grants (2 * n))) [
        | inl granted ↦ rw (e, z, small, granted) (refl, ground arith)
        | inr refused ↦ rw (e, z, small, refused) (inr (2 * n, omega (arith, l), refused))
      ]
]

abbrev Grown : Buffer → ℕ → Buffer → Type 0
Grown b need c =
    IsValid c × (c.size ≡ b.size) × (c.off ≡ b.off) × (contents c ≡ contents b) × (need ≤ c.space)

grow-Grown :
    (al : Allocator) (fuel need : ℕ) (b : Buffer)
    → IsValid b
    → size_max < b.space * 2 ^ fuel
    → Ends (Refuses al need) (Grown b need) (grow al (suc fuel) need b)
unfolding grow
grow-Grown al zero need b v h = absurd (omega arith)
grow-Grown al (suc fuel) need b v h = elim (Bool-cases (ltb b.space need)) [
  | inr enough ↦ rw (enough, grow) (v, refl, refl, refl, ground arith)
  | inl short ↦
      rw (short, grow)
        (Ends->>= _ (λ r. (r ≡ realloc al b.base (2 * b.space)) × (2 * b.space ≤ size_max))
          (Grown b need) (xrealloc al b.base 2 b.space) _
          (xrealloc_double al b.base b.space need v.positive (ground arith))
          (λ r (e, le).
            let c : Buffer = record b { base = r; space = b.space * 2 } in
            let kept : contents c ≡ contents b =
              rw e
                (window-realloc al b.base (2 * b.space) b.off b.size (omega arith) (omega arith)) in
            let w : IsValid c = record {
              block = rw e (length-realloc al b.base (2 * b.space) (omega arith) ∙ omega arith);
              room = omega arith;
              positive = omega arith;
              bounded = omega arith;
            } in
            Ends-mono _ _ (Grown c need) (Grown b need) (grow al (suc fuel) need c)
              (grow-Grown al fuel need c w (let h' = rw pow-suc at h in omega arith)) (λ f. f)
              (λ d g. (g.0, g.1, g.2, g.3 ∙ kept, g.4))))
]

-- Why `buffer_ensure` may stop the process.
abbrev pub Stops : Allocator → Buffer → ℕ → Type 0
Stops al b n = (n ≡ 0) ⊎ Refuses al (b.size + n)

-- `buffer_ensure` keeps a valid buffer valid and its data as they are, and gives the space asked for.
-- It never leaves the block, its loop ends, and it stops the process only if no space is asked for,
-- if the result passes half the address space, or if the allocator refuses.
pub ensure-Holds :
    (al : Allocator) (b : Buffer) (n : ℕ)
    → IsValid b
    → Ends (Stops al b n) (Holds b n) (ensure al b n)
unfolding ensure
ensure-Holds al b n v = elim (Bool-cases (n == 0)) [
  | inl zero_size ↦ rw zero_size (inl (ground arith))
  | inr some_size ↦ elim (Bool-cases (leb n (free_space b))) [
    | inl enough ↦
        rw (some_size, enough)
          (record { valid = v; same_size = refl; same = refl; free = ground arith })
    | inr short ↦
        rw (some_size, short)
          (Ends->>= _ (λ c. Holds b 0 c × (c.off ≡ 0)) (Holds b n) (rewind b) _
            (Ends-mono _ _ _ _ (rewind b) (rewind-Holds b v) (λ f. absurd f) (λ c h. h))
            (λ r (hr, at_zero). elim (Bool-cases (ltb (size_max - r.size) n)) [
              | inl too_big ↦ rw too_big (inr (inl (ground (arith, hr.same_size, v.bounded))))
              | inr fits ↦ rw fits (
                  Ends-mono _ _ (Grown r (r.size + n)) (Holds b n) (grow al 65 (r.size + n) r)
                    (grow-Grown al 64 (r.size + n) r hr.valid (omega (arith, hr.valid)))
                    (λ f. inr (rw hr.same_size at f))
                    (λ d g. record {
                      valid = g.0;
                      same_size = g.1 ∙ hr.same_size;
                      same = g.3 ∙ hr.same;
                      free = omega (arith, g.4, g.2, g.1, at_zero);
                    }))
            ]))
  ]
]
