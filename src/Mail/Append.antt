-- ===== src/Mail/Append.antt =====
-- What `mail_resize` and `append_line` do to the bytes of a mail.
use native.Mathlib.Nat.{pow-suc}
use fdm.Buffer.Memory.{splice, write_at_lem, length-splice, window-splice_end, window-append}
use native.Mathlib.Nat.{add_assoc, add-zero}
use fdm.Buffer.{write_at}
use fdm.Mail.Lines.{IsMail}
use fdm.Mail.Store.{zeros, shm_resize, resize_from, mail_resize, append_bytes, append_line}
use fdm.Mail.{Mail, contents}
use fdm.Outcome.{ok, Ends, Returns, Ends->>=, Ends-mono}
use fdm.Prelude.{
  ℕ, zero, suc, ◌+◌, ◌-◌, ◌*◌, ◌/◌, ◌%◌, ◌^◌, ◌≤◌, ◌<◌, ◌≡◌, refl, sym, ap, ◌∙◌, inl, inr, Bool,
  true, false, Option, none, some, [], ◌∷◌, ◌++◌, append_assoc, arith, ltb, leb, ◌==◌,
  if◌then◌else◌, Bool-cases, length, length-append, take-append-drop, Bytes, size_mod, size_max,
  add_size,
}

length-zeros : (n : ℕ) → length (zeros n) ≡ n
unfolding zeros
length-zeros zero = refl
length-zeros (suc n) = ap suc (length-zeros n)

-- Where `mail_resize` may stop the process: at half the address space.
abbrev pub IsHuge : ℕ → Type 0
IsHuge need = 9223372036854775808 ≤ need

-- A NULL result says that the system refused a mapping; else `r` is the mail with more space.
abbrev pub Resized : (ℕ → Bool) → Mail → ℕ → Option Mail → Type 0
Resized grants m need none = (k : ℕ) × (grants k ≡ false)
Resized grants m need (some r) =
    IsMail r
    × (contents r ≡ contents m)
    × (r.off ≡ m.off)
    × (r.size ≡ m.size)
    × (r.body ≡ m.body)
    × (r.wrapped ≡ m.wrapped)
    × (need < r.space)

shm_resize_double :
    (grants : ℕ → Bool) (mem : Bytes) (n need : ℕ)
    → 0 < n
    → n ≤ need
    → Ends
        (IsHuge need)
        (λ o. elim o [
          | none ↦ (k : ℕ) × (grants k ≡ false)
          | some r ↦ (r ≡ mem ++ zeros (2 * n - length mem)) × (2 * n ≤ size_max)
        ])
        (shm_resize grants mem 2 n)
unfolding shm_resize
shm_resize_double grants mem n need h l = elim (Bool-cases (ltb (size_max / 2) n)) [
  | inl big ↦ let nonzero : (n == 0) ≡ false = ground arith in rw (nonzero, big) (ground arith)
  | inr small ↦
      let nonzero : (n == 0) ≡ false = ground arith in
      elim (Bool-cases (grants (2 * n))) [
        | inl granted ↦ rw (nonzero, small, granted) (refl, ground arith)
        | inr refused ↦ rw (nonzero, small, refused) (2 * n, refused)
      ]
]

Resized-back :
    (grants : ℕ → Bool) (m c : Mail) (need : ℕ)
    → contents c ≡ contents m
    → c.off ≡ m.off
    → c.size ≡ m.size
    → c.body ≡ m.body
    → c.wrapped ≡ m.wrapped
    → (o : Option Mail) → Resized grants c need o
    → Resized grants m need o
Resized-back grants m c need e f g b p none r = r
Resized-back grants m c need e f g b p (some d) (v, k, o, s, y, w, l) =
    (v, k ∙ e, o ∙ f, s ∙ g, y ∙ b, w ∙ p, l)

resize_from-Resized :
    (grants : ℕ → Bool) (fuel need : ℕ) (m : Mail)
    → IsMail m
    → 0 < m.space
    → size_max < m.space * 2 ^ fuel
    → Ends (IsHuge need) (Resized grants m need) (resize_from grants (suc fuel) need m)
unfolding resize_from
resize_from-Resized grants zero need m v pos h = absurd (omega (arith, v.bounded))
resize_from-Resized grants (suc fuel) need m v pos h = elim (Bool-cases (leb m.space need)) [
  | inr enough ↦ rw (enough, resize_from) (v, refl, refl, refl, refl, refl, ground arith)
  | inl short ↦
      rw (short, resize_from)
        (Ends->>= _ _ (Resized grants m need) (shm_resize grants m.base 2 m.space) _
          (shm_resize_double grants m.base m.space need pos (ground arith))
          (elim [
            | none ↦ λ r. r
            | some base ↦ λ (e, le).
                let c : Mail = record m { base = base; space = m.space * 2 } in
                let kept : contents c ≡ contents m = rw e (
                  window-append m.base (zeros (2 * m.space - length m.base)) m.off m.size
                    (omega (arith, v.room, v.block))) in
                let w : IsMail c = record {
                  block = rw e (
                      omega (
                        arith,
                        v.block,
                        length-append m.base (zeros (2 * m.space - length m.base)),
                        length-zeros (2 * m.space - length m.base),
                      ));
                  room = omega (arith, v.room);
                  bounded = omega arith;
                } in
                Ends-mono _ _ (Resized grants c need) (Resized grants m need)
                  (resize_from grants (suc fuel) need c)
                  (resize_from-Resized grants fuel need c w (omega arith)
                    (let h' = rw pow-suc at h in omega arith))
                  (λ f. f) (Resized-back grants m c need kept refl refl refl refl)
          ]))
]

-- `mail_resize` of a valid mail gives room for `n` bytes and one more behind the mail's offset, and
-- keeps the mail. It fails only where the system refuses a mapping, and stops the process only where
-- the offset and the size pass half the address space.
pub mail_resize-Resized :
    (grants : ℕ → Bool) (m : Mail) (n : ℕ)
    → IsMail m
    → 0 < m.space
    → Ends (IsHuge (m.off + n)) (Resized grants m (m.off + n)) (mail_resize grants m n)
unfolding mail_resize
mail_resize-Resized grants m n v pos = elim (Bool-cases (ltb (size_max - m.off) n)) [
  | inl too_big ↦ rw too_big (ground (arith, v.bounded, v.room))
  | inr fits ↦
      rw fits (resize_from-Resized grants 64 (m.off + n) m v pos (omega (arith, v.bounded)))
]

-- The line and its newline stand behind the mail.
abbrev Longer : Mail → Bytes → Mail → Type 0
Longer m line r =
    IsMail r
    × (contents r ≡ contents m ++ (line ++ b'\n' ∷ []))
    × (r.size ≡ m.size + length line + 1)
    × (r.body ≡ m.body)
    × (r.off ≡ m.off)

line_written :
    (m : Mail) (line : Bytes)
    → m.off + m.size + length line ≤ length m.base
    → (if ltb 0 (length line) then write_at m.base (m.off + m.size) line else ok m.base)
      ≡ ok (splice m.base (m.off + m.size) line)
line_written m [] h = ap ok (sym (rw add-zero (take-append-drop (m.off + m.size) m.base)))
line_written m (c ∷ s) h =
    let some_line : ltb 0 (length (c ∷ s)) ≡ true = ground arith in
    rw some_line (write_at_lem m.base (m.off + m.size) (c ∷ s) h)

append_bytes-Longer :
    (m : Mail) (line : Bytes)
    → IsMail m
    → m.off + m.size + length line < m.space
    → Returns (Longer m line) (append_bytes m line)
unfolding append_bytes
append_bytes-Longer m line v fits =
    let at = m.off + m.size in
    let inside : at + length line ≤ length m.base = omega (arith, v.block) in
    let mem = splice m.base at line in
    let same : length mem ≡ length m.base = length-splice m.base at line inside in
    let last : at + length line + 1 ≤ length mem = omega (arith, v.block) in
    let sum : (m.size + (length line + 1)) % size_mod ≡ m.size + length line + 1 =
      omega (arith, v.bounded) in
    let c : Mail = record m {
      base = splice mem (m.off + (m.size + length line)) (b'\n' ∷ []);
      size = m.size + length line + 1;
    } in
    let newline : write_at mem (at + length line) (b'\n' ∷ []) ≡ ok c.base =
      ap (λ i. write_at mem i (b'\n' ∷ [])) (add_assoc m.off m.size (length line))
      ∙ write_at_lem mem (m.off + (m.size + length line)) (b'\n' ∷ []) (omega arith) in
    rw (line_written m line inside) (
      rw (newline, sum)
        (
          record {
            block =
                length-splice mem (m.off + (m.size + length line)) (b'\n' ∷ []) (omega arith)
                ∙ same
                ∙ v.block;
            room = omega arith;
            bounded = v.bounded;
          },
          window-splice_end mem m.off (m.size + length line) (m.size + length line + 1) (b'\n' ∷ [])
                (omega arith) refl
              ∙ ap (λ w. w ++ b'\n' ∷ [])
                  (window-splice_end m.base m.off m.size (m.size + length line) line inside refl)
              ∙ append_assoc (contents m) line (b'\n' ∷ []),
          refl,
          refl,
          refl,
        ))

-- What `append_line` leaves: a mail that holds the line too, or -1 where the system refused.
abbrev pub Appended : (ℕ → Bool) → Mail → Bytes → Option Mail → Type 0
Appended grants m line none = (k : ℕ) × (grants k ≡ false)
Appended grants m line (some r) =
    IsMail r
    × (contents r ≡ contents m ++ (line ++ b'\n' ∷ []))
    × (r.size ≡ m.size + length line + 1)
    × (r.body ≡ m.body)
    × (r.off ≡ m.off)

-- `append_line` puts the line and a newline behind a valid mail and keeps what was there. It fails only
-- where the system refuses a mapping, and stops the process only where the mail passes half the
-- address space.
pub append_line-Appended :
    (grants : ℕ → Bool) (m : Mail) (line : Bytes)
    → IsMail m
    → 0 < m.space
    → m.size + length line + 1 ≤ size_max
    → Ends
        (IsHuge (m.off + (m.size + length line + 1)))
        (Appended grants m line)
        (append_line grants m line)
unfolding append_line
append_line-Appended grants m line v pos small =
    let n = m.size + length line + 1 in
    let sum : add_size (add_size m.size (length line)) 1 ≡ n = omega arith in
    rw sum (
      Ends->>= _ (Resized grants m (m.off + n)) (Appended grants m line) (mail_resize grants m n) _
        (mail_resize-Resized grants m n v pos)
        (elim [
          | none ↦ λ r. r
          | some r ↦ λ (w, same, o, z, y, _, room).
              Ends->>= _ (Longer r line) (Appended grants m line) (append_bytes r line) _
                (Ends-mono _ _ _ _ (append_bytes r line)
                  (append_bytes-Longer r line w (omega arith)) (λ f. absurd f) (λ c l. l))
                (λ c (l, k, q, b, f). (
                  l,
                  k ∙ ap (λ x. x ++ (line ++ b'\n' ∷ [])) same,
                  q ∙ ap (λ x. x + length line + 1) z,
                  b ∙ y,
                  f ∙ o,
                ))
        ]))
