-- ===== src/Mail/Insert.antt =====
-- `insert_header` of mail.c: the bytes that go into the mail.
use fdm.Buffer.Memory.{splice, length-splice, write_at_lem, memmove_lem, length-window}
use fdm.Mail.{Mail, contents}
use fdm.Mail.Append.{IsHuge, Resized, mail_resize-Resized}
use fdm.Mail.Lines.{IsMail}
use fdm.Mail.Store.{insert_place, newline_run, insert_bytes, insert_header, mail_resize}
use fdm.Outcome.{ok, Ends, Returns, Ends->>=, Ends-mono}
use mathlib.Core.Path.{ap₂}
use fdm.Prelude.{
  ℕ, zero, suc, ◌+◌, ◌-◌, ◌%◌, ◌≤◌, ◌<◌, ◌≡◌, refl, sym, ap, ◌∙◌, Bool, false, Option, none, some,
  ◌++◌, append_assoc, arith, length, take, drop, length-append, take-append_exact,
  drop-append_exact, take-append_le, drop-append_le, drop-drop, drop-take, take-take_le,
  length-take_le, Bytes, size_mod, size_max,
}

length-newline_run : (n : ℕ) → length (newline_run n) ≡ n
unfolding newline_run
length-newline_run zero = refl
length-newline_run (suc n) = ap suc (length-newline_run n)

-- Two writes next to each other are one.
splice-splice :
    (mem : Bytes) (i : ℕ) (a b : Bytes)
    → i + length a + length b ≤ length mem
    → splice (splice mem i a) (i + length a) b ≡ splice mem i (a ++ b)
splice-splice mem i a b h =
    let n = i + length a in
    let k = n + length b in
    let first = take i mem in
    let rest = drop n mem in
    let len : length (first ++ a) ≡ n =
      omega (arith, length-append first a, length-take_le i mem (omega arith)) in
    let p : take n (first ++ (a ++ rest)) ≡ first ++ a =
      ap (take n) (sym (append_assoc first a rest)) ∙ take-append_exact (first ++ a) rest n len in
    let q : drop k (first ++ (a ++ rest)) ≡ drop k mem =
      sym (drop-drop (length b) n k (first ++ (a ++ rest)) refl)
      ∙ ap (drop (length b)) (
          ap (drop n) (sym (append_assoc first a rest)) ∙ drop-append_exact (first ++ a) rest n len)
      ∙ drop-drop (length b) n k mem refl in
    ap₂ (λ x y. x ++ (b ++ y)) p q
    ∙ append_assoc first a (b ++ drop k mem)
    ∙ ap (λ x. first ++ x) (sym (append_assoc a b (drop k mem)))
    ∙ ap (λ x. first ++ ((a ++ b) ++ drop x mem)) (omega (arith, length-append a b))

-- The bytes of a window move up by the length of `bs`, which is written into the gap.
opened :
    (mem : Bytes) (i at k len : ℕ) (bs : Bytes)
    → length bs ≡ len
    → i + at + k + len ≤ length mem
    → take
        (at + k + len)
        (drop i (splice (splice mem (i + at + len) (take k (drop (i + at) mem))) (i + at) bs))
      ≡ take at (drop i mem) ++ (bs ++ take k (drop (i + at) mem))
opened mem i at k len bs e h =
    let j = i + at + len in
    let tail = take k (drop (i + at) mem) in
    let rest = drop (j + length tail) mem in
    let first = take at (drop i mem) in
    let tail_len : length tail ≡ k = length-window mem (i + at) k (omega arith) in
    let j_len : length (take j mem) ≡ j = length-take_le j mem (omega arith) in
    let p : take (i + at) (splice mem j tail) ≡ take (i + at) mem =
      take-append_le (i + at) (take j mem) (tail ++ rest) (omega (arith, j_len))
      ∙ take-take_le (i + at) j mem (omega arith) in
    let q : drop (i + at + length bs) (splice mem j tail) ≡ tail ++ rest =
      ap (λ n. drop (i + at + n) (splice mem j tail)) e
      ∙ drop-append_exact (take j mem) (tail ++ rest) j j_len in
    let whole : drop i (splice (splice mem j tail) (i + at) bs) ≡ (first ++ (bs ++ tail)) ++ rest =
      ap (drop i) (ap₂ (λ x y. x ++ (bs ++ y)) p q)
      ∙ drop-append_le i (take (i + at) mem) (bs ++ (tail ++ rest))
          (omega (arith, length-take_le (i + at) mem (omega arith)))
      ∙ ap (λ x. x ++ (bs ++ (tail ++ rest))) (drop-take at i (i + at) mem refl)
      ∙ ap (λ x. first ++ x) (sym (append_assoc bs tail rest))
      ∙ sym (append_assoc first (bs ++ tail) rest) in
    ap (take (at + k + len)) whole
    ∙ take-append_exact (first ++ (bs ++ tail)) rest (at + k + len) (
        omega (
          arith,
          length-append first (bs ++ tail),
          length-append bs tail,
          length-window mem i at (omega arith),
          tail_len,
          e,
        ))

-- The header and its newlines stand at `at`, and the body moves with what is behind it.
abbrev pub Inserted : (ℕ → Bool) → Mail → ℕ → Bytes → Option Mail → Type 0
Inserted grants m at new none = (k : ℕ) × (grants k ≡ false)
Inserted grants m at new (some r) =
    IsMail r
    × (contents r ≡ take at (contents m) ++ (new ++ drop at (contents m)))
    × (r.size ≡ m.size + length new)
    × (r.body ≡ (m.body + length new) % size_mod)
    × (r.off ≡ m.off)
    × (r.wrapped ≡ m.wrapped)

insert_bytes-Inserted :
    (grants : ℕ → Bool) (m : Mail) (at n : ℕ) (hdr : Bytes)
    → IsMail m
    → at ≤ m.size
    → m.off + m.size + (length hdr + n) ≤ m.space
    → Returns (λ r. Inserted grants m at (hdr ++ newline_run n) (some r)) (insert_bytes m at n hdr)
unfolding insert_bytes
insert_bytes-Inserted grants m at n hdr v le room =
    let len = length hdr + n in
    let nl = newline_run n in
    let i = m.off + at in
    let tail = take (m.size - at) (drop i m.base) in
    let nl_len = length-newline_run n in
    let all_len : length (hdr ++ nl) ≡ len = omega (arith, length-append hdr nl, nl_len) in
    let tail_len : length tail ≡ m.size - at =
      length-window m.base i (m.size - at) (omega (arith, v.block)) in
    let m1 = splice m.base (i + len) tail in
    let m1_len : length m1 ≡ m.space =
      length-splice m.base (i + len) tail (omega (arith, v.block, tail_len)) ∙ v.block in
    let m2 = splice m1 i hdr in
    let m2_len : length m2 ≡ m.space = length-splice m1 i hdr (omega (arith, m1_len)) ∙ m1_len in
    let m3 = splice m2 (i + length hdr) nl in
    let m3_len : length m3 ≡ m.space =
      length-splice m2 (i + length hdr) nl (omega (arith, m2_len, nl_len)) ∙ m2_len in
    let sum : (m.size + len) % size_mod ≡ m.size + len = omega (arith, v.bounded) in
    let one : m3 ≡ splice m1 i (hdr ++ nl) =
      splice-splice m1 i hdr nl (omega (arith, m1_len, nl_len)) in
    let text : take (m.size + len) (drop m.off m3)
        ≡ take at (drop m.off m.base) ++ ((hdr ++ nl) ++ tail) =
      ap (λ x. take (m.size + len) (drop m.off x)) one
      ∙ ap (λ x. take x (drop m.off (splice m1 i (hdr ++ nl)))) (omega arith)
      ∙ opened m.base m.off at (m.size - at) len (hdr ++ nl) all_len (omega (arith, v.block)) in
    rw
      (
        memmove_lem m.base (i + len) i (m.size - at) (omega (arith, v.block))
            (omega (arith, v.block)),
        write_at_lem m1 i hdr (omega (arith, m1_len)),
        write_at_lem m2 (i + length hdr) nl (omega (arith, m2_len, nl_len)),
        sum,
      )
      (
        record { block = m3_len; room = omega arith; bounded = v.bounded },
        text
            ∙ ap₂ (λ x y. x ++ ((hdr ++ nl) ++ y))
                (sym (take-take_le at m.size (drop m.off m.base) le))
                (sym (
                  drop-take (m.size - at) at m.size (drop m.off m.base) (omega (arith, le))
                  ∙ ap (take (m.size - at)) (drop-drop at m.off i m.base refl))),
        omega (arith, all_len),
        omega (arith, all_len),
        refl,
        refl,
      )

-- `insert_header` at a place that `insert_place` found in a valid mail puts the header and its
-- newlines there, between the bytes before and those behind, and moves the body with them. It fails
-- only where the system refuses a mapping, and stops the process only where the offset and the size
-- pass half the address space.
pub insert_header-Inserted :
    (grants : ℕ → Bool) (m : Mail) (before : Option Bytes) (hdr : Bytes) (at n : ℕ)
    → IsMail m
    → 0 < m.space
    → insert_place m before ≡ ok (some (at, n))
    → at ≤ m.size
    → m.size + (length hdr + n) ≤ size_max
    → Ends
        (IsHuge (m.off + (m.size + (length hdr + n))))
        (Inserted grants m at (hdr ++ newline_run n))
        (insert_header grants m before hdr)
unfolding insert_header
insert_header-Inserted grants m before hdr at n v pos place le small =
    let len = length hdr + n in
    let new = hdr ++ newline_run n in
    let sum : (m.size + len) % size_mod ≡ m.size + len = omega arith in
    rw (place, insert_header, sum)
      (Ends->>= _ (Resized grants m (m.off + (m.size + len))) (Inserted grants m at new)
        (mail_resize grants m (m.size + len)) _ (mail_resize-Resized grants m (m.size + len) v pos)
        (elim [
          | none ↦ λ r. r
          | some r ↦ λ (w, same, o, z, y, p, room).
              Ends->>= _ (λ s. Inserted grants r at new (some s)) (Inserted grants m at new)
                (insert_bytes r at n hdr) _
                (Ends-mono _ _ _ _ (insert_bytes r at n hdr)
                  (insert_bytes-Inserted grants r at n hdr w (omega (arith, z))
                    (omega (arith, z, o)))
                  (λ f. absurd f) (λ c l. l))
                (λ c (l, k, q, b, f, g). (
                  l,
                  k ∙ ap (λ x. take at x ++ (new ++ drop at x)) same,
                  q ∙ ap (λ x. x + length new) z,
                  b ∙ ap (λ x. (x + length new) % size_mod) y,
                  f ∙ o,
                  g ∙ p,
                ))
        ]))
