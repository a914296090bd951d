-- ===== src/Io/Lines.antt =====
-- io.c: `io_readline2` takes the first line out of the read buffer.
use fdm.Buffer.{Buffer, remove, read}
use fdm.Buffer.Invariant.{IsValid, contents, length-contents}
use fdm.Buffer.Memory.{read_at_lem}
use fdm.Buffer.Queue.{remove-contents, read-contents}
use fdm.Io.{Io, max_line, find_eol, take_line, readline2}
use fdm.Outcome.{ok, ◌>>=◌, Returns, Ends->>=}
use mathlib.Core.Option
use mathlib.Core.Path.{subst}
use fdm.Prelude.{
  ℕ, zero, suc, ◌+◌, ◌-◌, ◌≤◌, ◌<◌, ◌≡◌, refl, sym, ap, ◌∙◌, inl, inr, true, false, ◌||◌, Option,
  none, some, [], ◌∷◌, ◌++◌, arith, ltb, ◌==◌, if◌then◌else◌, Bool-cases, Option-cases, length,
  take, drop, length-append, take-append_exact, drop-append_exact, take-take_le, Bytes, memchr,
  starts_with, eq_self,
}

starts_with-append : (s t : Bytes) → starts_with (s ++ t) s ≡ true
unfolding starts_with
starts_with-append [] t = refl
starts_with-append (x ∷ s) t = rw (starts_with, ◌++◌, eq_self x) (starts_with-append s t)

-- The first EOL is the one behind a line that does not have its first byte.
find_eol-line :
    (e : ℕ) (es line rest : Bytes)
    → memchr e line ≡ none
    → find_eol (e ∷ es) (line ++ ((e ∷ es) ++ rest)) ≡ some (length line)
unfolding find_eol memchr
find_eol-line e es [] rest z =
    let fits : ltb (length ((e ∷ es) ++ rest)) (length (e ∷ es)) ≡ false =
      (let l = length-append (e ∷ es) rest in ground (arith, l)) in
    rw (eq_self e, fits, starts_with-append (e ∷ es) rest) refl
find_eol-line e es (x ∷ line) rest z = elim (Bool-cases (x == e)) [
  | inl same ↦ absurd (ground (arith, z, same))
  | inr other ↦ elim (Option-cases (memchr e line)) [
    | inr (n, there) ↦ absurd (ground (arith, z, other, there))
    | inl none_there ↦
        rw (find_eol, other) (ap (Option.map suc) (find_eol-line e es line rest none_there))
  ]
]

take-append_ge :
    (n : ℕ) (xs ys : Bytes) → length xs ≤ n → take n (xs ++ ys) ≡ xs ++ take (n - length xs) ys
take-append_ge n [] ys le = ap (λ k. take k ys) (omega arith)
take-append_ge zero (x ∷ xs) ys le = absurd (omega (arith, le))
take-append_ge (suc n) (x ∷ xs) ys le =
    ap (λ l. x ∷ l)
      (take-append_ge n xs ys (omega (arith, le)) ∙ ap (λ k. xs ++ take k ys) (omega arith))

-- The first part of two ways to cut a list at the same place.
same_cut :
    (n : ℕ) (a b c d : Bytes) → length a ≡ n → length c ≡ n → a ++ b ≡ c ++ d → (a ≡ c) × (b ≡ d)
same_cut n a b c d la lc e = (
  sym (take-append_exact a b n la) ∙ ap (take n) e ∙ take-append_exact c d n lc,
  sym (drop-append_exact a b n la) ∙ ap (drop n) e ∙ drop-append_exact c d n lc,
)

-- The result of a call that found the line.
abbrev pub Taken : Bytes → Bytes → Io → Option Bytes × Io → Type 0
Taken line rest io (found, r) =
    (found ≡ some line) × (r ≡ record io { rd = r.rd }) × IsValid r.rd × (contents r.rd ≡ rest)

take_line-Taken :
    (io : Io) (line rest : Bytes)
    → IsValid io.rd
    → 0 < length io.eol
    → contents io.rd ≡ line ++ (io.eol ++ rest)
    → Returns (Taken line rest io) (take_line io (length line))
unfolding take_line
take_line-Taken io line rest v pos e =
    let len : length line + (length io.eol + length rest) ≡ io.rd.size =
      (let a = length-append line (io.eol ++ rest) in
        let b = length-append io.eol rest in
        let c = length-contents io.rd v in let d = ap length e in omega (arith, a, b, c, d)) in
    elim (Bool-cases (length line == 0)) [
      | inl empty ↦
          rw (take_line, empty)
            (let nil : [] ≡ line = nil_of line (ground (arith, empty)) in
              remaining [] io.rd nil v (e ∙ ap (λ l. l ++ (io.eol ++ rest)) (sym nil))
                (omega (arith, len)))
      | inr some_line ↦
          rw (take_line, some_line)
            (Ends->>= ⊥
              (λ p.
                (length p.0 ≡ length line) × IsValid p.1 × (p.0 ++ contents p.1 ≡ contents io.rd))
              (Taken line rest io) (read io.rd (length line)) _
              (read-contents io.rd (length line) v (ground (arith, some_line)) (omega (arith, len)))
              (λ (bs, b) (n, w, same).
                let (front, behind) =
                  same_cut (length line) bs (contents b) line (io.eol ++ rest) n refl (same ∙ e) in
                remaining bs b front w behind (
                  let c = length-contents b w in
                  let d = ap length behind in
                  let a = length-append io.eol rest in omega (arith, a, c, d))))
    ]
  where
    nil_of : (l : Bytes) → length l ≡ 0 → [] ≡ l
    nil_of [] z = refl
    nil_of (x ∷ l) z = absurd (omega (arith, z))

    remaining :
        (bs : Bytes) (b : Buffer)
        → bs ≡ line
        → IsValid b
        → contents b ≡ io.eol ++ rest
        → length io.eol ≤ b.size
        → Returns
            (Taken line rest io)
            (remove b (length io.eol) >>= λ c. ok (some bs, record io { rd = c }))
    remaining bs b front w behind le =
        Ends->>= ⊥ (λ c. IsValid c × (contents c ≡ drop (length io.eol) (contents b)))
          (Taken line rest io) (remove b (length io.eol)) _
          (remove-contents b (length io.eol) w pos le)
          (λ c (u, d). (
            ap some front,
            refl,
            u,
            d
                ∙ ap (drop (length io.eol)) behind
                ∙ drop-append_exact io.eol rest (length io.eol) refl,
          ))

-- Where the read buffer begins with a line and its EOL, whose first byte is not in the line, and both
-- are not longer than the limit, `io_readline2` returns the line, and takes it and its EOL off the
-- buffer.
pub readline2-Taken :
    (io : Io) (e : ℕ) (es line rest : Bytes)
    → IsValid io.rd
    → io.error ≡ false
    → io.eol ≡ e ∷ es
    → contents io.rd ≡ line ++ (io.eol ++ rest)
    → memchr e line ≡ none
    → length line + length io.eol ≤ max_line
    → Returns (Taken line rest io) (readline2 io)
unfolding readline2
readline2-Taken io e es line rest v fine ends c z short =
    let maxlen = if ltb max_line io.rd.size then max_line else io.rd.size in
    let len : length line + (length io.eol + length rest) ≡ io.rd.size =
      (let a = length-append line (io.eol ++ rest) in
        let b = length-append io.eol rest in
        let k = length-contents io.rd v in let d = ap length c in omega (arith, a, b, k, d)) in
    let few : maxlen ≤ io.rd.size = ground arith in
    let covers : length line + length io.eol ≤ maxlen = ground (arith, len, short) in
    let window : take maxlen (drop io.rd.off io.rd.base)
        ≡ line ++ (io.eol ++ take (maxlen - length line - length io.eol) rest) =
      sym (take-take_le maxlen io.rd.size (drop io.rd.off io.rd.base) few)
      ∙ ap (take maxlen) c
      ∙ take-append_ge maxlen line (io.eol ++ rest) (omega (arith, covers))
      ∙ ap (λ t. line ++ t)
          (take-append_ge (maxlen - length line) io.eol rest (omega (arith, covers))) in
    let found : find_eol io.eol (take maxlen (drop io.rd.off io.rd.base)) ≡ some (length line) =
      ap (find_eol io.eol) window
      ∙ subst
          (λ l.
            find_eol l (line ++ (l ++ take (maxlen - length line - length io.eol) rest))
            ≡ some (length line))
          (sym ends) (find_eol-line e es line _ z) in
    let test : (io.error || ltb io.rd.size (length io.eol)) ≡ false = ground (arith, len, fine) in
    rw
      (
        readline2,
        test,
        read_at_lem io.rd.base io.rd.off maxlen (omega (arith, v.room, v.block, few)),
        ◌>>=◌,
        found,
      )
      (take_line-Taken io line rest v (let d = ap length ends in omega (arith, d)) c)
