-- ===== src/Mail/Lines.antt =====
-- The walks over the lines of a mail (`line_init`, `line_next`, `find_body`, `count_lines`) against
-- the list of its lines.
use fdm.Mail.{
  Mail, contents, line_length, line_init, line_next, is_separator, body_from, find_body, count_from,
  count_lines,
}
use fdm.Outcome.{ok}
use fdm.Prelude.{
  ℕ, zero, suc, ◌+◌, ◌%◌, ◌≤◌, ◌<◌, ◌≡◌, refl, sym, ap, ◌∙◌, ◌≢◌, ◌⊎◌, inl, inr, Bool, true, false,
  ◌&&◌, none, some, List, [], ◌∷◌, arith, ◌==◌, if◌then◌else◌, Bool-cases, length, take, drop,
  length-drop, length-take_le, list_cases, Bytes, size_max, u32_mod, memchr,
}

-- A byte in front of the first line.
abbrev pub onto_first : ℕ → List Bytes → List Bytes
onto_first c [] = (c ∷ []) ∷ []
onto_first c (l ∷ ls) = (c ∷ l) ∷ ls

-- The lines of a text, each with its newline.
unfoldable pub split_lines : Bytes → List Bytes
split_lines [] = []
split_lines (c ∷ s) = if c == b'\n' then (c ∷ []) ∷ split_lines s else onto_first c (split_lines s)

line_length-newline : (c : ℕ) (s : Bytes) → (c == b'\n') ≡ true → line_length (c ∷ s) ≡ 1
unfolding line_length memchr
line_length-newline c s h = ground arith

line_length-cons :
    (c : ℕ) (s : Bytes) → (c == b'\n') ≡ false → line_length (c ∷ s) ≡ suc (line_length s)
unfolding line_length memchr
line_length-cons c s h = ground arith

line_length-nil : line_length [] ≡ 0
unfolding line_length memchr
line_length-nil = refl

-- The first line of a text is what `line_length` measures, and the others are the lines of what
-- stands behind it.
pub split_lines-cons :
    (c : ℕ) (s : Bytes)
    → split_lines (c ∷ s)
      ≡ take (line_length (c ∷ s)) (c ∷ s) ∷ split_lines (drop (line_length (c ∷ s)) (c ∷ s))
unfolding split_lines
split_lines-cons c [] = elim (Bool-cases (c == b'\n')) [
  | inl newline ↦ rw (newline, line_length-newline c [] newline)
  | inr other ↦ rw (other, line_length-cons c [] other, line_length-nil)
]
split_lines-cons c (d ∷ s) = elim (Bool-cases (c == b'\n')) [
  | inl newline ↦ rw (newline, line_length-newline c (d ∷ s) newline)
  | inr other ↦
      rw (other, line_length-cons c (d ∷ s) other) (ap (onto_first c) (split_lines-cons d s))
]

pub line_length-pos : (c : ℕ) (s : Bytes) → (k : ℕ) × (line_length (c ∷ s) ≡ suc k)
line_length-pos c s = elim (Bool-cases (c == b'\n')) [
  | inl newline ↦ (0, line_length-newline c s newline)
  | inr other ↦ (line_length s, line_length-cons c s other)
]

pub line_length-le : (s : Bytes) → line_length s ≤ length s
line_length-le [] = rw line_length-nil (omega arith)
line_length-le (c ∷ s) = elim (Bool-cases (c == b'\n')) [
  | inl newline ↦ omega (arith, line_length-newline c s newline)
  | inr other ↦ omega (arith, line_length-cons c s other, line_length-le s)
]

-- A line of a newline alone.
abbrev pub is_blank_line : Bytes → Bool
is_blank_line l = length l == 1 && elim l [ [] ↦ false | c ∷ _ ↦ c == b'\n' ]

line_init-rest : (s : Bytes) → (line_init s).rest ≡ s
unfolding line_init
line_init-rest s = refl

is_separator_lem : (s : Bytes) → is_separator (line_init s) ≡ is_blank_line (take (line_length s) s)
unfolding line_init
is_separator_lem [] = rw line_length-nil
is_separator_lem (c ∷ s) =
    let (k, e) = line_length-pos c s in
    let le = line_length-le (c ∷ s) in rw e (rw (length-take_le k s (omega arith)))

-- The offset of the body in a text given by its lines: behind the first blank one, and 0 if there
-- is none.
unfoldable pub body_offset : ℕ → List Bytes → ℕ
body_offset at [] = 0
body_offset at (l ∷ ls) = if is_blank_line l then at + 1 else body_offset (at + length l) ls

-- The line after the first one: there is none, or it starts what stands behind it.
pub line_next-cases :
    (s : Bytes)
    → ((drop (line_length s) s ≡ []) × (line_next (line_init s) ≡ none))
      ⊎ ((c : ℕ) × (r : Bytes) × (drop (line_length s) s ≡ c ∷ r)
          × (line_next (line_init s) ≡ some (line_init (c ∷ r))))
unfolding line_next line_init
line_next-cases s = elim (list_cases (drop (line_length s) s)) [
  | inl end ↦ inl (end, rw (end, line_next))
  | inr (c, r, e) ↦ inr (c, r, e, rw (e, line_next))
]

is_blank_line-length : (l : Bytes) → is_blank_line l ≡ true → length l ≡ 1
is_blank_line-length l h = ground arith

body_from-body_offset :
    (fuel size at c : ℕ) (s : Bytes)
    → suc (length s) < fuel
    → at + suc (length s) ≡ size
    → body_from fuel size (line_init (c ∷ s)) ≡ ok (body_offset at (split_lines (c ∷ s)))
unfolding body_from body_offset split_lines
body_from-body_offset zero size at c s h e = absurd (omega arith)
body_from-body_offset (suc fuel) size at c s h e =
    let t = c ∷ s in
    let first = take (line_length t) t in
    let (k, pos) = line_length-pos c s in
    let le = line_length-le t in
    let whole = length-take_le (line_length t) t le in
    let left = length-drop (line_length t) t in
    rw (is_separator_lem t, split_lines-cons c s)
      (elim (Bool-cases (is_blank_line first)) [
        | inl blank ↦
            let one : line_length t ≡ 1 = sym whole ∙ is_blank_line-length first blank in
            elim (line_next-cases t) [
              | inl (end, stop) ↦ rw (stop, blank) (ap ok (omega (arith, ap length end)))
              | inr (d, r, more, next) ↦
                  rw (next, blank, line_init-rest) (ap ok (omega (arith, ap length more)))
            ]
        | inr other ↦ elim (line_next-cases t) [
          | inl (end, stop) ↦ rw (stop, end, other)
          | inr (d, r, more, next) ↦
              rw (next, more, other, whole)
                (body_from-body_offset fuel size (at + line_length t) d r
                  (omega (arith, ap length more)) (omega (arith, ap length more)))
        ]
      ])

body_from_text :
    (s : Bytes)
    → body_from (length s + 1) (length s) (line_init s) ≡ ok (body_offset 0 (split_lines s))
body_from_text [] =
    unfold body_from line_next line_init line_length memchr body_offset split_lines in refl
body_from_text (c ∷ s) =
    body_from-body_offset (length (c ∷ s) + 1) (length (c ∷ s)) 0 c s (omega arith) (omega arith)

-- The mail lies inside its block.
pub record IsMail (m : Mail) : Type 0 where
  pub block : length m.base ≡ m.space
  pub room : m.off + m.size ≤ m.space
  pub bounded : m.space ≤ size_max

pub length-contents : (m : Mail) → IsMail m → length (contents m) ≡ m.size
length-contents m v =
    length-take_le m.size (drop m.off m.base) (omega (arith, length-drop m.off m.base))

-- `find_body` of a valid mail returns, with the offset behind its first blank line, and 0 if there
-- is none.
pub find_body-body_offset :
    (m : Mail) → IsMail m → find_body m ≡ ok (body_offset 0 (split_lines (contents m)))
unfolding find_body
find_body-body_offset m v =
    ap (λ n. body_from (n + 1) n (line_init (contents m))) (sym (length-contents m v))
    ∙ body_from_text (contents m)

-- How many lines of a list stand behind its first blank one.
unfoldable pub body_count : List Bytes → ℕ
body_count [] = 0
body_count (l ∷ ls) = if is_blank_line l then length ls else body_count ls

split_lines-nil : split_lines [] ≡ []
unfolding split_lines
split_lines-nil = refl

-- The counters after one more line, where `n` lines follow and `k` of them follow a blank one.
count_step :
    (flag blank : Bool) (total body n k : ℕ)
    → ◌≡◌ {A = ℕ × ℕ}
        (
          ((total + 1) % u32_mod + n) % u32_mod,
          ((if flag then (body + 1) % u32_mod else body)
                + (if (if blank then true else flag) then n else k))
              % u32_mod,
        )
        (
          (total + suc n) % u32_mod,
          (body + (if flag then suc n else if blank then n else k)) % u32_mod,
        )
count_step true true total body n k = ground arith
count_step true false total body n k = ground arith
count_step false true total body n k = ground arith
count_step false false total body n k = ground arith

count_from-length :
    (fuel : ℕ) (flag : Bool) (total body c : ℕ) (s : Bytes)
    → suc (length s) < fuel
    → body < u32_mod
    → count_from fuel flag total body (line_init (c ∷ s))
      ≡ ok (
        (total + length (split_lines (c ∷ s))) % u32_mod,
        (body + (if flag then length (split_lines (c ∷ s)) else body_count (split_lines (c ∷ s))))
            % u32_mod,
      )
unfolding count_from body_count
count_from-length zero flag total body c s h b = absurd (omega arith)
count_from-length (suc fuel) flag total body c s h b =
    let t = c ∷ s in
    let first = take (line_length t) t in
    let (k, pos) = line_length-pos c s in
    let left = length-drop (line_length t) t in
    rw (split_lines-cons c s) (elim (line_next-cases t) [
      | inl (end, stop) ↦ rw (stop, count_from, end, split_lines-nil) (ground arith)
      | inr (d, r, more, next) ↦
          rw (next, count_from, more, is_separator_lem t)
            (rw
              (count_from-length fuel (if is_blank_line first then true else flag)
                ((total + 1) % u32_mod) (if flag then (body + 1) % u32_mod else body) d r
                (omega (arith, ap length more)) (ground arith))
              (ap ok (
                count_step flag (is_blank_line first) total body (length (split_lines (d ∷ r)))
                  (body_count (split_lines (d ∷ r))))))
    ])

count_lines_text :
    (s : Bytes)
    → s ≢ []
    → count_from (length s + 1) false 0 0 (line_init s)
      ≡ ok (length (split_lines s) % u32_mod, body_count (split_lines s) % u32_mod)
count_lines_text [] h = absurd (h refl)
count_lines_text (c ∷ s) h =
    ground (arith, count_from-length (length (c ∷ s) + 1) false 0 0 c s (omega arith) (omega arith))

-- `count_lines` on a valid mail that is not empty returns, with the number of its lines and the number of
-- lines behind its first blank one, both as a `u_int`.
pub count_lines-length :
    (m : Mail)
    → IsMail m
    → contents m ≢ []
    → count_lines m
      ≡ ok (
        length (split_lines (contents m)) % u32_mod,
        body_count (split_lines (contents m)) % u32_mod,
      )
unfolding count_lines
count_lines-length m v h =
    ap (λ n. count_from (n + 1) false 0 0 (line_init (contents m))) (sym (length-contents m v))
    ∙ count_lines_text (contents m) h
