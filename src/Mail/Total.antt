-- ===== src/Mail/Total.antt =====
-- The searches of mail.c that end: `find_header`, the place of `insert_header`, `fill_wrapped`, and
-- the bound of `find_body`.
use fdm.Mail.{Mail, contents, line_length, line_init, is_header, header_from, find_header}
use fdm.Mail.Lines.{
  IsMail, length-contents as length-mail, line_length-pos, line_next-cases, split_lines,
  body_offset, is_blank_line, onto_first,
}
use fdm.Mail.Store.{insert_place}
use fdm.Mail.Wrap.{wrapped_from, fill_wrapped}
use fdm.Outcome.{Returns, Ends->>=}
use fdm.Prelude.{
  ℕ, zero, suc, ◌+◌, ◌-◌, ◌≤◌, ◌<◌, ◌≡◌, refl, ap, ◌∙◌, inl, inr, Bool, false, ◌||◌, Option, none,
  some, List, [], ◌∷◌, arith, ltb, leb, ◌==◌, Bool-cases, Option-cases, length, drop, length-drop,
  list_cases, Bytes, memchr,
}

-- A line behind another one starts later.
next_shorter :
    (s : Bytes) (d : ℕ) (r : Bytes) → drop (line_length s) s ≡ d ∷ r → length (d ∷ r) < length s
next_shorter [] d r e = absurd (omega (arith, ap length e, length-drop {A = ℕ} (line_length []) []))
next_shorter (c ∷ s) d r e =
    let (k, pos) = line_length-pos c s in
    omega (arith, ap length e, length-drop (line_length (c ∷ s)) (c ∷ s), pos)

header_from-Returns :
    (fuel size body : ℕ) (hdr s : Bytes)
    → length s < fuel
    → Returns (λ o. Unit {0}) (header_from fuel size body hdr (line_init s))
unfolding header_from
header_from-Returns zero size body hdr s le = absurd (omega arith)
header_from-Returns (suc fuel) size body hdr s le =
    elim (Bool-cases (leb body (size - length (line_init s).rest))) [
      | inl past ↦ rw (header_from, past) tt
      | inr inside ↦ elim (Bool-cases (is_header hdr (line_init s))) [
        | inl found ↦ rw (header_from, inside, found) tt
        | inr other ↦ elim (line_next-cases s) [
          | inl (_, stop) ↦ rw (header_from, inside, other, stop) tt
          | inr (d, r, e, next) ↦
              rw (header_from, inside, other, next)
                (header_from-Returns fuel size body hdr (d ∷ r)
                  (omega (arith, le, next_shorter s d r e)))
        ]
      ]
    ]

-- `find_header` returns on every valid mail.
pub find_header-Returns :
    (m : Mail) (hdr : Bytes) (value : Bool)
    → IsMail m
    → Returns (λ o. Unit {0}) (find_header m hdr value)
unfolding find_header
find_header-Returns m hdr value v =
    elim (Bool-cases (ltb m.body (length hdr + 1) || ltb m.size (length hdr + 1))) [
      | inl short ↦ rw (find_header, short) tt
      | inr long ↦
          rw (find_header, long)
            (Ends->>= ⊥ (λ o. Unit {0}) (λ o. Unit {0})
              (header_from (m.size + 1) m.size m.body hdr (line_init (contents m))) _
              (header_from-Returns (m.size + 1) m.size m.body hdr (contents m)
                (omega (arith, length-mail m v)))
              (λ o _. tt))
    ]

-- A place in the mail, with at most two newlines, or none.
abbrev pub InMail : Mail → Option (ℕ × ℕ) → Type 0
InMail m none = Unit
InMail m (some (at, n)) = (at ≤ m.size) × (n ≤ 2)

pub insert_place-InMail :
    (m : Mail) (before : Option Bytes)
    → IsMail m
    → m.body ≤ m.size
    → Returns (InMail m) (insert_place m before)
unfolding insert_place
insert_place-InMail m none v le = elim (Bool-cases (m.body == 0)) [
  | inl no_body ↦ rw (insert_place, no_body) (omega arith, omega arith)
  | inr body ↦ rw (insert_place, body) (omega (arith, le), omega arith)
]
insert_place-InMail m (some before) v le =
    Ends->>= ⊥ (λ o. Unit {0}) (InMail m) (find_header m before false) _
      (find_header-Returns m before false v)
      (elim [ none ↦ λ _. tt | some l ↦ λ _. (omega arith, omega arith) ])

memchr-lt : (c : ℕ) (s : Bytes) (i : ℕ) → memchr c s ≡ some i → i < length s
unfolding memchr
memchr-lt c [] i e = absurd (ground (arith, e))
memchr-lt c (x ∷ s) i e = elim (Bool-cases (x == c)) [
  | inl here ↦ let e' : some 0 ≡ some i = rw (memchr, here) at e in ground (arith, e')
  | inr later ↦ elim (Option-cases (memchr c s)) [
    | inl absent ↦ absurd (let e' = rw (memchr, later, absent) at e in ground (arith, e'))
    | inr (j, found) ↦
        let e' : some (suc j) ≡ some i = rw (memchr, later, found) at e in
        let lt = memchr-lt c s j found in ground (arith, e', lt)
  ]
]

wrapped_from-Returns :
    (fuel end at : ℕ) (s : Bytes)
    → length s < fuel
    → end ≤ at + length s
    → Returns (λ ps. Unit {0}) (wrapped_from fuel end at s)
unfolding wrapped_from
wrapped_from-Returns zero end at s le inside = absurd (omega arith)
wrapped_from-Returns (suc fuel) end at s le inside = elim (Option-cases (memchr b'\n' s)) [
  | inl no_more ↦ rw (wrapped_from, no_more) tt
  | inr (i, found) ↦ elim (Bool-cases (leb end (at + i + 1))) [
    | inl past ↦ rw (wrapped_from, found, past) tt
    | inr more ↦ elim (list_cases (drop (i + 1) s)) [
      | inl nothing ↦ absurd (
          let l = length-drop (i + 1) s in
          let e = ap length nothing in ground (arith, l, e, more, inside))
      | inr (c, r, rest) ↦
          let l = length-drop (i + 1) s in
          let lt = memchr-lt b'\n' s i found in
          rw (wrapped_from, found, more, rest)
            (Ends->>= ⊥ (λ ps. Unit {0}) (λ ps. Unit {0})
              (wrapped_from fuel end (at + i + 1) (c ∷ r)) _
              (wrapped_from-Returns fuel end (at + i + 1) (c ∷ r)
                (omega (arith, l, ap length rest, lt)) (omega (arith, l, ap length rest, inside)))
              (λ ps _. tt))
    ]
  ]
]

-- `fill_wrapped` returns on a valid mail that has no list of wrapped lines yet and whose body lies
-- in it. The text and its body stay as they are.
pub fill_wrapped-Returns :
    (m : Mail)
    → IsMail m
    → m.wrapped ≡ []
    → m.body ≤ m.size
    → Returns (λ r. IsMail r × (contents r ≡ contents m) × (r.body ≡ m.body)) (fill_wrapped m)
unfolding fill_wrapped
fill_wrapped-Returns m v none_yet le =
    rw (none_yet, fill_wrapped)
      (Ends->>= ⊥ (λ ps. Unit {0}) (λ r. IsMail r × (contents r ≡ contents m) × (r.body ≡ m.body))
        (wrapped_from (m.size + 1) m.body 0 (contents m)) _
        (wrapped_from-Returns (m.size + 1) m.body 0 (contents m) (omega (arith, length-mail m v))
          (omega (arith, length-mail m v, le)))
        (λ ps _. (record { block = v.block; room = v.room; bounded = v.bounded }, refl, refl)))

total : List Bytes → ℕ
total [] = 0
total (l ∷ ls) = length l + total ls

total-onto_first : (c : ℕ) (ls : List Bytes) → total (onto_first c ls) ≡ suc (total ls)
unfolding total
total-onto_first c [] = refl
total-onto_first c (l ∷ ls) = omega arith

total-split_lines : (s : Bytes) → total (split_lines s) ≡ length s
unfolding total split_lines
total-split_lines [] = refl
total-split_lines (c ∷ s) = elim (Bool-cases (c == b'\n')) [
  | inl newline ↦ rw newline (omega (arith, total-split_lines s))
  | inr other ↦ rw other (total-onto_first c (split_lines s) ∙ ap suc (total-split_lines s))
]

body_offset-le : (at : ℕ) (ls : List Bytes) → body_offset at ls ≤ at + total ls
unfolding body_offset total
body_offset-le at [] = omega arith
body_offset-le at (l ∷ ls) = elim (Bool-cases (is_blank_line l)) [
  | inl blank ↦ rw blank (ground (arith, blank))
  | inr other ↦ rw other (omega (arith, body_offset-le (at + length l) ls))
]

-- The body that `find_body` finds lies in the mail.
pub body_offset-split_lines : (s : Bytes) → body_offset 0 (split_lines s) ≤ length s
body_offset-split_lines s = omega (arith, body_offset-le 0 (split_lines s), total-split_lines s)
