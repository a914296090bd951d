-- ===== src/Mail/Trim.antt =====
-- `trim_from` of mail.c: the From line that is taken off in front of a mail, and the body's offset.
use fdm.Mail.{Mail, contents, line_length}
use fdm.Mail.Lines.{
  IsMail, split_lines, split_lines-cons, body_offset, is_blank_line, line_length-le,
  length-contents,
}
use fdm.Mail.Store.{trim_from}
use fdm.Prelude.{
  ℕ, zero, suc, ◌+◌, ◌-◌, ◌≤◌, ◌<◌, ◌≡◌, refl, sym, ap, ◌∙◌, ◌≢◌, ◌⊎◌, inl, inr, Bool, true, false,
  not, ◌&&◌, List, [], ◌∷◌, arith, ltb, ◌==◌, if◌then◌else◌, Bool-cases, length, take, drop,
  drop-drop, drop-take, length-take_le, Bytes, codes, sub_size, starts_with,
}

-- The offset of the body moves with the start of the lines, unless there is no body.
body_offset-add :
    (at k : ℕ) (ls : List Bytes)
    → ((body_offset at ls ≡ 0) × (body_offset (at + k) ls ≡ 0))
      ⊎ ((at < body_offset at ls) × (body_offset (at + k) ls ≡ body_offset at ls + k))
unfolding body_offset
body_offset-add at k [] = inl (refl, refl)
body_offset-add at k (l ∷ ls) = elim (Bool-cases (is_blank_line l)) [
  | inl blank ↦ inr (rw blank (omega arith), rw blank (omega arith))
  | inr other ↦ elim (body_offset-add (at + length l) k ls) [
    | inl (none_here, none_there) ↦
        inl (rw other none_here, rw other (ap (λ x. body_offset x ls) (omega arith) ∙ none_there))
    | inr (le, moved) ↦ inr (
      rw other (omega (arith, le)),
      rw other (ap (λ x. body_offset x ls) (omega arith) ∙ moved ∙ refl),
    )
  ]
]

is_blank_line-take :
    (n c : ℕ) (s : Bytes) → (c == b'\n') ≡ false → is_blank_line (take n (c ∷ s)) ≡ false
is_blank_line-take zero c s h = refl
is_blank_line-take (suc n) c s h = ground (arith, h)

-- A text that begins with "From " does not begin with a newline.
starts_with-newline :
    (c : ℕ) (s : Bytes) → starts_with (c ∷ s) (codes "From ") ≡ true → (c == b'\n') ≡ false
unfolding starts_with
starts_with-newline c s h = ground (arith, h)

-- What is left of a text behind its first line, with its body.
body_offset-from :
    (t : Bytes) (body : ℕ)
    → starts_with t (codes "From ") ≡ true
    → body ≡ body_offset 0 (split_lines t)
    → body ≢ 0
    → (line_length t ≤ body)
      × (body_offset 0 (split_lines (drop (line_length t) t)) ≡ body - line_length t)
body_offset-from [] body h e nz = absurd (unfold starts_with in ground (arith, h))
body_offset-from (c ∷ s) body h e nz =
    let t = c ∷ s in
    let n = line_length t in
    let rest = split_lines (drop n t) in
    let text = is_blank_line-take n c s (starts_with-newline c s h) in
    let le = line_length-le t in
    let first : body ≡ body_offset (0 + n) rest =
      e
      ∙ ap (body_offset 0) (split_lines-cons c s)
      ∙ (unfold body_offset in rw (text, length-take_le n t le) refl) in
    elim (body_offset-add 0 n rest) [
      | inl (_, there) ↦ absurd (nz (first ∙ there))
      | inr (pos, moved) ↦ (omega (arith, first, moved), omega (arith, first, moved))
    ]

starts_with-length : (t : Bytes) → starts_with t (codes "From ") ≡ true → 5 ≤ length t
unfolding starts_with
starts_with-length [] h = absurd (ground (arith, h))
starts_with-length (a ∷ []) h = absurd (ground (arith, h))
starts_with-length (a ∷ b ∷ []) h = absurd (ground (arith, h))
starts_with-length (a ∷ b ∷ c ∷ []) h = absurd (ground (arith, h))
starts_with-length (a ∷ b ∷ c ∷ d ∷ []) h = absurd (ground (arith, h))
starts_with-length (a ∷ b ∷ c ∷ d ∷ e ∷ t) h = omega arith

-- What `trim_from` leaves of a mail that it changes.
abbrev trimmed : Mail → Mail
trimmed m =
    let len = line_length (contents m) in
    record m { size = m.size - len; off = m.off + len; body = sub_size m.body len }

trim_from-cases :
    (m : Mail)
    → IsMail m
    → ((not (m.body == 0) && starts_with (contents m) (codes "From ") ≡ false) × (trim_from m ≡ m))
      ⊎ ((not (m.body == 0) && starts_with (contents m) (codes "From ") ≡ true)
          × (trim_from m ≡ trimmed m))
unfolding trim_from
trim_from-cases m v = elim (Bool-cases (m.body == 0)) [
  | inl none_there ↦ inl (rw none_there refl, rw none_there refl)
  | inr body ↦ elim (Bool-cases (starts_with (contents m) (codes "From "))) [
    | inr other ↦ inl (
      rw (body, other) refl,
      elim (Bool-cases (ltb m.size 5)) [
        | inl short ↦ rw (body, short) refl
        | inr long ↦ rw (body, long, other) refl
      ],
    )
    | inl from ↦
        let long : ltb m.size 5 ≡ false =
          (let l = starts_with-length (contents m) from in
            ground (arith, l, length-contents m v)) in
        inr (rw (body, from) refl, rw (body, long, from) refl)
  ]
]

and_cases : (b c : Bool) → (not b && c) ≡ true → (b ≡ false) × (c ≡ true)
and_cases true c h = absurd (ground (arith, h))
and_cases false c h = (refl, h)

-- `trim_from` of a mail whose body lies in it, where `find_body` puts it, leaves a valid mail: its text is
-- the old one, less a first line that starts with "From " in a mail that has a body, and its body
-- lies in it, where `find_body` would put it.
pub trim_from-body_offset :
    (m : Mail)
    → IsMail m
    → m.body ≤ m.size
    → m.body ≡ body_offset 0 (split_lines (contents m))
    → IsMail (trim_from m)
      × ((trim_from m).body ≤ (trim_from m).size)
      × (contents (trim_from m) ≡ (
          if not (m.body == 0) && starts_with (contents m) (codes "From ")
          then drop (line_length (contents m)) (contents m)
          else contents m))
      × ((trim_from m).body ≡ body_offset 0 (split_lines (contents (trim_from m))))
trim_from-body_offset m v inside e = elim (trim_from-cases m v) [
  | inl (kept, same) ↦ rw (same, kept) (v, inside, refl, e)
  | inr (cut, less) ↦
      let t = contents m in
      let n = line_length t in
      let (body, from) = and_cases (m.body == 0) (starts_with t (codes "From ")) cut in
      let (le, left) = body_offset-from t m.body from e (λ z. ground (arith, z, body)) in
      let short : n ≤ m.size = omega (arith, line_length-le t, length-contents m v) in
      let text : contents (trimmed m) ≡ drop n t = sym (
        drop-take (m.size - n) n m.size (drop m.off m.base) (omega (arith, short))
        ∙ ap (take (m.size - n)) (drop-drop n m.off (m.off + n) m.base refl)) in
      let b : sub_size m.body n ≡ m.body - n = omega (arith, le, inside, v.room, v.bounded) in
      rw (less, cut)
        (
          record { block = v.block; room = omega (arith, v.room); bounded = v.bounded },
          omega (arith, b, inside),
          text,
          b ∙ sym left ∙ ap (λ x. body_offset 0 (split_lines x)) (sym text),
        )
]
