-- ===== src/Mail.antt =====
-- mail.c: the mail in its shared memory block, its lines and its headers. `base` is the mapped
-- block of `space` bytes; the mail is the `size` bytes at `off`, and `body` is the offset of its
-- body in the mail. A `char *` into the mail is the list of the bytes from there to its end.

pub mod Lines
pub mod Store
pub mod Wrap
pub mod Append
pub mod Trim
pub mod Total
pub mod Insert
use mathlib.Core.Option
use fdm.Outcome.{Outcome, ok, diverge, ◌>>=◌}
use fdm.Prelude.{
  ℕ, zero, suc, ◌+◌, ◌-◌, ◌*◌, ◌/◌, ◌%◌, ◌^◌, ◌≤◌, ◌<◌, ◌≡◌, refl, sym, ap, ◌∙◌, ◌≢◌, ◌↔◌, ◌⊎◌, inl,
  inr, Bool, true, false, not, ◌&&◌, ◌||◌, Option, none, some, List, [], ◌∷◌, ◌++◌, map, append-nil,
  append_assoc, arith, ltb, leb, ◌==◌, if◌then◌else◌, ==_iff, Bool-cases, Option-cases, length,
  get_elem?, take, drop, length-append, length-take, length-drop, take-append-drop,
  take-append_exact, drop-append_exact, take-all, take-append_le, drop-append_le, drop-drop,
  drop-take, take-add, take-take_le, length-take_le, list_cases, All, All-append, get_elem-All,
  Bytes, codes, size_mod, size_max, sub_size, add_size, u32_mod, memchr, to_lower, is_space,
  is_blank, is_digit, bytes_eq, starts_with_case, starts_with, eq_self, bytes_eq_refl,
}

pub record Mail : Type 0 where
  pub base : Bytes
  pub space : ℕ
  pub off : ℕ
  pub size : ℕ
  pub body : ℕ
  pub wrapped : List ℕ
  pub wrapchar : ℕ

abbrev pub contents : Mail → Bytes
contents m = take m.size (drop m.off m.base)

-- A line of the mail: `rest` stands for the pointer, `len` is its length with the newline.
pub record Line : Type 0 where
  pub rest : Bytes
  pub len : ℕ

-- The length of the first line of the bytes given.
unfoldable pub line_length : Bytes → ℕ
line_length s = elim (memchr b'\n' s) [ none ↦ length s | some i ↦ i + 1 ]

unfoldable pub line_init : Bytes → Line
line_init s = record { rest = s; len = line_length s }

-- `none` is the NULL pointer, behind the last line.
unfoldable pub line_next : Line → Option Line
line_next l = elim (drop l.len l.rest) [ [] ↦ none | c ∷ s ↦ some (line_init (c ∷ s)) ]

-- `len == 1 && *ptr == '\n'`.
abbrev pub is_separator : Line → Bool
is_separator l = l.len == 1 && elim l.rest [ [] ↦ false | c ∷ _ ↦ c == b'\n' ]

-- The loop of `find_body` over the lines of a mail of `size` bytes.
unfoldable pub body_from : ℕ → ℕ → Line → Outcome ℕ
body_from zero size l = diverge
body_from (suc fuel) size l =
    if is_separator l
    then ok (elim (line_next l) [ none ↦ size | some n ↦ size - length n.rest ])
    else elim (line_next l) [ none ↦ ok 0 | some n ↦ body_from fuel size n ]

unfoldable pub find_body : Mail → Outcome ℕ
find_body m = body_from (m.size + 1) m.size (line_init (contents m))

-- The loop of `count_lines`: `flag` says that the separator was seen.
unfoldable pub count_from : ℕ → Bool → ℕ → ℕ → Line → Outcome (ℕ × ℕ)
count_from zero flag total body l = diverge
count_from (suc fuel) flag total body l =
    let body' = if flag then (body + 1) % u32_mod else body in
    let flag' = if is_separator l then true else flag in
    elim (line_next l) [
      | none ↦ ok ((total + 1) % u32_mod, body')
      | some n ↦ count_from fuel flag' ((total + 1) % u32_mod) body' n
    ]

unfoldable pub count_lines : Mail → Outcome (ℕ × ℕ)
count_lines m = count_from (m.size + 1) false 0 0 (line_init (contents m))

-- `*len >= hdrlen && ptr[hdrlen - 1] == ':'`, and the name before the colon is `hdr`.
abbrev pub is_header : Bytes → Line → Bool
is_header hdr l =
    leb (length hdr + 1) l.len
    && elim (get_elem? l.rest (length hdr)) [ none ↦ false | some c ↦ c == b':' ]
    && starts_with_case l.rest hdr

-- The loop of `find_header` over a mail of `size` bytes: only lines before `body` count.
unfoldable pub header_from : ℕ → ℕ → ℕ → Bytes → Line → Outcome (Option Line)
header_from zero size body hdr l = diverge
header_from (suc fuel) size body hdr l =
    if leb body (size - length l.rest)
    then ok none
    else if is_header hdr l
    then ok (some l)
    else elim (line_next l) [ none ↦ ok none | some n ↦ header_from fuel size body hdr n ]

-- The blanks that `find_header` skips behind the colon.
unfoldable pub skip_spaces : ℕ → Bytes → Line
skip_spaces zero s = record { rest = s; len = 0 }
skip_spaces (suc n) [] = record { rest = []; len = suc n }
skip_spaces (suc n) (c ∷ s) =
    if is_space c then skip_spaces n s else record { rest = c ∷ s; len = suc n }

-- The newlines that it trims off the end.
unfoldable pub trim_newlines : Bytes → ℕ → ℕ
trim_newlines s zero = 0
trim_newlines s (suc n) = elim (get_elem? s n) [
  | none ↦ suc n
  | some c ↦ if c == b'\n' then trim_newlines s n else suc n
]

-- The value of a header line whose name and colon are `hdrlen` bytes.
unfoldable pub header_value : ℕ → Line → Line
header_value hdrlen l =
    let v = skip_spaces (l.len - hdrlen) (drop hdrlen l.rest) in
    record { rest = v.rest; len = trim_newlines v.rest v.len }

-- `value` asks for the value alone. The last test, `len == 0`, is of a pointer and never holds.
unfoldable pub find_header : Mail → Bytes → Bool → Outcome (Option Line)
find_header m hdr value =
    if ltb m.body (length hdr + 1) || ltb m.size (length hdr + 1) then ok none else do
      found ← header_from (m.size + 1) m.size m.body hdr (line_init (contents m))
      ok (if value then Option.map (header_value (length hdr + 1)) found else found)
