-- ===== src/Replace.antt =====
-- replace.c: the expansion of tags in a string. What is written to `dst` is the result; the block that
-- it grows in is not modelled. The string that is read is the list of its bytes before the NUL.
pub mod Escape
pub mod Total
use fdm.Buffer.{read_at}
use fdm.Outcome.{Outcome, ok, fault, diverge, ◌>>=◌}
use fdm.Strb.{Strb, find_tag}
use fdm.Prelude.{
  ℕ, zero, suc, ◌+◌, ◌-◌, ◌*◌, ◌/◌, ◌%◌, ◌^◌, ◌≤◌, ◌<◌, ◌≡◌, refl, sym, ap, ◌∙◌, ◌≢◌, ◌↔◌, ◌⊎◌, inl,
  inr, Bool, true, false, not, ◌&&◌, ◌||◌, Option, none, some, List, [], ◌∷◌, ◌++◌, map, append-nil,
  append_assoc, arith, ltb, leb, ◌==◌, if◌then◌else◌, ==_iff, Bool-cases, Option-cases, length,
  get_elem?, take, drop, length-append, length-take, length-drop, take-append-drop,
  take-append_exact, drop-append_exact, take-all, take-append_le, drop-append_le, drop-drop,
  drop-take, take-add, take-take_le, length-take_le, list_cases, All, All-append, get_elem-All,
  Bytes, codes, size_mod, size_max, sub_size, add_size, u32_mod, memchr, to_lower, is_space,
  is_blank, is_digit, bytes_eq, starts_with_case, starts_with, eq_self, bytes_eq_refl,
}

-- struct rm: one submatch of the last regular expression.
pub record Rm : Type 0 where
  pub valid : Bool
  pub so : ℕ
  pub eo : ℕ

-- conf.strip_chars, the tags, the submatches, if there are any, and the mail's data.
pub record Env : Type 0 where
  pub strip_chars : Bytes
  pub tags : Strb
  pub rml : Option (List Rm)
  pub text : Bytes

abbrev pub aliases : List (Option Bytes)
aliases =
    some (codes "account")
    ∷ none
    ∷ none
    ∷ some (codes "day")
    ∷ none
    ∷ none
    ∷ none
    ∷ some (codes "home")
    ∷ none
    ∷ none
    ∷ none
    ∷ none
    ∷ some (codes "month")
    ∷ some (codes "uid")
    ∷ none
    ∷ none
    ∷ none
    ∷ none
    ∷ some (codes "source")
    ∷ some (codes "action")
    ∷ some (codes "user")
    ∷ none
    ∷ none
    ∷ none
    ∷ some (codes "year")
    ∷ none
    ∷ none
    ∷ none
    ∷ none
    ∷ none
    ∷ none
    ∷ none
    ∷ none
    ∷ some (codes "hour")
    ∷ none
    ∷ none
    ∷ none
    ∷ none
    ∷ some (codes "minute")
    ∷ none
    ∷ none
    ∷ none
    ∷ some (codes "quarter")
    ∷ none
    ∷ some (codes "second")
    ∷ none
    ∷ none
    ∷ none
    ∷ some (codes "dayofweek")
    ∷ none
    ∷ some (codes "dayofyear")
    ∷ none
    ∷ []

-- The tag that a letter stands for.
unfoldable pub alias_of : ℕ → Option Bytes
alias_of c =
    let i =
      if leb b'a' c && leb c b'z'
      then some (c - b'a')
      else if leb b'A' c && leb c b'Z'
      then some (26 + (c - b'A'))
      else none in
    elim i [ none ↦ none | some n ↦ elim (get_elem? aliases n) [ none ↦ none | some a ↦ a ] ]

unfoldable pub submatch : Env → ℕ → Outcome (Option Bytes)
submatch env ch = elim env.rml [
  | none ↦ ok none
  | some list ↦ elim (get_elem? list (ch - b'0')) [
    | none ↦ fault
    | some rm ↦
        if rm.valid
        then (read_at env.text rm.so (sub_size rm.eo rm.so) >>= λ v. ok (some v))
        else ok none
  ]
]

-- The bytes of a value that are not stripped; `strchr` finds the NUL of `strip_chars` too.
unfoldable pub stripped : Bytes → Bytes → Bytes
stripped chars [] = []
stripped chars (c ∷ s) =
    if c == 0
    then stripped chars s
    else elim (memchr c chars) [ none ↦ c ∷ stripped chars s | some _ ↦ stripped chars s ]

-- A value as it is written.
unfoldable pub shown : Env → Bool → Bytes → Bytes
shown env strip v = if strip then stripped env.strip_chars v else v

-- `dst[off++] = ...`, and what comes behind it.
unfoldable pub emit : Bytes → Outcome Bytes → Outcome Bytes
emit bs m = m >>= λ r. ok (bs ++ r)

-- A value, if there is one, and then the loop goes on.
unfoldable pub show_value : Env → Bool → Option Bytes → Outcome Bytes → Outcome Bytes
show_value env strip none m = m
show_value env strip (some v) m = emit (shown env strip v) m

-- `%[key]`, behind the colon if it has one.
unfoldable pub tag_value :
    Env → (Bool → Bytes → Outcome Bytes) → Bool → Bytes → Bytes → Outcome Bytes
tag_value env go strip [] rest = go strip rest
tag_value env go strip (c ∷ key) rest =
    find_tag env.tags (c ∷ key) >>= λ v. show_value env strip v (go strip rest)

unfoldable pub bracketed :
    Env → (Bool → Bytes → Outcome Bytes) → Bool → Bytes → Bytes → Outcome Bytes
bracketed env go strip [] rest = tag_value env go strip [] rest
bracketed env go strip (c ∷ key) rest = elim (c == b':') [
  | true ↦ tag_value env go false key rest
  | false ↦ tag_value env go strip (c ∷ key) rest
]

-- `%:` and a byte. At the end of the string the NUL is written, and the loop runs past it.
unfoldable pub after_colon : Env → (Bool → Bytes → Outcome Bytes) → Bool → Bytes → Outcome Bytes
after_colon env go strip [] = fault
after_colon env go strip (ch ∷ s) = elim (is_digit ch) [
  | false ↦ emit (ch ∷ []) (go strip s)
  | true ↦ submatch env ch >>= elim [ none ↦ go strip s | some v ↦ emit v (go false s) ]
]

-- `%` and a letter or a digit.
unfoldable pub short_form : Env → (Bool → Bytes → Outcome Bytes) → Bool → ℕ → Bytes → Outcome Bytes
short_form env go strip ch s = elim (is_digit ch) [
  | true ↦ submatch env ch >>= λ v. show_value env strip v (go strip s)
  | false ↦ elim (alias_of ch) [
    | none ↦ go strip s
    | some a ↦ find_tag env.tags a >>= λ v. show_value env strip v (go strip s)
  ]
]

-- What follows a `%`.
unfoldable pub directive : Env → (Bool → Bytes → Outcome Bytes) → Bool → Bytes → Outcome Bytes
directive env go strip [] = ok []
directive env go strip (ch ∷ s) = elim (ch == b'%') [
  | true ↦ emit (b'%' ∷ []) (go strip s)
  | false ↦ elim (ch == b'[') [
    | true ↦ elim (memchr b']' s) [
      | none ↦ emit (b'%' ∷ b'[' ∷ []) (go strip s)
      | some n ↦ bracketed env go strip (take n s) (drop (n + 1) s)
    ]
    | false ↦ elim (ch == b':') [
      | true ↦ after_colon env go strip s
      | false ↦ short_form env go strip ch s
    ]
  ]
]

-- The loop of `replace`, with `strip` as it is now.
unfoldable pub replace_from : Env → ℕ → Bool → Bytes → Outcome Bytes
replace_from env zero strip s = diverge
replace_from env (suc n) strip [] = ok []
replace_from env (suc n) strip (c ∷ s) = elim (c == b'%') [
  | true ↦ directive env (replace_from env n) strip s
  | false ↦ emit (c ∷ []) (replace_from env n strip s)
]

unfoldable pub replace : Env → Option Bytes → Outcome (Option Bytes)
replace env none = ok none
replace env (some src) = replace_from env (length src + 1) true src >>= λ dst. ok (some dst)
