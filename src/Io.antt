-- ===== src/Io.antt =====
-- io.c: lines out of the read buffer, and bytes in and out. The line buffer of the caller that the
-- line is copied to is not modelled.
pub mod Lines
use fdm.Buffer.{Allocator, Buffer, read_at, remove, write, read}
use fdm.Outcome.{Outcome, ok, ◌>>=◌}
use mathlib.Core.Option
use fdm.Prelude.{
  ℕ, zero, suc, ◌+◌, ◌-◌, ◌*◌, ◌/◌, ◌%◌, ◌^◌, ◌≤◌, ◌<◌, ◌≡◌, refl, sym, ap, ◌∙◌, ◌≢◌, ◌↔◌, ◌⊎◌, inl,
  inr, Bool, true, false, not, ◌&&◌, ◌||◌, Option, none, some, List, [], ◌∷◌, ◌++◌, map, append-nil,
  append_assoc, arith, ltb, leb, ◌==◌, if◌then◌else◌, ==_iff, Bool-cases, Option-cases, length,
  get_elem?, take, drop, length-append, length-take, length-drop, take-append-drop,
  take-append_exact, drop-append_exact, take-all, take-append_le, drop-append_le, drop-drop,
  drop-take, take-add, take-take_le, length-take_le, list_cases, All, All-append, get_elem-All,
  Bytes, codes, size_mod, size_max, sub_size, add_size, u32_mod, memchr, to_lower, is_space,
  is_blank, is_digit, bytes_eq, starts_with_case, starts_with, eq_self, bytes_eq_refl,
}

-- struct io: whether `error` is set and IOF_CLOSED is, the buffers, and the end of a line.
pub record Io : Type 0 where
  pub error : Bool
  pub closed : Bool
  pub rd : Buffer
  pub wr : Buffer
  pub eol : Bytes

-- IO_MAXLINELEN.
abbrev pub max_line : ℕ
max_line = 1048576

-- `io_read2`; a result of 1 and of -1 is `none`.
unfoldable pub read2 : Io → ℕ → Outcome (Option Bytes × Io)
read2 io len =
    if io.error || ltb io.rd.size len
    then ok (none, io)
    else read io.rd len >>= λ (bs, b). ok (some bs, record io { rd = b })

unfoldable pub write_bytes : Allocator → Io → Bytes → Outcome Io
write_bytes al io bs =
    if io.error then ok io else write al io.wr bs >>= λ b. ok (record io { wr = b })

-- *io->eol.
abbrev pub first_byte : Bytes → ℕ
first_byte [] = 0
first_byte (c ∷ s) = c

-- The loop of `io_readline2`: where the first EOL of the bytes begins.
unfoldable pub find_eol : Bytes → Bytes → Option ℕ
find_eol eol [] = none
find_eol eol (c ∷ s) =
    let behind = Option.map suc (find_eol eol s) in
    if c == first_byte eol
    then if ltb (length (c ∷ s)) (length eol)
      then none
      else if starts_with (c ∷ s) eol
      then some 0
      else behind
    else behind

-- No EOL in the bytes that were searched.
unfoldable pub no_line : Io → ℕ → Outcome (Option Bytes × Io)
no_line io maxlen =
    if maxlen == max_line
    then ok (none, record io { error = true })
    else if not io.closed
    then ok (none, io)
    else read io.rd io.rd.size >>= λ (bs, b). ok (some bs, record io { rd = b })

-- The line is copied, and it and its EOL are removed from the buffer.
unfoldable pub take_line : Io → ℕ → Outcome (Option Bytes × Io)
take_line io size = (if size == 0 then ok ([], io.rd) else read io.rd size) >>= λ (bs, b).
    remove b (length io.eol) >>= λ c. ok (some bs, record io { rd = c })

unfoldable pub readline2 : Io → Outcome (Option Bytes × Io)
readline2 io =
    let maxlen = if ltb max_line io.rd.size then max_line else io.rd.size in
    if io.error || ltb io.rd.size (length io.eol)
    then ok (none, io)
    else read_at io.rd.base io.rd.off maxlen >>= λ bs. elim (find_eol io.eol bs) [
      | none ↦ no_line io maxlen
      | some n ↦ take_line io n
    ]
