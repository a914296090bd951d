-- ===== src/Mail/Store.antt =====
-- The memory of a mail: `mail_open`, `mail_resize`, `append_line` and `trim_from` of mail.c, and
-- `shm_resize` of shm-mmap.c. `grants n` says whether the system gives a mapping of `n` bytes.
use fdm.Buffer.{write_at, memmove}
use fdm.Mail.{Mail, contents, line_length, find_header}
use fdm.Outcome.{Outcome, ok, diverge, ◌>>=◌, ◌>>◌, fatal_if}
use fdm.Prelude.{
  ℕ, zero, suc, ◌+◌, ◌-◌, ◌*◌, ◌/◌, ◌%◌, Bool, true, false, not, ◌||◌, Option, none, some, [], ◌∷◌,
  ◌++◌, ltb, leb, ◌==◌, if◌then◌else◌, length, Bytes, codes, size_mod, size_max, sub_size, add_size,
  starts_with,
}

unfoldable pub zeros : ℕ → Bytes
zeros zero = []
zeros (suc n) = 0 ∷ zeros n

-- IO_ROUND of io.h: the next whole number of blocks above `n`.
abbrev pub io_round : ℕ → ℕ
io_round n = (n / 16384 + 1) * 16384 % size_mod

-- The new part of the file reads as zeros. `none` is a NULL result.
unfoldable pub shm_resize : (ℕ → Bool) → Bytes → ℕ → ℕ → Outcome (Option Bytes)
shm_resize grants mem nmemb size = do
  fatal_if (size == 0)
  fatal_if (ltb (size_max / nmemb) size)
  ok (if grants (nmemb * size) then some (mem ++ zeros (nmemb * size - length mem)) else none)

-- The fields that belong to the mail's memory.
unfoldable pub mail_open : (ℕ → Bool) → ℕ → Outcome (Option Mail)
mail_open grants size = do
  let space = io_round size
  fatal_if (space == 0)
  ok (
      if grants space
      then some (record {
        base = zeros space;
        space = space;
        off = 0;
        size = 0;
        body = 0;
        wrapped = [];
        wrapchar = 0;
      })
      else none)

-- The loop of `mail_resize`.
unfoldable pub resize_from : (ℕ → Bool) → ℕ → ℕ → Mail → Outcome (Option Mail)
resize_from grants zero need m = diverge
resize_from grants (suc fuel) need m = elim (leb m.space need) [
  | false ↦ ok (some m)
  | true ↦ shm_resize grants m.base 2 m.space >>= elim [
    | none ↦ ok none
    | some base ↦ resize_from grants fuel need (record m { base = base; space = m.space * 2 })
  ]
]

unfoldable pub mail_resize : (ℕ → Bool) → Mail → ℕ → Outcome (Option Mail)
mail_resize grants m size = do
  fatal_if (ltb (size_max - m.off) size)
  resize_from grants 65 (m.off + size) m

-- The two writes behind the mail, of the line and of its newline.
unfoldable pub append_bytes : Mail → Bytes → Outcome Mail
append_bytes m line = do
  base ← if ltb 0 (length line) then write_at m.base (m.off + m.size) line else ok m.base
  base' ← write_at base (m.off + m.size + length line) (b'\n' ∷ [])
  ok (record m { base = base'; size = add_size m.size (length line + 1) })

unfoldable pub append_line : (ℕ → Bool) → Mail → Bytes → Outcome (Option Mail)
append_line grants m line =
    mail_resize grants m (add_size (add_size m.size (length line)) 1)
    >>= elim [ none ↦ ok none | some r ↦ append_bytes r line >>= λ n. ok (some n) ]

-- Takes off a first line that starts with "From ".
unfoldable pub trim_from : Mail → Mail
trim_from m =
    if m.body == 0 || ltb m.size 5
    then m
    else if not (starts_with (contents m) (codes "From "))
    then m
    else let len = line_length (contents m) in
      record m { size = m.size - len; off = m.off + len; body = sub_size m.body len }

-- `remove_header`: the bytes behind the header move down over it. `none` is the result -1.
unfoldable pub remove_header : Mail → Bytes → Outcome (Option Mail)
remove_header m hdr = find_header m hdr false >>= elim [
  | none ↦ ok none
  | some l ↦
      let at = m.size - length l.rest in
      memmove m.base (m.off + at) (m.off + at + l.len) (m.size - l.len - at) >>= λ base.
      ok (some (record m { base = base; size = m.size - l.len; body = sub_size m.body l.len }))
]

-- Where `insert_header` inserts, and how many newlines it adds: before a header that is named, or
-- at the end of the headers, or at the start of a mail that has none.
unfoldable pub insert_place : Mail → Option Bytes → Outcome (Option (ℕ × ℕ))
insert_place m (some before) =
    find_header m before false
    >>= elim [ none ↦ ok none | some l ↦ ok (some (m.size - length l.rest, 1)) ]
insert_place m none = ok (some (if m.body == 0 then (0, 2) else (m.body - 1, 1)))

-- What `memset` writes.
unfoldable pub newline_run : ℕ → Bytes
newline_run zero = []
newline_run (suc n) = b'\n' ∷ newline_run n

-- The bytes behind the place move up, and the header and its newlines are written into the gap.
unfoldable pub insert_bytes : Mail → ℕ → ℕ → Bytes → Outcome Mail
insert_bytes m at newlines hdr = do
  let len = length hdr + newlines
  base ← memmove m.base (m.off + at + len) (m.off + at) (m.size - at)
  base' ← write_at base (m.off + at) hdr
  base'' ← write_at base' (m.off + at + length hdr) (newline_run newlines)
  ok (record m { base = base''; size = add_size m.size len; body = add_size m.body len })

-- `hdr` is the header that `vasprintf` printed.
unfoldable pub insert_header : (ℕ → Bool) → Mail → Option Bytes → Bytes → Outcome (Option Mail)
insert_header grants m before hdr = insert_place m before >>= elim [
  | none ↦ ok none
  | some (at, newlines) ↦
      mail_resize grants m (add_size m.size (length hdr + newlines))
      >>= elim [ none ↦ ok none | some r ↦ insert_bytes r at newlines hdr >>= λ n. ok (some n) ]
]
