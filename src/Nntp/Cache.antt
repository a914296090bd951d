-- ===== src/Nntp/Cache.antt =====
-- fetch-nntp.c: the cache file, which keeps the last article of each group.
use fdm.Nntp.{
  Group, at_eof, no_match, scanned, written, not_written, not_unlinked, NntpHooks, Session,
}
use fdm.Outcome.{Outcome, ok, fatal, diverge, ◌>>=◌, ◌>>◌, fatal_if}
use fdm.Prelude.{
  ℕ, zero, suc, ◌+◌, Bool, true, false, not, ◌||◌, Option, none, some, List, [], ◌∷◌, ◌++◌, ltb,
  ◌==◌, if◌then◌else◌, length, take, drop, Bytes, add_size, memchr, bytes_eq,
}

-- A string ends at its NUL.
unfoldable pub c_string : Bytes → Bytes
c_string s = elim (memchr 0 s) [ none ↦ s | some i ↦ take i s ]

-- The group of the name gets the last article; one that is not configured is added, ignored.
unfoldable pub set_last : Bytes → ℕ → Bytes → List Group → List Group
set_last name last id [] =
    record { name = name; ignore = true; size = 0; last = last; id = some id } ∷ []
set_last name last id (g ∷ gs) =
    if bytes_eq g.name name
    then record g { last = last; id = some id } ∷ gs
    else g ∷ set_last name last id gs

module _ (h : NntpHooks) where
  -- `xmalloc(n + 1)` and `fread` of a string of `n` bytes.
  unfoldable pub read_string : ℕ → Bytes → Outcome (Option (Bytes × Bytes))
  read_string n l = do
    fatal_if (add_size n 1 == 0 || not (h.grants (add_size n 1)))
    ok (if n == 0 || ltb (length l) n then none else some (c_string (take n l), drop n l))

  -- One line of the file: `none` where it is invalid.
  unfoldable pub read_group : ℕ → Bytes → Outcome (Option ((Bytes × ℕ × Bytes) × Bytes))
  read_group n l = read_string n l >>= elim [
    | none ↦ ok none
    | some (name, l1) ↦ elim (h.scan_last l1) [
      | at_eof ↦ ok none
      | no_match ↦ ok none
      | scanned last l2 ↦ elim (h.scan_size l2) [
        | at_eof ↦ ok none
        | no_match ↦ ok none
        | scanned m l3 ↦
            read_string m l3
            >>= elim [ none ↦ ok none | some (id, l4) ↦ ok (some ((name, last, id), l4)) ]
      ]
    ]
  ]

  -- The loop of `fetch_nntp_load`.
  unfoldable pub load_from : ℕ → Bytes → List Group → Outcome (Option (List Group))
  load_from zero l gs = diverge
  load_from (suc fuel) l gs = elim (h.scan_size l) [
    | at_eof ↦ ok (some gs)
    | no_match ↦ ok none
    | scanned n l' ↦ read_group n l' >>= elim [
      | none ↦ ok none
      | some ((name, last, id), rest) ↦ load_from fuel rest (set_last name last id gs)
    ]
  ]

  -- `fetch_nntp_load`: `none` for -1. A file that is not there is no error.
  unfoldable pub load : Option Bytes → List Group → Outcome (Option (List Group))
  load none gs = ok (some gs)
  load (some l) gs = if h.can_open then load_from (length l + 1) l gs else ok none

  -- The line of a group, in front of the lines of those behind it.
  unfoldable pub print_group : Bytes → ℕ → Bytes → Bytes → Bytes
  print_group name last id rest =
      h.decimal (length name)
      ++ (b' '
          ∷ (name
              ++ (b' '
                  ∷ (h.decimal last
                      ++ (b' ' ∷ (h.decimal (length id) ++ (b' ' ∷ (id ++ (b'\n' ∷ rest)))))))))

  unfoldable pub printed : List Group → Bytes
  printed [] = []
  printed (g ∷ gs) = elim g.id [
    | none ↦ printed gs
    | some id ↦ print_group g.name g.last id (printed gs)
  ]

  -- `fetch_nntp_save`: whether it returns 0, with the file then.
  unfoldable pub save : Session h → Outcome (Bool × Session h)
  save s = elim (h.write_file (printed s.groups)) [
    | written ↦ ok (true, record s { file = some (printed s.groups) })
    | not_written ↦ ok (false, s)
    | not_unlinked ↦ fatal
  ]
