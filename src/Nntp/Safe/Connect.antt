-- ===== src/Nntp/Safe/Connect.antt =====
-- fetch-nntp.c: the cache file is read to its end, and a connected session has what its states read.
use fdm.Nntp.{Group, Scan, scanned, NntpHooks, Session, Written, written, not_written, not_unlinked}
use fdm.Nntp.Cache.{save, printed}
use fdm.Nntp.Safe.{IsKnown, Inv, After}
use fdm.Nntp.States.{commit}
use fdm.Outcome.{Ends}
use fdm.Prelude.{
  ℕ, ◌≤◌, ◌<◌, ◌≡◌, refl, ◌⊎◌, inl, inr, false, Option, none, some, List, length, drop, All, Bytes,
  add_size,
}

-- What a scan leaves is no longer than what it was given.
abbrev pub Leaves : ℕ → Scan → Type 0
Leaves n (scanned m r) = length r ≤ n
Leaves n _ = Unit

module _ (h : NntpHooks) where
  pub record Shrinks : Type 0 where
    pub size : (l : Bytes) → Leaves (length l) (h.scan_size l)
    pub last : (l : Bytes) → Leaves (length l) (h.scan_last l)

  -- `xmalloc` is not given a block for a string of `n` bytes: with its NUL it has no size, or the
  -- system refuses the memory.
  abbrev pub NoRoom : ℕ → Type 0
  NoRoom n = (add_size n 1 ≡ 0) ⊎ (h.grants (add_size n 1) ≡ false)

  -- Where a scan of a file may begin: at its start, behind a number, or behind a string with its
  -- length in front.
  pub data Remains (file : Bytes) : Bytes → Type 0 where
    whole : Remains file file
    behind_last :
        {l : Bytes} (n : ℕ) (r : Bytes)
        → h.scan_last l ≡ scanned n r
        → Remains file l
        → Remains file r
    behind_string :
        {l : Bytes} (n : ℕ) (r : Bytes)
        → h.scan_size l ≡ scanned n r
        → Remains file l
        → Remains file (drop n r)

  -- That was so for a size that is read in the file.
  abbrev pub Denied : Option Bytes → Type 0
  Denied file =
      (w : Bytes) × (file ≡ some w)
      × (l : Bytes) × (n : ℕ) × (r : Bytes) × Remains w l
      × (h.scan_size l ≡ scanned n r)
      × NoRoom n

  -- A string was read, and its bytes are gone.
  abbrev Cut : ℕ → Bytes → Option (Bytes × Bytes) → Type 0
  Cut n l none = Unit
  Cut n l (some (a, r)) = (length r < length l) × (r ≡ drop n l)

  written_cases : (w : Written) → (w ≡ written) ⊎ (w ≡ not_written) ⊎ (w ≡ not_unlinked)
  written_cases written = inl refl
  written_cases not_written = inr (inl refl)
  written_cases not_unlinked = inr (inr refl)

  module _ (sh : Shrinks) where
    -- A line was read, and behind it the next one begins.
    abbrev Grouped : Bytes → Bytes → Option ((Bytes × ℕ × Bytes) × Bytes) → Type 0
    Grouped w l none = Unit
    Grouped w l (some (a, r)) = (length r < length l) × Remains w r

    -- Groups that a session can begin with.
    abbrev Loaded : Option (List Group) → Type 0
    Loaded none = Unit
    Loaded (some gs) = All IsKnown gs × (0 < length gs)

  -- A commit saves the file, and keeps what the states need. It stops the process only where the
  -- temporary file cannot be removed.
  pub commit-After :
      (s : Session h)
      → Inv h s
      → Ends (h.write_file (printed h s.groups) ≡ not_unlinked) (After h) (commit h s)
  unfolding commit save
  commit-After s i = elim (written_cases (h.write_file (printed h s.groups))) [
    | inl e ↦ rw (commit, save, e) (record { known = i.known; ready = i.ready })
    | inr (inl e) ↦ rw (commit, save, e) tt
    | inr (inr e) ↦ rw (commit, save, e) refl
  ]
