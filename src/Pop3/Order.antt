-- ===== src/Pop3/Order.antt =====
-- The want queue of a first connection is in the order of the server's numbers.
use mathlib.Core.List.Perm
use mathlib.Core.List.{Perm, perm_middle}
use fdm.Pop3.Resolve.{insert_by_idx, is_wanted, build_wantq}
use fdm.Pop3.{PopMail, Pop3Hooks}
use fdm.Prelude.{ℕ, ◌≤◌, inl, inr, List, [], ◌∷◌, ◌++◌, arith, ltb, if◌then◌else◌, Bool-cases}

-- No mail of the queue has an index below `i`.
abbrev pub IsAbove : ℕ → List PopMail → Type 0
IsAbove i [] = Unit
IsAbove i (b ∷ bs) = (i ≤ b.idx) × IsAbove i bs

abbrev pub IsSorted : List PopMail → Type 0
IsSorted [] = Unit
IsSorted (a ∷ bs) = IsAbove a.idx bs × IsSorted bs

IsAbove-mono : (i j : ℕ) (bs : List PopMail) → i ≤ j → IsAbove j bs → IsAbove i bs
IsAbove-mono i j [] le u = tt
IsAbove-mono i j (b ∷ bs) le (l, u) = (omega (arith, le, l), IsAbove-mono i j bs le u)

insert_by_idx-IsAbove :
    (i : ℕ) (a : PopMail) (bs : List PopMail)
    → i ≤ a.idx
    → IsAbove i bs
    → IsAbove i (insert_by_idx a bs)
unfolding insert_by_idx
insert_by_idx-IsAbove i a [] le u = (le, tt)
insert_by_idx-IsAbove i a (b ∷ bs) le (l, u) = elim (Bool-cases (ltb a.idx b.idx)) [
  | inl before ↦ rw (insert_by_idx, before) (le, (l, u))
  | inr behind ↦ rw (insert_by_idx, behind) (l, insert_by_idx-IsAbove i a bs le u)
]

insert_by_idx-IsSorted :
    (a : PopMail) (bs : List PopMail) → IsSorted bs → IsSorted (insert_by_idx a bs)
unfolding insert_by_idx
insert_by_idx-IsSorted a [] s = (tt, tt)
insert_by_idx-IsSorted a (b ∷ bs) (u, s) = elim (Bool-cases (ltb a.idx b.idx)) [
  | inl before ↦
      let le : a.idx ≤ b.idx = ground (arith, before) in
      rw (insert_by_idx, before) ((le, IsAbove-mono a.idx b.idx bs le u), (u, s))
  | inr behind ↦
      let le : b.idx ≤ a.idx = ground (arith, behind) in
      rw (insert_by_idx, behind)
        (insert_by_idx-IsAbove b.idx a bs le u, insert_by_idx-IsSorted a bs s)
]

insert_by_idx-Perm : (a : PopMail) (bs : List PopMail) → Perm (insert_by_idx a bs) (a ∷ bs)
unfolding insert_by_idx
insert_by_idx-Perm a [] = Perm.rfl
insert_by_idx-Perm a (b ∷ bs) = elim (Bool-cases (ltb a.idx b.idx)) [
  | inl before ↦ rw (insert_by_idx, before) Perm.rfl
  | inr behind ↦
      rw (insert_by_idx, behind)
        (Perm.trans (Perm.cons b (insert_by_idx-Perm a bs)) (Perm.swap a b bs))
]

module _ (h : Pop3Hooks) where
  -- The mails of a list that are fetched.
  unfoldable pub wanted_of : h.Tree → List PopMail → List PopMail
  wanted_of cache [] = []
  wanted_of cache (a ∷ bs) =
      if is_wanted h cache a then a ∷ wanted_of cache bs else wanted_of cache bs

  -- The want queue that is built stays in the order of the indexes, and holds, each as often, the
  -- mails that it held before and those of the server that are fetched. It was in order before.
  pub build_wantq-IsSorted :
      (cache : h.Tree) (bs want : List PopMail) (total : ℕ)
      → IsSorted want
      → let (queue, _) = build_wantq h cache bs want total in
        IsSorted queue × Perm queue (wanted_of cache bs ++ want)
  unfolding build_wantq wanted_of
  build_wantq-IsSorted cache [] want total s = (s, Perm.rfl)
  build_wantq-IsSorted cache (a ∷ bs) want total s = elim (Bool-cases (is_wanted h cache a)) [
    | inl wanted ↦
        let (t, p) =
          build_wantq-IsSorted cache bs (insert_by_idx a want) _
            (insert_by_idx-IsSorted a want s) in
        rw (build_wantq, wanted_of, wanted)
          (
            t,
            Perm.trans p (
                Perm.trans (Perm.append_left (wanted_of cache bs) (insert_by_idx-Perm a want))
                  (perm_middle (wanted_of cache bs) want)),
          )
    | inr other ↦ rw (build_wantq, wanted_of, other) (build_wantq-IsSorted cache bs want total s)
  ]
