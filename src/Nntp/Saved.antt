-- ===== src/Nntp/Saved.antt =====
-- fetch-nntp.c: what is saved to the cache file is what is loaded from it.
use fdm.Nntp.{Group, at_eof, scanned, NntpHooks}
use fdm.Nntp.Cache.{c_string, set_last, read_string, read_group, load_from, print_group, printed}
use fdm.Outcome.{ok, Ends, Ends->>=}
use mathlib.Core.Path.{subst}
use fdm.Prelude.{
  ℕ, zero, suc, ◌<◌, ◌≡◌, refl, inl, inr, false, Option, none, some, List, [], ◌∷◌, ◌++◌, arith,
  ltb, ◌==◌, Bool-cases, Option-cases, length, length-append, take-append_exact, drop-append_exact,
  All, Bytes, size_max, add_size, memchr, is_space,
}

-- No blank at the front.
abbrev pub IsClear : Bytes → Type 0
IsClear [] = ⊥
IsClear (c ∷ x) = is_space c ≡ false

-- A string that `printf` and `fread` pass on as it is.
pub record IsText (w : Bytes) : Type 0 where
  pub clear : IsClear w
  pub no_nul : All (λ c. (c == 0) ≡ false) w
  pub short : length w < size_max

clear-append : (w x : Bytes) → IsClear w → IsClear (w ++ x)
clear-append [] x c = absurd c
clear-append (b ∷ w) x c = c

clear-length : (w : Bytes) → IsClear w → (length w == 0) ≡ false
clear-length [] c = absurd c
clear-length (b ∷ w) c = ground arith

memchr-nul : (w : Bytes) → All (λ c. (c == 0) ≡ false) w → memchr 0 w ≡ none
unfolding memchr
memchr-nul [] a = refl
memchr-nul (c ∷ w) (f, a) = rw (f, memchr-nul w a) refl

c_string-IsText : (w : Bytes) → IsText w → c_string w ≡ w
unfolding c_string
c_string-IsText w i = rw (c_string, memchr-nul w i.no_nul) refl

-- The groups of a file, put into those at hand one by one.
unfoldable pub restore : List Group → List Group → List Group
restore [] into = into
restore (g ∷ gs) into = elim g.id [
  | none ↦ restore gs into
  | some id ↦ restore gs (set_last g.name g.last id into)
]

-- Groups that the file can hold.
abbrev pub IsId : Option Bytes → Type 0
IsId none = Unit
IsId (some id) = IsText id

unfoldable pub Savable : List Group → Type 0
Savable gs = All (λ g. IsText g.name × IsId g.id) gs

module _ (h : NntpHooks) where
  -- What `fscanf` with "%zu " and " %u " makes of numbers that `fprintf` wrote.
  pub record Scans : Type 0 where
    pub digits_clear : (n : ℕ) (x : Bytes) → IsClear (h.decimal n ++ x)
    pub size_digits :
        (n : ℕ) (x : Bytes) → IsClear x → h.scan_size (h.decimal n ++ (b' ' ∷ x)) ≡ scanned n x
    pub last_digits :
        (n : ℕ) (x : Bytes)
        → IsClear x
        → h.scan_last (b' ' ∷ (h.decimal n ++ (b' ' ∷ x))) ≡ scanned n x
    pub size_newline : (x : Bytes) → h.scan_size (b'\n' ∷ x) ≡ h.scan_size x
    pub size_end : h.scan_size [] ≡ at_eof

  -- The system refused memory.
  abbrev pub Refused : Type 0
  Refused = (k : ℕ) × (h.grants k ≡ false)

  read_string-IsText :
      (w x : Bytes)
      → IsText w
      → Ends Refused (λ r. r ≡ some (w, x)) (read_string h (length w) (w ++ x))
  unfolding read_string
  read_string-IsText w x i =
      let no_wrap : (add_size (length w) 1 == 0) ≡ false = ground (arith, i.short) in
      let some_bytes = clear-length w i.clear in
      let enough : ltb (length (w ++ x)) (length w) ≡ false = ground (arith, length-append w x) in
      elim (Bool-cases (h.grants (add_size (length w) 1))) [
        | inl given ↦
            rw
              (
                read_string,
                no_wrap,
                given,
                some_bytes,
                enough,
                take-append_exact w x (length w) refl,
                drop-append_exact w x (length w) refl,
                c_string-IsText w i,
              )
              refl
        | inr refused ↦ rw (read_string, no_wrap, refused) (add_size (length w) 1, refused)
      ]

  module _ (sc : Scans) where
    read_group-printed :
        (name : Bytes) (last : ℕ) (id x : Bytes)
        → IsText name
        → IsText id
        → Ends Refused
            (λ r. r ≡ some ((name, last, id), b'\n' ∷ x))
            (read_group h (length name) (
              name
              ++ (b' '
                  ∷ (h.decimal last
                      ++ (b' ' ∷ (h.decimal (length id) ++ (b' ' ∷ (id ++ (b'\n' ∷ x)))))))))
    unfolding read_group
    read_group-printed name last id x n i =
        let l3 = id ++ (b'\n' ∷ x) in
        let l2 = h.decimal (length id) ++ (b' ' ∷ l3) in
        let l1 = b' ' ∷ (h.decimal last ++ (b' ' ∷ l2)) in
        Ends->>= Refused (λ r. r ≡ some (name, l1)) (λ r. r ≡ some ((name, last, id), b'\n' ∷ x))
          (read_string h (length name) (name ++ l1)) _ (read_string-IsText name l1 n)
          (λ r e.
            rw
              (
                e,
                sc.last_digits last l2 (sc.digits_clear (length id) (b' ' ∷ l3)),
                sc.size_digits (length id) l3 (clear-append id (b'\n' ∷ x) i.clear),
              )
              (Ends->>= Refused (λ r. r ≡ some (id, b'\n' ∷ x))
                (λ r. r ≡ some ((name, last, id), b'\n' ∷ x)) (read_string h (length id) l3) _
                (read_string-IsText id (b'\n' ∷ x) i) (λ r e. rw e refl)))

    print_group-length :
        (name : Bytes) (last : ℕ) (id rest : Bytes)
        → length rest < length (print_group h name last id rest)
    unfolding print_group
    print_group-length name last id rest =
        let l3 = id ++ (b'\n' ∷ rest) in
        let l2 = h.decimal (length id) ++ (b' ' ∷ l3) in
        let l1 = h.decimal last ++ (b' ' ∷ l2) in
        let a = length-append id (b'\n' ∷ rest) in
        let b = length-append (h.decimal (length id)) (b' ' ∷ l3) in
        let c = length-append (h.decimal last) (b' ' ∷ l2) in
        let d = length-append name (b' ' ∷ l1) in
        let e = length-append (h.decimal (length name)) (b' ' ∷ (name ++ (b' ' ∷ l1))) in
        omega (arith, a, b, c, d, e)

    load_from-newline :
        (fuel : ℕ) (x : Bytes) (gs : List Group)
        → load_from h fuel (b'\n' ∷ x) gs ≡ load_from h fuel x gs
    unfolding load_from
    load_from-newline zero x gs = refl
    load_from-newline (suc fuel) x gs = rw (load_from, sc.size_newline x) refl

    load_from-end : (fuel : ℕ) (gs : List Group) → 0 < fuel → load_from h fuel [] gs ≡ ok (some gs)
    unfolding load_from
    load_from-end zero gs pos = absurd (omega (arith, pos))
    load_from-end (suc fuel) gs pos = rw (load_from, sc.size_end) refl

    load_from-line :
        (fuel : ℕ) (name : Bytes) (last : ℕ) (id rest : Bytes) (into : List Group)
        (P : Option (List Group) → Type 0)
        → IsText name
        → IsText id
        → Ends Refused P (load_from h fuel rest (set_last name last id into))
        → Ends Refused P (load_from h (suc fuel) (print_group h name last id rest) into)
    unfolding load_from print_group
    load_from-line fuel name last id rest into P n i k =
        let l3 = id ++ (b'\n' ∷ rest) in
        let l1 = b' ' ∷ (h.decimal last ++ (b' ' ∷ (h.decimal (length id) ++ (b' ' ∷ l3)))) in
        rw
          (
            load_from,
            print_group,
            sc.size_digits (length name) (name ++ l1) (clear-append name l1 n.clear),
          )
          (Ends->>= Refused (λ r. r ≡ some ((name, last, id), b'\n' ∷ rest)) P
            (read_group h (length name) (name ++ l1)) _ (read_group-printed name last id rest n i)
            (λ r e. rw (e, load_from-newline fuel rest (set_last name last id into)) k))

    printed-none : (g : Group) (gs : List Group) → g.id ≡ none → printed h (g ∷ gs) ≡ printed h gs
    unfolding printed
    printed-none g gs e = rw (printed, e) refl

    printed-some :
        (g : Group) (gs : List Group) (id : Bytes)
        → g.id ≡ some id
        → printed h (g ∷ gs) ≡ print_group h g.name g.last id (printed h gs)
    unfolding printed
    printed-some g gs id e = rw (printed, e) refl

    pub load_from-printed :
        (fuel : ℕ) (gs into : List Group)
        → Savable gs
        → length (printed h gs) < fuel
        → Ends Refused (λ r. r ≡ some (restore gs into)) (load_from h fuel (printed h gs) into)
    unfolding printed restore Savable
    load_from-printed fuel [] into v less = rw (load_from-end fuel into (omega (arith, less))) refl
    load_from-printed zero (g ∷ gs) into v less = absurd (omega (arith, less))
    load_from-printed (suc fuel) (g ∷ gs) into ((n, i), v) less = elim (Option-cases g.id) [
      | inl none_there ↦
          rw (printed, restore, none_there)
            (load_from-printed (suc fuel) gs into v
              (subst (λ x. length x < suc fuel) (printed-none g gs none_there) less))
      | inr (id, there) ↦
          let less' = subst (λ x. length x < suc fuel) (printed-some g gs id there) less in
          rw (printed, restore, there)
            (load_from-line fuel g.name g.last id (printed h gs) into _ n (subst IsId there i) (
              load_from-printed fuel gs (set_last g.name g.last id into) v
                (omega (arith, less', print_group-length g.name g.last id (printed h gs)))))
    ]
