-- ===== src/Nntp/Safe.antt =====
-- fetch-nntp.c: what holds between the calls of the handler, so that the groups and their ids are
-- there where a state reads them.
pub mod States
pub mod Calls
pub mod Connect
use fdm.Mail.{Mail}
use fdm.Mail.Lines.{IsMail}
use fdm.Nntp.{
  State, connect, auth1, wait, line, quit, Group, NntpHooks, Session, Step, fail, goto, is_listed,
  code_of, check_from, check, with_group,
}
use fdm.Nntp.States.{set_at}
use fdm.Outcome.{Outcome, ok, fault, ◌>>=◌, Ends, Ends->>=}
use fdm.Pop3.{FetchCode, again, block, error, exit}
use mathlib.Core.Path.{subst}
use fdm.Prelude.{
  ℕ, zero, suc, ◌+◌, ◌-◌, ◌*◌, ◌/◌, ◌%◌, ◌^◌, ◌≤◌, ◌<◌, ◌≡◌, refl, sym, ap, ◌∙◌, ◌≢◌, ◌↔◌, ◌⊎◌, inl,
  inr, Bool, true, false, not, ◌&&◌, ◌||◌, Option, none, some, List, [], ◌∷◌, ◌++◌, map, append-nil,
  append_assoc, arith, ltb, leb, ◌==◌, if◌then◌else◌, ==_iff, Bool-cases, Option-cases, length,
  get_elem?, take, drop, length-append, length-take, length-drop, take-append-drop,
  take-append_exact, drop-append_exact, take-all, take-append_le, drop-append_le, drop-drop,
  drop-take, take-add, take-take_le, length-take_le, list_cases, All, All-append, get_elem-All,
  Bytes, codes, size_mod, size_max, sub_size, add_size, u32_mod, memchr, to_lower, is_space,
  is_blank, is_digit, bytes_eq, starts_with_case, starts_with, eq_self, bytes_eq_refl,
}

-- A group whose last article is known has its id.
abbrev pub Known : Option Bytes → ℕ → Type 0
Known none last = last ≡ 0
Known (some id) last = Unit

abbrev pub IsKnown : Group → Type 0
IsKnown g = Known g.id g.last

abbrev pub IsGiven : Option Bytes → Type 0
IsGiven none = ⊥
IsGiven (some s) = Unit

-- The group that is fetched has a last article.
abbrev pub HasLast : ℕ → List Group → Type 0
HasLast i gs = (g : Group) → get_elem? gs i ≡ some g → 0 < g.last

-- A mail with room, within the limit unless it is flushed.
pub record IsOpen (limit : ℕ) (m : Mail) (flushing : Bool) : Type 0 where
  pub valid : IsMail m
  pub space : 0 < m.space
  pub at_start : m.off ≡ 0
  pub within : flushing ≡ false → m.size ≤ limit

set_at-length : (i : ℕ) (g : Group) (gs : List Group) → length (set_at i g gs) ≡ length gs
unfolding set_at
set_at-length i g [] = refl
set_at-length zero g (g' ∷ gs) = refl
set_at-length (suc i) g (g' ∷ gs) = ap suc (set_at-length i g gs)

pub set_at-All :
    (P : Group → Type 0) (i : ℕ) (g : Group) (gs : List Group)
    → P g
    → All P gs
    → All P (set_at i g gs)
unfolding set_at
set_at-All P i g [] p ps = tt
set_at-All P zero g (g' ∷ gs) p ps = (p, ps.1)
set_at-All P (suc i) g (g' ∷ gs) p ps = (ps.0, set_at-All P i g gs p ps.1)

pub set_at-bound :
    (i : ℕ) (g : Group) (gs : List Group) → i < length gs → i < length (set_at i g gs)
set_at-bound i g gs less = subst (λ n. i < n) (sym (set_at-length i g gs)) less

get_elem-set_at :
    (i : ℕ) (g : Group) (gs : List Group) → i < length gs → get_elem? (set_at i g gs) i ≡ some g
unfolding set_at
get_elem-set_at i g [] less = absurd (omega (arith, less))
get_elem-set_at zero g (g' ∷ gs) less = refl
get_elem-set_at (suc i) g (g' ∷ gs) less = get_elem-set_at i g gs (omega (arith, less))

pub HasLast-set_at :
    (i : ℕ) (g : Group) (gs : List Group) → i < length gs → 0 < g.last → HasLast i (set_at i g gs)
HasLast-set_at i g gs less pos k e =
    let same =
      ap {B = ℕ} (λ o. elim o [ none ↦ 0 | some x ↦ x.last ])
        (sym (get_elem-set_at i g gs less) ∙ e) in
    omega (arith, same, pos)

module _ (h : NntpHooks) where
  -- What a state relies on: the index of the group, its groups, and the mail that is read.
  abbrev pub Ready : State → ℕ → List Group → Mail → Bool → Type 0
  Ready connect i gs m f = Unit
  Ready quit i gs m f = Unit
  Ready auth1 i gs m f = (i < length gs) × IsGiven h.pass
  Ready wait i gs m f = (i < length gs) × HasLast i gs
  Ready line i gs m f = (i < length gs) × IsOpen h.max_size m f
  Ready _ i gs m f = i < length gs

  pub record Inv (s : Session h) : Type 0 where
    pub known : All IsKnown s.groups
    pub ready : Ready s.state s.group s.groups s.text s.flushing

  -- After a call; after an error or FETCH_EXIT the session is over.
  abbrev pub After : FetchCode × Session h → Type 0
  After (error, s) = Unit
  After (exit, s) = Unit
  After (_, s) = Inv s

  pub moved :
      (st : State) (s : Session h)
      → Inv s
      → s.state ≡ st
      → Ready st s.group s.groups s.text s.flushing
  moved st s i e = subst (λ x. Ready x s.group s.groups s.text s.flushing) e i.ready

  is_listed-ends :
      (n : ℕ) (codes : List ℕ) (code : ℕ)
      → n ≤ length codes
      → (b : Bool) × (is_listed n codes code ≡ ok b)
  unfolding is_listed
  is_listed-ends zero codes code le = (false, refl)
  is_listed-ends (suc n) [] code le = absurd (omega (arith, le))
  is_listed-ends (suc n) (c ∷ codes) code le = elim (Bool-cases (code == c)) [
    | inl same ↦ (true, rw (is_listed, same) refl)
    | inr other ↦
        let (b, e) = is_listed-ends n codes code (omega (arith, le)) in (b, rw (is_listed, other) e)
  ]

  -- A session with other replies at hand.
  with_input : (ls : List Bytes) (s : Session h) → Inv s → Inv (record s { input = ls })
  with_input ls s i = record { known = i.known; ready = i.ready }

  pub check_from-Ends :
      (n : ℕ) (codes : List ℕ) (k : ℕ → Bytes → Session h → Step h) (ls : List Bytes)
      (s : Session h)
      → n ≤ length codes
      → Inv s
      → ((code : ℕ) (l : Bytes) (rest : List Bytes)
          → Ends ⊥ After (k code l (record s { input = rest })))
      → Ends ⊥ After (check_from h n codes k ls s)
  unfolding check_from
  check_from-Ends n codes k [] s le i f = with_input [] s i
  check_from-Ends n codes k (l ∷ ls) s le i f = elim (Option-cases (code_of h l)) [
    | inl none_there ↦ rw (check_from, none_there) tt
    | inr (code, there) ↦ elim (Bool-cases (leb 100 code && leb code 199)) [
      | inl info ↦ rw (check_from, there, info) (check_from-Ends n codes k ls s le i f)
      | inr real ↦
          let (b, e) = is_listed-ends n codes code le in
          elim (Bool-cases b) [
            | inl listed ↦ rw (check_from, there, real, e, listed) (f code l ls)
            | inr other ↦ rw (check_from, there, real, e, other) tt
          ]
    ]
  ]

  pub with_group-Ends :
      (k : Group → Step h) (s : Session h)
      → s.group < length s.groups
      → All IsKnown s.groups
      → ((g : Group) → get_elem? s.groups s.group ≡ some g → IsKnown g → Ends ⊥ After (k g))
      → Ends ⊥ After (with_group h k s)
  unfolding with_group
  with_group-Ends k s less a f =
      let (g, e, known) = get_elem-All IsKnown s.groups s.group less a in
      rw (with_group, e) (f g e known)
