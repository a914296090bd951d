-- ===== src/Imap/Account.antt =====
-- The account of imap-common.c's session: every mail that was found in a folder is wanted, being
-- fetched, handed over, waiting to be marked, being marked, or committed.
pub mod Login
pub mod Mails
pub mod Calls
use fdm.Imap.{
  State, connect, connected, capability1, capability2, cram_md5_auth, login, user, pass, select1,
  select2, select3, select4, search1, search2, search3, next, body, line, mail, commit, expunge,
  close, quit, Wanted, tagged, Parsed, bad, good, ignored, Line, Command, ImapHooks, Session, Step,
  fail, goto, put, put_command, get_line, get, get_okay, parse, okay,
}
use mathlib.Core.Path.{subst}
use fdm.Outcome.{Outcome, ok, fatal, fault, diverge, ◌>>=◌}
use fdm.Pop3.{FetchCode, again, block, error, exit, Reply, failed, no_line, reply, up}
use fdm.Prelude.{
  ℕ, zero, suc, ◌+◌, ◌-◌, ◌*◌, ◌/◌, ◌%◌, ◌^◌, ◌≤◌, ◌<◌, ◌≡◌, refl, sym, ap, ◌∙◌, ◌≢◌, ◌↔◌, ◌⊎◌, inl,
  inr, Bool, true, false, not, ◌&&◌, ◌||◌, Option, none, some, List, [], ◌∷◌, ◌++◌, map, append-nil,
  append_assoc, arith, ltb, leb, ◌==◌, if◌then◌else◌, ==_iff, Bool-cases, Option-cases, length,
  get_elem?, take, drop, length-append, length-take, length-drop, take-append-drop,
  take-append_exact, drop-append_exact, take-all, take-append_le, drop-append_le, drop-drop,
  drop-take, take-add, take-take_le, length-take_le, list_cases, All, All-append, get_elem-All,
  Bytes, codes, size_mod, size_max, sub_size, add_size, u32_mod, memchr, to_lower, is_space,
  is_blank, is_digit, bytes_eq, starts_with_case, starts_with, eq_self, bytes_eq_refl,
}

-- The mails of the folder that are not yet handed over, or are being marked, where `n` are wanted.
abbrev pub at_hand : State → ℕ → ℕ
at_hand next n = n
at_hand body n = n
at_hand expunge n = n
at_hand line n = suc n
at_hand mail n = suc n
at_hand commit n = suc n
at_hand _ n = 0

-- The states with no search yet have nothing wanted, as far as the 32 bits of the counters go.
abbrev pub Unsearched : State → ℕ → Type 0
Unsearched next n = Unit
Unsearched body n = Unit
Unsearched expunge n = Unit
Unsearched line n = Unit
Unsearched mail n = Unit
Unsearched commit n = Unit
Unsearched search3 n = Unit
Unsearched _ n = n % u32_mod ≡ 0

-- The counters of a session, with `n` mails handed over and not committed.
pub record Balanced (all committed out n : ℕ) : Type 0 where
  pub sum : all ≡ (committed + out + n) % u32_mod
  pub counter : committed < u32_mod

module _ (h : ImapHooks) where
  -- The account of a session that does not only poll.
  pub record Inv (n : ℕ) (s : Session h) : Type 0 where
    pub balance :
        Balanced s.folders_total s.committed
          (at_hand s.state (length s.wanted) + length s.dropped + length s.kept)
          n
    pub unsearched : Unsearched s.state (length s.wanted)
    pub fetches : s.poll ≡ false

  -- After a call that began with `n` mails handed over. After an error or FETCH_EXIT the session is
  -- over.
  abbrev pub After : ℕ → FetchCode × Session h → Type 0
  After n (FetchCode.mail, s) = Inv (suc n) s
  After n (exit, s) = Unit
  After n (error, s) = Unit
  After n (again, s) = Inv n s
  After n (block, s) = Inv n s

  -- Of a call that returns.
  abbrev pub Keeps : ℕ → Step h → Type 0
  Keeps n (ok p) = After n p
  Keeps n _ = Unit

  pub Keeps->>= :
      {A : Type 0} (n : ℕ) (m : Outcome A) (f : A → Step h)
      → ((a : A) → Keeps n (f a))
      → Keeps n (m >>= f)
  Keeps->>= n (ok a) f k = k a
  Keeps->>= n fatal f k = tt
  Keeps->>= n fault f k = tt
  Keeps->>= n diverge f k = tt

  -- The account as it is behind a change of the state.
  pub record Moved (n : ℕ) (st : State) (s : Session h) : Type 0 where
    pub balance :
        Balanced s.folders_total s.committed
          (at_hand st (length s.wanted) + length s.dropped + length s.kept)
          n
    pub unsearched : Unsearched st (length s.wanted)
    pub fetches : s.poll ≡ false

  pub moved : (n : ℕ) (st : State) (s : Session h) → Inv n s → s.state ≡ st → Moved n st s
  moved n st s i e = record {
    balance =
        subst
          (λ x.
            Balanced s.folders_total s.committed
              (at_hand x (length s.wanted) + length s.dropped + length s.kept) n)
          e i.balance;
    unsearched = subst (λ x. Unsearched x (length s.wanted)) e i.unsearched;
    fetches = i.fetches;
  }

  -- Two states that account in the same way.
  pub carry :
      (n : ℕ) (st st' : State) (s : Session h)
      → ((k : ℕ) → at_hand st k ≡ at_hand st' k)
      → ((k : ℕ) → Unsearched st k → Unsearched st' k)
      → Moved n st s
      → Moved n st' s
  carry n st st' s e f m = record {
    balance =
        subst (λ a. Balanced s.folders_total s.committed (a + length s.dropped + length s.kept) n)
          (e (length s.wanted)) m.balance;
    unsearched = f (length s.wanted) m.unsearched;
    fetches = m.fetches;
  }

  pub Keeps-goto : (n : ℕ) (st : State) (s : Session h) → Moved n st s → Keeps n (goto h st s)
  Keeps-goto n st s m = record {
    balance = m.balance;
    unsearched = m.unsearched;
    fetches = m.fetches;
  }

  pub Keeps-put :
      (n : ℕ) (l : Line) (st : State) (s : Session h) → Moved n st s → Keeps n (put h l st s)
  unfolding put
  Keeps-put n l st s m = elim (Bool-cases (h.put_ok (l ∷ s.sent))) [
    | inl sent ↦
        rw sent (record { balance = m.balance; unsearched = m.unsearched; fetches = m.fetches })
    | inr broken ↦ rw broken tt
  ]

  pub Keeps-put_command :
      (n : ℕ) (c : Command) (st : State) (s : Session h)
      → Moved n st s
      → Keeps n (put_command h c st s)
  unfolding put_command
  Keeps-put_command n c st s m =
      Keeps-put n _ st (record s { tag = s.tag + 1 })
        (record { balance = m.balance; unsearched = m.unsearched; fetches = m.fetches })

  pub parse_cases : (p : Parsed) → (p ≡ bad) ⊎ ((p ≡ good) ⊎ (p ≡ ignored))
  parse_cases bad = inl refl
  parse_cases good = inr (inl refl)
  parse_cases ignored = inr (inr refl)

  with_input : (n : ℕ) (rs : List Reply) (s : Session h) → Inv n s → Inv n (record s { input = rs })
  with_input n rs s i = record {
    balance = i.balance;
    unsearched = i.unsearched;
    fetches = i.fetches;
  }

  -- A call that goes on with a reply does so in the state it was in.
  pub Keeps-get_line :
      (n : ℕ) (w : Wanted) (k : Bytes → Session h → Step h) (rs : List Reply) (s : Session h)
      → Inv n s
      → ((l : Bytes) (t : Session h) → Moved n s.state t → Keeps n (k l t))
      → Keeps n (get_line h w k rs s)
  unfolding get_line
  Keeps-get_line n w k [] s i f = with_input n [] s i
  Keeps-get_line n w k (failed ∷ rs) s i f = tt
  Keeps-get_line n w k (no_line ∷ rs) s i f = with_input n rs s i
  Keeps-get_line n w k (reply l ∷ rs) s i f = elim (parse_cases (parse h w s.tag l)) [
    | inl wrong ↦ rw (get_line, wrong) tt
    | inr (inl fine) ↦
        rw (get_line, fine)
          (f l (record s { input = rs })
            (record { balance = i.balance; unsearched = i.unsearched; fetches = i.fetches }))
    | inr (inr other) ↦ rw (get_line, other) (Keeps-get_line n w k rs s i f)
  ]

  pub Keeps-get :
      (n : ℕ) (w : Wanted) (st : State) (k : Bytes → Session h → Step h) (s : Session h)
      → Inv n s
      → s.state ≡ st
      → ((l : Bytes) (t : Session h) → Moved n st t → Keeps n (k l t))
      → Keeps n (get h w k s)
  unfolding get
  Keeps-get n w st k s i e f =
      Keeps-get_line n w k s.input s i (λ l t m. f l t (subst (λ x. Moved n x t) e m))

  pub Keeps-get_okay :
      (n : ℕ) (st : State) (k : Session h → Step h) (s : Session h)
      → Inv n s
      → s.state ≡ st
      → ((t : Session h) → Moved n st t → Keeps n (k t))
      → Keeps n (get_okay h k s)
  unfolding get_okay
  Keeps-get_okay n st k s i e f = Keeps-get n tagged st _ s i e (λ l t m.
      elim (Bool-cases (okay l)) [ inl fine ↦ rw fine (f t m) | inr refused ↦ rw refused tt ])
