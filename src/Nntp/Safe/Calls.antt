-- ===== src/Nntp/Safe/Calls.antt =====
-- fetch-nntp.c: every call of the handler keeps what the next one relies on.
use fdm.Mail.Append.{Appended, append_line-Appended}
use fdm.Mail.Store.{mail_open, append_line, zeros}
use fdm.Nntp.{
  State, connect, connected, auth1, auth2, switch, group, reset, stat, wait, next, article, line,
  quit, NntpHooks, Session, goto, code_of, is_listed, check_from, check,
}
use fdm.Nntp.Machine.{handler}
use fdm.Nntp.Safe.{Ready, Inv, After, moved, check_from-Ends, with_group-Ends}
use fdm.Nntp.Safe.States.{
  connected-Inv, auth1-Inv, switch-Inv, group-Inv, reset-Inv, stat-Inv, wait-Inv, next-Inv,
  quit-Inv,
}
use fdm.Nntp.States.{state_auth2, state_article, keep_line, lines_from, state_line}
use fdm.Outcome.{Ends, Ends->>=, Ends-mono}
use fdm.Pop3.Transfer.{unstuff}
use mathlib.Core.Path.{subst}
use fdm.Prelude.{
  ℕ, zero, suc, ◌≤◌, ◌<◌, ◌≡◌, refl, sym, ap, ◌∙◌, ◌≢◌, inl, inr, true, false, ◌&&◌, ◌||◌, Option,
  none, some, List, [], ◌∷◌, arith, ltb, leb, ◌==◌, Bool-cases, Option-cases, length, All, Bytes,
  u32_mod,
}

length-zeros : (n : ℕ) → length (zeros n) ≡ n
unfolding zeros
length-zeros zero = refl
length-zeros (suc n) = ap suc (length-zeros n)

-- A line from the server, and the limit on the size of a mail, have less than 2 ^ 32 bytes.
abbrev pub IsShort : Bytes → Type 0
IsShort l = length l < u32_mod

abbrev Within : ℕ → Option Bytes → Type 0
Within n none = Unit
Within n (some x) = length x ≤ n

unstuff_shorter : (l : Bytes) → Within (length l) (unstuff l)
unfolding unstuff
unstuff_shorter [] = omega arith
unstuff_shorter (c ∷ []) = elim (Bool-cases (c == b'.')) [
  | inl dot ↦ rw dot tt
  | inr other ↦ rw other (omega arith)
]
unstuff_shorter (c ∷ d ∷ l) = elim (Bool-cases (c == b'.')) [
  | inl dot ↦ rw dot (omega arith)
  | inr other ↦ rw other (omega arith)
]

unstuff-length : (l l' : Bytes) → unstuff l ≡ some l' → length l' ≤ length l
unstuff-length l l' e = subst (Within (length l)) e (unstuff_shorter l)

module _ (h : NntpHooks) where
  -- The server accepts the password: each of its lines that has a code, and is not informative, has
  -- the code 281.
  abbrev pub Accepts : Session h → Type 0
  Accepts s =
      All
        (λ l.
          (code : ℕ)
          → code_of h l ≡ some code
          → (leb 100 code && leb code 199) ≡ false
          → code ≡ 281)
        s.input

  article-Inv : (s : Session h) → Inv h s → s.state ≡ article → Ends ⊥ (After h) (state_article h s)
  unfolding state_article check mail_open
  article-Inv s i e =
      let less = moved h article s i e in
      with_group-Ends h _ s less i.known (λ g at k.
        check_from-Ends h 3 _ _ s.input s (omega arith) i (λ code l rest.
          elim (Bool-cases (code == 423 || code == 430)) [
            | inl gone ↦ rw gone (record { known = i.known; ready = less })
            | inr there ↦ rw there (elim (Bool-cases (h.grants 32768)) [
              | inl given ↦ rw given (record {
                known = i.known;
                ready = (
                  less,
                  record {
                    valid = record {
                      block = length-zeros 32768;
                      room = omega arith;
                      bounded = omega arith;
                    };
                    space = omega arith;
                    at_start = refl;
                    within = λ f. omega arith;
                  },
                );
              })
              | inr refused ↦ rw refused tt
            ])
          ]))

  auth2_from :
      (ls : List Bytes) (s : Session h)
      → All
          (λ l.
            (code : ℕ)
            → code_of h l ≡ some code
            → (leb 100 code && leb code 199) ≡ false
            → code ≡ 281)
          ls
      → Inv h s
      → s.group < length s.groups
      → Ends ⊥ (After h) (check_from h 2 (281 ∷ []) (λ code l s. goto h group s) ls s)
  unfolding check_from is_listed
  auth2_from [] s a i less = record { known = i.known; ready = i.ready }
  auth2_from (l ∷ ls) s (f, a) i less = elim (Option-cases (code_of h l)) [
    | inl none_there ↦ rw (check_from, none_there) tt
    | inr (code, there) ↦ elim (Bool-cases (leb 100 code && leb code 199)) [
      | inl info ↦ rw (check_from, there, info) (auth2_from ls s a i less)
      | inr real ↦
          let same : (code == 281) ≡ true = ground (arith, f code there real) in
          rw (check_from, there, real, is_listed, same) (record { known = i.known; ready = less })
    ]
  ]

  auth2-Inv :
      (s : Session h) → Inv h s → s.state ≡ auth2 → Accepts s → Ends ⊥ (After h) (state_auth2 h s)
  unfolding state_auth2 check
  auth2-Inv s i e a = auth2_from s.input s a i (moved h auth2 s i e)

  -- A line that is kept, or flushed.
  abbrev Kept : Option (Session h) → Type 0
  Kept none = Unit
  Kept (some t) = Inv h t × (t.state ≡ line)

  keep_line-Kept :
      (l : Bytes) (s : Session h)
      → Inv h s
      → s.state ≡ line
      → IsShort l
      → h.max_size < u32_mod
      → Ends ⊥ Kept (keep_line h l s)
  unfolding keep_line
  keep_line-Kept l s i e short limit =
      let (less, o) = moved h line s i e in
      elim (Bool-cases s.flushing) [
        | inl flush ↦
            rw (keep_line, flush)
              (
                record {
                  known = i.known;
                  ready = subst (Ready h s.state s.group s.groups s.text) flush i.ready;
                },
                e,
              )
        | inr keeping ↦
            let size = o.within keeping in
            rw (keep_line, keeping)
              (Ends->>= _ (Appended h.grants s.text l) Kept (append_line h.grants s.text l) _
                (Ends-mono _ ⊥ _ (Appended h.grants s.text l) (append_line h.grants s.text l)
                  (append_line-Appended h.grants s.text l o.valid o.space
                    (omega (arith, size, short, limit)))
                  (λ huge. omega (arith, huge, size, short, limit, o.at_start)) (λ o a. a))
                (elim [
                  | none ↦ λ a. tt
                  | some m ↦ λ (w, c, z, y, at). (
                    record {
                      known = i.known;
                      ready =
                          subst (λ st. Ready h st s.group s.groups m (ltb h.max_size m.size))
                            (sym e)
                            (
                              less,
                              record {
                                valid = w;
                                space = omega (arith, z, w.room);
                                at_start = at ∙ o.at_start;
                                within = λ f. ground (arith, f);
                              },
                            );
                    },
                    e,
                  )
                ]))
      ]

  lines_from-Inv :
      (ls : List Bytes) (s : Session h)
      → Inv h s
      → s.state ≡ line
      → All IsShort ls
      → h.max_size < u32_mod
      → Ends ⊥ (After h) (lines_from h ls s)
  unfolding lines_from
  lines_from-Inv [] s i e short limit = record { known = i.known; ready = i.ready }
  lines_from-Inv (l ∷ ls) s i e (f, short) limit = elim (Option-cases (unstuff l)) [
    | inl dot ↦ rw (lines_from, dot) (record { known = i.known; ready = (moved h line s i e).0 })
    | inr (l', there) ↦
        rw (lines_from, there)
          (Ends->>= ⊥ Kept (After h) (keep_line h l' s) _
            (keep_line-Kept l' s i e (omega (arith, f, unstuff-length l l' there)) limit)
            (elim [ none ↦ λ k. tt | some t ↦ λ (j, e'). lines_from-Inv ls t j e' short limit ]))
  ]

  -- What a call relies on: the server accepts the password, and the lines are short.
  pub record Input (s : Session h) : Type 0 where
    pub accepts : s.state ≡ auth2 → Accepts s
    pub lines : All IsShort s.input
    pub limit : h.max_size < u32_mod

  by_state :
      (s : Session h) (st : State)
      → Inv h s
      → Input s
      → s.state ≡ st
      → s.state ≢ connect
      → Ends ⊥ (After h) (handler h st s)
  unfolding handler state_line
  by_state s connect i j e ne = absurd (ne e)
  by_state s connected i j e ne = connected-Inv h s i e
  by_state s auth1 i j e ne = auth1-Inv h s i e
  by_state s auth2 i j e ne = auth2-Inv s i e (j.accepts e)
  by_state s switch i j e ne = switch-Inv h s i e
  by_state s group i j e ne = group-Inv h s i e
  by_state s reset i j e ne = reset-Inv h s i e
  by_state s stat i j e ne = stat-Inv h s i e
  by_state s wait i j e ne = wait-Inv h s i e
  by_state s next i j e ne = next-Inv h s i e
  by_state s article i j e ne = article-Inv s i e
  by_state s line i j e ne = lines_from-Inv s.input s i e j.lines j.limit
  by_state s quit i j e ne = quit-Inv h s i e

  -- Every call of the handler of a connected session returns, and reads no group behind the array and
  -- no id or password that is not there: between the calls, each group that has a last article has
  -- its id, the index of the group is within the array, and a group whose last article is asked for
  -- has one. The server accepts the password where one is sent (its codes for that are read past
  -- their end otherwise), and its lines and the limit on mails have less than 2 ^ 32 bytes.
  pub handler-After :
      (s : Session h)
      → Inv h s
      → Input s
      → s.state ≢ connect
      → Ends ⊥ (After h) (handler h s.state s)
  handler-After s i j ne = by_state s s.state i j refl ne
