-- ===== src/Pop3/Account/Reached.antt =====
-- pop3-common.c: the sessions that are reached from `pop3_state_init`, by calls of the handler and
-- by what the caller does between them, as in child-fetch.c.
use fdm.Outcome.{ok}
use fdm.Pop3.Account.{Balanced, Inv, After, Keeps}
use fdm.Pop3.Account.Calls.{handler-Inv, commit-Inv, init-Inv}
use fdm.Pop3.Machine.{handler}
use fdm.Pop3.{
  quit, FetchCode, again, block, error, mail, exit, Reply, Pop3Hooks, Session, PopMail, commit,
  init, put, send_quit, state_next, pick_next,
}
use mathlib.Core.Path.{subst}
use fdm.Prelude.{
  ℕ, suc, ◌+◌, ◌%◌, ◌<◌, ◌≡◌, refl, ap, ◌∙◌, Bool, true, false, List, [], arith, ◌==◌,
  if◌then◌else◌, length, drop, u32_mod,
}

-- The mails handed over and not committed, after a call.
abbrev pub pending : FetchCode → ℕ → ℕ
pending mail n = suc n
pending _ n = n

-- FETCH_EXIT.
abbrev pub is_over : FetchCode → Bool
is_over exit = true
is_over _ = false

-- A session with the number of mails handed over and not committed.
pub data Reached (h : Pop3Hooks) : ℕ → Session h → Type 0 where
  -- `pop3_state_init` on any session
  started : (s t : Session h) → init h s ≡ ok (again, t) → Reached h 0 t
  -- a call of the handler, unless it ends the session
  called :
      (n : ℕ) (c : FetchCode) (s t : Session h)
      → Reached h n s
      → handler h s.state s ≡ ok (c, t)
      → is_over c ≡ false
      → Reached h (pending c n) t
  -- a mail is delivered, and committed
  committed :
      (n : ℕ) (drop : Bool) (a : PopMail) (s : Session h)
      → Reached h (suc n) s
      → Reached h n (commit h drop a s).1
  -- replies arrive
  arrived :
      (n : ℕ) (rs : List Reply) (s : Session h)
      → Reached h n s
      → Reached h n (record s { input = rs })
  -- the caller sets the flags of its queue
  flagged :
      (n : ℕ) (purge is_empty : Bool) (s : Session h)
      → Reached h n s
      → Reached h n (record s { purge = purge; is_empty = is_empty })

all_committed :
    (n total done : ℕ) (want drop : List PopMail)
    → n < u32_mod
    → want ≡ []
    → drop ≡ []
    → Balanced total done want drop n
    → (done == total) ≡ (n == 0)
all_committed n total done want drop few w d b =
    let e : total ≡ (done + n) % u32_mod = omega (arith, b.sum, ap length w, ap length d) in
    grind (arith, e, few, b.counter)

module _ (h : Pop3Hooks) where
  after :
      (n : ℕ) (c : FetchCode) (t : Session h)
      → is_over c ≡ false
      → After h n (c, t)
      → Inv h (pending c n) t
  after n mail t ne i = i
  after n exit t ne i = absurd (ground (arith, ne))
  after n again t ne i = i
  after n block t ne i = i
  after n error t ne i = i

  -- The account holds in every session that is reached: the total is what is done, wanted, to be
  -- deleted and handed over.
  pub Reached-Inv : (n : ℕ) (s : Session h) → Reached h n s → Inv h n s
  Reached-Inv _ _ (started s t e) = (subst (Keeps h 0) e (init-Inv h s))
  Reached-Inv _ _ (called n c s t r e ne) =
      after n c t ne (subst (Keeps h n) e (handler-Inv h n s (Reached-Inv n s r)))
  Reached-Inv _ _ (committed n drop a s r) = commit-Inv h n drop a s (Reached-Inv (suc n) s r)
  Reached-Inv _ _ (arrived n rs s r) =
      let i = Reached-Inv n s r in record { balance = i.balance; fetching = i.fetching }
  Reached-Inv _ _ (flagged n p e s r) =
      let i = Reached-Inv n s r in record { balance = i.balance; fetching = i.fetching }

  idle :
      (want drop : List PopMail) (s : Session h)
      → want ≡ []
      → drop ≡ []
      → pick_next h drop want s ≡ pick_next h [] [] s
  idle want drop s w d = rw (w, d) refl

  waits :
      (b : Bool) (s : Session h)
      → (s.committed == s.total) ≡ b
      → pick_next h [] [] s ≡ (if b then put h send_quit quit s else ok (block, s))
  unfolding pick_next
  waits true s e = rw e refl
  waits false s e = rw e refl

  -- In a session that is reached, with fewer than 2 ^ 32 mails handed over and not committed, where
  -- nothing is wanted and nothing waits for deletion, `pop3_state_next` sends QUIT if every mail that
  -- was handed over is committed, and else waits.
  pub quits_when_committed :
      (n : ℕ) (s : Session h)
      → Reached h n s
      → n < u32_mod
      → s.wantq ≡ []
      → s.dropq ≡ []
      → state_next h s ≡ (if n == 0 then put h send_quit quit s else ok (block, s))
  unfolding state_next
  quits_when_committed n s r few w d =
      let i = Reached-Inv n s r in
      let none_left : (s.committed == s.total) ≡ (n == 0) =
        all_committed n s.total s.committed s.wantq s.dropq few w d i.balance in
      idle s.wantq s.dropq s w d ∙ waits (n == 0) s none_left
