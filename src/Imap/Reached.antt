-- ===== src/Imap/Reached.antt =====
-- imap-common.c: the sessions that are reached from `imap_state_init`, by calls of the handler and
-- by what the caller does between them, as in child-fetch.c.
use fdm.Imap.Account.{at_hand, Inv, After, Keeps, Balanced}
use fdm.Imap.Account.Calls.{handler-account, commit_mail-Inv, init-Inv}
use fdm.Imap.Fetch.{pick_next, state_next}
use fdm.Imap.Machine.{handler}
use fdm.Imap.{next, close, send_close, ImapHooks, Session, put_command, commit_mail, init}
use fdm.Outcome.{ok}
use fdm.Pop3.Account.Reached.{pending}
use fdm.Pop3.{FetchCode, again, block, error, exit, Reply}
use mathlib.Core.Path.{subst}
use fdm.Prelude.{
  ℕ, suc, ◌+◌, ◌≡◌, refl, ap, ◌∙◌, Bool, true, false, List, [], arith, ◌==◌, if◌then◌else◌, length,
  drop,
}

-- FETCH_EXIT and FETCH_ERROR.
abbrev pub is_over : FetchCode → Bool
is_over exit = true
is_over error = true
is_over _ = false

-- A session with the number of mails handed over and not committed.
pub data Reached (h : ImapHooks) : ℕ → Session h → Type 0 where
  -- `imap_state_init` on a session whose data was cleared
  started :
      (s t : Session h)
      → s.poll ≡ false
      → s.committed ≡ 0
      → init h s ≡ ok (again, t)
      → Reached h 0 t
  -- a call of the handler, unless it ends the session
  called :
      (n : ℕ) (c : FetchCode) (s t : Session h)
      → Reached h n s
      → handler h s.state s ≡ ok (c, t)
      → is_over c ≡ false
      → Reached h (pending c n) t
  -- a mail is delivered, and committed
  committed :
      (n : ℕ) (drop : Bool) (uid : ℕ) (s : Session h)
      → Reached h (suc n) s
      → Reached h n (commit_mail h drop uid s).1
  -- replies arrive
  arrived :
      (n : ℕ) (rs : List Reply) (s : Session h)
      → Reached h n s
      → Reached h n (record s { input = rs })
  -- the caller sets the flags of its queue
  flagged :
      (n : ℕ) (purge is_empty : Bool) (s : Session h)
      → Reached h n s
      → Reached h n (record s { purge = purge; is_empty = is_empty })

module _ (h : ImapHooks) where
  after :
      (n : ℕ) (c : FetchCode) (t : Session h)
      → is_over c ≡ false
      → After h n (c, t)
      → Inv h (pending c n) t
  after n FetchCode.mail t ne i = i
  after n exit t ne i = absurd (ground (arith, ne))
  after n error t ne i = absurd (ground (arith, ne))
  after n again t ne i = i
  after n block t ne i = i

  -- The account holds in every session that is reached.
  pub Reached-Inv : (n : ℕ) (s : Session h) → Reached h n s → Inv h n s
  Reached-Inv _ _ (started s t p z e) = subst (Keeps h 0) e (init-Inv h s p z)
  Reached-Inv _ _ (called n c s t r e ne) =
      after n c t ne (subst (Keeps h n) e (handler-account h n s (Reached-Inv n s r)))
  Reached-Inv _ _ (committed n drop uid s r) =
      commit_mail-Inv h n drop uid s (Reached-Inv (suc n) s r)
  Reached-Inv _ _ (arrived n rs s r) =
      let i = Reached-Inv n s r in
      record { balance = i.balance; unsearched = i.unsearched; fetches = i.fetches }
  Reached-Inv _ _ (flagged n p e s r) =
      let i = Reached-Inv n s r in
      record { balance = i.balance; unsearched = i.unsearched; fetches = i.fetches }

  idle :
      (drop keep want : List ℕ) (s : Session h)
      → drop ≡ []
      → keep ≡ []
      → want ≡ []
      → s.purge ≡ false
      → pick_next h drop keep want s
        ≡ (if s.committed == s.total then put_command h send_close close s else ok (block, s))
  unfolding pick_next
  idle drop keep want s d k w p = rw (d, k, w, pick_next, p) refl

  -- In a session that is reached, and that does not only poll, where every mail that was handed over
  -- is committed, nothing is wanted, nothing waits to be marked and no purge is asked for,
  -- `imap_state_next` closes the folder exactly if the mails found in all folders so far are as many
  -- as those of this one, up to the 32 bits of the counters: `committed` is never reset. Behind a
  -- folder with mail in it, the session waits here, and blocks at every call.
  pub closes-first_folder :
      (s : Session h)
      → Reached h 0 s
      → s.state ≡ next
      → s.dropped ≡ []
      → s.kept ≡ []
      → s.wanted ≡ []
      → s.purge ≡ false
      → state_next h s
        ≡ (if s.folders_total == s.total then put_command h send_close close s else ok (block, s))
  unfolding state_next
  closes-first_folder s r at d k w p =
      let i = Reached-Inv 0 s r in
      let b =
        subst
          (λ st.
            Balanced s.folders_total s.committed
              (at_hand st (length s.wanted) + length s.dropped + length s.kept) 0)
          at i.balance in
      let same : s.committed ≡ s.folders_total =
        (let c = b.sum in
          let u = b.counter in omega (arith, c, u, ap length d, ap length k, ap length w)) in
      idle s.dropped s.kept s.wanted s d k w p
      ∙ ap (λ c. if c == s.total then put_command h send_close close s else ok (block, s)) same
