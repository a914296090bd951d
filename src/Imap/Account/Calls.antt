-- ===== src/Imap/Account/Calls.antt =====
-- imap-common.c: the account over any call of the session, and over the commits between two calls.
use fdm.Imap.{
  State, connect, connected, capability1, capability2, cram_md5_auth, login, user, pass, select1,
  select2, select3, select4, search1, search2, search3, next, body, line, mail, commit, expunge,
  close, quit, ImapHooks, Session, commit_mail, init,
}
use fdm.Imap.Account.{Inv, Keeps}
use fdm.Imap.Account.Login.{
  connect-Inv, connected-Inv, capability1-Inv, capability2-Inv, cram_md5_auth-Inv, login-Inv,
  user-Inv, pass-Inv, select1-Inv, select2-Inv, select3-Inv, select4-Inv, search1-Inv, search2-Inv,
  search3-Inv,
}
use fdm.Imap.Account.Mails.{
  next-Inv, body-Inv, line-Inv, mail-Inv, commit-Inv, expunge-Inv, close-Inv, quit-Inv,
}
use fdm.Imap.Machine.{handler}
use fdm.Prelude.{ℕ, suc, ◌≡◌, refl, Bool, true, false, [], ◌∷◌, arith, length-append}

by_state :
    (h : ImapHooks) (n : ℕ) (s : Session h)
    → Inv h n s
    → (st : State) → s.state ≡ st
    → Keeps h n (handler h st s)
unfolding handler
by_state h n s i connect e = connect-Inv h n s e i
by_state h n s i connected e = connected-Inv h n s e i
by_state h n s i capability1 e = capability1-Inv h n s e i
by_state h n s i capability2 e = capability2-Inv h n s e i
by_state h n s i cram_md5_auth e = cram_md5_auth-Inv h n s e i
by_state h n s i login e = login-Inv h n s e i
by_state h n s i user e = user-Inv h n s e i
by_state h n s i pass e = pass-Inv h n s e i
by_state h n s i select1 e = select1-Inv h n s e i
by_state h n s i select2 e = select2-Inv h n s e i
by_state h n s i select3 e = select3-Inv h n s e i
by_state h n s i select4 e = select4-Inv h n s e i
by_state h n s i search1 e = search1-Inv h n s e i
by_state h n s i search2 e = search2-Inv h n s e i
by_state h n s i search3 e = search3-Inv h n s e i
by_state h n s i next e = next-Inv h n s e i
by_state h n s i body e = body-Inv h n s e i
by_state h n s i line e = line-Inv h n s e i
by_state h n s i mail e = mail-Inv h n s e i
by_state h n s i commit e = commit-Inv h n s e i
by_state h n s i expunge e = expunge-Inv h n s e i
by_state h n s i close e = close-Inv h n s e i
by_state h n s i quit e = quit-Inv h n s e i

-- Every call of a handler that returns without an error keeps the account of a session that does
-- not only poll: where `n` mails are handed over and not committed, the mails found in all folders
-- are those that are committed, being marked, waiting to be marked, handed over, being fetched, and
-- wanted. A call that returns FETCH_MAIL hands over one more.
pub handler-account :
    (h : ImapHooks) (n : ℕ) (s : Session h) → Inv h n s → Keeps h n (handler h s.state s)
handler-account h n s i = by_state h n s i s.state refl

-- The commit of one of the mails handed over keeps the account.
pub commit_mail-Inv :
    (h : ImapHooks) (n : ℕ) (drop : Bool) (uid : ℕ) (s : Session h)
    → Inv h (suc n) s
    → let (_, t) = commit_mail h drop uid s in Inv h n t
unfolding commit_mail
commit_mail-Inv h n true uid s i = record {
  balance = record {
    sum = omega (arith, i.balance.sum, length-append s.dropped (uid ∷ []));
    counter = i.balance.counter;
  };
  unsearched = i.unsearched;
  fetches = i.fetches;
}
commit_mail-Inv h n false uid s i = record {
  balance = record {
    sum = omega (arith, i.balance.sum, length-append s.kept (uid ∷ []));
    counter = i.balance.counter;
  };
  unsearched = i.unsearched;
  fetches = i.fetches;
}

-- `imap_state_init` begins an account with nothing handed over; the counter of the commits was
-- cleared with the account's data.
pub init-Inv :
    (h : ImapHooks) (s : Session h) → s.poll ≡ false → s.committed ≡ 0 → Keeps h 0 (init h s)
unfolding init
init-Inv h s fetches zero_committed = record {
  balance = record { sum = omega (arith, zero_committed); counter = omega (arith, zero_committed) };
  unsearched = refl;
  fetches = fetches;
}
