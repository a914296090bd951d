-- ===== src/Pop3/Account/Calls.antt =====
-- pop3-common.c: the account over any call of the session, and over the commits between two calls.
use fdm.Pop3.Account.{
  Inv, Keeps, connected-Inv, user-Inv, stat-Inv, next-Inv, first-Inv, cache1-Inv, reconnect-Inv,
  quit-Inv, connect-Inv, delete-Inv,
}
use fdm.Pop3.Account.Fetch.{list-Inv, retr-Inv, line-Inv}
use fdm.Pop3.Account.Queue.{cache2-Inv, cache3-Inv}
use fdm.Pop3.Machine.{handler}
use fdm.Pop3.{
  State, connect, connected, user, stat, first, cache1, cache2, cache3, next, delete, reconnect,
  list, retr, line, quit, Pop3Hooks, Session, PopMail, commit, init, count_mail,
}
use fdm.Prelude.{ℕ, suc, ◌≡◌, refl, Bool, true, false, [], ◌∷◌, arith, length-append}

by_state :
    (h : Pop3Hooks) (n : ℕ) (s : Session h)
    → Inv h n s
    → (st : State) → s.state ≡ st
    → Keeps h n (handler h st s)
unfolding handler
by_state h n s i connect e = connect-Inv h n s i
by_state h n s i connected e = connected-Inv h n s i
by_state h n s i user e = user-Inv h n s i
by_state h n s i stat e = stat-Inv h n s i
by_state h n s i first e = first-Inv h n s e i
by_state h n s i cache1 e = cache1-Inv h n s i
by_state h n s i cache2 e = cache2-Inv h n s e i
by_state h n s i cache3 e = cache3-Inv h n s e i
by_state h n s i next e = next-Inv h n s e i
by_state h n s i delete e = delete-Inv h n s e i
by_state h n s i reconnect e = reconnect-Inv h n s i
by_state h n s i list e = list-Inv h n s e i
by_state h n s i retr e = retr-Inv h n s e i
by_state h n s i line e = line-Inv h n s e i
by_state h n s i quit e = quit-Inv h n s i

-- Every call of a handler that returns keeps the account: where `n` mails are handed over and not committed, the total is what
-- is done, wanted, to be deleted and handed over, and a state that fetches has the first mail wanted
-- at hand. A call that returns FETCH_MAIL hands over one more.
pub handler-Inv :
    (h : Pop3Hooks) (n : ℕ) (s : Session h) → Inv h n s → Keeps h n (handler h s.state s)
handler-Inv h n s i = by_state h n s i s.state refl

-- The commit of one of the mails handed over keeps the account, whether the mail is kept or to be
-- dropped, and whether the cache can be saved.
pub commit-Inv :
    (h : Pop3Hooks) (n : ℕ) (drop : Bool) (a : PopMail) (s : Session h)
    → Inv h (suc n) s
    → let (_, t) = commit h drop a s in Inv h n t
unfolding commit count_mail
commit-Inv h n true a s i = record {
  balance = record {
    sum = omega (arith, i.balance.sum, length-append s.dropq (a ∷ []));
    counter = i.balance.counter;
  };
  fetching = i.fetching;
}
commit-Inv h n false a s i = record {
  balance = record { sum = omega (arith, i.balance.sum); counter = omega arith };
  fetching = i.fetching;
}

-- `pop3_state_init` begins an account with nothing handed over.
pub init-Inv : (h : Pop3Hooks) (s : Session h) → Keeps h 0 (init h s)
unfolding init
init-Inv h s = record {
  balance = record { sum = omega arith; counter = omega arith };
  fetching = tt;
}
