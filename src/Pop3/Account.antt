-- ===== src/Pop3/Account.antt =====
-- The account of pop3-common.c's session, `total` and `committed`: the count of the mails of a session: every mail is wanted, handed over, to be deleted, or done.
pub mod Queue
pub mod Fetch
pub mod Calls
pub mod Reached
use fdm.Outcome.{Outcome, ok, fatal, fault, diverge, ◌>>=◌}
use fdm.Mail.{Mail}
use fdm.Pop3.Machine.{handler}
use fdm.Pop3.Resolve.{
  insert_by_idx, add_uid, uids_from, state_cache2, state_cache3, is_wanted, build_wantq, renumber,
  resolve, resolve_first, is_bad_end, weed,
}
use fdm.Pop3.Transfer.{
  listed, state_list, state_retr, take_off, fetched, keep_line, lines_from, state_line, unstuff,
}
use fdm.Mail.Store.{mail_open, append_line}
use fdm.Pop3.{
  State, connect, connected, user, stat, first, cache1, cache2, cache3, next, delete, reconnect,
  list, retr, line, quit, FetchCode, again, block, error, mail, exit, Reply, failed, no_line, reply,
  Command, Pop3Hooks, Session, Step, PopMail, put, get_line, get_okay, goto, fail, count_mail,
  commit, timestamp, number_mails, pick_next, deleted, state_connect, state_connected, state_user,
  state_stat, cache_mail, state_first, state_cache1, state_next, state_delete, state_reconnect,
  state_quit, up, down, only_new, only_old, only_all, send_quit, is_only_old,
}
use mathlib.Core.Path.{subst}
use mathlib.Core.Option.{some_inj}
use fdm.Prelude.{
  ℕ, zero, suc, ◌+◌, ◌-◌, ◌*◌, ◌/◌, ◌%◌, ◌^◌, ◌≤◌, ◌<◌, ◌≡◌, refl, sym, ap, ◌∙◌, ◌≢◌, ◌↔◌, ◌⊎◌, inl,
  inr, Bool, true, false, not, ◌&&◌, ◌||◌, Option, none, some, List, [], ◌∷◌, ◌++◌, map, append-nil,
  append_assoc, arith, ltb, leb, ◌==◌, if◌then◌else◌, ==_iff, Bool-cases, Option-cases, length,
  get_elem?, take, drop, length-append, length-take, length-drop, take-append-drop,
  take-append_exact, drop-append_exact, take-all, take-append_le, drop-append_le, drop-drop,
  drop-take, take-add, take-take_le, length-take_le, list_cases, All, All-append, get_elem-All,
  Bytes, codes, size_mod, size_max, sub_size, add_size, u32_mod, memchr, to_lower, is_space,
  is_blank, is_digit, bytes_eq, starts_with_case, starts_with, eq_self, bytes_eq_refl,
}

-- In the states that fetch a mail, it is the first one wanted.
abbrev pub Fetching : State → List PopMail → Option PopMail → Type 0
Fetching list want aux = (a : PopMail) × (rest : List PopMail) × (want ≡ a ∷ rest) × (aux ≡ some a)
Fetching retr want aux = (a : PopMail) × (rest : List PopMail) × (want ≡ a ∷ rest) × (aux ≡ some a)
Fetching line want aux = (a : PopMail) × (rest : List PopMail) × (want ≡ a ∷ rest) × (aux ≡ some a)
Fetching _ want aux = Unit

-- A session in a named state.
pub named :
    (st st' : State) (want : List PopMail) (aux : Option PopMail)
    → st ≡ st'
    → Fetching st want aux
    → Fetching st' want aux
named st st' want aux e f = subst (λ x. Fetching x want aux) e f

-- The total of a session is what is done, what is wanted, what waits for deletion, and the `n`
-- mails that were handed over and not committed, as a `u_int`.
pub record Balanced (total committed : ℕ) (want drop : List PopMail) (n : ℕ) : Type 0 where
  pub sum : total ≡ (committed + length want + length drop + n) % u32_mod
  pub counter : committed < u32_mod

module _ (h : Pop3Hooks) where
  pub record Inv (n : ℕ) (s : Session h) : Type 0 where
    pub balance : Balanced s.total s.committed s.wantq s.dropq n
    pub fetching : Fetching s.state s.wantq s.aux

  -- After a call that began with `n` mails handed over. After FETCH_EXIT the session is over.
  abbrev pub After : ℕ → FetchCode × Session h → Type 0
  After n (mail, s) = Inv (suc n) s
  After n (exit, s) = Unit
  After n (_, s) = Inv n s

  -- Of a call that returns.
  abbrev pub Keeps : ℕ → Step h → Type 0
  Keeps n (ok p) = After n p
  Keeps n _ = Unit

  pub Keeps-put :
      (n : ℕ) (c : Command) (st : State) (s : Session h)
      → Inv n s
      → Fetching st s.wantq s.aux
      → Keeps n (put h c st s)
  unfolding put
  Keeps-put n c st s i f = elim (Bool-cases (h.put_ok (c ∷ s.sent))) [
    | inl good ↦ rw good (record { balance = i.balance; fetching = f })
    | inr bad ↦ rw bad (record { balance = i.balance; fetching = i.fetching })
  ]

  pub Keeps-get_line :
      (n : ℕ) (k : Bytes → Session h → Step h) (rs : List Reply) (s : Session h)
      → Inv n s
      → ((l : Bytes) (t : Session h) → Inv n t → t.state ≡ s.state → Keeps n (k l t))
      → Keeps n (get_line h k rs s)
  unfolding get_line
  Keeps-get_line n k [] s i f = i
  Keeps-get_line n k (failed ∷ rs) s i f = record { balance = i.balance; fetching = i.fetching }
  Keeps-get_line n k (no_line ∷ rs) s i f = record { balance = i.balance; fetching = i.fetching }
  Keeps-get_line n k (reply l ∷ rs) s i f =
      f l (record s { input = rs }) (record { balance = i.balance; fetching = i.fetching }) refl

  pub Keeps-get_okay :
      (n : ℕ) (k : Bytes → Session h → Step h) (s : Session h)
      → Inv n s
      → ((l : Bytes) (t : Session h) → Inv n t → t.state ≡ s.state → Keeps n (k l t))
      → Keeps n (get_okay h k s)
  unfolding get_okay
  Keeps-get_okay n k s i f = Keeps-get_line n _ s.input s i (λ l t j e.
      elim (Bool-cases (starts_with l (codes "+OK"))) [
        | inl good ↦ rw good (f l t j e)
        | inr bad ↦ rw bad j
      ])

  pub Keeps->>= :
      {A : Type 0} (n : ℕ) (m : Outcome A) (f : A → Step h)
      → ((a : A) → Keeps n (f a))
      → Keeps n (m >>= f)
  Keeps->>= n (ok a) f k = k a
  Keeps->>= n fatal f k = tt
  Keeps->>= n fault f k = tt
  Keeps->>= n diverge f k = tt

  pub connected-Inv : (n : ℕ) (s : Session h) → Inv n s → Keeps n (state_connected h s)
  unfolding state_connected
  connected-Inv n s i = Keeps-get_okay n _ s i (λ l t j e.
      elim (Option-cases (if h.apop then timestamp l else none)) [
        | inl no_apop ↦ rw no_apop (Keeps-put n _ user t j tt)
        | inr (ts, apop) ↦ rw apop (Keeps-put n _ stat t j tt)
      ])

  pub user-Inv : (n : ℕ) (s : Session h) → Inv n s → Keeps n (state_user h s)
  unfolding state_user
  user-Inv n s i = Keeps-get_okay n _ s i (λ l t j e. Keeps-put n _ stat t j tt)

  pub stat-Inv : (n : ℕ) (s : Session h) → Inv n s → Keeps n (state_stat h s)
  unfolding state_stat
  stat-Inv n s i = Keeps-get_okay n _ s i (λ l t j e. Keeps-put n _ first t j tt)

  length-number_mails : (i n : ℕ) → length (number_mails i n) ≡ n
  unfolding number_mails
  length-number_mails i zero = refl
  length-number_mails i (suc n) = ap suc (length-number_mails (i + 1) n)

  numbered-Balanced :
      (n num total committed : ℕ) (want drop : List PopMail)
      → Balanced total committed want drop n
      → Balanced ((total + num) % u32_mod) committed (want ++ number_mails 1 num) drop n
  numbered-Balanced n num total committed want drop b = record {
    sum = omega (arith, b.sum, length-append want (number_mails 1 num), length-number_mails 1 num);
    counter = b.counter;
  }

  pick_next-Inv :
      (n : ℕ) (drop want : List PopMail) (s : Session h)
      → s.wantq ≡ want
      → s.state ≡ next
      → Inv n s
      → Keeps n (pick_next h drop want s)
  unfolding pick_next
  pick_next-Inv n (a ∷ ds) want s w at i = Keeps-put n _ delete s i tt
  pick_next-Inv n [] [] s w at i = elim (Bool-cases (s.committed == s.total)) [
    | inl all ↦ rw all (Keeps-put n _ quit s i tt)
    | inr some_left ↦ rw some_left (record { balance = i.balance; fetching = i.fetching })
  ]
  pick_next-Inv n [] (a ∷ ws) s w at i = elim (Bool-cases s.purge) [
    | inr fetch ↦ rw fetch (
        Keeps-put n _ list (record s { purge = false; aux = some a })
          (record { balance = i.balance; fetching = rw at tt }) (a, ws, w, refl))
    | inl purge ↦ elim (Bool-cases s.is_empty) [
      | inl drained ↦
          rw (purge, drained)
            (Keeps-put n _ reconnect (record s { purge = false; is_empty = true })
              (record { balance = i.balance; fetching = i.fetching }) tt)
      | inr busy ↦ rw (purge, busy) (record { balance = i.balance; fetching = i.fetching })
    ]
  ]

  pub next-Inv : (n : ℕ) (s : Session h) → s.state ≡ next → Inv n s → Keeps n (state_next h s)
  unfolding state_next
  next-Inv n s at i = pick_next-Inv n s.dropq s.wantq s refl at i

  pub first-Inv : (n : ℕ) (s : Session h) → s.state ≡ first → Inv n s → Keeps n (state_first h s)
  unfolding state_first
  first-Inv n s at i = Keeps-get_okay n _ s i (λ l t j e. elim (Option-cases (h.scan_stat l)) [
    | inl bad ↦ rw bad j
    | inr ((num, size), good) ↦
        let t' : Session h = record t { num = num; cur = 0 } in
        let j' : Inv n t' = record { balance = j.balance; fetching = j.fetching } in
        elim (Bool-cases (num == 0)) [
          | inl none_left ↦ elim (Bool-cases (t.total == 0)) [
            | inl fresh ↦ rw (good, none_left, fresh) (Keeps-put n _ quit t' j' tt)
            | inr again' ↦
                rw (good, none_left, again') (record { balance = j.balance; fetching = tt })
          ]
          | inr some_left ↦ elim (Bool-cases h.uidl) [
            | inl uidl ↦ rw (good, some_left, uidl) (Keeps-put n _ cache1 t' j' tt)
            | inr plain_pop ↦
                rw (good, some_left, plain_pop)
                  (record {
                    balance = numbered-Balanced n num t.total t.committed t.wantq t.dropq j.balance;
                    fetching = tt;
                  })
          ]
        ]
  ])

  pub cache1-Inv : (n : ℕ) (s : Session h) → Inv n s → Keeps n (state_cache1 h s)
  unfolding state_cache1
  cache1-Inv n s i =
      Keeps-get_okay n _ s i (λ l t j e. record { balance = j.balance; fetching = tt })

  pub reconnect-Inv : (n : ℕ) (s : Session h) → Inv n s → Keeps n (state_reconnect h s)
  unfolding state_reconnect
  reconnect-Inv n s i =
      Keeps-get_okay n _ s i (λ l t j e. record { balance = j.balance; fetching = tt })

  pub quit-Inv : (n : ℕ) (s : Session h) → Inv n s → Keeps n (state_quit h s)
  unfolding state_quit
  quit-Inv n s i = Keeps-get_okay n _ s i (λ l t j e. tt)

  pub connect-Inv : (n : ℕ) (s : Session h) → Inv n s → Keeps n (state_connect h s)
  unfolding state_connect
  connect-Inv n s i = elim (Bool-cases (h.connect_ok s.sent)) [
    | inl good ↦ rw good (record { balance = i.balance; fetching = tt })
    | inr bad ↦ rw bad i
  ]

  -- A mail of the drop queue that is done with.
  deleted-Inv :
      (n : ℕ) (d : List PopMail) (s : Session h)
      → s.dropq ≡ d
      → s.state ≡ delete
      → Inv n s
      → Keeps n (deleted h d s)
  unfolding deleted count_mail
  deleted-Inv n [] s e at i = tt
  deleted-Inv n (a ∷ rest) s e at i =
      let b : Balanced s.total (up s.committed) s.wantq rest n = record {
        sum = omega (arith, i.balance.sum, i.balance.counter, ap length e);
        counter = omega arith;
      } in
      elim (Bool-cases (is_only_old h.only || h.save (cache_mail h a s.cacheq))) [
        | inl good ↦ rw good (record { balance = b; fetching = tt })
        | inr bad ↦ rw bad (record { balance = b; fetching = rw at tt })
      ]

  pub delete-Inv : (n : ℕ) (s : Session h) → s.state ≡ delete → Inv n s → Keeps n (state_delete h s)
  unfolding state_delete
  delete-Inv n s at i = Keeps-get_okay n _ s i (λ l t j e. deleted-Inv n t.dropq t refl (e ∙ at) j)
