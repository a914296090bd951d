-- ===== src/Pop3/Account/Fetch.antt =====
-- pop3-common.c: the account in the states that list, open and read one mail.
use mathlib.Core.Option.{some_inj}
use fdm.Mail.Store.{mail_open, append_line}
use fdm.Pop3.Transfer.{
  listed, state_list, state_retr, take_off, fetched, keep_line, lines_from, state_line, unstuff,
}
use fdm.Outcome.{Outcome, ok, fatal, fault, diverge, ◌>>=◌}
use fdm.Mail.{Mail}
use fdm.Pop3.Account.{Balanced, Fetching, named, Inv, Keeps, Keeps-put, Keeps-get_okay, Keeps->>=}
use fdm.Pop3.{
  list, retr, line, Reply, failed, no_line, reply, Pop3Hooks, Session, Step, PopMail, goto, fail,
}
use fdm.Prelude.{
  ℕ, suc, ◌≡◌, refl, sym, ap, ◌∙◌, inl, inr, true, false, Option, none, some, List, [], ◌∷◌, arith,
  ltb, ◌==◌, ==_iff, Bool-cases, Option-cases, length, drop, Bytes, bytes_eq_refl,
}

take_off-first : (a : PopMail) (bs : List PopMail) → take_off a (a ∷ bs) ≡ bs
unfolding take_off
take_off-first a bs = rw ((==_iff a.idx a.idx).1 refl, bytes_eq_refl a.uid) refl

-- The first mail wanted is handed over.
handed_over :
    (n total committed : ℕ) (a b : PopMail) (want rest drop : List PopMail) (aux : Option PopMail)
    → want ≡ b ∷ rest
    → aux ≡ some b
    → aux ≡ some a
    → Balanced total committed want drop n
    → Balanced total committed (take_off a want) drop (suc n)
handed_over n total committed a b want rest drop aux e x y i =
    let same : a ≡ b = some_inj.0 (sym y ∙ x) in
    rw (e, same, take_off-first b rest)
      (record { sum = omega (arith, i.sum, ap length e); counter = i.counter })

module _ (h : Pop3Hooks) where
  listed-Inv :
      (n : ℕ) (o : Option PopMail) (l : Bytes) (s : Session h)
      → s.aux ≡ o
      → s.state ≡ list
      → Inv h n s
      → Keeps h n (listed h o l s)
  unfolding listed
  listed-Inv n none l s e at i = tt
  listed-Inv n (some a) l s e at i = elim (Option-cases (h.scan_list l)) [
    | inl bad ↦ rw (Keeps, bad) (record { balance = i.balance; fetching = i.fetching })
    | inr ((k, size), good) ↦
        let f : Fetching list s.wantq s.aux = named _ _ _ _ at i.fetching in
        let s' : Session h = record s { size = size } in
        let i' : Inv h n s' = record { balance = i.balance; fetching = i.fetching } in
        elim (Bool-cases (k == a.idx)) [
          | inl same ↦ rw (Keeps, good, same) (Keeps-put h n _ retr s' i' f)
          | inr other ↦ rw (Keeps, good, other) i'
        ]
  ]

  pub list-Inv : (n : ℕ) (s : Session h) → s.state ≡ list → Inv h n s → Keeps h n (state_list h s)
  unfolding state_list
  list-Inv n s at i = Keeps-get_okay h n _ s i (λ l t j e. listed-Inv n t.aux l t refl (e ∙ at) j)

  -- The mail is opened: what is fetched stays the first one wanted.
  opened-Inv :
      (n : ℕ) (o : Option Mail) (t : Session h)
      → t.state ≡ retr
      → Inv h n t
      → Keeps h n (elim o as (λ _. Step h) [
        | none ↦ fail h t
        | some m ↦ goto h line (record t { text = m; flushing = false })
      ])
  opened-Inv n none t at j = j
  opened-Inv n (some m) t at j = record {
    balance = j.balance;
    fetching = named _ _ _ _ at j.fetching;
  }

  pub retr-Inv : (n : ℕ) (s : Session h) → s.state ≡ retr → Inv h n s → Keeps h n (state_retr h s)
  unfolding state_retr
  retr-Inv n s at i =
      Keeps-get_okay h n _ s i
        (λ l t j e. Keeps->>= h n (mail_open h.grants t.size) _ (λ o. opened-Inv n o t (e ∙ at) j))

  fetched-Inv :
      (n : ℕ) (o : Option PopMail) (s : Session h)
      → s.aux ≡ o
      → s.state ≡ line
      → Inv h n s
      → Keeps h n (fetched h o s)
  unfolding fetched
  fetched-Inv n none s e at i = tt
  fetched-Inv n (some a) s e at i =
      let (b, rest, w, x) = named _ _ _ _ at i.fetching in
      record {
        balance = handed_over n s.total s.committed a b s.wantq rest s.dropq s.aux w x e i.balance;
        fetching = tt;
      }

  appended-Inv :
      (n : ℕ) (o : Option Mail) (s : Session h)
      → s.state ≡ line
      → Inv h n s
      → (k : Option (Session h) → Step h)
      → ((t : Session h) → t.state ≡ line → Inv h n t → Keeps h n (k (some t)))
      → Keeps h n (k none)
      → Keeps h n (
          elim o as (λ _. Outcome (Option (Session h))) [
            | none ↦ ok none
            | some m ↦ ok (some (record s { text = m; flushing = ltb h.max_size m.size }))
          ]
          >>= k)
  appended-Inv n none s at i k good bad = bad
  appended-Inv n (some m) s at i k good bad =
      good _ at (record { balance = i.balance; fetching = i.fetching })

  bound-Inv :
      {A : Type 0} (n : ℕ) (m : Outcome A) (f : A → Outcome (Option (Session h)))
      (k : Option (Session h) → Step h)
      → ((a : A) → Keeps h n (f a >>= k))
      → Keeps h n ((m >>= f) >>= k)
  bound-Inv n (ok a) f k e = e a
  bound-Inv n fatal f k e = tt
  bound-Inv n fault f k e = tt
  bound-Inv n diverge f k e = tt

  kept-Inv :
      (n : ℕ) (l : Bytes) (s : Session h)
      → s.state ≡ line
      → Inv h n s
      → (k : Option (Session h) → Step h)
      → ((t : Session h) → t.state ≡ line → Inv h n t → Keeps h n (k (some t)))
      → Keeps h n (k none)
      → Keeps h n (keep_line h l s >>= k)
  unfolding keep_line
  kept-Inv n l s at i k good bad = elim (Bool-cases s.flushing) [
    | inl flush ↦ rw flush (
        good (record s { flushing = true }) at
          (record { balance = i.balance; fetching = i.fetching }))
    | inr keep ↦ rw keep (
        bound-Inv n (append_line h.grants s.text l) _ k (λ o.
          appended-Inv n o (record s { flushing = false }) at
            (record { balance = i.balance; fetching = i.fetching }) k good bad))
  ]

  lines-Inv :
      (n : ℕ) (rs : List Reply) (s : Session h)
      → s.state ≡ line
      → Inv h n s
      → Keeps h n (lines_from h rs s)
  unfolding lines_from
  lines-Inv n [] s at i = record { balance = i.balance; fetching = i.fetching }
  lines-Inv n (failed ∷ rs) s at i = record { balance = i.balance; fetching = i.fetching }
  lines-Inv n (no_line ∷ rs) s at i = record { balance = i.balance; fetching = i.fetching }
  lines-Inv n (reply l ∷ rs) s at i =
      let i' : Inv h n (record s { input = rs }) = record {
        balance = i.balance;
        fetching = i.fetching;
      } in
      elim (Option-cases (unstuff l)) [
        | inl dot ↦ rw (Keeps, dot) (fetched-Inv n s.aux (record s { input = rs }) refl at i')
        | inr (l', text) ↦
            rw (Keeps, text) (kept-Inv n l' s at i _ (λ t e j. lines-Inv n rs t e j) i')
      ]

  pub line-Inv : (n : ℕ) (s : Session h) → s.state ≡ line → Inv h n s → Keeps h n (state_line h s)
  unfolding state_line
  line-Inv n s at i = lines-Inv n s.input s at i
