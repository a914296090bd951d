-- ===== src/Imap/Account/Mails.antt =====
-- The account of imap-common.c's session over the states that fetch and mark mails.
use fdm.Imap.{
  next, body, line, mail, commit, expunge, close, quit, untagged, ImapHooks, Session, send_expunge,
  send_close, send_fetch, send_logout,
}
use fdm.Imap.Account.{
  Inv, Keeps, Keeps->>=, Moved, moved, carry, Keeps-goto, Keeps-put_command, Keeps-get,
  Keeps-get_okay,
}
use fdm.Imap.Account.Login.{Keeps-with_folder}
use fdm.Imap.Fetch.{
  find_string, pick_next, state_next, open_mail, state_body, last_line, lines_from, state_line,
  state_mail, state_commit, state_expunge, state_close, state_quit,
}
use fdm.Mail.Store.{mail_open, append_line}
use fdm.Pop3.{Reply, failed, no_line, reply, up}
use fdm.Prelude.{
  ℕ, ◌-◌, ◌%◌, ◌≡◌, refl, ap, ◌∙◌, inl, inr, false, not, ◌&&◌, none, some, List, [], ◌∷◌, ◌++◌,
  arith, ltb, leb, ◌==◌, Bool-cases, Option-cases, length, get_elem?, take, list_cases, Bytes,
  codes, sub_size, add_size, u32_mod,
}

module _ (h : ImapHooks) where
  pick_next-Inv :
      (n : ℕ) (drop keep want : List ℕ) (s : Session h)
      → s.dropped ≡ drop
      → s.kept ≡ keep
      → s.wanted ≡ want
      → s.state ≡ next
      → Inv h n s
      → Keeps h n (pick_next h drop keep want s)
  unfolding pick_next
  pick_next-Inv n (uid ∷ rest) keep want s d k w e i =
      let m = moved h n next s i e in
      let a = ap length d in
      Keeps-put_command h n _ commit (record s { dropped = rest })
        (record {
          balance = record { sum = omega (arith, m.balance.sum, a); counter = m.balance.counter };
          unsearched = tt;
          fetches = m.fetches;
        })
  pick_next-Inv n [] (uid ∷ rest) want s d k w e i =
      let m = moved h n next s i e in
      let a = ap length k in
      Keeps-put_command h n _ commit (record s { kept = rest })
        (record {
          balance = record { sum = omega (arith, m.balance.sum, a); counter = m.balance.counter };
          unsearched = tt;
          fetches = m.fetches;
        })
  pick_next-Inv n [] [] want s d k w e i =
      let m = moved h n next s i e in
      elim (Bool-cases s.purge) [
        | inl purge ↦ elim (Bool-cases s.is_empty) [
          | inl drained ↦
              rw (pick_next, purge, drained)
                (Keeps-put_command h n send_expunge expunge _
                  (record { balance = m.balance; unsearched = tt; fetches = m.fetches }))
          | inr busy ↦
              rw (pick_next, purge, busy)
                (record { balance = i.balance; unsearched = i.unsearched; fetches = i.fetches })
        ]
        | inr fetch ↦ elim (list_cases want) [
          | inr (uid, rest, there) ↦
              rw (pick_next, fetch, there)
                (Keeps-put_command h n (send_fetch uid) body _
                  (record { balance = m.balance; unsearched = tt; fetches = m.fetches }))
          | inl done ↦ elim (Bool-cases (s.committed == s.total)) [
            | inl all ↦
                rw (pick_next, fetch, done, all)
                  (let none_wanted : length s.wanted ≡ 0 = ap length (w ∙ done) in
                    Keeps-put_command h n send_close close _ (record {
                      balance = record {
                        sum = omega (arith, m.balance.sum, none_wanted);
                        counter = m.balance.counter;
                      };
                      unsearched = omega (arith, none_wanted);
                      fetches = m.fetches;
                    }))
            | inr some_left ↦
                rw (pick_next, fetch, done, some_left)
                  (record { balance = i.balance; unsearched = i.unsearched; fetches = i.fetches })
          ]
        ]
      ]

  pub next-Inv : (n : ℕ) (s : Session h) → s.state ≡ next → Inv h n s → Keeps h n (state_next h s)
  unfolding state_next
  next-Inv n s e i = pick_next-Inv n s.dropped s.kept s.wanted s refl refl refl e i

  open_mail-Inv :
      (n : ℕ) (want : List ℕ) (size : ℕ) (t : Session h)
      → t.wanted ≡ want
      → Moved h n body t
      → Keeps h n (open_mail h want size t)
  unfolding open_mail
  open_mail-Inv n [] size t w m = tt
  open_mail-Inv n (uid ∷ rest) size t w m =
      let a = ap length w in
      Keeps->>= h n (mail_open h.grants size) _ (elim [
        | none ↦ tt
        | some text ↦ Keeps-with_folder h n _ t (λ f. record {
          balance = record { sum = omega (arith, m.balance.sum, a); counter = m.balance.counter };
          unsearched = tt;
          fetches = m.fetches;
        })
      ])

  pub body-Inv : (n : ℕ) (s : Session h) → s.state ≡ body → Inv h n s → Keeps h n (state_body h s)
  unfolding state_body
  body-Inv n s e i = Keeps-get h n untagged body _ s i e (λ l t m.
      elim (Option-cases (h.scan_fetch l)) [
        | inl no_fetch ↦ rw no_fetch tt
        | inr (k, fetch) ↦ elim (Option-cases (find_string l (codes "BODY[] {"))) [
          | inl no_body ↦ rw (fetch, no_body) tt
          | inr (p, there) ↦ elim (Option-cases (h.scan_size p)) [
            | inl no_size ↦ rw (fetch, there, no_size) tt
            | inr (size, given) ↦ rw (fetch, there, given) (open_mail-Inv n t.wanted size t refl m)
          ]
        ]
      ])

  last_line-Inv :
      (n : ℕ) (l : Bytes) (left : ℕ) (t : Session h)
      → Moved h n line t
      → Keeps h n (last_line h l left t)
  unfolding last_line
  last_line-Inv n l left t m = elim (Bool-cases (length l == 0)) [
    | inl empty ↦ rw (last_line, empty) tt
    | inr some_bytes ↦
        elim (Bool-cases (
          not (elim (get_elem? l (length l - 1)) [ none ↦ false | some c ↦ c == b')' ])
          && leb (length l) left)) [
            | inl wrong ↦ rw (last_line, some_bytes, wrong) tt
            | inr fine ↦ elim (Bool-cases (left == 0)) [
              | inl whole ↦
                  rw (last_line, some_bytes, fine, whole)
                    (Keeps-goto h n mail t (carry h n line mail t (λ k. refl) (λ k u. u) m))
              | inr more ↦
                  rw (last_line, some_bytes, fine, more)
                    (Keeps->>= h n (append_line h.grants t.text (take left (l ++ (0 ∷ [])))) _
                      (elim [
                        | none ↦ tt
                        | some text ↦ record {
                          balance = m.balance;
                          unsearched = tt;
                          fetches = m.fetches;
                        }
                      ]))
            ]
          ]
  ]

  lines_from-Inv :
      (n : ℕ) (rs : List Reply) (s : Session h)
      → s.state ≡ line
      → Inv h n s
      → Keeps h n (lines_from h rs s)
  unfolding lines_from
  lines_from-Inv n [] s e i = record {
    balance = i.balance;
    unsearched = i.unsearched;
    fetches = i.fetches;
  }
  lines_from-Inv n (failed ∷ rs) s e i = tt
  lines_from-Inv n (no_line ∷ rs) s e i = record {
    balance = i.balance;
    unsearched = i.unsearched;
    fetches = i.fetches;
  }
  lines_from-Inv n (reply l ∷ rs) s e i = elim (Bool-cases s.flushing) [
    | inl flushing ↦ rw (lines_from, flushing) (lines_from-Inv n rs s e i)
    | inr keeping ↦
        let used = add_size s.text.size s.lines in
        elim (Bool-cases (ltb s.size (add_size (add_size used (length l)) 2))) [
          | inl over ↦
              rw (lines_from, keeping, over)
                (let m = moved h n line s i e in
                  last_line-Inv n l (sub_size s.size used) _ (record {
                    balance = m.balance;
                    unsearched = m.unsearched;
                    fetches = m.fetches;
                  }))
          | inr within ↦
              rw (lines_from, keeping, within)
                (Keeps->>= h n (append_line h.grants s.text l) _ (elim [
                  | none ↦ tt
                  | some text ↦ lines_from-Inv n rs _ e (record {
                    balance = i.balance;
                    unsearched = i.unsearched;
                    fetches = i.fetches;
                  })
                ]))
        ]
  ]

  pub line-Inv : (n : ℕ) (s : Session h) → s.state ≡ line → Inv h n s → Keeps h n (state_line h s)
  unfolding state_line
  line-Inv n s e i = lines_from-Inv n s.input s e i

  pub mail-Inv : (n : ℕ) (s : Session h) → s.state ≡ mail → Inv h n s → Keeps h n (state_mail h s)
  unfolding state_mail
  mail-Inv n s e i = Keeps-get_okay h n mail _ s i e (λ t m. record {
    balance = record { sum = omega (arith, m.balance.sum); counter = m.balance.counter };
    unsearched = tt;
    fetches = m.fetches;
  })

  pub commit-Inv :
      (n : ℕ) (s : Session h) → s.state ≡ commit → Inv h n s → Keeps h n (state_commit h s)
  unfolding state_commit
  commit-Inv n s e i = Keeps-get_okay h n commit _ s i e (λ t m. record {
    balance = record {
      sum = omega (arith, m.balance.sum, m.balance.counter);
      counter = omega arith;
    };
    unsearched = tt;
    fetches = m.fetches;
  })

  pub expunge-Inv :
      (n : ℕ) (s : Session h) → s.state ≡ expunge → Inv h n s → Keeps h n (state_expunge h s)
  unfolding state_expunge
  expunge-Inv n s e i =
      Keeps-get_okay h n expunge _ s i e
        (λ t m. Keeps-goto h n next t (carry h n expunge next t (λ k. refl) (λ k u. u) m))

  pub close-Inv :
      (n : ℕ) (s : Session h) → s.state ≡ close → Inv h n s → Keeps h n (state_close h s)
  unfolding state_close
  close-Inv n s e i = Keeps-get_okay h n close _ s i e (λ t m.
      elim (Bool-cases (up t.folder == length h.folders % u32_mod)) [
        | inl last ↦ rw last (
            Keeps-put_command h n send_logout quit _
              (record { balance = m.balance; unsearched = m.unsearched; fetches = m.fetches }))
        | inr more ↦
            rw more (record { balance = m.balance; unsearched = m.unsearched; fetches = m.fetches })
      ])

  pub quit-Inv : (n : ℕ) (s : Session h) → s.state ≡ quit → Inv h n s → Keeps h n (state_quit h s)
  unfolding state_quit
  quit-Inv n s e i = Keeps-get_okay h n quit _ s i e (λ t m. tt)
