-- ===== src/Pop3/Account/Queue.antt =====
-- pop3-common.c: the account while the want queue is made of the answer to UIDL.
use fdm.Pop3.Resolve.{
  insert_by_idx, add_uid, uids_from, state_cache2, state_cache3, is_wanted, build_wantq, renumber,
  resolve, resolve_first, is_bad_end, weed, is_uid,
}
use fdm.Outcome.{Outcome, ok, fatal, fault, diverge, ◌>>=◌}
use fdm.Pop3.Account.{Balanced, named, Inv, Keeps, Keeps-put, Keeps-get_line, Keeps->>=}
use fdm.Pop3.{
  cache2, cache3, next, quit, Reply, failed, no_line, reply, Pop3Hooks, Session, Step, PopMail, put,
  goto, fail, up, down, send_quit,
}
use fdm.Prelude.{
  ℕ, suc, ◌+◌, ◌%◌, ◌≡◌, refl, sym, ap, ◌∙◌, inl, inr, true, false, ◌||◌, Option, none, some, List,
  [], ◌∷◌, arith, ltb, ◌==◌, if◌then◌else◌, Bool-cases, Option-cases, length, drop, Bytes, u32_mod,
  memchr,
}

module _ (h : Pop3Hooks) where
  -- What `add_uid` gives back.
  abbrev Added : ℕ → Outcome (Option (Session h)) → Type 0
  Added n (ok (some t)) = (t.state ≡ cache2) × Inv h n t
  Added n _ = Unit

  new_uid-Added :
      (n k : ℕ) (uid : Bytes) (s : Session h)
      → s.state ≡ cache2
      → Inv h n s
      → Added n (elim (h.find s.serverq uid) as (λ _. Outcome (Option (Session h))) [
        | some _ ↦ ok none
        | none ↦ ok (
            some (record s {
              serverq = h.insert s.serverq (record { uid = uid; idx = k });
              cur = up s.cur;
            }))
      ])
  new_uid-Added n k uid s at i = elim (Option-cases (h.find s.serverq uid)) [
    | inl new ↦ rw (Added, new) (at, record { balance = i.balance; fetching = i.fetching })
    | inr (_, old) ↦ rw (Added, old) tt
  ]

  add_uid-Added :
      (n : ℕ) (l : Bytes) (s : Session h) → s.state ≡ cache2 → Inv h n s → Added n (add_uid h l s)
  unfolding add_uid
  add_uid-Added n l s at i = elim (Option-cases (h.scan_uidl l)) [
    | inl bad ↦ rw (Added, add_uid, bad) tt
    | inr (k, good) ↦ elim (Bool-cases (k == up s.cur)) [
      | inr other ↦ rw (Added, add_uid, good, other) tt
      | inl next' ↦ elim (Option-cases (memchr b' ' l)) [
        | inl no_space ↦ rw (Added, add_uid, good, next', no_space) tt
        | inr (j, space) ↦ elim (Bool-cases (is_uid (drop (j + 1) l))) [
          | inr invalid ↦ rw (Added, add_uid, good, next', space, invalid) tt
          | inl valid ↦
              rw (Added, add_uid, good, next', space, valid)
                (new_uid-Added n k (drop (j + 1) l) s at i)
        ]
      ]
    ]
  ]

  Added->>= :
      (n : ℕ) (m : Outcome (Option (Session h))) (k : Option (Session h) → Step h)
      → Added n m
      → ((t : Session h) → t.state ≡ cache2 → Inv h n t → Keeps h n (k (some t)))
      → Keeps h n (k none)
      → Keeps h n (m >>= k)
  Added->>= n (ok (some t)) k (at, i) good bad = good t at i
  Added->>= n (ok none) k a good bad = bad
  Added->>= n fatal k a good bad = tt
  Added->>= n fault k a good bad = tt
  Added->>= n diverge k a good bad = tt

  -- The answer to UIDL does not touch the queues.
  uids-Inv :
      (n : ℕ) (rs : List Reply) (s : Session h)
      → s.state ≡ cache2
      → Inv h n s
      → Keeps h n (uids_from h rs s)
  unfolding uids_from
  uids-Inv n [] s at i = elim (Bool-cases (s.cur == s.num)) [
    | inl all ↦ rw (Keeps, uids_from, all) (record { balance = i.balance; fetching = tt })
    | inr more ↦ rw (Keeps, uids_from, more) (record { balance = i.balance; fetching = i.fetching })
  ]
  uids-Inv n (failed ∷ rs) s at i = elim (Bool-cases (s.cur == s.num)) [
    | inl all ↦ rw (Keeps, uids_from, all) (record { balance = i.balance; fetching = tt })
    | inr more ↦ rw (Keeps, uids_from, more) (record { balance = i.balance; fetching = i.fetching })
  ]
  uids-Inv n (no_line ∷ rs) s at i = elim (Bool-cases (s.cur == s.num)) [
    | inl all ↦ rw (Keeps, uids_from, all) (record { balance = i.balance; fetching = tt })
    | inr more ↦ rw (Keeps, uids_from, more) (record { balance = i.balance; fetching = i.fetching })
  ]
  uids-Inv n (reply l ∷ rs) s at i = elim (Bool-cases (s.cur == s.num)) [
    | inl all ↦ rw (Keeps, uids_from, all) (record { balance = i.balance; fetching = tt })
    | inr more ↦
        rw (Keeps, uids_from, more)
          (Added->>= n (add_uid h l s) _ (add_uid-Added n l s at i) (λ t e j. uids-Inv n rs t e j)
            (record { balance = i.balance; fetching = i.fetching }))
  ]

  pub cache2-Inv :
      (n : ℕ) (s : Session h) → s.state ≡ cache2 → Inv h n s → Keeps h n (state_cache2 h s)
  unfolding state_cache2
  cache2-Inv n s at i = uids-Inv n s.input s at i

  length-insert_by_idx :
      (a : PopMail) (bs : List PopMail) → length (insert_by_idx a bs) ≡ suc (length bs)
  unfolding insert_by_idx
  length-insert_by_idx a [] = refl
  length-insert_by_idx a (b ∷ bs) = elim (Bool-cases (ltb a.idx b.idx)) [
    | inl before ↦ rw before refl
    | inr behind ↦ rw behind (ap suc (length-insert_by_idx a bs))
  ]

  build_wantq-Balanced :
      (n committed : ℕ) (cache : h.Tree) (bs want drop : List PopMail) (total : ℕ)
      → Balanced total committed want drop n
      → let (w, t) = build_wantq h cache bs want total in Balanced t committed w drop n
  unfolding build_wantq
  build_wantq-Balanced n committed cache [] want drop total b = b
  build_wantq-Balanced n committed cache (a ∷ bs) want drop total b =
      elim (Bool-cases (is_wanted h cache a)) [
        | inl wanted ↦
            rw (build_wantq, wanted)
              (build_wantq-Balanced n committed cache bs _ drop (up total) (record {
                sum = omega (arith, b.sum, length-insert_by_idx a want);
                counter = b.counter;
              }))
        | inr other ↦
            rw (build_wantq, other) (build_wantq-Balanced n committed cache bs want drop total b)
      ]

  renumber-sum :
      (k : ℕ) (server : h.Tree) (bs : List PopMail) (total : ℕ)
      → total ≡ (k + length bs) % u32_mod
      → let (w, t) = renumber h server bs total in t ≡ (k + length w) % u32_mod
  unfolding renumber
  renumber-sum k server [] total e = e
  renumber-sum k server (a ∷ bs) total e = elim (Option-cases (h.find server a.uid)) [
    | inl gone ↦ rw (renumber, gone) (renumber-sum k server bs (down total) (omega (arith, e)))
    | inr (b, there) ↦
        let ih = renumber-sum (k + 1) server bs total (omega (arith, e)) in
        rw (renumber, there) (omega (arith, ih))
  ]

  renumber-Balanced :
      (n committed : ℕ) (server : h.Tree) (bs drop : List PopMail) (total : ℕ)
      → Balanced total committed bs drop n
      → let (w, t) = renumber h server bs total in Balanced t committed w drop n
  renumber-Balanced n committed server bs drop total b =
      let e = renumber-sum (committed + length drop + n) server bs total (omega (arith, b.sum)) in
      record { sum = omega (arith, e); counter = b.counter }

  -- The queue is built: the session goes on with it, or ends.
  queued-Inv :
      (n : ℕ) (s : Session h)
      → s.state ≡ cache3
      → Balanced s.total s.committed s.wantq s.dropq n
      → Keeps h n (if s.total == 0 || s.poll then put h send_quit quit s else goto h next s)
  queued-Inv n s at b = elim (Bool-cases (s.total == 0 || s.poll)) [
    | inl over ↦
        rw (Keeps, over)
          (Keeps-put h n send_quit quit s
            (record { balance = b; fetching = named cache3 s.state _ _ (sym at) tt }) tt)
    | inr more ↦ rw (Keeps, more) (record { balance = b; fetching = tt })
  ]

  resolve_first-Inv :
      (n : ℕ) (s : Session h) → s.state ≡ cache3 → Inv h n s → Keeps h n (resolve_first h s)
  unfolding resolve_first
  resolve_first-Inv n s at i = elim (Option-cases (h.load s.cacheq)) [
    | inl bad ↦ rw (Keeps, bad) i
    | inr (loaded, good) ↦
        let cache = weed h s.serverq (h.items loaded) loaded in
        rw (Keeps, resolve_first, good)
          (queued-Inv n _ at (
            build_wantq-Balanced n s.committed cache (h.items s.serverq) s.wantq s.dropq s.total
              i.balance))
  ]

  resolve-Inv : (n : ℕ) (s : Session h) → s.state ≡ cache3 → Inv h n s → Keeps h n (resolve h s)
  unfolding resolve
  resolve-Inv n s at i = elim (Bool-cases (s.total == 0)) [
    | inl fresh ↦ rw fresh (resolve_first-Inv n s at i)
    | inr again' ↦ rw again' (record {
      balance = renumber-Balanced n s.committed s.serverq s.wantq s.dropq s.total i.balance;
      fetching = tt;
    })
  ]

  pub cache3-Inv :
      (n : ℕ) (s : Session h) → s.state ≡ cache3 → Inv h n s → Keeps h n (state_cache3 h s)
  unfolding state_cache3
  cache3-Inv n s at i = Keeps-get_line h n _ s.input s i (λ l t j e.
      Keeps->>= h n (is_bad_end l) _ (λ bad.
        elim bad as (λ b. Keeps h n (if b then fail h t else resolve h t)) [
          | true ↦ j
          | false ↦ resolve-Inv n t (e ∙ at) j
        ]))
