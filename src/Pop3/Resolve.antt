-- ===== src/Pop3/Resolve.antt =====
-- pop3-common.c: the answer to UIDL, and the want queue that is made of it.
use fdm.Outcome.{Outcome, ok, fault, ◌>>=◌}
use fdm.Pop3.{
  PopMail, only_new, only_old, only_all, cache3, next, quit, block, Reply, failed, no_line, reply,
  send_quit, Pop3Hooks, Session, Step, fail, put, get_line, goto, up, down,
}
use fdm.Prelude.{
  ℕ, ◌+◌, Bool, true, false, not, ◌&&◌, ◌||◌, Option, none, some, List, [], ◌∷◌, ltb, leb, ◌==◌,
  if◌then◌else◌, length, drop, Bytes, memchr,
}

-- A byte that a UID may hold.
abbrev pub is_uid_byte : ℕ → Bool
is_uid_byte c = leb 0x21 c && leb c 0x7e

unfoldable pub all_uid_bytes : Bytes → Bool
all_uid_bytes [] = true
all_uid_bytes (c ∷ l) = is_uid_byte c && all_uid_bytes l

-- Not empty, of visible characters, and at most 70 of them.
unfoldable pub is_uid : Bytes → Bool
is_uid [] = false
is_uid (c ∷ l) = all_uid_bytes (c ∷ l) && leb (length (c ∷ l)) 70

-- The mail is put into the queue before the first one with a higher index.
unfoldable pub insert_by_idx : PopMail → List PopMail → List PopMail
insert_by_idx a [] = a ∷ []
insert_by_idx a (b ∷ bs) = if ltb a.idx b.idx then a ∷ b ∷ bs else b ∷ insert_by_idx a bs

-- `line[0] != '.' && line[1] != '\0'`; of an empty line the C code reads the byte behind its end.
unfoldable pub is_bad_end : Bytes → Outcome Bool
is_bad_end [] = fault
is_bad_end (c ∷ []) = ok false
is_bad_end (c ∷ d ∷ l) = ok (not (c == b'.'))

module _ (h : Pop3Hooks) where
  open h use {Tree}

  -- A line of the answer: its number must be the next, and its UID valid and new. The text behind
  -- the first space is the UID; `strchr` gives NULL where there is none.
  unfoldable pub add_uid : Bytes → Session h → Outcome (Option (Session h))
  add_uid l s = elim (h.scan_uidl l) [
    | none ↦ ok none
    | some n ↦ if not (n == up s.cur) then ok none else elim (memchr b' ' l) [
      | none ↦ fault
      | some i ↦
          let uid = drop (i + 1) l in
          if not (is_uid uid) then ok none else elim (h.find s.serverq uid) [
            | some _ ↦ ok none
            | none ↦ ok (
                some (record s {
                  serverq = h.insert s.serverq (record { uid = uid; idx = n });
                  cur = up s.cur;
                }))
          ]
    ]
  ]

  -- The loop of `pop3_state_cache2` over the replies at hand.
  unfoldable pub uids_from : List Reply → Session h → Step h
  uids_from [] s =
      if s.cur == s.num
      then goto h cache3 (record s { input = [] })
      else ok (block, record s { input = [] })
  uids_from (r ∷ rs) s = elim (s.cur == s.num) [
    | true ↦ goto h cache3 (record s { input = r ∷ rs })
    | false ↦ elim r [
      | failed ↦ fail h (record s { input = rs })
      | no_line ↦ ok (block, record s { input = rs })
      | reply l ↦
          add_uid l s
          >>= elim [ none ↦ fail h (record s { input = rs }) | some s' ↦ uids_from rs s' ]
    ]
  ]

  unfoldable pub state_cache2 : Session h → Step h
  state_cache2 s = uids_from s.input s

  -- The mails of the cache that the server no longer has are taken out of it.
  unfoldable pub weed : Tree → List PopMail → Tree → Tree
  weed server [] cache = cache
  weed server (a ∷ bs) cache =
      weed server bs (elim (h.find server a.uid) [ none ↦ h.remove cache a.uid | some _ ↦ cache ])

  -- Whether a mail of the server is fetched.
  unfoldable pub is_wanted : Tree → PopMail → Bool
  is_wanted cache a = elim h.only [
    | only_all ↦ true
    | only_new ↦ elim (h.find cache a.uid) [ none ↦ true | some _ ↦ false ]
    | only_old ↦ elim (h.find cache a.uid) [ none ↦ false | some _ ↦ true ]
  ]

  -- The want queue of a first connection, with the count of mails.
  unfoldable pub build_wantq : Tree → List PopMail → List PopMail → ℕ → List PopMail × ℕ
  build_wantq cache [] want total = (want, total)
  build_wantq cache (a ∷ bs) want total =
      let wanted = is_wanted cache a in
      build_wantq cache bs (if wanted then insert_by_idx a want else want)
        (if wanted then up total else total)

  -- After a reconnection: the mails still wanted get their new indexes, those that are gone leave
  -- the queue and the count.
  unfoldable pub renumber : Tree → List PopMail → ℕ → List PopMail × ℕ
  renumber server [] total = ([], total)
  renumber server (a ∷ bs) total = elim (h.find server a.uid) [
    | none ↦ renumber server bs (down total)
    | some b ↦ let (rest, n) = renumber server bs total in (record a { idx = b.idx } ∷ rest, n)
  ]

  -- The first connection: the cache is loaded and weeded, and the queue is built.
  unfoldable pub resolve_first : Session h → Step h
  resolve_first s = elim (h.load s.cacheq) [
    | none ↦ fail h s
    | some loaded ↦
        let cache = weed s.serverq (h.items loaded) loaded in
        let (want, total) = build_wantq cache (h.items s.serverq) s.wantq s.total in
        let s' : Session h = record s { cacheq = cache; wantq = want; total = total } in
        if total == 0 || s.poll then put h send_quit quit s' else goto h next s'
  ]

  unfoldable pub resolve : Session h → Step h
  resolve s =
      if s.total == 0
      then resolve_first s
      else let (want, total) = renumber s.serverq s.wantq s.total in
        goto h next (record s { wantq = want; total = total })

  unfoldable pub state_cache3 : Session h → Step h
  state_cache3 s =
      get_line h (λ l s'. is_bad_end l >>= λ bad. (if bad then fail h s' else resolve s')) s.input s
