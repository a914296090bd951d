-- ===== src/Imap/Fetch.antt =====
-- imap-common.c: the states that fetch mails, mark them, and end the session.
use fdm.Imap.{
  select1, next, body, line, mail, commit, expunge, close, quit, untagged, send_deleted, send_seen,
  send_expunge, send_close, send_fetch, send_logout, ImapHooks, Session, Step, fail, goto,
  put_command, get, get_okay,
}
use fdm.Imap.Folder.{with_folder}
use fdm.Mail.Store.{mail_open, append_line}
use fdm.Outcome.{ok, fault, ◌>>=◌}
use fdm.Pop3.{FetchCode, block, exit, up, Reply, failed, no_line, reply}
use fdm.Prelude.{
  ℕ, ◌-◌, ◌%◌, true, false, not, ◌&&◌, Option, none, some, List, [], ◌∷◌, ◌++◌, ltb, leb, ◌==◌,
  if◌then◌else◌, length, get_elem?, take, Bytes, codes, sub_size, add_size, u32_mod, starts_with,
}

-- `strstr(s, t)`.
unfoldable pub find_string : Bytes → Bytes → Option Bytes
find_string [] t = if starts_with [] t then some [] else none
find_string (c ∷ s) t = if starts_with (c ∷ s) t then some (c ∷ s) else find_string s t

module _ (h : ImapHooks) where
  -- What to do next, by the drop, keep and want queues. A UID leaves its list before the line is
  -- sent, and in the source behind it: where the connection fails, the session is over.
  unfoldable pub pick_next : List ℕ → List ℕ → List ℕ → Session h → Step h
  pick_next (uid ∷ rest) keep want s =
      put_command h (send_deleted uid) commit (record s { dropped = rest })
  pick_next [] (uid ∷ rest) want s = put_command h (send_seen uid) commit (record s { kept = rest })
  pick_next [] [] want s =
      if s.purge
      then if s.is_empty
        then put_command h send_expunge expunge (record s { purge = false })
        else ok (block, s)
      else elim want [
        | [] ↦ if s.committed == s.total then put_command h send_close close s else ok (block, s)
        | uid ∷ rest ↦ put_command h (send_fetch uid) body s
      ]

  unfoldable pub state_next : Session h → Step h
  state_next s = pick_next s.dropped s.kept s.wanted s

  -- The mail is opened, and its lines follow; it leaves the want queue.
  unfoldable pub open_mail : List ℕ → ℕ → Session h → Step h
  open_mail [] size s = fault
  open_mail (uid ∷ rest) size s =
      let s' : Session h = record s { size = size; lines = 0; aux = some uid; wanted = rest } in
      mail_open h.grants size >>= elim [
        | none ↦ fail h s'
        | some m ↦
            with_folder h
              (λ f.
                goto h line
                  (record s' { text = record m { size = 0 }; flushing = ltb h.max_size size }))
              s
      ]

  unfoldable pub state_body : Session h → Step h
  state_body = get h untagged (λ l s. elim (h.scan_fetch l) [
    | none ↦ fail h s
    | some n ↦ elim (find_string l (codes "BODY[] {")) [
      | none ↦ fail h s
      | some p ↦ elim (h.scan_size p) [ none ↦ fail h s | some size ↦ open_mail s.wanted size s ]
    ]
  ])

  -- The line on which the literal ends, with the `left` bytes of it that are still part of the mail.
  -- The byte behind the line is its NUL. An empty line has no last byte.
  unfoldable pub last_line : Bytes → ℕ → Session h → Step h
  last_line l left s =
      if length l == 0
      then fault
      else if not (elim (get_elem? l (length l - 1)) [ none ↦ false | some c ↦ c == b')' ])
          && leb (length l) left
      then fail h s
      else if left == 0
      then goto h mail s
      else append_line h.grants s.text (take left (l ++ (0 ∷ []))) >>= elim [
        | none ↦ fail h s
        | some m ↦
            goto h mail
              (record s { text = record m { size = sub_size m.size 1 }; lines = up s.lines })
      ]

  -- The loop of `imap_state_line` over the replies at hand.
  unfoldable pub lines_from : List Reply → Session h → Step h
  lines_from [] s = ok (block, record s { input = [] })
  lines_from (failed ∷ rs) s = fail h (record s { input = rs })
  lines_from (no_line ∷ rs) s = ok (block, record s { input = rs })
  lines_from (reply l ∷ rs) s = elim s.flushing [
    | true ↦ lines_from rs s
    | false ↦
        let used = add_size s.text.size s.lines in
        elim (ltb s.size (add_size (add_size used (length l)) 2)) [
          | true ↦ last_line l (sub_size s.size used) (record s { input = rs })
          | false ↦ append_line h.grants s.text l >>= elim [
            | none ↦ fail h (record s { input = rs })
            | some m ↦ lines_from rs (record s { text = m; lines = up s.lines })
          ]
        ]
  ]

  unfoldable pub state_line : Session h → Step h
  state_line s = lines_from s.input s

  unfoldable pub state_mail : Session h → Step h
  state_mail = get_okay h (λ s. ok (FetchCode.mail, record s { state = next }))

  unfoldable pub state_commit : Session h → Step h
  state_commit = get_okay h (λ s. goto h next (record s { committed = up s.committed }))

  unfoldable pub state_expunge : Session h → Step h
  state_expunge = get_okay h (goto h next)

  unfoldable pub state_close : Session h → Step h
  state_close = get_okay h (λ s.
      let s' : Session h = record s { folder = up s.folder } in
      if s'.folder == length h.folders % u32_mod
      then put_command h send_logout quit s'
      else goto h select1 s')

  unfoldable pub state_quit : Session h → Step h
  state_quit = get_okay h (λ s. ok (exit, record s { dropped = []; kept = []; wanted = [] }))
