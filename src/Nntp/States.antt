-- ===== src/Nntp/States.antt =====
-- fetch-nntp.c: the states of a session, and the commit of a mail.
use fdm.Mail.Store.{mail_open, append_line}
use fdm.Nntp.{
  connected, auth1, auth2, switch, group, reset, stat, wait, next, article, line, quit, Group,
  send_user, send_pass, send_group, send_stat, send_next, send_article, send_quit, NntpHooks,
  Session, Step, fail, goto, send, check, parse223, with_group,
}
use fdm.Nntp.Cache.{load, save}
use fdm.Outcome.{Outcome, fault, ok, fault, ◌>>=◌}
use fdm.Pop3.{FetchCode, again, block, error, exit}
use fdm.Pop3.Transfer.{unstuff}
use fdm.Prelude.{
  ℕ, zero, suc, ◌+◌, ◌-◌, true, false, not, ◌||◌, Option, none, some, List, [], ◌∷◌, map, ltb, ◌==◌,
  if◌then◌else◌, length, drop, Bytes, bytes_eq,
}

unfoldable pub first_groups : List Bytes → List Group
first_groups names =
    map (λ name. record { name = name; ignore = false; size = 0; last = 0; id = none }) names

-- The index of the first group that is not ignored, from `i` on.
unfoldable pub first_active : List Group → ℕ → Option ℕ
first_active [] i = none
first_active (g ∷ gs) i = elim g.ignore [ true ↦ first_active gs (i + 1) | false ↦ some i ]

unfoldable pub set_at : ℕ → Group → List Group → List Group
set_at n g [] = []
set_at zero g (g' ∷ gs) = g ∷ gs
set_at (suc n) g (g' ∷ gs) = g' ∷ set_at n g gs

module _ (h : NntpHooks) where
  -- `fetch_nntp_commit`.
  unfoldable pub commit : Session h → Step h
  commit s = save h s >>= λ (saved, s'). ok (if saved then again else error, s')

  -- The array of the groups is never empty where the loop begins, or it is read behind its end.
  unfoldable pub state_connect : Session h → Step h
  state_connect s = load h s.file (first_groups h.names) >>= elim [
    | none ↦ fail h (record s { groups = first_groups h.names })
    | some [] ↦ fault
    | some (g ∷ gs) ↦
        let s' : Session h = record s { groups = g ∷ gs } in
        elim (first_active (g ∷ gs) 0) [
          | none ↦ fail h (record s' { group = length (g ∷ gs) })
          | some i ↦
              let s'' : Session h = record s' { group = i } in
              if h.connect_ok then ok (block, record s'' { state = connected }) else fail h s''
        ]
  ]

  abbrev given : Option Bytes → (Bytes → Step h) → Step h
  given none k = fault
  given (some s) k = k s

  unfoldable pub state_connected : Session h → Step h
  state_connected = check h 2 (200 ∷ 201 ∷ []) (λ code l s. elim h.user [
    | none ↦ goto h group s
    | some u ↦ elim h.pass [ none ↦ goto h group s | some p ↦ send h (send_user u) auth1 s ]
  ])

  unfoldable pub state_auth1 : Session h → Step h
  state_auth1 = check h 1 (381 ∷ []) (λ code l s. given h.pass (λ p. send h (send_pass p) auth2 s))

  -- The call announces two codes, and gives one.
  unfoldable pub state_auth2 : Session h → Step h
  state_auth2 = check h 2 (281 ∷ []) (λ code l s. goto h group s)

  unfoldable pub state_switch : Session h → Step h
  state_switch s =
      if ltb s.group (length s.groups)
      then elim (first_active (drop (s.group + 1) s.groups) (s.group + 1)) [
        | none ↦ send h send_quit quit (record s { group = length s.groups })
        | some i ↦ goto h group (record s { group = i })
      ]
      else fault

  unfoldable pub state_group : Session h → Step h
  state_group s = with_group h (λ g. send h (send_group g.name) stat s) s

  abbrev set_group : Group → Session h → Session h
  set_group g s = record s { groups = set_at s.group g s.groups }

  unfoldable pub state_reset : Session h → Step h
  state_reset s =
      with_group h (λ g. goto h group (set_group (record g { id = none; last = 0 }) s)) s

  -- The first and the last number of the reply are the size and the last article.
  unfoldable pub state_stat : Session h → Step h
  state_stat s =
      with_group h
        (λ g.
          check h 1 (211 ∷ [])
            (λ code l s. elim (h.scan_211 l) [
              | none ↦ fail h s
              | some (size, n) ↦
                  if ltb n g.last
                  then goto h reset (set_group (record g { size = size }) s)
                  else let s' = set_group (record g { size = n - g.last }) s in
                    if g.last == 0
                    then send h send_next next s'
                    else send h (send_stat g.last) wait s'
            ])
            s)
        s

  unfoldable pub state_wait : Session h → Step h
  state_wait s =
      with_group h
        (λ g.
          check h 2 (223 ∷ 423 ∷ [])
            (λ code l s.
              if code == 223
              then elim (parse223 h l) [
                | none ↦ fail h s
                | some (n, id) ↦
                    if not (n == g.last)
                    then fail h s
                    else given g.id
                        (λ old. if bytes_eq id old then send h send_next next s else goto h reset s)
              ]
              else send h send_next next s)
            s)
        s

  unfoldable pub state_next : Session h → Step h
  state_next s =
      with_group h
        (λ g.
          check h 3 (223 ∷ 420 ∷ 421 ∷ [])
            (λ code l s.
              if code == 420 || code == 421 then goto h switch s else elim (parse223 h l) [
                | none ↦ fail h s
                | some (n, id) ↦
                    send h send_article article (set_group (record g { last = n; id = some id }) s)
              ])
            s)
        s

  unfoldable pub state_article : Session h → Step h
  state_article s =
      with_group h
        (λ g.
          check h 3 (220 ∷ 423 ∷ 430 ∷ [])
            (λ code l s.
              if code == 423 || code == 430
              then send h send_next next s
              else (mail_open h.grants 16384 >>= elim [
                | none ↦ fail h s
                | some m ↦ goto h line (record s { text = record m { size = 0 }; flushing = false })
              ]))
            s)
        s

  -- A line of the mail, unless the mail is too large already. `none` where there is no memory. A
  -- reply is a C string, with no NUL in it.
  unfoldable pub keep_line : Bytes → Session h → Outcome (Option (Session h))
  keep_line l s =
      if s.flushing
      then ok (some s)
      else (append_line h.grants s.text l >>= elim [
        | none ↦ ok none
        | some m ↦ ok (some (record s { text = m; flushing = ltb h.max_size m.size }))
      ])

  -- The loop of `fetch_nntp_state_line` over the lines at hand.
  unfoldable pub lines_from : List Bytes → Session h → Step h
  lines_from [] s = ok (block, record s { input = [] })
  lines_from (l ∷ ls) s = elim (unstuff l) [
    | none ↦ ok (FetchCode.mail, record s { input = ls; state = next; sent = send_next ∷ s.sent })
    | some l' ↦
        keep_line l' s
        >>= elim [ none ↦ fail h (record s { input = ls }) | some s' ↦ lines_from ls s' ]
  ]

  unfoldable pub state_line : Session h → Step h
  state_line s = lines_from s.input s

  -- `fetch_nntp_abort` frees the groups.
  unfoldable pub state_quit : Session h → Step h
  state_quit = check h 1 (205 ∷ []) (λ code l s. ok (exit, record s { groups = [] }))
