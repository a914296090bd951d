-- ===== src/Pop3/Transfer.antt =====
-- pop3-common.c: the states that list, open and read one mail.
use fdm.Mail.Store.{mail_open, append_line}
use fdm.Outcome.{Outcome, ok, fault, ◌>>=◌}
use fdm.Pop3.{
  PopMail, next, retr, line, block, mail, Reply, failed, no_line, reply, send_retr, Pop3Hooks,
  Session, Step, fail, put, get_okay, goto,
}
use fdm.Prelude.{
  false, not, ◌&&◌, Option, none, some, List, [], ◌∷◌, ltb, ◌==◌, if◌then◌else◌, Bytes, bytes_eq,
}

-- A line of a mail: `none` is the dot that ends it; another dot in front is taken off.
unfoldable pub unstuff : Bytes → Option Bytes
unstuff [] = some []
unstuff (c ∷ l) = if c == b'.' then (elim l [ [] ↦ none | d ∷ r ↦ some (d ∷ r) ]) else some (c ∷ l)

-- TAILQ_REMOVE of the mail being fetched.
unfoldable pub take_off : PopMail → List PopMail → List PopMail
take_off a [] = []
take_off a (b ∷ bs) = if a.idx == b.idx && bytes_eq a.uid b.uid then bs else b ∷ take_off a bs

module _ (h : Pop3Hooks) where
  -- The server's answer to LIST must name the mail asked for.
  unfoldable pub listed : Option PopMail → Bytes → Session h → Step h
  listed none l s = fault
  listed (some a) l s = elim (h.scan_list l) [
    | none ↦ fail h s
    | some (n, size) ↦
        if not (n == a.idx)
        then fail h (record s { size = size })
        else put h (send_retr a.idx) retr (record s { size = size })
  ]

  unfoldable pub state_list : Session h → Step h
  state_list = get_okay h (λ l s. listed s.aux l s)

  -- The mail is opened, and its lines follow.
  unfoldable pub state_retr : Session h → Step h
  state_retr = get_okay h (λ _ s.
      mail_open h.grants s.size
      >>= elim [ none ↦ fail h s | some m ↦ goto h line (record s { text = m; flushing = false }) ])

  -- The end of the mail: it leaves the want queue.
  unfoldable pub fetched : Option PopMail → Session h → Step h
  fetched none s = fault
  fetched (some a) s = ok (mail, record s { wantq = take_off a s.wantq; state = next })

  -- A line is kept unless the mail has grown past the limit. A reply is the C string that the
  -- connection gives, with no NUL in it, so `strlen` is its length.
  unfoldable pub keep_line : Bytes → Session h → Outcome (Option (Session h))
  keep_line l s =
      if s.flushing
      then ok (some s)
      else append_line h.grants s.text l >>= elim [
        | none ↦ ok none
        | some m ↦ ok (some (record s { text = m; flushing = ltb h.max_size m.size }))
      ]

  -- The loop of `pop3_state_line` over the replies at hand.
  unfoldable pub lines_from : List Reply → Session h → Step h
  lines_from [] s = ok (block, record s { input = [] })
  lines_from (failed ∷ rs) s = fail h (record s { input = rs })
  lines_from (no_line ∷ rs) s = ok (block, record s { input = rs })
  lines_from (reply l ∷ rs) s = elim (unstuff l) [
    | none ↦ fetched s.aux (record s { input = rs })
    | some l' ↦
        keep_line l' s
        >>= elim [ none ↦ fail h (record s { input = rs }) | some s' ↦ lines_from rs s' ]
  ]

  unfoldable pub state_line : Session h → Step h
  state_line s = lines_from s.input s
