-- ===== src/Nntp/Lines.antt =====
-- fetch-nntp.c: the lines of an article over the connection.
use fdm.Mail.{contents}
use fdm.Mail.Append.{Appended, append_line-Appended}
use fdm.Mail.Lines.{IsMail, length-contents}
use fdm.Mail.Store.{append_line}
use fdm.Nntp.{next, send_next, NntpHooks, Session}
use fdm.Nntp.Saved.{Refused}
use fdm.Nntp.States.{keep_line, lines_from, state_line}
use fdm.Outcome.{ok, Ends, Ends->>=, Ends-mono}
use fdm.Pop3.{FetchCode, mail, error}
use fdm.Pop3.Lines.{stuff, joined, unstuff-stuff}
use fdm.Pop3.Transfer.{unstuff}
use mathlib.Core.Path.{subst}
use fdm.Prelude.{
  ◌+◌, ◌<◌, ◌≡◌, refl, sym, ap, ◌∙◌, ◌⊎◌, inl, inr, true, false, Option, none, some, List, [], ◌∷◌,
  ◌++◌, append-nil, append_assoc, arith, ltb, Bool-cases, length, length-append, Bytes,
}

-- The lines that carry an article, up to the dot.
unfoldable pub article : List Bytes → List Bytes → List Bytes
article [] more = (b'.' ∷ []) ∷ more
article (l ∷ ls) more = stuff l ∷ article ls more

module _ (h : NntpHooks) where
  -- The mail is handed over, whole or larger than the limit; or the system refused memory.
  abbrev pub Taken : Bytes → List Bytes → FetchCode × Session h → Type 0
  Taken text more p =
      ((p.0 ≡ error) × Refused h)
      ⊎ ((p.0 ≡ mail)
          × (p.1.input ≡ more)
          × ((IsMail p.1.text × (contents p.1.text ≡ text))
              ⊎ ((h.max_size < p.1.text.size) × (h.max_size < length text))))

  flushed :
      (ls more : List Bytes) (s : Session h)
      → lines_from h (article ls more) (record s { flushing = true })
        ≡ ok (
          mail,
          record s { flushing = true; input = more; state = next; sent = send_next ∷ s.sent },
        )
  unfolding lines_from article unstuff keep_line
  flushed [] more s = refl
  flushed (l ∷ ls) more s = rw (lines_from, article, unstuff-stuff l) (flushed ls more s)

  -- A line that is kept.
  abbrev Kept : Session h → Bytes → Option (Session h) → Type 0
  Kept s l none = Refused h
  Kept s l (some t) =
      IsMail t.text
      × (contents t.text ≡ contents s.text ++ (l ++ b'\n' ∷ []))
      × (t.text.size ≡ s.text.size + length l + 1)
      × (t.text.off ≡ s.text.off)
      × (t.flushing ≡ ltb h.max_size t.text.size)

  keep_line-Kept :
      (s : Session h) (l : Bytes)
      → IsMail s.text
      → 0 < s.text.space
      → s.flushing ≡ false
      → s.text.off + (s.text.size + length l + 1) < 9223372036854775808
      → Ends ⊥ (Kept s l) (keep_line h l s)
  unfolding keep_line
  keep_line-Kept s l v pos keeping small = rw keeping (
      Ends->>= _ (Appended h.grants s.text l) (Kept s l) (append_line h.grants s.text l) _
        (Ends-mono _ ⊥ _ (Appended h.grants s.text l) (append_line h.grants s.text l)
          (append_line-Appended h.grants s.text l v pos (omega arith)) (λ huge. omega arith)
          (λ o a. a))
        (elim [ none ↦ λ a. a | some m ↦ λ (w, c, z, y, o). (w, c, z, o, refl) ]))

  too_large :
      (ls more : List Bytes) (t : Session h) (text : Bytes)
      → t.flushing ≡ true
      → h.max_size < t.text.size
      → h.max_size < length text
      → Ends ⊥ (Taken text more) (lines_from h (article ls more) t)
  too_large ls more t text f large long =
      let e : t ≡ record t { flushing = true } = ap (λ b. record t { flushing = b }) f in
      subst (Ends ⊥ (Taken text more))
        (sym (ap (lines_from h (article ls more)) e ∙ flushed ls more t))
        (inr (refl, refl, inr (large, long)))

  lines_from-Taken :
      (ls more : List Bytes) (s : Session h)
      → IsMail s.text
      → 0 < s.text.space
      → s.flushing ≡ false
      → s.text.off + (s.text.size + length (joined ls)) < 9223372036854775808
      → Ends ⊥ (Taken (contents s.text ++ joined ls) more) (lines_from h (article ls more) s)
  unfolding lines_from article joined unstuff
  lines_from-Taken [] more s v pos keeping small =
      inr (refl, refl, inl (v, sym (append-nil (contents s.text))))
  lines_from-Taken (l ∷ ls) more s v pos keeping small =
      let len = length-append (l ++ b'\n' ∷ []) (joined ls) in
      let len' = length-append l (b'\n' ∷ []) in
      let text = contents s.text ++ ((l ++ b'\n' ∷ []) ++ joined ls) in
      rw (unstuff-stuff l, lines_from)
        (Ends->>= _ (Kept s l) (Taken text more) (keep_line h l s) _
          (keep_line-Kept s l v pos keeping (omega (arith, small, len, len')))
          (elim [
            | none ↦ λ k. inl (refl, k)
            | some t ↦ λ (w, c, z, o, f). elim (Bool-cases (ltb h.max_size t.text.size)) [
              | inl large ↦ too_large ls more t text (f ∙ large) (ground (arith, large)) (
                  let n = length-append (contents s.text) ((l ++ b'\n' ∷ []) ++ joined ls) in
                  let m = length-contents s.text v in ground (arith, large, z, n, m, len, len'))
              | inr fits ↦
                  rw (sym (append_assoc (contents s.text) (l ++ b'\n' ∷ []) (joined ls)), ← c)
                    (lines_from-Taken ls more t w (omega (arith, z, w.room)) (f ∙ fits)
                      (omega (arith, z, o, small, len, len')))
            ]
          ]))

  -- An article that the server sends line by line, dot-stuffed and ended by a dot, is handed over as
  -- it was, behind what the mail already held, or, where its bytes are more than the limit, as a mail
  -- that is larger than the limit; and the lines behind it are left alone, so that an oversize article does not stop the session. It fails
  -- only where the system refuses memory. The mail is being read, and the article has less than 2 ^ 63
  -- bytes.
  pub state_line-Taken :
      (ls more : List Bytes) (s : Session h)
      → s.input ≡ article ls more
      → IsMail s.text
      → 0 < s.text.space
      → s.flushing ≡ false
      → s.text.off + (s.text.size + length (joined ls)) < 9223372036854775808
      → Ends ⊥ (Taken (contents s.text ++ joined ls) more) (state_line h s)
  unfolding state_line
  state_line-Taken ls more s e v pos keeping small =
      subst (λ rs. Ends ⊥ (Taken (contents s.text ++ joined ls) more) (lines_from h rs s)) (sym e)
        (lines_from-Taken ls more s v pos keeping small)
