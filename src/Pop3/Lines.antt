-- ===== src/Pop3/Lines.antt =====
-- The lines of a mail over the POP3 connection: what the server stuffs, the client unstuffs and
-- appends.
use fdm.Mail.{contents}
use fdm.Mail.Append.{Appended, append_line-Appended}
use fdm.Mail.Lines.{IsMail}
use fdm.Mail.Store.{append_line}
use fdm.Outcome.{Ends, Ends->>=, Ends-mono}
use fdm.Pop3.Transfer.{fetched, unstuff, keep_line, lines_from, state_line}
use fdm.Pop3.{PopMail, Reply, reply, FetchCode, error, mail, Pop3Hooks, Session}
use mathlib.Core.Path.{subst}
use fdm.Prelude.{
  ℕ, ◌+◌, ◌≤◌, ◌<◌, ◌≡◌, refl, sym, ◌∙◌, ◌⊎◌, inl, inr, false, Option, none, some, List, [], ◌∷◌,
  ◌++◌, append-nil, append_assoc, arith, ◌==◌, if◌then◌else◌, Bool-cases, length, length-append,
  Bytes,
}

-- What a server sends for a line: a dot in front of a line that starts with one (RFC 1939).
unfoldable pub stuff : Bytes → Bytes
stuff [] = []
stuff (c ∷ l) = if c == b'.' then b'.' ∷ c ∷ l else c ∷ l

pub unstuff-stuff : (l : Bytes) → unstuff (stuff l) ≡ some l
unfolding unstuff stuff
unstuff-stuff [] = refl
unstuff-stuff (c ∷ l) = elim (Bool-cases (c == b'.')) [
  | inl dot ↦ rw dot
  | inr other ↦ rw (other, unstuff, other)
]

-- The lines of a mail, each with its newline.
unfoldable pub joined : List Bytes → Bytes
joined [] = []
joined (l ∷ ls) = (l ++ b'\n' ∷ []) ++ joined ls

-- The replies that carry them, up to the dot.
unfoldable pub transfer : List Bytes → List Reply → List Reply
transfer [] more = reply (b'.' ∷ []) ∷ more
transfer (l ∷ ls) more = reply (stuff l) ∷ transfer ls more

module _ (h : Pop3Hooks) where
  -- The mail is handed over with the lines behind what was read before, or the session fails where
  -- the system refused memory.
  abbrev pub Received : Bytes → List Reply → FetchCode × Session h → Type 0
  Received text more p =
      ((p.0 ≡ error) × ((k : ℕ) × (h.grants k ≡ false)))
      ⊎ ((p.0 ≡ mail) × IsMail p.1.text × (contents p.1.text ≡ text) × (p.1.input ≡ more))

  -- A line that is kept: the mail holds it, and the rest of the session is as it was.
  abbrev Kept : Session h → Bytes → Option (Session h) → Type 0
  Kept s l none = (k : ℕ) × (h.grants k ≡ false)
  Kept s l (some t) =
      IsMail t.text
      × (contents t.text ≡ contents s.text ++ (l ++ b'\n' ∷ []))
      × (t.text.size ≡ s.text.size + length l + 1)
      × (t.text.off ≡ s.text.off)
      × (t.flushing ≡ false)
      × (t.aux ≡ s.aux)

  keep_line-Kept :
      (s : Session h) (l : Bytes)
      → IsMail s.text
      → 0 < s.text.space
      → s.flushing ≡ false
      → s.text.size + length l + 1 ≤ h.max_size
      → s.text.off + (s.text.size + length l + 1) < 9223372036854775808
      → Ends ⊥ (Kept s l) (keep_line h l s)
  unfolding keep_line
  keep_line-Kept s l v pos keeping fits small = rw keeping (
      Ends->>= _ (Appended h.grants s.text l) (Kept s l) (append_line h.grants s.text l) _
        (Ends-mono _ ⊥ _ (Appended h.grants s.text l) (append_line h.grants s.text l)
          (append_line-Appended h.grants s.text l v pos (omega arith)) (λ huge. omega arith)
          (λ o a. a))
        (elim [ none ↦ λ a. a | some m ↦ λ (w, c, z, y, o). (w, c, z, o, ground arith, refl) ]))

  dot-fetched :
      (a : PopMail) (more : List Reply) (s : Session h)
      → s.aux ≡ some a
      → IsMail s.text
      → Ends ⊥ (Received (contents s.text ++ joined []) more) (lines_from h (transfer [] more) s)
  unfolding lines_from transfer unstuff fetched joined
  dot-fetched a more s at v = rw at (inr (refl, v, sym (append-nil (contents s.text)), refl))

  lines_from-Received :
      (ls : List Bytes) (a : PopMail) (more : List Reply) (s : Session h)
      → IsMail s.text
      → 0 < s.text.space
      → s.flushing ≡ false
      → s.aux ≡ some a
      → s.text.size + length (joined ls) ≤ h.max_size
      → s.text.off + (s.text.size + length (joined ls)) < 9223372036854775808
      → Ends ⊥ (Received (contents s.text ++ joined ls) more) (lines_from h (transfer ls more) s)
  unfolding lines_from transfer joined
  lines_from-Received [] a more s v pos keeping at fits small = dot-fetched a more s at v
  lines_from-Received (l ∷ ls) a more s v pos keeping at fits small =
      let len = length-append (l ++ b'\n' ∷ []) (joined ls) in
      let len' = length-append l (b'\n' ∷ []) in
      rw (unstuff-stuff l, lines_from)
        (Ends->>= _ (Kept s l) (Received (contents s.text ++ ((l ++ b'\n' ∷ []) ++ joined ls)) more)
          (keep_line h l s) _ (keep_line-Kept s l v pos keeping (omega arith) (omega arith))
          (elim [
            | none ↦ λ k. inl (refl, k)
            | some t ↦ λ (w, c, z, o, f, g).
                rw (sym (append_assoc (contents s.text) (l ++ b'\n' ∷ []) (joined ls)), ← c)
                  (lines_from-Received ls a more t w (omega (arith, z, w.room)) f (g ∙ at)
                    (omega (arith, z)) (omega (arith, z, o)))
          ]))

  -- A message that the server sends line by line, dot-stuffed and ended by a dot, is received as it
  -- was, behind what the mail already held, and the replies behind it are left alone. It fails only
  -- where the system refuses memory. The message fits the size limit, and the mail is being read.
  pub state_line-Received :
      (ls : List Bytes) (a : PopMail) (more : List Reply) (s : Session h)
      → s.input ≡ transfer ls more
      → IsMail s.text
      → 0 < s.text.space
      → s.flushing ≡ false
      → s.aux ≡ some a
      → s.text.size + length (joined ls) ≤ h.max_size
      → s.text.off + (s.text.size + length (joined ls)) < 9223372036854775808
      → Ends ⊥ (Received (contents s.text ++ joined ls) more) (state_line h s)
  unfolding state_line
  state_line-Received ls a more s e v pos keeping at fits small =
      subst (λ rs. Ends ⊥ (Received (contents s.text ++ joined ls) more) (lines_from h rs s))
        (sym e) (lines_from-Received ls a more s v pos keeping at fits small)
