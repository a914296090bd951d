-- ===== src/Imap/Literal.antt =====
-- imap-common.c: the literal of a mail over the connection, line by line.
use fdm.Imap.{mail, ImapHooks, Session}
use fdm.Imap.Fetch.{last_line, lines_from, state_line}
use fdm.Mail.{contents, Mail}
use fdm.Mail.Append.{Appended, append_line-Appended}
use fdm.Mail.Lines.{IsMail, length-contents}
use fdm.Mail.Store.{append_line}
use fdm.Outcome.{Ends, Ends->>=, Ends-mono}
use fdm.Pop3.{FetchCode, again, block, error, Reply, failed, no_line, reply, up}
use fdm.Pop3.Lines.{joined}
use mathlib.Core.Path.{subst}
use fdm.Prelude.{
  ℕ, suc, ◌+◌, ◌-◌, ◌<◌, ◌≡◌, refl, sym, ap, ◌∙◌, ◌⊎◌, inl, inr, true, false, none, some, List, [],
  ◌∷◌, ◌++◌, append-nil, append_assoc, arith, ltb, ◌==◌, Bool-cases, length, get_elem?, take, drop,
  length-append, take-append_exact, take-take_le, Bytes, sub_size, add_size, u32_mod,
}

-- The bytes of a mail on the wire: its whole lines, each with CR and LF, and what follows the last.
unfoldable pub octets : List Bytes → Bytes → ℕ
octets [] tail = length tail
octets (l ∷ ls) tail = length l + 2 + octets ls tail

-- The replies that carry them: the closing bracket stands behind the rest.
unfoldable pub literal : List Bytes → Bytes → List Reply → List Reply
literal [] tail more = reply (tail ++ (b')' ∷ [])) ∷ more
literal (l ∷ ls) tail more = reply l ∷ literal ls tail more

module _ (h : ImapHooks) where
  -- The mail is ready with the text, and the session waits for the end of the command; or it fails
  -- where the system refused memory.
  abbrev pub Received : Bytes → List Reply → FetchCode × Session h → Type 0
  Received text more p =
      ((p.0 ≡ error) × ((k : ℕ) × (h.grants k ≡ false)))
      ⊎ ((p.0 ≡ again)
          × (p.1.state ≡ mail)
          × IsMail p.1.text
          × (contents p.1.text ≡ text)
          × (p.1.input ≡ more))

  bracket_last :
      (tail : Bytes)
      → get_elem? (tail ++ (b')' ∷ [])) (length (tail ++ (b')' ∷ [])) - 1) ≡ some b')'
  bracket_last [] = refl
  bracket_last (c ∷ tail) =
      let n = length-append tail (b')' ∷ []) in
      let at : length (c ∷ (tail ++ (b')' ∷ []))) - 1 ≡ suc (length (tail ++ (b')' ∷ [])) - 1) =
        omega (arith, n) in
      ap (get_elem? (c ∷ (tail ++ (b')' ∷ [])))) at ∙ bracket_last tail

  -- The text without its last byte.
  shorter :
      (m : Mail) (s : Bytes) (c : ℕ)
      → IsMail m
      → contents m ≡ s ++ (c ∷ [])
      → IsMail (record m { size = sub_size m.size 1 })
        × (contents (record m { size = sub_size m.size 1 }) ≡ s)
  shorter m s c v e =
      let n : m.size ≡ length s + 1 =
        (let a = length-contents m v in
          let b = ap length e in let d = length-append s (c ∷ []) in omega (arith, a, b, d)) in
      let less : sub_size m.size 1 ≡ length s = omega (arith, n, v.room, v.bounded) in
      (
        record { block = v.block; room = omega (arith, n, less, v.room); bounded = v.bounded },
        ap (λ k. take k (drop m.off m.base)) less
            ∙ sym (take-take_le (length s) m.size (drop m.off m.base) (omega (arith, n)))
            ∙ ap (take (length s)) e
            ∙ take-append_exact s (c ∷ []) (length s) refl,
      )

  nil_of : (l : Bytes) → length l ≡ 0 → [] ≡ l
  nil_of [] z = refl
  nil_of (x ∷ l) z = absurd (omega (arith, z))

  last_line-Received :
      (tail : Bytes) (more : List Reply) (s : Session h)
      → IsMail s.text
      → 0 < s.text.space
      → s.text.off + (s.text.size + length tail + 1) < 9223372036854775808
      → s.input ≡ more
      → Ends ⊥
          (Received (contents s.text ++ tail) more)
          (last_line h (tail ++ (b')' ∷ [])) (length tail) s)
  unfolding last_line
  last_line-Received tail more s v pos small same =
      let l = tail ++ (b')' ∷ []) in
      let n : length l ≡ length tail + 1 = length-append tail (b')' ∷ []) in
      let some_bytes : (length l == 0) ≡ false = ground (arith, n) in
      elim (Bool-cases (length tail == 0)) [
        | inl none_left ↦
            rw (last_line, some_bytes, bracket_last tail, none_left)
              (inr (
                refl,
                refl,
                v,
                sym (append-nil (contents s.text))
                    ∙ ap (λ t. contents s.text ++ t) (nil_of tail (ground (arith, none_left))),
                same,
              ))
        | inr some_left ↦
            rw (last_line, some_bytes, bracket_last tail, some_left)
              (let part : take (length tail) (l ++ (0 ∷ [])) ≡ tail =
                  ap (take (length tail)) (append_assoc tail (b')' ∷ []) (0 ∷ []))
                  ∙ take-append_exact tail _ (length tail) refl in
                rw part (
                  Ends->>= ⊥ (Appended h.grants s.text tail)
                    (Received (contents s.text ++ tail) more) (append_line h.grants s.text tail) _
                    (Ends-mono _ ⊥ _ (Appended h.grants s.text tail)
                      (append_line h.grants s.text tail)
                      (append_line-Appended h.grants s.text tail v pos (omega (arith, small)))
                      (λ huge. omega (arith, huge, small)) (λ o a. a))
                    (elim [
                      | none ↦ λ k. inl (refl, k)
                      | some m ↦ λ (w, c, z, y, o).
                          let (u, d) =
                            shorter m (contents s.text ++ tail) b'\n' w
                              (c ∙ sym (append_assoc (contents s.text) tail (b'\n' ∷ []))) in
                          inr (refl, refl, u, d, same)
                    ])))
      ]

  lines_from-Received :
      (ls : List Bytes) (tail : Bytes) (more : List Reply) (s : Session h)
      → IsMail s.text
      → 0 < s.text.space
      → s.flushing ≡ false
      → s.size ≡ s.text.size + s.lines + octets ls tail
      → s.size < u32_mod
      → s.text.off + s.size < 4611686018427387904
      → Ends ⊥
          (Received (contents s.text ++ (joined ls ++ tail)) more)
          (lines_from h (literal ls tail more) s)
  unfolding lines_from literal octets joined
  lines_from-Received [] tail more s v pos keeping e few small =
      let n : length (tail ++ (b')' ∷ [])) ≡ length tail + 1 = length-append tail (b')' ∷ []) in
      let used = add_size s.text.size s.lines in
      let u : used ≡ s.text.size + s.lines = omega (arith, e, few) in
      let over : ltb s.size (add_size (add_size used (length (tail ++ (b')' ∷ [])))) 2) ≡ true =
        (let a : add_size (add_size used (length (tail ++ (b')' ∷ [])))) 2 ≡ s.size + 3 =
            omega (arith, u, e, few, n) in
          ground (arith, a)) in
      let left : sub_size s.size used ≡ length tail = omega (arith, u, e, few) in
      rw (lines_from, keeping, over, left)
        (last_line-Received tail more (record s { input = more }) v pos (omega (arith, e, small))
          refl)
  lines_from-Received (l ∷ ls) tail more s v pos keeping e few small =
      let used = add_size s.text.size s.lines in
      let u : used ≡ s.text.size + s.lines = omega (arith, e, few) in
      let within : ltb s.size (add_size (add_size used (length l)) 2) ≡ false =
        (let a : add_size (add_size used (length l)) 2 ≡ s.text.size + s.lines + length l + 2 =
            omega (arith, u, e, few) in
          ground (arith, a, e)) in
      rw (lines_from, keeping, within)
        (Ends->>= ⊥ (Appended h.grants s.text l)
          (Received (contents s.text ++ (((l ++ b'\n' ∷ []) ++ joined ls) ++ tail)) more)
          (append_line h.grants s.text l) _
          (Ends-mono _ ⊥ _ (Appended h.grants s.text l) (append_line h.grants s.text l)
            (append_line-Appended h.grants s.text l v pos (omega (arith, e, small)))
            (λ huge. omega (arith, huge, e, small)) (λ o a. a))
          (elim [
            | none ↦ λ k. inl (refl, k)
            | some m ↦ λ (w, c, z, y, o).
                let t : Session h = record s { text = m; lines = up s.lines } in
                let text : contents s.text ++ (((l ++ b'\n' ∷ []) ++ joined ls) ++ tail)
                    ≡ contents m ++ (joined ls ++ tail) =
                  ap (λ x. contents s.text ++ x) (append_assoc (l ++ b'\n' ∷ []) (joined ls) tail)
                  ∙ sym (append_assoc (contents s.text) (l ++ b'\n' ∷ []) (joined ls ++ tail))
                  ∙ ap (λ x. x ++ (joined ls ++ tail)) (sym c) in
                subst (λ x. Ends ⊥ (Received x more) (lines_from h (literal ls tail more) t))
                  (sym text)
                  (lines_from-Received ls tail more t w (omega (arith, z, w.room)) keeping
                    (omega (arith, e, z, few)) few (omega (arith, o, small)))
          ]))

  -- A mail that the server sends as a literal of as many bytes as it announced, line by line, with the
  -- closing bracket behind it, is received with a newline for each CR and LF, whether the mail ends
  -- with a line or not; the replies behind it are left alone. It fails only where the system refuses
  -- memory. The mail has less than 2 ^ 32 bytes, and is being read.
  pub state_line-literal :
      (ls : List Bytes) (tail : Bytes) (more : List Reply) (s : Session h)
      → s.input ≡ literal ls tail more
      → IsMail s.text
      → 0 < s.text.space
      → s.flushing ≡ false
      → s.size ≡ s.text.size + s.lines + octets ls tail
      → s.size < u32_mod
      → s.text.off + s.size < 4611686018427387904
      → Ends ⊥ (Received (contents s.text ++ (joined ls ++ tail)) more) (state_line h s)
  unfolding state_line
  state_line-literal ls tail more s e v pos keeping size few small =
      subst
        (λ rs. Ends ⊥ (Received (contents s.text ++ (joined ls ++ tail)) more) (lines_from h rs s))
        (sym e) (lines_from-Received ls tail more s v pos keeping size few small)

  -- A call is over without a mail.
  abbrev pub Flushed : Session h → FetchCode × Session h → Type 0
  Flushed s (c, t) = ((c ≡ block) ⊎ (c ≡ error)) × (t ≡ record s { input = t.input })

  flush_line :
      (l : Bytes) (rs : List Reply) (s : Session h)
      → s.flushing ≡ true
      → lines_from h (reply l ∷ rs) s ≡ lines_from h rs s
  unfolding lines_from
  flush_line l rs s f =
      let e : s ≡ record s { flushing = true } = ap (λ b. record s { flushing = b }) f in
      ap (lines_from h (reply l ∷ rs)) e ∙ sym (ap (lines_from h rs) e)

  lines_from-Flushed :
      (rs : List Reply) (s : Session h) → s.flushing ≡ true → Ends ⊥ (Flushed s) (lines_from h rs s)
  unfolding lines_from
  lines_from-Flushed [] s f = (inl refl, refl)
  lines_from-Flushed (failed ∷ rs) s f = (inr refl, refl)
  lines_from-Flushed (no_line ∷ rs) s f = (inl refl, refl)
  lines_from-Flushed (reply l ∷ rs) s f =
      subst (Ends ⊥ (Flushed s)) (sym (flush_line l rs s f)) (lines_from-Flushed rs s f)

  -- A mail that is larger than the limit is never done with: whatever the server sends, a call of
  -- `imap_state_line` that flushes blocks, or fails with the connection, and nothing but the replies
  -- that it took has changed, so that the next call flushes again.
  pub state_line-Flushed : (s : Session h) → s.flushing ≡ true → Ends ⊥ (Flushed s) (state_line h s)
  unfolding state_line
  state_line-Flushed s f = lines_from-Flushed s.input s f
