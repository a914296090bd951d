-- ===== src/Imap/Search.antt =====
-- imap-common.c: the UIDs in the answer to a search.
use fdm.Imap.{
  search3, Wanted, untagged, bad, good, ignored, ImapHooks, Session, Step, fail, tag_of, parse_tag,
  parse, get, get_line,
}
use fdm.Imap.Folder.{word_end, uids_from, searched, state_search2}
use fdm.Imap.Login.{skip_blanks}
use fdm.Outcome.{ok, ◌>>=◌, Ends}
use fdm.Pop3.{again, Reply, reply}
use fdm.Strb.Pairs.{memchr-end}
use fdm.Prelude.{
  ℕ, zero, suc, ◌+◌, ◌≤◌, ◌<◌, ◌≡◌, refl, sym, ap, ◌∙◌, ◌⊎◌, inl, inr, true, false, none, some,
  List, [], ◌∷◌, ◌++◌, append-nil, append_assoc, arith, ◌==◌, Bool-cases, Option-cases, length,
  drop, length-append, length-drop, drop-append_exact, list_cases, All, Bytes, codes, memchr,
  is_space, starts_with_case, starts_with,
}

-- A blank and a word for each UID.
unfoldable pub spelled : List (Bytes × ℕ) → Bytes
spelled [] = []
spelled ((w, uid) ∷ ws) = b' ' ∷ (w ++ spelled ws)

unfoldable pub uids_of : List (Bytes × ℕ) → List ℕ
uids_of [] = []
uids_of ((w, uid) ∷ ws) = uid ∷ uids_of ws

pub record IsWord (w : Bytes) : Type 0 where
  pub has_bytes : 0 < length w
  pub no_space : All (λ c. is_space c ≡ false) w

spelled_cases :
    (ws : List (Bytes × ℕ)) → (spelled ws ≡ []) ⊎ ((rest : Bytes) × (spelled ws ≡ b' ' ∷ rest))
unfolding spelled
spelled_cases [] = inl refl
spelled_cases ((w, uid) ∷ ws) = inr (w ++ spelled ws, refl)

skip_blanks-word : (w t : Bytes) → IsWord w → skip_blanks (b' ' ∷ (w ++ t)) ≡ w ++ t
unfolding skip_blanks
skip_blanks-word [] t i = absurd (omega (arith, i.has_bytes))
skip_blanks-word (c ∷ w) t i = rw (skip_blanks, (i.no_space).0) refl

memchr-none : (w : Bytes) → All (λ c. is_space c ≡ false) w → memchr b' ' w ≡ none
unfolding memchr
memchr-none [] a = refl
memchr-none (c ∷ w) (f, a) =
    let other : (c == b' ') ≡ false = ground (arith, f) in rw (other, memchr-none w a) refl

word_end-alone : (w : Bytes) → IsWord w → word_end w ≡ length w
unfolding word_end
word_end-alone w i = rw (word_end, memchr-none w i.no_space) refl

word_end-space : (w t : Bytes) → IsWord w → word_end (w ++ (b' ' ∷ t)) ≡ length w
unfolding word_end
word_end-space w t i = rw (word_end, memchr-end b' ' w t (memchr-none w i.no_space)) refl

-- A word ends at the next blank, or at the end of the line.
word_end-word :
    (w : Bytes) (ws : List (Bytes × ℕ)) → IsWord w → word_end (w ++ spelled ws) ≡ length w
word_end-word w ws i = elim (spelled_cases ws) [
  | inl e ↦ ap (λ t. word_end (w ++ t)) e ∙ ap word_end (append-nil w) ∙ word_end-alone w i
  | inr (rest, e) ↦ ap (λ t. word_end (w ++ t)) e ∙ word_end-space w rest i
]

module _ (h : ImapHooks) where
  -- Words that `sscanf` reads as their UIDs, also where more follows.
  unfoldable pub Readable : List (Bytes × ℕ) → Type 0
  Readable ws =
      All
        (λ p.
          IsWord p.0 × ((rest : List (Bytes × ℕ)) → h.scan_uid (p.0 ++ spelled rest) ≡ some p.1))
        ws

  no_word : (n : ℕ) (uids : List ℕ) → uids_from h (suc n) [] uids ≡ ok (true, uids ++ [])
  unfolding uids_from skip_blanks memchr word_end
  no_word n uids = ap (λ x. ok (true, x)) (sym (append-nil uids))

  one_word :
      (n : ℕ) (l w t : Bytes) (uid : ℕ) (uids : List ℕ)
      → skip_blanks l ≡ w ++ t
      → 0 < length w
      → word_end (w ++ t) ≡ length w
      → h.scan_uid (w ++ t) ≡ some uid
      → uids_from h (suc n) l uids ≡ elim t [
        | [] ↦ ok (true, uids ++ (uid ∷ []))
        | c ∷ rest ↦ uids_from h n (c ∷ rest) (uids ++ (uid ∷ []))
      ]
  unfolding uids_from
  one_word n l w t uid uids skipped pos len read =
      let some_bytes : (length w == 0) ≡ false = ground (arith, pos) in
      rw
        (
          uids_from,
          skipped,
          len,
          some_bytes,
          read,
          skipped,
          len,
          drop-append_exact w t (length w) refl,
        )
        refl

  pub uids_from-Readable :
      (n : ℕ) (ws : List (Bytes × ℕ)) (uids : List ℕ)
      → Readable ws
      → length (spelled ws) < n
      → uids_from h n (spelled ws) uids ≡ ok (true, uids ++ uids_of ws)
  unfolding spelled uids_of Readable
  uids_from-Readable zero ws uids r less = absurd (omega (arith, less))
  uids_from-Readable (suc n) [] uids r less = no_word n uids
  uids_from-Readable (suc n) ((w, uid) ∷ []) uids ((i, read), r) less =
      one_word n (spelled ((w, uid) ∷ [])) w [] uid uids (skip_blanks-word w [] i) i.has_bytes
        (word_end-word w [] i) (read [])
  uids_from-Readable (suc n) ((w, uid) ∷ p ∷ ws) uids ((i, read), r) less =
      let rest = p ∷ ws in
      one_word n (spelled ((w, uid) ∷ rest)) w (spelled rest) uid uids
        (skip_blanks-word w (spelled rest) i) i.has_bytes (word_end-word w rest i) (read rest)
      ∙ uids_from-Readable n rest (uids ++ (uid ∷ [])) r
          (omega (arith, less, length-append w (spelled rest), i.has_bytes))
      ∙ ap (λ x. ok (true, x)) (append_assoc uids (uid ∷ []) (uids_of rest))

  get-good :
      (w : Wanted) (k : Bytes → Session h → Step h) (l : Bytes) (more : List Reply) (s : Session h)
      → s.input ≡ reply l ∷ more
      → parse h w s.tag l ≡ good
      → get h w k s ≡ k l (record s { input = more })
  unfolding get get_line
  get-good w k l more s e g =
      ap (λ rs. get_line h w k rs s) e
      ∙ ap
          (λ x. elim x [
            | bad ↦ fail h (record s { input = more })
            | good ↦ k l (record s { input = more })
            | ignored ↦ get_line h w k more s
          ])
          g

  listed_line : (tag : ℕ) (t : Bytes) → parse h untagged tag (codes "* SEARCH" ++ t) ≡ good
  unfolding parse parse_tag tag_of starts_with
  listed_line tag t = refl

  skip_blanks-length : (l : Bytes) → length (skip_blanks l) ≤ length l
  unfolding skip_blanks
  skip_blanks-length [] = omega arith
  skip_blanks-length (c ∷ l) = elim (Bool-cases (is_space c)) [
    | inl blank ↦ rw (skip_blanks, blank) (omega (arith, skip_blanks-length l))
    | inr other ↦ rw (skip_blanks, other) (omega arith)
  ]

  -- The loop over the UIDs ends on every line: a word has at least one byte.
  pub uids_from-ends :
      (n : ℕ) (l : Bytes) (uids : List ℕ)
      → length l < n
      → Ends ⊥ (λ p. Unit {0}) (uids_from h n l uids)
  unfolding uids_from
  uids_from-ends zero l uids less = absurd (omega (arith, less))
  uids_from-ends (suc n) l uids less =
      let s = skip_blanks l in
      elim (Bool-cases (word_end s == 0)) [
        | inl empty ↦ rw (uids_from, empty) tt
        | inr some_bytes ↦ elim (Option-cases (h.scan_uid s)) [
          | inl bad_word ↦ rw (uids_from, some_bytes, bad_word) tt
          | inr (uid, there) ↦ elim (list_cases (drop (word_end s) s)) [
            | inl e ↦ rw (uids_from, some_bytes, there, e) tt
            | inr (c, rest, e) ↦
                let d = ap length e in
                let m = length-drop (word_end s) s in
                let b = skip_blanks-length l in
                rw (uids_from, some_bytes, there, e)
                  (uids_from-ends n (c ∷ rest) (uids ++ (uid ∷ []))
                    (ground (arith, d, m, b, some_bytes, less)))
          ]
        ]
      ]

  -- The answer to a search that lists UIDs is taken, and the UIDs are put behind those that are
  -- wanted: one whose words are read as those UIDs, also where more words follow.
  pub state_search2-Readable :
      (ws : List (Bytes × ℕ)) (more : List Reply) (s : Session h)
      → s.input ≡ reply (codes "* SEARCH" ++ spelled ws) ∷ more
      → Readable ws
      → state_search2 h s
        ≡ ok (again, record s { input = more; wanted = s.wanted ++ uids_of ws; state = search3 })
  unfolding state_search2 starts_with_case searched
  state_search2-Readable ws more s e r =
      let less : length (spelled ws) < length (codes "* SEARCH" ++ spelled ws) + 1 =
        omega (arith, length-append (codes "* SEARCH") (spelled ws)) in
      get-good untagged _ (codes "* SEARCH" ++ spelled ws) more s e (listed_line s.tag (spelled ws))
      ∙ ap (λ m. m >>= λ p. searched h p (record s { input = more }))
          (uids_from-Readable (length (codes "* SEARCH" ++ spelled ws) + 1) ws s.wanted r less)
