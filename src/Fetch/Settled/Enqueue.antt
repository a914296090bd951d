-- ===== src/Fetch/Settled/Enqueue.antt =====
-- child-fetch.c: `fetch_enqueue` ends, and adds one mail to the settled queues.
use fdm.Fetch.Enqueue.{line_tags, add_received, new_ctx, oversize, headed, fill_in, enqueue}
use fdm.Fetch.{FetchHooks, Conf, Queues}
use fdm.Mail.Append.{IsHuge}
use fdm.Mail.Insert.{Inserted, insert_header-Inserted}
use fdm.Mail.Lines.{
  IsMail, length-contents as length-mail, find_body-body_offset, count_lines-length, body_offset,
  split_lines, body_count,
}
use fdm.Mail.Store.{trim_from, insert_place, newline_run, insert_header}
use fdm.Mail.Total.{
  find_header-Returns, InMail, insert_place-InMail, fill_wrapped-Returns, body_offset-split_lines,
}
use fdm.Mail.Trim.{trim_from-body_offset}
use fdm.Mail.Wrap.{fill_wrapped}
use fdm.Mail.{Mail as Text, Line, contents, find_header}
use fdm.Outcome.{Outcome, ok, fault, Returns, Ends->>=, Ends-mono}
use fdm.Pop3.{up}
use mathlib.Core.Path.{subst}
use fdm.Rules.{Hooks, decision_drop}
use fdm.Prelude.{
  ℕ, ◌+◌, ◌-◌, ◌%◌, ◌≤◌, ◌<◌, ◌≡◌, refl, sym, ap, ◌∙◌, ◌≢◌, ◌⊎◌, inl, inr, Bool, true, false, not,
  Option, none, some, [], ◌∷◌, ◌++◌, arith, ltb, ◌==◌, if◌then◌else◌, Bool-cases, Option-cases,
  length, take, drop, Bytes, codes, u32_mod,
}

-- A text that can be queued: valid, with no wrapped lines yet, and far from the end of the address
-- space.
pub record IsFresh (t : Text) : Type 0 where
  pub mail : IsMail t
  pub space : 0 < t.space
  pub unwrapped : t.wrapped ≡ []
  pub small : t.space < 4611686018427387904

-- What `trim_from` leaves alone.
trim_from-wrapped : (t : Text) → (trim_from t).wrapped ≡ t.wrapped
unfolding trim_from
trim_from-wrapped t = ground arith

trim_from-space : (t : Text) → (trim_from t).space ≡ t.space
unfolding trim_from
trim_from-space t = ground arith

-- The numbers of a mail's lines, of those of its body and of its headers, from the list of its lines.
abbrev pub lines_of : Text → ℕ × ℕ × ℕ
lines_of t =
    let n = length (split_lines (contents t)) % u32_mod in
    let b = body_count (split_lines (contents t)) % u32_mod in
    (n, b, (n + u32_mod - (if n == b then b else up b)) % u32_mod)

line_tags-lines_of : (t : Text) → IsMail t → contents t ≢ [] → line_tags t ≡ ok (lines_of t)
unfolding line_tags
line_tags-lines_of t v n = rw (count_lines-length t v n, line_tags) refl

-- What a function that returns returns.
result_of : {A : Type 0} {P : A → Type 0} (m : Outcome A) → Returns P m → (a : A) × (m ≡ ok a) × P a
result_of (ok a) r = (a, refl, r)
result_of Outcome.fatal r = absurd r
result_of fault r = absurd r
result_of Outcome.diverge r = absurd r

no_bytes : (s : Bytes) → length s ≡ 0 → s ≡ []
no_bytes [] e = refl
no_bytes (c ∷ s) e = absurd (omega (arith, e))

place_cases :
    (t : Text) (o : Outcome (Option (ℕ × ℕ)))
    → Returns (InMail t) o
    → (o ≡ ok none) ⊎ ((at : ℕ) × (n : ℕ) × ((at ≤ t.size) × (n ≤ 2)) × (o ≡ ok (some (at, n))))
place_cases t (ok none) r = inl refl
place_cases t (ok (some (at, n))) r = inr (at, n, r, refl)
place_cases t Outcome.fatal r = absurd r
place_cases t fault r = absurd r
place_cases t Outcome.diverge r = absurd r

-- With its header, and no wrapped lines yet.
record Headed (t : Text) : Type 0 where
  mail : IsMail t
  unwrapped : t.wrapped ≡ []
  inside : t.body ≤ t.size

-- The text with the header in front of the first Received header, or as it was where no place is found.
abbrev pub Received : Text → Bytes → Bytes → Type 0
Received t hdr s =
    ((insert_place t (some (codes "received")) ≡ ok none) × (s ≡ contents t))
    ⊎ ((at : ℕ) × (n : ℕ) × (insert_place t (some (codes "received")) ≡ ok (some (at, n)))
        × (s ≡ take at (contents t) ++ ((hdr ++ newline_run n) ++ drop at (contents t))))

abbrev Added : Text → Bytes → Text → Type 0
Added t hdr r = Headed r × Received t hdr (contents r)

add_received-Added :
    (grants : ℕ → Bool) (t : Text) (hdr : Bytes)
    → ((k : ℕ) → grants k ≡ true)
    → Headed t
    → 0 < t.space
    → t.space + length hdr < 9223372036854775800
    → Returns (Added t hdr) (add_received grants t hdr)
unfolding add_received
add_received-Added grants t hdr granted d pos small =
    elim (place_cases t (insert_place t (some (codes "received")))
      (insert_place-InMail t (some (codes "received")) d.mail d.inside)) [
        | inl none_there ↦ rw (add_received, none_there) (d, inl (none_there, refl))
        | inr (at, n, (le, few), place) ↦
            rw (add_received, place)
              (Ends->>= ⊥ (Inserted grants t at (hdr ++ newline_run n)) (Added t hdr)
                (insert_header grants t (some (codes "received")) hdr) _
                (Ends-mono (IsHuge (t.off + (t.size + (length hdr + n)))) ⊥ _ _
                  (insert_header grants t (some (codes "received")) hdr)
                  (insert_header-Inserted grants t (some (codes "received")) hdr at n d.mail pos
                    place le (omega (arith, small, few, d.mail.room)))
                  (λ huge. omega (arith, huge, small, few, d.mail.room)) (λ o i. i))
                (elim [
                  | none ↦ λ (k, refused). absurd (ground (arith, refused, granted k))
                  | some r ↦ λ (w, same, s, b, o, p). (
                    record {
                      mail = w;
                      unwrapped = p ∙ d.unwrapped;
                      inside = omega (arith, s, b, d.inside);
                    },
                    inr (at, n, place, same),
                  )
                ]))
      ]

filled :
    (t : Text) → Headed t → Returns (λ r. IsMail r × (contents r ≡ contents t)) (fill_wrapped t)
filled t d =
    Ends-mono ⊥ ⊥ _ (λ r. IsMail r × (contents r ≡ contents t)) (fill_wrapped t)
      (fill_wrapped-Returns t d.mail d.unwrapped d.inside) (λ x. x) (λ r (v, same, _). (v, same))

module _ (h : Hooks) (f : FetchHooks h) (conf : Conf) where
  -- The Received headers are short, and the system gives the memory that is asked for.
  pub record Provided : Type 0 where
    pub short : (m : h.Mail) (hdr : Bytes) → f.received m ≡ some hdr → length hdr < 1048576
    pub granted : (k : ℕ) → f.grants k ≡ true

  -- The text of a mail that is queued, from the trimmed one.
  abbrev pub HasHeader : h.Mail → Text → Text → Type 0
  HasHeader m t r =
      ((conf.no_received ≡ true) × (contents r ≡ contents t))
      ⊎ ((conf.no_received ≡ false) × (f.received m ≡ none) × (contents r ≡ contents t))
      ⊎ ((hdr : Bytes) × (conf.no_received ≡ false)
          × (f.received m ≡ some hdr)
          × Received t hdr (contents r))

  -- The mail with its number, its tags and no decision but to drop it.
  abbrev pub tagged : h.Mail → Text → Option Line → Queues h f conf → h.Mail
  tagged m t id q = f.attributes (up q.idx) (lines_of t) id t (h.set_decision decision_drop m)

  -- The mail is at the end of the match queue, with `t` its trimmed text.
  abbrev pub Queued : h.Mail → Text → Queues h f conf → Queues h f conf → Type 0
  Queued m t q r =
      (id : Option Line) × (t' : Text) × (find_header t (codes "message-id") true ≡ ok id)
      × IsMail t'
      × HasHeader (tagged m t id q) t t'
      × (r ≡ record q {
        idx = up q.idx;
        queued = up q.queued;
        matchq = q.matchq ++ (new_ctx h f conf (f.with_text t' (tagged m t id q)) ∷ []);
      })

  abbrev pub trimmed : Text → Text
  trimmed t = trim_from (record t { body = body_offset 0 (split_lines (contents t)) })

  -- The result of `fetch_enqueue` and the queues: a mail over the limit is an error, or is committed
  -- to be dropped, and the commit decides; one that is empty once it is trimmed is an error; any
  -- other is queued.
  abbrev pub Enqueued : h.Mail → Queues h f conf → Bool × Queues h f conf → Type 0
  Enqueued m q p =
      ((conf.max_size < (f.text m).size) × (conf.del_big ≡ false) × (p ≡ (false, q)))
      ⊎ ((conf.max_size < (f.text m).size)
          × (conf.del_big ≡ true)
          × (let (good, s) = f.commit (h.set_decision decision_drop m) q.source in
              p ≡ (good, record q { source = s })))
      ⊎ (((f.text m).size ≤ conf.max_size)
          × (contents (trimmed (f.text m)) ≡ [])
          × (p ≡ (false, q)))
      ⊎ (((f.text m).size ≤ conf.max_size)
          × (contents (trimmed (f.text m)) ≢ [])
          × (p.0 ≡ true)
          × Queued m (trimmed (f.text m)) q p.1)

  headed-HasHeader :
      (p : Provided) (m : h.Mail) (t : Text)
      → Headed t
      → 0 < t.space
      → t.space < 4611686018427387904
      → Returns (λ r. IsMail r × HasHeader m t r) (headed h f conf m t)
  unfolding headed
  headed-HasHeader p m t d pos small = elim (Bool-cases conf.no_received) [
    | inl without ↦
        rw (without, headed)
          (Ends-mono ⊥ ⊥ _ _ (fill_wrapped t) (filled t d) (λ x. x)
            (λ r (v, same). (v, inl (refl, same))))
    | inr some_header ↦ elim (Option-cases (f.received m)) [
      | inl no_time ↦
          rw (some_header, no_time, headed)
            (Ends-mono ⊥ ⊥ _ _ (fill_wrapped t) (filled t d) (λ x. x)
              (λ r (v, same). (v, inr (inl (refl, refl, same)))))
      | inr (hdr, printed) ↦
          rw (some_header, headed, printed)
            (Ends->>= ⊥ (Added t hdr) _ (add_received f.grants t hdr) fill_wrapped
              (add_received-Added f.grants t hdr p.granted d pos
                (omega (arith, small, p.short m hdr printed)))
              (λ r (d', there).
                Ends-mono ⊥ ⊥ _ _ (fill_wrapped r) (filled r d') (λ x. x)
                  (λ r' (v, same).
                    (v, inr (inr (hdr, refl, refl, subst (Received t hdr) (sym same) there))))))
    ]
  ]

  -- A trimmed mail that is not empty is queued.
  fill_in-Queued :
      (p : Provided) (m : h.Mail) (t : Text) (q : Queues h f conf)
      → Headed t
      → 0 < t.space
      → t.space < 4611686018427387904
      → contents t ≢ []
      → Returns (Queued m t q) (fill_in h f conf m t q)
  unfolding fill_in
  fill_in-Queued p m t q d pos small n =
      let (id, found, _) =
        result_of (find_header t (codes "message-id") true)
          (find_header-Returns t (codes "message-id") true d.mail) in
      rw (fill_in, line_tags-lines_of t d.mail n, found)
        (Ends->>= ⊥ (λ r. IsMail r × HasHeader (tagged m t id q) t r) (Queued m t q)
          (headed h f conf (tagged m t id q) t) _
          (headed-HasHeader p (tagged m t id q) t d pos small)
          (λ t' (v, header). (id, t', found, v, header, refl)))

  oversize-Enqueued :
      (m : h.Mail) (q : Queues h f conf)
      → conf.max_size < (f.text m).size
      → Enqueued m q (oversize h f conf m q)
  unfolding oversize
  oversize-Enqueued m q big =
      let c = f.commit (h.set_decision decision_drop m) q.source in
      let by : Bool → Bool × Queues h f conf =
        λ b. if not b then (false, q) else (c.0, record q { source = c.1 }) in
      elim (Bool-cases conf.del_big) [
        | inr error ↦ inl (big, error, ap by error)
        | inl delete ↦ inr (inl (big, delete, ap by delete))
      ]

  -- `fetch_enqueue` of a fresh mail returns. A mail over the limit is an error, or, where big mails
  -- are deleted, it is committed to be dropped and not queued, and the result is that of the commit; a
  -- mail that is empty once it is trimmed is an error. Every other mail is put at the end of the match
  -- queue with the next number, the numbers of its lines, its message-id and, where they are wanted, a
  -- Received header, and nothing else changes. The Received headers are short, and the system gives
  -- the memory that is asked for.
  pub enqueue-Enqueued :
      (p : Provided) (m : h.Mail) (q : Queues h f conf)
      → IsFresh (f.text m)
      → Returns (Enqueued m q) (enqueue h f conf m q)
  unfolding enqueue
  enqueue-Enqueued p m q fresh =
      let t = f.text m in
      let v = fresh.mail in
      let body = body_offset 0 (split_lines (contents t)) in
      let t0 : Text = record t { body = body } in
      let v0 : IsMail t0 = record { block = v.block; room = v.room; bounded = v.bounded } in
      let (w, le, _, _) =
        trim_from-body_offset t0 v0
          (omega (arith, body_offset-split_lines (contents t), length-mail t v)) refl in
      let t1 = trim_from t0 in
      elim (Bool-cases (ltb conf.max_size t.size)) [
        | inl big ↦ rw (big, enqueue) (oversize-Enqueued m q (ground (arith, big)))
        | inr fits ↦
            let le' : t.size ≤ conf.max_size = ground (arith, fits) in
            rw (fits, enqueue, find_body-body_offset t v)
              (elim (Bool-cases (t1.size == 0)) [
                | inl empty ↦ rw empty (
                    inr (
                      inr (
                        inl (
                          le',
                          no_bytes (contents t1) (ground (arith, empty, length-mail t1 w)),
                          refl,
                        ))))
                | inr some_text ↦
                    let some_bytes : contents t1 ≢ [] = λ e.
                      let l = length-mail t1 w in
                      let e' = ap length e in ground (arith, l, e', some_text) in
                    rw some_text (
                      Ends->>= ⊥ (Queued m t1 q) (Enqueued m q) (fill_in h f conf m t1 q) _
                        (fill_in-Queued p m t1 q
                          (record {
                            mail = w;
                            unwrapped = trim_from-wrapped t0 ∙ fresh.unwrapped;
                            inside = le;
                          })
                          (omega (arith, trim_from-space t0, fresh.space))
                          (omega (arith, trim_from-space t0, fresh.small)) some_bytes)
                        (λ r e. inr (inr (inr (le', some_bytes, refl, e)))))
              ])
      ]
