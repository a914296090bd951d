-- ===== src/Fetch/Settled/Round.antt =====
-- child-fetch.c: a round of the loop of `fetch_account` keeps the queues settled, and blocks only
-- where all mails wait.
use fdm.Fetch.Enqueue.{new_ctx, enqueue}
use fdm.Fetch.Loop.{Turn, repeats, finishes, aborts, polls, Loop, may_block, end_round, take_mail}
use fdm.Fetch.Settled.Enqueue.{IsFresh, Provided, Enqueued, tagged, trimmed, enqueue-Enqueued}
use fdm.Fetch.Settled.{waits, waits-le, waits-All, Settled}
use fdm.Fetch.{Flags, FetchHooks, Conf, Queues}
use fdm.Outcome.{ok, Returns, Ends->>=}
use fdm.Pop3.{FetchCode, up}
use fdm.Rules.Fit.{MatchFit, IsWhole}
use fdm.Rules.{Hooks, Ctx, decision_drop}
use mathlib.Core.Path.{subst}
use fdm.Prelude.{
  ◌+◌, ◌≤◌, ◌<◌, ◌≡◌, refl, sym, ap, ◌≢◌, inl, inr, Bool, true, false, ◌&&◌, List, [], ◌∷◌, ◌++◌,
  arith, ◌==◌, if◌then◌else◌, Bool-cases, length, length-append, All, All-append, u32_mod,
}

module _ (h : Hooks) (f : FetchHooks h) (conf : Conf) where
  -- The fetch function returns, and the mails that it hands over are fresh; mails have numbers, and
  -- rules have expressions. The upper limit of the queue is a `u_int`.
  pub record Works : Type 0 where
    pub numbered : (m : h.Mail) → h.index m ≢ 0
    pub whole : IsWhole f.rules
    pub provided : Provided h f conf
    pub limit : conf.queue_high < u32_mod
    pub states :
        (flags : Flags) (s : f.Source)
        → Returns (λ p. p.0 ≡ FetchCode.mail → IsFresh (f.text (f.mail p.2))) (f.state flags s)

  -- The queues of the loop are settled.
  abbrev pub Kept : Queues h f conf → Type 0
  Kept q = Settled h f conf q.matchq q.deliverq q

  abbrev pub AllWait : Queues h f conf → Type 0
  AllWait q = All (λ c. c.msgid ≢ 0) q.matchq × All (λ c. c.msgid ≢ 0) q.deliverq

  -- After a round that was not aborted the queues are settled. The loop is finished only with empty
  -- queues, and it blocks in the poll only where every mail waits for the parent.
  abbrev pub AfterRound : Turn × Loop h f conf → Type 0
  AfterRound (repeats, l) = Kept l.queues
  AfterRound (aborts, l) = Unit
  AfterRound (finishes, l) =
      Kept l.queues × (l.complete ≡ true) × (l.queues.matchq ≡ []) × (l.queues.deliverq ≡ [])
  AfterRound (polls blocks, l) = Kept l.queues × (blocks ≡ true → AllWait l.queues)

  no_items : {A : Type 0} (l : List A) → length l ≡ 0 → l ≡ []
  no_items [] e = refl
  no_items (x ∷ l) e = absurd (omega (arith, e))

  may_block-AllWait :
      (w : Works) (q : Queues h f conf)
      → Kept q
      → q.blocked ≤ waits h q.matchq + waits h q.deliverq
      → may_block h f conf q ≡ true
      → AllWait q
  unfolding may_block
  may_block-AllWait w q s le e =
      let n : q.queued ≡ length q.matchq + length q.deliverq =
        omega (arith, s.queued, s.bounded, w.limit) in
      let b : q.queued ≤ q.blocked = ground (arith, e) in
      let m = waits-le h q.matchq in
      let d = waits-le h q.deliverq in
      (waits-All h q.matchq (omega arith), waits-All h q.deliverq (omega arith))

  pub end_round-AfterRound :
      (w : Works) (l : Loop h f conf)
      → Kept l.queues
      → l.queues.blocked ≤ waits h l.queues.matchq + waits h l.queues.deliverq
      → Returns AfterRound (end_round h f conf l)
  unfolding end_round
  end_round-AfterRound w l s le = elim (Bool-cases (l.complete && l.queues.queued == 0)) [
    | inr more ↦ rw (end_round, more) (s, may_block-AllWait w l.queues s le)
    | inl over ↦
        let q = l.queues in
        let none_left : q.queued ≡ 0 = ground (arith, over) in
        let n : length q.matchq + length q.deliverq ≡ 0 =
          omega (arith, s.queued, s.bounded, w.limit) in
        rw (end_round, over)
          (
            s,
            ground (arith, over),
            no_items q.matchq (omega (arith, n)),
            no_items q.deliverq (omega (arith, n)),
          )
  ]

  new_ctx-MatchFit : (w : Works) (m : h.Mail) → MatchFit h (new_ctx h f conf m)
  unfolding new_ctx
  new_ctx-MatchFit w m = record {
    rules = w.whole;
    stack = tt;
    started = λ x. absurd (x refl);
    waiting = λ x. absurd (x refl);
  }

  -- One more mail in the match queue.
  queued-Kept :
      (w : Works) (q : Queues h f conf) (c : Ctx h)
      → MatchFit h c
      → Kept q
      → q.queued < conf.queue_high
      → Kept (record q { idx = up q.idx; queued = up q.queued; matchq = q.matchq ++ (c ∷ []) })
  queued-Kept w q c v s less =
      let len = length-append q.matchq (c ∷ []) in
      record {
        match_fit = All-append (MatchFit h) q.matchq (c ∷ []) s.match_fit (v, tt);
        deliver_fit = s.deliver_fit;
        counted = omega (arith, s.counted, len);
        queued = omega (arith, s.queued, len);
        bounded = omega (arith, s.queued, s.bounded, w.limit, len, less);
      }

  pub moved : (q : Queues h f conf) (s : f.Source) → Kept q → Kept (record q { source = s })
  moved q s k = record {
    match_fit = k.match_fit;
    deliver_fit = k.deliver_fit;
    counted = k.counted;
    queued = k.queued;
    bounded = k.bounded;
  }

  Enqueued-Kept :
      (w : Works) (m : h.Mail) (q r : Queues h f conf)
      → Kept q
      → q.queued < conf.queue_high
      → Enqueued h f conf m q (true, r)
      → Kept r
  Enqueued-Kept w m q r s less (inl (_, _, e)) =
      absurd (let e' = ap (λ p. p.0) e in ground (arith, e'))
  Enqueued-Kept w m q r s less (inr (inl (_, _, e))) =
      subst Kept (sym (ap (λ p. p.1) e))
        (moved q (f.commit (h.set_decision decision_drop m) q.source).1 s)
  Enqueued-Kept w m q r s less (inr (inr (inl (_, _, e)))) =
      absurd (let e' = ap (λ p. p.0) e in ground (arith, e'))
  Enqueued-Kept w m q r s less (inr (inr (inr (_, _, _, (id, t, _, _, _, e))))) =
      let m' = f.with_text t (tagged h f conf m (trimmed h f conf (f.text m)) id q) in
      subst Kept (sym e) (queued-Kept w q (new_ctx h f conf m') (new_ctx-MatchFit w m') s less)

  pub take_mail-AfterRound :
      (w : Works) (l : Loop h f conf)
      → Kept l.queues
      → l.queues.queued < conf.queue_high
      → IsFresh (f.text (f.mail l.queues.source))
      → Returns AfterRound (take_mail h f conf l)
  unfolding take_mail
  take_mail-AfterRound w l s less fresh =
      Ends->>= ⊥ (Enqueued h f conf (f.mail l.queues.source) l.queues) AfterRound
        (enqueue h f conf (f.mail l.queues.source) l.queues) _
        (enqueue-Enqueued h f conf w.provided (f.mail l.queues.source) l.queues fresh)
        (λ p e. by_result p e)
    where
      by_result :
          (p : Bool × Queues h f conf)
          → Enqueued h f conf (f.mail l.queues.source) l.queues p
          → Returns AfterRound (
              if p.0
              then ok
                  (repeats, record l { queues = record p.1 { source = f.fresh_mail p.1.source } })
              else ok (aborts, record l { queues = p.1 }))
      by_result (false, q) e = tt
      by_result (true, q) e =
          moved q (f.fresh_mail q.source)
            (Enqueued-Kept w (f.mail l.queues.source) l.queues q s less e)
