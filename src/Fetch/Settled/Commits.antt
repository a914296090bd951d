-- ===== src/Fetch/Settled/Commits.antt =====
-- child-fetch.c: what the loop of `fetch_account` commits, over a fetch type that keeps a log.
use fdm.Fetch.Enqueue.{oversize, headed, line_tags, fill_in, enqueue, new_ctx}
use fdm.Fetch.Walk.{
  dequeue, after_dequeue, after_match, match_from, fetch_match, after_deliver, deliver_from,
  fetch_deliver,
}
use fdm.Fetch.Settled.Log.{
  IfReturns, IfReturns->>=, IfReturns-after, logged, drops-step, keeps-step, Tally, LogQueues,
  TallyOf, Tally-length, Left, dequeue-Left,
}
use fdm.Fetch.{FetchHooks, Conf}
use fdm.Mail.Store.{trim_from}
use fdm.Mail.{Mail as Text, find_body, find_header}
use fdm.Outcome.{Outcome}
use fdm.Rules.Deliver.{mail_deliver}
use fdm.Rules.Matching.{mail_match}
use fdm.Rules.{Code, Hooks, Msg, Ctx, decision_drop}
use fdm.Prelude.{
  ℕ, suc, ◌+◌, ◌≡◌, ap, inl, inr, Bool, true, false, Option, List, [], ◌∷◌, ◌++◌, arith, ltb, ◌==◌,
  Bool-cases, length, length-append, codes,
}

module _ (h : Hooks) (f : FetchHooks h) (conf : Conf) where
  abbrev pub Whole : LogQueues h f conf → Type 0
  Whole q = TallyOf h f conf q (length q.matchq + length q.deliverq)

  -- A walk that went well: all that was taken is in the log, or queued, or was too big.
  abbrev pub Tallied : Bool × LogQueues h f conf → Type 0
  Tallied (false, q) = Unit
  Tallied (true, q) = Whole q

  after_match-Tallied :
      (go : List (Ctx h) → LogQueues h f conf → Outcome (Bool × LogQueues h f conf))
      (front cs : List (Ctx h)) (p : Code × Ctx h) (q : LogQueues h f conf)
      → ((front' : List (Ctx h)) (q' : LogQueues h f conf)
          → TallyOf h f conf q' (length front' + length cs + length q'.deliverq)
          → IfReturns Tallied (go front' q'))
      → TallyOf h f conf q (suc (length front + length cs + length q.deliverq))
      → IfReturns Tallied (after_match h (logged h f) conf go front cs p q)
  unfolding after_match after_dequeue
  after_match-Tallied go front cs (Code.error, c) q k t = tt
  after_match-Tallied go front cs (Code.deliver, c) q k t =
      k _ _ (Tally-length h f conf _ _ _ _ _ _ (omega (arith, length-append q.deliverq (c ∷ []))) t)
  after_match-Tallied go front cs (Code.blocked, c) q k t =
      k _ _ (Tally-length h f conf _ _ _ _ _ _ (omega (arith, length-append front (c ∷ []))) t)
  after_match-Tallied go front cs (Code.continue, c) q k t =
      k _ _ (Tally-length h f conf _ _ _ _ _ _ (omega (arith, length-append front (c ∷ []))) t)
  after_match-Tallied go front cs (Code.match, c) q k t =
      k _ _ (Tally-length h f conf _ _ _ _ _ _ (omega (arith, length-append front (c ∷ []))) t)
  after_match-Tallied go front cs (Code.done, c) q k t =
      let n = length front + length cs + length q.deliverq in
      IfReturns->>= (Left h f conf q n) Tallied (dequeue h (logged h f) conf c q) _
        (dequeue-Left h f conf c q n t) by_commit
    where
      by_commit :
          (r : Bool × LogQueues h f conf)
          → Left h f conf q (length front + length cs + length q.deliverq) r
          → IfReturns Tallied (after_dequeue h (logged h f) conf (go front) (front ++ (c ∷ cs)) r)
      by_commit (false, r) d = tt
      by_commit (true, r) (d, _, same) =
          k _ _ (Tally-length h f conf _ _ _ _ _ _ (omega (arith, ap length same)) d)

  match_from-Tallied :
      (msg : Option Msg) (front cs : List (Ctx h)) (q : LogQueues h f conf)
      → TallyOf h f conf q (length front + length cs + length q.deliverq)
      → IfReturns Tallied (match_from h (logged h f) conf msg front cs q)
  unfolding match_from
  match_from-Tallied msg front [] q t = Tally-length h f conf _ _ _ _ _ _ (omega arith) t
  match_from-Tallied msg front (c ∷ cs) q t = IfReturns-after Tallied (mail_match h msg c) _ (λ p.
      after_match-Tallied _ front cs p q (λ front' q' t'. match_from-Tallied msg front' cs q' t')
        (Tally-length h f conf _ _ _ _ _ _ (omega arith) t))

  pub fetch_match-Tallied :
      (msg : Option Msg) (q : LogQueues h f conf)
      → Whole q
      → IfReturns Tallied (fetch_match h (logged h f) conf msg q)
  unfolding fetch_match
  fetch_match-Tallied msg q t =
      match_from-Tallied msg [] q.matchq q (Tally-length h f conf _ _ _ _ _ _ (omega arith) t)

  after_deliver-Tallied :
      (go : List (Ctx h) → LogQueues h f conf → Outcome (Bool × LogQueues h f conf))
      (front cs : List (Ctx h)) (p : Code × Ctx h) (q : LogQueues h f conf)
      → ((front' : List (Ctx h)) (q' : LogQueues h f conf)
          → TallyOf h f conf q' (length q'.matchq + length front' + length cs)
          → IfReturns Tallied (go front' q'))
      → TallyOf h f conf q (suc (length q.matchq + length front + length cs))
      → IfReturns Tallied (after_deliver h (logged h f) conf go front cs p q)
  unfolding after_deliver
  after_deliver-Tallied go front cs (Code.error, c) q k t = tt
  after_deliver-Tallied go front cs (Code.match, c) q k t =
      k _ _ (Tally-length h f conf _ _ _ _ _ _ (omega (arith, length-append q.matchq (c ∷ []))) t)
  after_deliver-Tallied go front cs (Code.blocked, c) q k t =
      k _ _ (Tally-length h f conf _ _ _ _ _ _ (omega (arith, length-append front (c ∷ []))) t)
  after_deliver-Tallied go front cs (Code.continue, c) q k t =
      k _ _ (Tally-length h f conf _ _ _ _ _ _ (omega (arith, length-append front (c ∷ []))) t)
  after_deliver-Tallied go front cs (Code.deliver, c) q k t =
      k _ _ (Tally-length h f conf _ _ _ _ _ _ (omega (arith, length-append front (c ∷ []))) t)
  after_deliver-Tallied go front cs (Code.done, c) q k t =
      k _ _ (Tally-length h f conf _ _ _ _ _ _ (omega (arith, length-append front (c ∷ []))) t)

  deliver_from-Tallied :
      (msg : Option Msg) (front cs : List (Ctx h)) (q : LogQueues h f conf)
      → TallyOf h f conf q (length q.matchq + length front + length cs)
      → IfReturns Tallied (deliver_from h (logged h f) conf msg front cs q)
  unfolding deliver_from
  deliver_from-Tallied msg front [] q t = Tally-length h f conf _ _ _ _ _ _ (omega arith) t
  deliver_from-Tallied msg front (c ∷ cs) q t =
      IfReturns-after Tallied (mail_deliver h msg c) _ (λ p.
        after_deliver-Tallied _ front cs p q
          (λ front' q' t'. deliver_from-Tallied msg front' cs q' t')
          (Tally-length h f conf _ _ _ _ _ _ (omega arith) t))

  pub fetch_deliver-Tallied :
      (msg : Option Msg) (q : LogQueues h f conf)
      → Whole q
      → IfReturns Tallied (fetch_deliver h (logged h f) conf msg q)
  unfolding fetch_deliver
  fetch_deliver-Tallied msg q t =
      deliver_from-Tallied msg [] q.deliverq q (Tally-length h f conf _ _ _ _ _ _ (omega arith) t)

  -- A mail that was taken: the one that the fetch function has handed over counts as taken.
  abbrev pub Taken : Bool × LogQueues h f conf → Type 0
  Taken (false, q) = Unit
  Taken (true, q) =
      Tally h f conf q.source.log (suc q.source.taken) q.dropped q.kept
        (length q.matchq + length q.deliverq)

  oversize-Taken :
      ((m : h.Mail) → h.decision (h.set_decision decision_drop m) ≡ decision_drop)
      → (m : h.Mail) (q : LogQueues h f conf) → Whole q
      → Taken (oversize h (logged h f) conf m q)
  unfolding oversize
  oversize-Taken law m q t = elim (Bool-cases conf.del_big) [
    | inr stop ↦ rw (oversize, stop) tt
    | inl delete ↦
        let m' = h.set_decision decision_drop m in
        elim (Bool-cases (f.commit m' q.source.source).0) [
          | inr bad ↦ rw (oversize, delete, bad) tt
          | inl good ↦
              let a = drops-step h m' q.source.log decision_drop (law m) in
              let b = keeps-step h m' q.source.log decision_drop (law m) in
              rw (oversize, delete, good)
                (record {
                  queued_drops = t.queued_drops;
                  big = suc t.big;
                  none_big = inr delete;
                  to_drop = omega (arith, a, t.to_drop);
                  dropped_counted = t.dropped_counted;
                  kept_counted = omega (arith, b, t.kept_counted);
                  decided = omega (arith, a, b, t.decided);
                  committed = omega (arith, t.committed);
                })
        ]
  ]

  queued-Taken :
      (q : LogQueues h f conf) (n : ℕ)
      → Whole q
      → n ≡ suc (length q.matchq)
      → Tally h f conf q.source.log (suc q.source.taken) q.dropped q.kept (n + length q.deliverq)
  queued-Taken q n t e = record {
    queued_drops = t.queued_drops;
    big = t.big;
    none_big = t.none_big;
    to_drop = t.to_drop;
    dropped_counted = t.dropped_counted;
    kept_counted = t.kept_counted;
    decided = t.decided;
    committed = omega (arith, t.committed, e);
  }

  fill_in-Taken :
      (m : h.Mail) (t : Text) (q : LogQueues h f conf)
      → Whole q
      → IfReturns (λ r. Taken (true, r)) (fill_in h (logged h f) conf m t q)
  unfolding fill_in
  fill_in-Taken m t q w = IfReturns-after _ (line_tags t) _ (λ lines.
      IfReturns-after _ (find_header t (codes "message-id") true) _ (λ id.
        IfReturns-after _ (headed h (logged h f) conf _ t) _ (λ t1.
          queued-Taken q _ w
            (omega (arith, length-append q.matchq (new_ctx h (logged h f) conf _ ∷ []))))))

  pub enqueue-Taken :
      ((m : h.Mail) → h.decision (h.set_decision decision_drop m) ≡ decision_drop)
      → (m : h.Mail) (q : LogQueues h f conf) → Whole q
      → IfReturns Taken (enqueue h (logged h f) conf m q)
  unfolding enqueue
  enqueue-Taken law m q w = elim (Bool-cases (ltb conf.max_size (f.text m).size)) [
    | inl large ↦ rw (enqueue, large) (oversize-Taken law m q w)
    | inr fits ↦
        rw (enqueue, fits)
          (IfReturns-after Taken (find_body (f.text m)) _ (λ body.
            elim (Bool-cases ((trim_from (record (f.text m) { body = body })).size == 0)) [
              | inl empty ↦ rw empty tt
              | inr some_text ↦ rw some_text (
                  IfReturns->>= (λ r. Taken (true, r)) Taken
                    (fill_in h (logged h f) conf m (trim_from (record (f.text m) { body = body }))
                      q)
                    _ (fill_in-Taken m (trim_from (record (f.text m) { body = body })) q w)
                    (λ r t. t))
            ]))
  ]
