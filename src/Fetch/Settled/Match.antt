-- ===== src/Fetch/Settled/Match.antt =====
-- child-fetch.c: `fetch_match` keeps the queues settled.
use fdm.Fetch.Settled.{
  waits, waits-append, waits-one, Settled, Undecided, Dequeued, dequeue-Dequeued,
}
use fdm.Fetch.Walk.{dequeue, after_dequeue, after_match, match_from, fetch_match}
use fdm.Fetch.{FetchHooks, Conf, Queues}
use fdm.Outcome.{Outcome, Ends, Ends->>=, Ends-mono}
use fdm.Pop3.{up}
use fdm.Rules.Fit.{MsgFit, MatchFit, DeliverFit, Matched}
use fdm.Rules.Fit.Match.{mail_match-Matched}
use fdm.Rules.Matching.{mail_match}
use fdm.Rules.{Code, Hooks, Msg, Ctx}
use mathlib.Core.Path.{subst}
use fdm.Prelude.{
  ℕ, ◌+◌, ◌%◌, ◌≤◌, ◌≡◌, sym, ap, ◌≢◌, Bool, true, false, Option, List, [], ◌∷◌, ◌++◌, arith,
  length, length-append, All, All-append, u32_mod,
}

module _ (h : Hooks) (numbered : (m : h.Mail) → h.index m ≢ 0) (f : FetchHooks h) (conf : Conf)
    (msg : Option Msg) (fit : MsgFit msg) where
  -- After a walk that went well: the queues are settled, and no more mails were counted as blocked
  -- than wait in the match queue.
  abbrev pub MatchWalked : Bool × Queues h f conf → Type 0
  MatchWalked (false, q) = Unit
  MatchWalked (true, q) = Settled h f conf q.matchq q.deliverq q × (q.blocked ≤ waits h q.matchq)

  -- In the loop: `front` was looked at, `cs` was not.
  record Walk (front cs : List (Ctx h)) (q : Queues h f conf) : Type 0 where
    front_fit : All (MatchFit h) front
    rest_fit : All (MatchFit h) cs
    deliver_fit : All (DeliverFit h) q.deliverq
    counted :
        q.idx ≡ (q.dropped + q.kept + (length front + length cs + length q.deliverq)) % u32_mod
    queued : q.queued ≡ (length front + length cs + length q.deliverq) % u32_mod
    bounded : length front + length cs + length q.deliverq ≤ conf.queue_high
    blocked : q.blocked ≤ waits h front

  -- A mail that stays in the queue.
  stays :
      (front cs : List (Ctx h)) (c c' : Ctx h) (q : Queues h f conf) (b : ℕ)
      → Walk front (c ∷ cs) q
      → MatchFit h c'
      → b ≤ waits h (front ++ (c' ∷ []))
      → Walk (front ++ (c' ∷ [])) cs (record q { blocked = b })
  stays front cs c c' q b w v le =
      let len = length-append front (c' ∷ []) in
      record {
        front_fit = All-append (MatchFit h) front (c' ∷ []) w.front_fit (v, tt);
        rest_fit = w.rest_fit.1;
        deliver_fit = w.deliver_fit;
        counted = omega (arith, w.counted, len);
        queued = omega (arith, w.queued, len);
        bounded = omega (arith, w.bounded, len);
        blocked = le;
      }

  longer : (front : List (Ctx h)) (c : Ctx h) → waits h front ≤ waits h (front ++ (c ∷ []))
  longer front c = omega (arith, waits-append h front (c ∷ []))

  -- A mail that goes to the deliver queue.
  moves :
      (front cs : List (Ctx h)) (c c' : Ctx h) (q : Queues h f conf)
      → Walk front (c ∷ cs) q
      → DeliverFit h c'
      → Walk front cs (record q { deliverq = q.deliverq ++ (c' ∷ []) })
  moves front cs c c' q w v =
      let len = length-append q.deliverq (c' ∷ []) in
      record {
        front_fit = w.front_fit;
        rest_fit = w.rest_fit.1;
        deliver_fit = All-append (DeliverFit h) q.deliverq (c' ∷ []) w.deliver_fit (v, tt);
        counted = omega (arith, w.counted, len);
        queued = omega (arith, w.queued, len);
        bounded = omega (arith, w.bounded, len);
        blocked = w.blocked;
      }

  -- A mail that is done.
  leaves :
      (front cs : List (Ctx h)) (c : Ctx h) (q r : Queues h f conf)
      → Walk front (c ∷ cs) q
      → Dequeued h f conf q (true, r)
      → Walk front cs r
  leaves front cs c q r w (_, same, b, i, s, n) =
      let len = ap length same in
      record {
        front_fit = w.front_fit;
        rest_fit = w.rest_fit.1;
        deliver_fit = subst (All (DeliverFit h)) (sym same) w.deliver_fit;
        counted = omega (arith, w.counted, i, s, len);
        queued = omega (arith, w.queued, n, len);
        bounded = omega (arith, w.bounded, len);
        blocked = omega (arith, w.blocked, b);
      }

  after_match-Walked :
      (go : List (Ctx h) → Queues h f conf → Outcome (Bool × Queues h f conf))
      (front cs : List (Ctx h)) (c : Ctx h) (p : Code × Ctx h) (q : Queues h f conf)
      → ((front' : List (Ctx h)) (q' : Queues h f conf)
          → Walk front' cs q'
          → Ends (Undecided h f conf) MatchWalked (go front' q'))
      → Walk front (c ∷ cs) q
      → Matched h p
      → Ends (Undecided h f conf) MatchWalked (after_match h f conf go front cs p q)
  unfolding after_match after_dequeue
  after_match-Walked go front cs c (Code.error, c') q k w m = tt
  after_match-Walked go front cs c (Code.match, c') q k w m = absurd m
  after_match-Walked go front cs c (Code.continue, c') q k w m =
      k _ _ (stays front cs c c' q q.blocked w m (omega (arith, w.blocked, longer front c')))
  after_match-Walked go front cs c (Code.blocked, c') q k w (m, n) = k _ _ (
      stays front cs c c' q (up q.blocked) w m
        (omega (arith, w.blocked, waits-append h front (c' ∷ []), waits-one h c' n)))
  after_match-Walked go front cs c (Code.deliver, c') q k w m = k _ _ (moves front cs c c' q w m)
  after_match-Walked go front cs c (Code.done, c') q k w m =
      Ends->>= (Undecided h f conf) (Dequeued h f conf q) MatchWalked (dequeue h f conf c' q) _
        (dequeue-Dequeued h f conf c' q) (λ r d. by_commit r d)
    where
      by_commit :
          (r : Bool × Queues h f conf)
          → Dequeued h f conf q r
          → Ends
              (Undecided h f conf)
              MatchWalked
              (after_dequeue h f conf (go front) (front ++ (c' ∷ cs)) r)
      by_commit (false, r) d = tt
      by_commit (true, r) d = k _ _ (leaves front cs c q r w d)

  match_from-Walked :
      (front cs : List (Ctx h)) (q : Queues h f conf)
      → Walk front cs q
      → Ends (Undecided h f conf) MatchWalked (match_from h f conf msg front cs q)
  unfolding match_from
  match_from-Walked front [] q w = (
    record {
      match_fit = w.front_fit;
      deliver_fit = w.deliver_fit;
      counted = omega (arith, w.counted);
      queued = omega (arith, w.queued);
      bounded = omega (arith, w.bounded);
    },
    omega (arith, w.blocked),
  )
  match_from-Walked front (c ∷ cs) q w =
      Ends->>= (Undecided h f conf) (Matched h) MatchWalked (mail_match h msg c) _
        (Ends-mono ⊥ (Undecided h f conf) (Matched h) (Matched h) (mail_match h msg c)
          (mail_match-Matched h numbered msg c fit w.rest_fit.0) (λ x. absurd x) (λ p m. m))
        (λ p m.
          after_match-Walked _ front cs c p q (λ front' q' w'. match_from-Walked front' cs q' w') w
            m)

  -- `fetch_match` on settled queues, with a fit message of the parent or none, stops the process
  -- only for a mail with no decision, and if it goes well it leaves the queues settled.
  pub fetch_match-Walked :
      (q : Queues h f conf)
      → Settled h f conf q.matchq q.deliverq q
      → Ends (Undecided h f conf) MatchWalked (fetch_match h f conf msg (record q { blocked = 0 }))
  unfolding fetch_match
  fetch_match-Walked q s =
      match_from-Walked [] q.matchq (record q { blocked = 0 })
        (record {
          front_fit = tt;
          rest_fit = s.match_fit;
          deliver_fit = s.deliver_fit;
          counted = omega (arith, s.counted);
          queued = omega (arith, s.queued);
          bounded = omega (arith, s.bounded);
          blocked = omega arith;
        })
