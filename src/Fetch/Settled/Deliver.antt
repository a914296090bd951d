-- ===== src/Fetch/Settled/Deliver.antt =====
-- child-fetch.c: `fetch_deliver` keeps the queues settled.
use fdm.Fetch.Settled.{waits, waits-append, waits-one, Settled, Walked}
use fdm.Fetch.Walk.{after_deliver, deliver_from, fetch_deliver}
use fdm.Fetch.{FetchHooks, Conf, Queues}
use fdm.Outcome.{Outcome, Ends->>=, Returns}
use fdm.Pop3.{up}
use fdm.Rules.Fit.{MatchFit, DeliverFit}
use fdm.Rules.Fit.Deliver.{Delivered, mail_deliver-Delivered}
use fdm.Rules.Deliver.{mail_deliver}
use fdm.Rules.{Code, Hooks, Msg, Ctx}
use fdm.Prelude.{
  ℕ, ◌+◌, ◌%◌, ◌≤◌, ◌≡◌, ◌≢◌, Bool, Option, List, [], ◌∷◌, ◌++◌, arith, length, length-append, All,
  All-append, u32_mod,
}

module _ (h : Hooks) (numbered : (m : h.Mail) → h.index m ≢ 0) (f : FetchHooks h) (conf : Conf)
    (msg : Option Msg) where
  -- In the loop: `front` was looked at, `cs` was not.
  record Walk (front cs : List (Ctx h)) (q : Queues h f conf) : Type 0 where
    front_fit : All (DeliverFit h) front
    rest_fit : All (DeliverFit h) cs
    match_fit : All (MatchFit h) q.matchq
    counted : q.idx ≡ (q.dropped + q.kept + (length q.matchq + length front + length cs)) % u32_mod
    queued : q.queued ≡ (length q.matchq + length front + length cs) % u32_mod
    bounded : length q.matchq + length front + length cs ≤ conf.queue_high
    blocked : q.blocked ≤ waits h q.matchq + waits h front

  stays :
      (front cs : List (Ctx h)) (c c' : Ctx h) (q : Queues h f conf) (b : ℕ)
      → Walk front (c ∷ cs) q
      → DeliverFit h c'
      → b ≤ waits h q.matchq + waits h (front ++ (c' ∷ []))
      → Walk (front ++ (c' ∷ [])) cs (record q { blocked = b })
  stays front cs c c' q b w v le =
      let len = length-append front (c' ∷ []) in
      record {
        front_fit = All-append (DeliverFit h) front (c' ∷ []) w.front_fit (v, tt);
        rest_fit = w.rest_fit.1;
        match_fit = w.match_fit;
        counted = omega (arith, w.counted, len);
        queued = omega (arith, w.queued, len);
        bounded = omega (arith, w.bounded, len);
        blocked = le;
      }

  -- A mail that goes back to the match queue.
  moves :
      (front cs : List (Ctx h)) (c c' : Ctx h) (q : Queues h f conf)
      → Walk front (c ∷ cs) q
      → MatchFit h c'
      → Walk front cs (record q { matchq = q.matchq ++ (c' ∷ []) })
  moves front cs c c' q w v =
      let len = length-append q.matchq (c' ∷ []) in
      record {
        front_fit = w.front_fit;
        rest_fit = w.rest_fit.1;
        match_fit = All-append (MatchFit h) q.matchq (c' ∷ []) w.match_fit (v, tt);
        counted = omega (arith, w.counted, len);
        queued = omega (arith, w.queued, len);
        bounded = omega (arith, w.bounded, len);
        blocked = omega (arith, w.blocked, waits-append h q.matchq (c' ∷ []));
      }

  after_deliver-Walked :
      (go : List (Ctx h) → Queues h f conf → Outcome (Bool × Queues h f conf))
      (front cs : List (Ctx h)) (c : Ctx h) (p : Code × Ctx h) (q : Queues h f conf)
      → ((front' : List (Ctx h)) (q' : Queues h f conf)
          → Walk front' cs q'
          → Returns (Walked h f conf) (go front' q'))
      → Walk front (c ∷ cs) q
      → Delivered h numbered p
      → Returns (Walked h f conf) (after_deliver h f conf go front cs p q)
  unfolding after_deliver
  after_deliver-Walked go front cs c (Code.error, c') q k w m = tt
  after_deliver-Walked go front cs c (Code.deliver, c') q k w m = absurd m
  after_deliver-Walked go front cs c (Code.done, c') q k w m = absurd m
  after_deliver-Walked go front cs c (Code.continue, c') q k w m = k _ _ (
      stays front cs c c' q q.blocked w m
        (omega (arith, w.blocked, waits-append h front (c' ∷ []))))
  after_deliver-Walked go front cs c (Code.blocked, c') q k w (m, n) = k _ _ (
      stays front cs c c' q (up q.blocked) w m
        (omega (arith, w.blocked, waits-append h front (c' ∷ []), waits-one h c' n)))
  after_deliver-Walked go front cs c (Code.match, c') q k w m = k _ _ (moves front cs c c' q w m)

  deliver_from-Walked :
      (front cs : List (Ctx h)) (q : Queues h f conf)
      → Walk front cs q
      → Returns (Walked h f conf) (deliver_from h f conf msg front cs q)
  unfolding deliver_from
  deliver_from-Walked front [] q w = (
    record {
      match_fit = w.match_fit;
      deliver_fit = w.front_fit;
      counted = omega (arith, w.counted);
      queued = omega (arith, w.queued);
      bounded = omega (arith, w.bounded);
    },
    omega (arith, w.blocked),
  )
  deliver_from-Walked front (c ∷ cs) q w =
      Ends->>= ⊥ (Delivered h numbered) (Walked h f conf) (mail_deliver h msg c) _
        (mail_deliver-Delivered h numbered msg c w.rest_fit.0)
        (λ p m.
          after_deliver-Walked _ front cs c p q
            (λ front' q' w'. deliver_from-Walked front' cs q' w') w m)

  -- `fetch_deliver` on settled queues returns, and if it goes well it leaves the queues settled. No
  -- more mails are counted as blocked than wait, if that was so for the match queue.
  pub fetch_deliver-Walked :
      (q : Queues h f conf)
      → Settled h f conf q.matchq q.deliverq q
      → q.blocked ≤ waits h q.matchq
      → Returns (Walked h f conf) (fetch_deliver h f conf msg q)
  unfolding fetch_deliver
  fetch_deliver-Walked q s le = deliver_from-Walked [] q.deliverq q (record {
    front_fit = tt;
    rest_fit = s.deliver_fit;
    match_fit = s.match_fit;
    counted = omega (arith, s.counted);
    queued = omega (arith, s.queued);
    bounded = omega (arith, s.bounded);
    blocked = omega (arith, le);
  })
