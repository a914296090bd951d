-- ===== src/Fetch/Walk.antt =====
-- child-fetch.c: the walks over the two queues, `fetch_match` and `fetch_deliver`, and
-- `fetch_dequeue`.
use fdm.Fetch.{FetchHooks, Conf, Queues, count_decision, commit_mail}
use fdm.Outcome.{Outcome, ok, ◌>>=◌}
use fdm.Pop3.{up}
use fdm.Rules.Deliver.{mail_deliver}
use fdm.Rules.Matching.{mail_match}
use fdm.Rules.{Code, Hooks, Msg, Ctx, decision_keep}
use fdm.Prelude.{Bool, true, false, ◌||◌, Option, List, [], ◌∷◌, ◌++◌, if◌then◌else◌}

module _ (h : Hooks) (f : FetchHooks h) (conf : Conf) where
  -- `fetch_dequeue`, but for the queue itself.
  unfoldable pub dequeue : Ctx h → Queues h f conf → Outcome (Bool × Queues h f conf)
  dequeue c q =
      let m = if conf.keep_all || conf.keep then h.set_decision decision_keep c.mail else c.mail in
      count_decision h f conf (h.decision m) q >>= λ r. ok (commit_mail h f conf m r)

  -- A mail that was committed is gone from the queue; else the walk ends.
  unfoldable pub after_dequeue :
      (Queues h f conf → Outcome (Bool × Queues h f conf))
      → List (Ctx h)
      → Bool × Queues h f conf
      → Outcome (Bool × Queues h f conf)
  after_dequeue go queue (false, q) = ok (false, record q { matchq = queue })
  after_dequeue go queue (true, q) = go q

  -- The switch over the result of `mail_match`: `front` are the mails that stay in the queue, `cs`
  -- those that follow, and `go` is the rest of the loop.
  unfoldable pub after_match :
      (List (Ctx h) → Queues h f conf → Outcome (Bool × Queues h f conf))
      → List (Ctx h)
      → List (Ctx h)
      → Code × Ctx h
      → Queues h f conf
      → Outcome (Bool × Queues h f conf)
  after_match go front cs (Code.error, c) q = ok (false, record q { matchq = front ++ (c ∷ cs) })
  after_match go front cs (Code.deliver, c) q =
      go front (record q { deliverq = q.deliverq ++ (c ∷ []) })
  after_match go front cs (Code.done, c) q =
      dequeue c q >>= after_dequeue (go front) (front ++ (c ∷ cs))
  after_match go front cs (Code.blocked, c) q =
      go (front ++ (c ∷ [])) (record q { blocked = up q.blocked })
  after_match go front cs (Code.continue, c) q = go (front ++ (c ∷ [])) q
  after_match go front cs (Code.match, c) q = go (front ++ (c ∷ [])) q

  -- The loop of `fetch_match`.
  unfoldable pub match_from :
      Option Msg → List (Ctx h) → List (Ctx h) → Queues h f conf → Outcome (Bool × Queues h f conf)
  match_from msg front [] q = ok (true, record q { matchq = front })
  match_from msg front (c ∷ cs) q = mail_match h msg c >>= λ p.
      after_match (λ front' q'. match_from msg front' cs q') front cs p q

  unfoldable pub fetch_match : Option Msg → Queues h f conf → Outcome (Bool × Queues h f conf)
  fetch_match msg q = match_from msg [] q.matchq q

  -- The switch over the result of `mail_deliver`.
  unfoldable pub after_deliver :
      (List (Ctx h) → Queues h f conf → Outcome (Bool × Queues h f conf))
      → List (Ctx h)
      → List (Ctx h)
      → Code × Ctx h
      → Queues h f conf
      → Outcome (Bool × Queues h f conf)
  after_deliver go front cs (Code.error, c) q =
      ok (false, record q { deliverq = front ++ (c ∷ cs) })
  after_deliver go front cs (Code.match, c) q =
      go front (record q { matchq = q.matchq ++ (c ∷ []) })
  after_deliver go front cs (Code.blocked, c) q =
      go (front ++ (c ∷ [])) (record q { blocked = up q.blocked })
  after_deliver go front cs (Code.continue, c) q = go (front ++ (c ∷ [])) q
  after_deliver go front cs (Code.deliver, c) q = go (front ++ (c ∷ [])) q
  after_deliver go front cs (Code.done, c) q = go (front ++ (c ∷ [])) q

  -- The loop of `fetch_deliver`.
  unfoldable pub deliver_from :
      Option Msg → List (Ctx h) → List (Ctx h) → Queues h f conf → Outcome (Bool × Queues h f conf)
  deliver_from msg front [] q = ok (true, record q { deliverq = front })
  deliver_from msg front (c ∷ cs) q = mail_deliver h msg c >>= λ p.
      after_deliver (λ front' q'. deliver_from msg front' cs q') front cs p q

  unfoldable pub fetch_deliver : Option Msg → Queues h f conf → Outcome (Bool × Queues h f conf)
  fetch_deliver msg q = deliver_from msg [] q.deliverq q
