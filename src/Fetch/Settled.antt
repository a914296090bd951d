-- ===== src/Fetch/Settled.antt =====
-- child-fetch.c: the queues between two calls. No mail is lost or counted twice, every mail is in
-- the queue that it belongs in, and the mails that wait for the parent are known.
pub mod Match
pub mod Deliver
pub mod Enqueue
pub mod Round
pub mod Account
pub mod Reach
pub mod Log
pub mod Commits
pub mod Totals
use fdm.Fetch.Walk.{dequeue, match_from, fetch_match, deliver_from, fetch_deliver}
use fdm.Fetch.{FetchHooks, Conf, Queues, count_decision, commit_mail}
use fdm.Outcome.{Outcome, ok, fatal, ◌>>=◌, Ends, Ends->>=, Ends-mono}
use fdm.Pop3.{up, down}
use fdm.Rules.Fit.{MsgFit, MatchFit, DeliverFit, Matched}
use fdm.Rules.Fit.Match.{mail_match-Matched}
use fdm.Rules.Fit.Deliver.{Delivered, mail_deliver-Delivered}
use fdm.Rules.Matching.{mail_match}
use fdm.Rules.Deliver.{mail_deliver}
use fdm.Rules.{Code, Hooks, Msg, Ctx, Decision, decision_none, decision_drop, decision_keep}
use fdm.Prelude.{
  ℕ, zero, suc, ◌+◌, ◌-◌, ◌*◌, ◌/◌, ◌%◌, ◌^◌, ◌≤◌, ◌<◌, ◌≡◌, refl, sym, ap, ◌∙◌, ◌≢◌, ◌↔◌, ◌⊎◌, inl,
  inr, Bool, true, false, not, ◌&&◌, ◌||◌, Option, none, some, List, [], ◌∷◌, ◌++◌, map, append-nil,
  append_assoc, arith, ltb, leb, ◌==◌, if◌then◌else◌, ==_iff, Bool-cases, Option-cases, length,
  get_elem?, take, drop, length-append, length-take, length-drop, take-append-drop,
  take-append_exact, drop-append_exact, take-all, take-append_le, drop-append_le, drop-drop,
  drop-take, take-add, take-take_le, length-take_le, list_cases, All, All-append, get_elem-All,
  Bytes, codes, size_mod, size_max, sub_size, add_size, u32_mod, memchr, to_lower, is_space,
  is_blank, is_digit, bytes_eq, starts_with_case, starts_with, eq_self, bytes_eq_refl,
}

module _ (h : Hooks) where
  -- How many mails of a list wait for the parent.
  abbrev pub waits : List (Ctx h) → ℕ
  waits [] = 0
  waits (c ∷ cs) = (if c.msgid == 0 then 0 else 1) + waits cs

  pub waits-append : (cs ds : List (Ctx h)) → waits (cs ++ ds) ≡ waits cs + waits ds
  waits-append [] ds = omega arith
  waits-append (c ∷ cs) ds = omega (arith, waits-append cs ds)

  pub waits-one : (c : Ctx h) → c.msgid ≢ 0 → waits (c ∷ []) ≡ 1
  waits-one c n = ground (arith, n)

  pub waits-le : (cs : List (Ctx h)) → waits cs ≤ length cs
  waits-le [] = omega arith
  waits-le (c ∷ cs) = ground (arith, waits-le cs)

  pub waits-All : (cs : List (Ctx h)) → length cs ≤ waits cs → All (λ c. c.msgid ≢ 0) cs
  waits-All [] le = tt
  waits-All (c ∷ cs) le = elim (Bool-cases (c.msgid == 0)) [
    | inl free ↦ absurd (let l = waits-le cs in ground (arith, l, le, free))
    | inr waiting ↦ (λ z. ground (arith, waiting, z), waits-All cs (ground (arith, le, waiting)))
  ]

module _ (h : Hooks) (f : FetchHooks h) (conf : Conf) where
  -- The mails of the two queues and the counters. `idx` numbers the mails as they are queued, so it
  -- counts them; there are no more than the upper limit of the queue.
  pub record Settled (front rest : List (Ctx h)) (q : Queues h f conf) : Type 0 where
    pub match_fit : All (MatchFit h) front
    pub deliver_fit : All (DeliverFit h) rest
    pub counted : q.idx ≡ (q.dropped + q.kept + (length front + length rest)) % u32_mod
    pub queued : q.queued ≡ (length front + length rest) % u32_mod
    pub bounded : length front + length rest ≤ conf.queue_high

  -- No valid decision was made for a mail: then the process stops.
  abbrev pub Undecided : Type 0
  Undecided = (m : h.Mail) × (h.decision m ≡ decision_none)

  -- One mail less of `n`, where the commit went well.
  abbrev pub Dequeued : Queues h f conf → Bool × Queues h f conf → Type 0
  Dequeued q (false, r) = Unit
  Dequeued q (true, r) =
      (r.matchq ≡ q.matchq)
      × (r.deliverq ≡ q.deliverq)
      × (r.blocked ≡ q.blocked)
      × (r.idx ≡ q.idx)
      × ((r.dropped + r.kept) % u32_mod ≡ (q.dropped + q.kept + 1) % u32_mod)
      × (r.queued ≡ down q.queued)

  commit_mail-Dequeued :
      (m : h.Mail) (q r : Queues h f conf)
      → r.matchq ≡ q.matchq
      → r.deliverq ≡ q.deliverq
      → r.blocked ≡ q.blocked
      → r.idx ≡ q.idx
      → r.queued ≡ q.queued
      → (r.dropped + r.kept) % u32_mod ≡ (q.dropped + q.kept + 1) % u32_mod
      → Dequeued q (commit_mail h f conf m r)
  unfolding commit_mail
  commit_mail-Dequeued m q r a b c d e g = elim (Bool-cases (f.commit m r.source).0) [
    | inl good ↦ rw (commit_mail, good) (a, b, c, d, g, ap down e)
    | inr bad ↦ rw (commit_mail, bad) tt
  ]

  counted-Dequeued :
      (m : h.Mail) (d : Decision) (q : Queues h f conf)
      → h.decision m ≡ d
      → Ends Undecided
          (Dequeued q)
          (count_decision h f conf d q >>= λ r. ok (commit_mail h f conf m r))
  unfolding count_decision
  counted-Dequeued m decision_drop q e =
      commit_mail-Dequeued m q (record q { dropped = up q.dropped }) refl refl refl refl refl
        (omega arith)
  counted-Dequeued m decision_keep q e =
      commit_mail-Dequeued m q (record q { kept = up q.kept }) refl refl refl refl refl
        (omega arith)
  counted-Dequeued m decision_none q e = (m, e)

  pub dequeue-Dequeued :
      (c : Ctx h) (q : Queues h f conf) → Ends Undecided (Dequeued q) (dequeue h f conf c q)
  unfolding dequeue
  dequeue-Dequeued c q =
      let m = if conf.keep_all || conf.keep then h.set_decision decision_keep c.mail else c.mail in
      counted-Dequeued m (h.decision m) q refl

  -- After a walk that went well: the queues are settled, and no more than the mails that wait were
  -- counted as blocked.
  abbrev pub Walked : Bool × Queues h f conf → Type 0
  Walked (false, q) = Unit
  Walked (true, q) =
      Settled q.matchq q.deliverq q × (q.blocked ≤ waits h q.matchq + waits h q.deliverq)
