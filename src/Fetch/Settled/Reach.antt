-- ===== src/Fetch/Settled/Reach.antt =====
-- child-fetch.c: the states that the loop of `fetch_account` runs through, as a step relation.
use fdm.Fetch.Loop.{Turn, repeats, finishes, polls, Loop, round, start}
use fdm.Fetch.Settled.Account.{round-AfterRound, start-Kept}
use fdm.Fetch.Settled.Round.{Works, Kept, AfterRound}
use fdm.Fetch.Settled.{Undecided}
use fdm.Fetch.{FetchHooks, Conf}
use fdm.Outcome.{ok, Ends}
use fdm.Rules.Fit.{MsgFit}
use fdm.Rules.{Hooks, Msg}
use mathlib.Core.Path.{subst}
use fdm.Prelude.{◌+◌, ◌%◌, ◌≤◌, ◌≡◌, ap, Bool, Option, arith, length, u32_mod}

module _ (h : Hooks) (f : FetchHooks h) (conf : Conf) where
  -- A state before a round: the loop starts there, or a round that neither aborts nor finishes the
  -- loop led there, with a message of the parent or none.
  pub data Reached (s : f.Source) : Loop h f conf → Type 0 where
    starts : (poll : Bool) → Reached s (start h f conf poll s)
    repeated :
        {l : Loop h f conf} (m : Loop h f conf) (msg : Option Msg)
        → MsgFit msg
        → round h f conf msg l ≡ ok (repeats, m)
        → Reached s l
        → Reached s m
    polled :
        {l : Loop h f conf} (m : Loop h f conf) (msg : Option Msg) (blocks : Bool)
        → MsgFit msg
        → round h f conf msg l ≡ ok (polls blocks, m)
        → Reached s l
        → Reached s m

  after_round :
      (w : Works h f conf) (msg : Option Msg) (l : Loop h f conf) (p : Turn × Loop h f conf)
      → MsgFit msg
      → Kept h f conf l.queues
      → round h f conf msg l ≡ ok p
      → AfterRound h f conf p
  after_round w msg l p fit s e =
      subst (Ends (Undecided h f conf) (AfterRound h f conf)) e
        (round-AfterRound h f conf w msg l fit s)

  -- Before every round the queues are settled.
  pub Reached-Kept :
      {s : f.Source} (w : Works h f conf) {l : Loop h f conf} → Reached s l → Kept h f conf l.queues
  Reached-Kept {s} w (starts poll) = start-Kept h f conf poll s
  Reached-Kept w (repeated {l} m msg fit e r) =
      after_round w msg l (repeats, m) fit (Reached-Kept w r) e
  Reached-Kept w (polled {l} m msg blocks fit e r) =
      (after_round w msg l (polls blocks, m) fit (Reached-Kept w r) e).0

  -- Before every round of the loop, the two queues together hold at most as many mails as the upper
  -- limit of the queue, and the counter of queued mails is their number. The fetch type and the settings are as
  -- Works says.
  pub queued-bounded :
      (w : Works h f conf) (s : f.Source) (l : Loop h f conf)
      → Reached s l
      → (l.queues.queued ≡ length l.queues.matchq + length l.queues.deliverq)
        × (l.queues.queued ≤ conf.queue_high)
  queued-bounded w s l r =
      let k = Reached-Kept w r in
      (omega (arith, k.queued, k.bounded, w.limit), omega (arith, k.queued, k.bounded, w.limit))

  -- When the loop finishes, the counters of dropped and of kept mails add up to the number of the
  -- last mail, as far as the 32 bits of the counters go.
  pub finishes-counted :
      (w : Works h f conf) (msg : Option Msg) (s : f.Source) (l m : Loop h f conf)
      → Reached s l
      → MsgFit msg
      → round h f conf msg l ≡ ok (finishes, m)
      → (m.queues.idx ≡ (m.queues.dropped + m.queues.kept) % u32_mod)
        × (length m.queues.matchq + length m.queues.deliverq ≡ 0)
  finishes-counted w msg s l m r fit e =
      let (k, _, a, b) = after_round w msg l (finishes, m) fit (Reached-Kept w r) e in
      (omega (arith, k.counted, ap length a, ap length b), omega (arith, ap length a, ap length b))
