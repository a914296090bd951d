-- ===== src/Fetch/Loop.antt =====
-- child-fetch.c: one round of the loop of `fetch_account`.
use fdm.Fetch.Enqueue.{enqueue}
use fdm.Fetch.Walk.{fetch_match, fetch_deliver}
use fdm.Fetch.{Flags, FetchHooks, Conf, Queues, fetch_purge}
use fdm.Outcome.{Outcome, ok, ◌>>=◌}
use fdm.Pop3.{FetchCode}
use fdm.Rules.{Hooks, Msg}
use fdm.Prelude.{ℕ, Bool, true, false, not, ◌&&◌, ◌||◌, Option, [], leb, ◌==◌, if◌then◌else◌}

-- How a round ends: the loop starts again, it polls first, and may block there or not, it is
-- finished, or it is aborted.
pub data Turn : Type 0 where
  repeats finishes aborts : Turn
  polls : Bool → Turn

module _ (h : Hooks) (f : FetchHooks h) (conf : Conf) where
  pub record Loop : Type 0 where
    pub queues : Queues h f conf
    pub flags : Flags
    pub complete : Bool
    pub holding : Bool

  -- Whether fetching waits until mails were handled.
  unfoldable pub update_holding : ℕ → Bool → Bool
  update_holding queued holding =
      if leb conf.queue_high queued
      then true
      else if leb queued conf.queue_low
      then false
      else holding

  -- The timeout is not 0: the poll may block.
  unfoldable pub may_block : Queues h f conf → Bool
  may_block q = not (
      (q.queued == 0 && f.sockets q.source == 0)
      || (not (q.queued == 0) && not (q.blocked == q.queued)))

  -- The end of a round.
  unfoldable pub end_round : Loop → Outcome (Turn × Loop)
  end_round l =
      if l.complete && l.queues.queued == 0
      then ok (finishes, l)
      else ok (polls (may_block l.queues), l)

  -- FETCH_MAIL.
  unfoldable pub take_mail : Loop → Outcome (Turn × Loop)
  take_mail l = enqueue h f conf (f.mail l.queues.source) l.queues >>= λ (good, q).
      (if good
        then ok (repeats, record l { queues = record q { source = f.fresh_mail q.source } })
        else ok (aborts, record l { queues = q }))

  -- The switch over the result of the fetch function.
  unfoldable pub fetched : FetchCode → Loop → Outcome (Turn × Loop)
  fetched FetchCode.error l = ok (aborts, l)
  fetched FetchCode.exit l = end_round (record l { complete = true })
  fetched FetchCode.again l = ok (repeats, l)
  fetched FetchCode.block l = end_round l
  fetched FetchCode.mail l = take_mail l

  -- The fetch function is called, with the empty flag up to date.
  unfoldable pub call_state : Loop → Outcome (Turn × Loop)
  call_state l =
      f.state (record l.flags { is_empty = l.queues.queued == 0 }) l.queues.source
      >>= λ (code, flags, s).
          fetched code (record l { queues = record l.queues { source = s }; flags = flags })

  -- A round behind the walks over the queues.
  unfoldable pub fetch_more : Loop → Outcome (Turn × Loop)
  fetch_more l =
      let (purge, q) = fetch_purge h f conf l.queues in
      let holding = update_holding q.queued l.holding in
      let l' : Loop = record l {
        queues = q;
        flags = if purge then record l.flags { purge = true } else l.flags;
        holding = holding;
      } in
      if not holding && not l.complete then call_state l' else end_round l'

  -- One round, with the message of the parent that has come, if any.
  unfoldable pub round : Option Msg → Loop → Outcome (Turn × Loop)
  round msg l = fetch_match h f conf msg (record l.queues { blocked = 0 }) >>= λ (good, q).
      (if not good
        then ok (aborts, record l { queues = q })
        else fetch_deliver h f conf msg q >>= λ (good', q').
            (if not good'
              then ok (aborts, record l { queues = q' })
              else fetch_more (record l { queues = q' })))

  -- The state before the loop; the account's mails are numbered from 1.
  unfoldable pub start : Bool → f.Source → Loop
  start poll s = record {
    queues = record {
      matchq = [];
      deliverq = [];
      dropped = 0;
      kept = 0;
      queued = 0;
      blocked = 0;
      idx = 0;
      last_total = 0;
      last_dropped = 0;
      source = s;
    };
    flags = record { purge = false; is_empty = false; poll = poll };
    complete = false;
    holding = false;
  }
