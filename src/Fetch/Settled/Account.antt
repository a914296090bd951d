-- ===== src/Fetch/Settled/Account.antt =====
-- child-fetch.c: the loop of `fetch_account`, from its start.
use fdm.Fetch.Loop.{aborts, Loop, update_holding, fetched, call_state, fetch_more, round, start}
use fdm.Fetch.Settled.Deliver.{fetch_deliver-Walked}
use fdm.Fetch.Settled.Enqueue.{IsFresh}
use fdm.Fetch.Settled.Match.{MatchWalked, fetch_match-Walked}
use fdm.Fetch.Settled.Round.{
  Works, Kept, AfterRound, end_round-AfterRound, take_mail-AfterRound, moved,
}
use fdm.Fetch.Settled.{waits, Undecided, Walked}
use fdm.Fetch.Walk.{fetch_match, fetch_deliver}
use fdm.Fetch.{Flags, FetchHooks, Conf, Queues, fetch_purge}
use fdm.Outcome.{ok, ◌>>=◌, Ends, Returns, Ends->>=, Ends-mono}
use fdm.Pop3.{FetchCode}
use fdm.Rules.Fit.{MsgFit}
use fdm.Rules.{Hooks, Msg}
use mathlib.Core.Path.{subst}
use fdm.Prelude.{
  ℕ, ◌+◌, ◌%◌, ◌≤◌, ◌<◌, ◌≡◌, refl, sym, inl, inr, Bool, true, false, not, ◌&&◌, ◌||◌, Option,
  arith, ◌==◌, if◌then◌else◌, Bool-cases, u32_mod,
}

module _ (h : Hooks) (f : FetchHooks h) (conf : Conf) where
  fetched-AfterRound :
      (w : Works h f conf) (code : FetchCode) (l : Loop h f conf)
      → Kept h f conf l.queues
      → l.queues.blocked ≤ waits h l.queues.matchq + waits h l.queues.deliverq
      → l.queues.queued < conf.queue_high
      → (code ≡ FetchCode.mail → IsFresh (f.text (f.mail l.queues.source)))
      → Returns (AfterRound h f conf) (fetched h f conf code l)
  unfolding fetched
  fetched-AfterRound w FetchCode.error l s le less fresh = tt
  fetched-AfterRound w FetchCode.exit l s le less fresh =
      end_round-AfterRound h f conf w (record l { complete = true }) s le
  fetched-AfterRound w FetchCode.again l s le less fresh = s
  fetched-AfterRound w FetchCode.block l s le less fresh = end_round-AfterRound h f conf w l s le
  fetched-AfterRound w FetchCode.mail l s le less fresh =
      take_mail-AfterRound h f conf w l s less (fresh refl)

  call_state-AfterRound :
      (w : Works h f conf) (l : Loop h f conf)
      → Kept h f conf l.queues
      → l.queues.blocked ≤ waits h l.queues.matchq + waits h l.queues.deliverq
      → l.queues.queued < conf.queue_high
      → Returns (AfterRound h f conf) (call_state h f conf l)
  unfolding call_state
  call_state-AfterRound w l s le less =
      let flags : Flags = record l.flags { is_empty = l.queues.queued == 0 } in
      Ends->>= ⊥ (λ p. p.0 ≡ FetchCode.mail → IsFresh (f.text (f.mail p.2))) (AfterRound h f conf)
        (f.state flags l.queues.source) _ (w.states flags l.queues.source)
        (λ (code, flags', t) fresh.
          fetched-AfterRound w code
            (record l { queues = record l.queues { source = t }; flags = flags' })
            (moved h f conf l.queues t s) le less fresh)

  -- `fetch_purge` changes only its own counters.
  pub purge_cases :
      (q : Queues h f conf)
      → (n : ℕ) × (m : ℕ) × ((fetch_purge h f conf q).1
          ≡ record q { last_total = n; last_dropped = m })
  unfolding fetch_purge
  purge_cases q =
      let n = (q.dropped + q.kept) % u32_mod in
      elim (Bool-cases (conf.purge_after == 0)) [
        | inl never ↦ (q.last_total, q.last_dropped, rw never refl)
        | inr sometimes ↦ elim (Bool-cases (n == q.last_total || not (n % conf.purge_after == 0))) [
          | inl later ↦ (q.last_total, q.last_dropped, rw (sometimes, later) refl)
          | inr now ↦ elim (Bool-cases (q.last_dropped == q.dropped)) [
            | inl none_dropped ↦ (n, q.last_dropped, rw (sometimes, now, none_dropped) refl)
            | inr some_dropped ↦ (n, q.dropped, rw (sometimes, now, some_dropped) refl)
          ]
        ]
      ]

  -- What is known of the queues behind the walks.
  abbrev Ready : Queues h f conf → Type 0
  Ready q = Kept h f conf q × (q.blocked ≤ waits h q.matchq + waits h q.deliverq)

  purge-Ready : (q : Queues h f conf) → Ready q → Ready (fetch_purge h f conf q).1
  purge-Ready q (s, le) =
      let (n, m, e) = purge_cases q in
      subst Ready (sym e) (
        record {
          match_fit = s.match_fit;
          deliver_fit = s.deliver_fit;
          counted = s.counted;
          queued = s.queued;
          bounded = s.bounded;
        },
        le,
      )

  not_holding :
      (queued : ℕ) (holding : Bool)
      → update_holding h f conf queued holding ≡ false
      → queued < conf.queue_high
  unfolding update_holding
  not_holding queued holding e = ground (arith, e)

  fetch_more-AfterRound :
      (w : Works h f conf) (l : Loop h f conf)
      → Ready l.queues
      → Returns (AfterRound h f conf) (fetch_more h f conf l)
  unfolding fetch_more
  fetch_more-AfterRound w l r =
      let q = (fetch_purge h f conf l.queues).1 in
      let (s, le) = purge-Ready l.queues r in
      elim (Bool-cases (not (update_holding h f conf q.queued l.holding) && not l.complete)) [
        | inl call ↦
            rw (fetch_more, call)
              (call_state-AfterRound w _ s le
                (not_holding q.queued l.holding (ground (arith, call))))
        | inr wait ↦ rw (fetch_more, wait) (end_round-AfterRound h f conf w _ s le)
      ]

  -- A round of the loop on settled queues, with a fit message of the parent or none, returns, unless
  -- a mail has no decision, and does what it says (AfterRound): if it is not aborted, the queues are
  -- settled, it ends the loop only with empty queues, and it blocks in the poll only where every
  -- mail that is queued waits for the parent. The fetch function returns and hands over fresh mails,
  -- mails have numbers, rules have expressions, and memory is given (Works).
  pub round-AfterRound :
      (w : Works h f conf) (msg : Option Msg) (l : Loop h f conf)
      → MsgFit msg
      → Kept h f conf l.queues
      → Ends (Undecided h f conf) (AfterRound h f conf) (round h f conf msg l)
  unfolding round
  round-AfterRound w msg l fit s =
      Ends->>= (Undecided h f conf) (MatchWalked h w.numbered f conf msg fit) (AfterRound h f conf)
        (fetch_match h f conf msg (record l.queues { blocked = 0 })) _
        (fetch_match-Walked h w.numbered f conf msg fit l.queues s) by_match
    where
      by_deliver :
          (p : Bool × Queues h f conf)
          → Walked h f conf p
          → Ends (Undecided h f conf) (AfterRound h f conf) (
              if not p.0
              then ok (aborts, record l { queues = p.1 })
              else fetch_more h f conf (record l { queues = p.1 }))
      by_deliver (false, q) e = tt
      by_deliver (true, q) e =
          Ends-mono ⊥ (Undecided h f conf) (AfterRound h f conf) (AfterRound h f conf)
            (fetch_more h f conf (record l { queues = q }))
            (fetch_more-AfterRound w (record l { queues = q }) e) absurd (λ _ k. k)

      by_match :
          (p : Bool × Queues h f conf)
          → MatchWalked h w.numbered f conf msg fit p
          → Ends (Undecided h f conf) (AfterRound h f conf) (
              if not p.0
              then ok (aborts, record l { queues = p.1 })
              else fetch_deliver h f conf msg p.1 >>= λ x.
                  (if not x.0
                    then ok (aborts, record l { queues = x.1 })
                    else fetch_more h f conf (record l { queues = x.1 })))
      by_match (false, q) e = tt
      by_match (true, q) (s', le) =
          Ends->>= (Undecided h f conf) (Walked h f conf) (AfterRound h f conf)
            (fetch_deliver h f conf msg q) _
            (Ends-mono ⊥ (Undecided h f conf) (Walked h f conf) (Walked h f conf)
              (fetch_deliver h f conf msg q) (fetch_deliver-Walked h w.numbered f conf msg q s' le)
              absurd (λ _ k. k))
            by_deliver

  -- The loop starts with settled queues.
  pub start-Kept : (poll : Bool) (s : f.Source) → Kept h f conf (start h f conf poll s).queues
  unfolding start
  start-Kept poll s = record {
    match_fit = tt;
    deliver_fit = tt;
    counted = refl;
    queued = refl;
    bounded = omega arith;
  }
