-- ===== src/Fetch/Settled/Totals.antt =====
-- child-fetch.c: when the loop of `fetch_account` finishes, every mail that was taken is accounted
-- for by what was committed.
use fdm.Fetch.Loop.{Turn, repeats, finishes, aborts, polls, Loop}
use fdm.Fetch.Settled.Commits.{Whole}
use fdm.Fetch.Settled.Enqueue.{IsFresh}
use fdm.Fetch.Settled.Log.{Logged, logged}
use fdm.Fetch.Settled.Round.{Works}
use fdm.Fetch.{FetchHooks, Conf}
use fdm.Outcome.{Ends->>=}
use fdm.Pop3.{FetchCode}
use fdm.Rules.{Hooks, decision_drop}
use fdm.Prelude.{◌≡◌, []}

module _ (h : Hooks) (f : FetchHooks h) (conf : Conf) where
  abbrev pub LogLoop : Type 0
  LogLoop = Loop h (logged h f) conf

  abbrev pub RoundTallied : Turn × LogLoop → Type 0
  RoundTallied (aborts, l) = Unit
  RoundTallied (repeats, l) = Whole h f conf l.queues
  RoundTallied (finishes, l) = Whole h f conf l.queues
  RoundTallied (polls blocks, l) = Whole h f conf l.queues

  module _ (law : (m : h.Mail) → h.decision (h.set_decision decision_drop m) ≡ decision_drop) where
    abbrev unlogged : f.Source → Logged h f.Source
    unlogged s = record { source = s; log = []; taken = 0 }

  -- A log does not change what the fetch type is trusted with.
  pub logged-Works : Works h f conf → Works h (logged h f) conf
  logged-Works w = record {
    numbered = w.numbered;
    whole = w.whole;
    provided = record { short = w.provided.short; granted = w.provided.granted };
    limit = w.limit;
    states = λ flags l.
        Ends->>= ⊥ (λ p. p.0 ≡ FetchCode.mail → IsFresh (f.text (f.mail p.2))) _
          (f.state flags l.source) _ (w.states flags l.source) (λ p x. x);
  }
