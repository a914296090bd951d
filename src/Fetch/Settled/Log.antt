-- ===== src/Fetch/Settled/Log.antt =====
-- child-fetch.c: a fetch type that keeps a log of its commits, and what the walks over the queues do
-- to it.
use fdm.Fetch.Walk.{dequeue}
use fdm.Fetch.{FetchHooks, Conf, Queues, count_decision, commit_mail}
use fdm.Outcome.{Outcome, ok, fatal, fault, diverge, ◌>>=◌}
use fdm.Rules.{Hooks, Ctx, Decision, decision_none, decision_drop, decision_keep}
use fdm.Prelude.{
  ℕ, suc, ◌+◌, ◌%◌, ◌≡◌, refl, ap, ◌∙◌, ◌⊎◌, inl, inr, Bool, true, false, ◌||◌, List, [], ◌∷◌,
  arith, if◌then◌else◌, Bool-cases, length, u32_mod,
}

-- What a call returns, if it returns, satisfies `P`.
abbrev pub IfReturns : {A : Type 0} → (A → Type 0) → Outcome A → Type 0
IfReturns P (ok a) = P a
IfReturns P _ = Unit

pub IfReturns->>= :
    {A B : Type 0} (P : A → Type 0) (Q : B → Type 0) (m : Outcome A) (f : A → Outcome B)
    → IfReturns P m
    → ((a : A) → P a → IfReturns Q (f a))
    → IfReturns Q (m >>= f)
IfReturns->>= P Q (ok a) f h k = k a h
IfReturns->>= P Q fatal f h k = tt
IfReturns->>= P Q fault f h k = tt
IfReturns->>= P Q diverge f h k = tt

pub IfReturns-after :
    {A B : Type 0} (Q : B → Type 0) (m : Outcome A) (f : A → Outcome B)
    → ((a : A) → IfReturns Q (f a))
    → IfReturns Q (m >>= f)
IfReturns-after Q (ok a) f k = k a
IfReturns-after Q fatal f k = tt
IfReturns-after Q fault f k = tt
IfReturns-after Q diverge f k = tt

module _ (h : Hooks) where
  -- The data of a fetch type with the mails that were committed, and how many mails of the fetch
  -- function were taken.
  pub record Logged (S : Type 0) : Type 0 where
    pub source : S
    pub log : List h.Mail
    pub taken : ℕ

  abbrev drop_count : Decision → ℕ
  drop_count decision_drop = 1
  drop_count _ = 0

  abbrev keep_count : Decision → ℕ
  keep_count decision_keep = 1
  keep_count _ = 0

  -- How many mails of a log were committed to be dropped, and to be kept.
  unfoldable pub drops : List h.Mail → ℕ
  drops [] = 0
  drops (m ∷ ms) = drop_count (h.decision m) + drops ms

  unfoldable pub keeps : List h.Mail → ℕ
  keeps [] = 0
  keeps (m ∷ ms) = keep_count (h.decision m) + keeps ms

  pub drops-step :
      (m : h.Mail) (ms : List h.Mail) (d : Decision)
      → h.decision m ≡ d
      → drops (m ∷ ms) ≡ drop_count d + drops ms
  unfolding drops
  drops-step m ms d e = ap (λ x. drop_count x + drops ms) e

  pub keeps-step :
      (m : h.Mail) (ms : List h.Mail) (d : Decision)
      → h.decision m ≡ d
      → keeps (m ∷ ms) ≡ keep_count d + keeps ms
  unfolding keeps
  keeps-step m ms d e = ap (λ x. keep_count x + keeps ms) e

  -- The fetch type `f` with a log.
  abbrev pub logged : FetchHooks h → FetchHooks h
  logged f = record {
    Source = Logged f.Source;
    state = λ flags l.
        f.state flags l.source >>= λ (code, flags', s). ok (code, flags', record l { source = s });
    mail = λ l. f.mail l.source;
    fresh_mail = λ l. record l { source = f.fresh_mail l.source; taken = suc l.taken };
    commit = λ m l.
        let (good, s) = f.commit m l.source in
        (good, record l { source = s; log = if good then m ∷ l.log else l.log });
    sockets = λ l. f.sockets l.source;
    text = f.text;
    with_text = f.with_text;
    attributes = f.attributes;
    received = f.received;
    grants = f.grants;
    rules = f.rules;
  }

  module _ (f : FetchHooks h) (conf : Conf) where
    -- With `rest` mails in the queues: every other mail that was taken was committed, with the
    -- decision that is counted, or was too big, which is counted nowhere.
    pub record Tally (log : List h.Mail) (taken dropped kept rest : ℕ) : Type 0 where
      pub queued_drops : ℕ
      pub big : ℕ
      pub none_big : (big ≡ 0) ⊎ (conf.del_big ≡ true)
      pub to_drop : drops log ≡ queued_drops + big
      pub dropped_counted : dropped ≡ queued_drops % u32_mod
      pub kept_counted : kept ≡ keeps log % u32_mod
      pub decided : length log ≡ drops log + keeps log
      pub committed : taken ≡ length log + rest

    abbrev pub LogQueues : Type 0
    LogQueues = Queues h (logged f) conf

    abbrev pub TallyOf : LogQueues → ℕ → Type 0
    TallyOf q n = Tally q.source.log q.source.taken q.dropped q.kept n

    pub Tally-length :
        (log : List h.Mail) (taken dropped kept n k : ℕ)
        → n ≡ k
        → Tally log taken dropped kept n
        → Tally log taken dropped kept k
    Tally-length log taken dropped kept n k e t = record {
      queued_drops = t.queued_drops;
      big = t.big;
      none_big = t.none_big;
      to_drop = t.to_drop;
      dropped_counted = t.dropped_counted;
      kept_counted = t.kept_counted;
      decided = t.decided;
      committed = t.committed ∙ ap (λ x. length log + x) e;
    }

    -- A mail was committed, and left its queue.
    abbrev pub Left : LogQueues → ℕ → Bool × LogQueues → Type 0
    Left q n (false, r) = Unit
    Left q n (true, r) = TallyOf r n × (r.matchq ≡ q.matchq) × (r.deliverq ≡ q.deliverq)

    counted-Left :
        (m : h.Mail) (d : Decision) (q : LogQueues) (n : ℕ)
        → h.decision m ≡ d
        → TallyOf q (suc n)
        → IfReturns
            (Left q n)
            (count_decision h (logged f) conf d q >>= λ r. ok (commit_mail h (logged f) conf m r))
    unfolding count_decision commit_mail
    counted-Left m decision_none q n e t = tt
    counted-Left m decision_drop q n e t = elim (Bool-cases (f.commit m q.source.source).0) [
      | inr bad ↦ rw (commit_mail, bad) tt
      | inl good ↦
          let a = drops-step m q.source.log decision_drop e in
          let b = keeps-step m q.source.log decision_drop e in
          rw (commit_mail, good)
            (
              record {
                queued_drops = suc t.queued_drops;
                big = t.big;
                none_big = t.none_big;
                to_drop = omega (arith, a, t.to_drop);
                dropped_counted = omega (arith, t.dropped_counted);
                kept_counted = omega (arith, b, t.kept_counted);
                decided = omega (arith, a, b, t.decided);
                committed = omega (arith, t.committed);
              },
              refl,
              refl,
            )
    ]
    counted-Left m decision_keep q n e t = elim (Bool-cases (f.commit m q.source.source).0) [
      | inr bad ↦ rw (commit_mail, bad) tt
      | inl good ↦
          let a = drops-step m q.source.log decision_keep e in
          let b = keeps-step m q.source.log decision_keep e in
          rw (commit_mail, good)
            (
              record {
                queued_drops = t.queued_drops;
                big = t.big;
                none_big = t.none_big;
                to_drop = omega (arith, a, t.to_drop);
                dropped_counted = t.dropped_counted;
                kept_counted = omega (arith, b, t.kept_counted);
                decided = omega (arith, a, b, t.decided);
                committed = omega (arith, t.committed);
              },
              refl,
              refl,
            )
    ]

    pub dequeue-Left :
        (c : Ctx h) (q : LogQueues) (n : ℕ)
        → TallyOf q (suc n)
        → IfReturns (Left q n) (dequeue h (logged f) conf c q)
    unfolding dequeue
    dequeue-Left c q n t =
        let m =
          if conf.keep_all || conf.keep then h.set_decision decision_keep c.mail else c.mail in
        counted-Left m (h.decision m) q n refl t
