-- ===== src/Rules/Fit/Match.antt =====
-- mail-state.c: `mail_match` on a context of its queue.
use fdm.Outcome.{Returns}
use fdm.Rules.Fit.{
  MsgFit, answer_cases, IsWhole, IsRule, MatchFit, Matched, Ready, next_expritem-Matched,
  settle_item-Matched, resume_item-Matched,
}
use fdm.Rules.Matching.{check_item, end_of_rules, at_rule, resume_match, mail_match}
use fdm.Rules.{
  ExprItem, Rules, nil, cons, decision_none, decision_drop, decision_keep, Decision, Hooks, Msg,
  Ctx, is_decided,
}
use mathlib.Core.Path.{subst}
use fdm.Prelude.{
  ◌≡◌, refl, sym, ◌∙◌, ◌≢◌, ◌⊎◌, inl, inr, true, false, Option, none, some, List, [], ◌∷◌, arith,
  ◌==◌, Bool-cases, list_cases,
}

decision_cases : (d : Decision) → (d ≡ decision_none) ⊎ ((d ≡ decision_drop) ⊎ (d ≡ decision_keep))
decision_cases decision_none = inl refl
decision_cases decision_drop = inr (inl refl)
decision_cases decision_keep = inr (inr refl)

module _ (h : Hooks) (numbered : (m : h.Mail) → h.index m ≢ 0) where
  check_item-Matched :
      (es : List (ExprItem h.Match)) (c : Ctx h)
      → c.expritem ≡ es
      → es ≢ []
      → Ready h c
      → Returns (Matched h) (check_item h es c)
  unfolding check_item
  check_item-Matched [] c e n y = absurd (n refl)
  check_item-Matched (ei ∷ es) c e n y = elim (Bool-cases (is_decided ei.op c.result)) [
    | inl skipped ↦ rw (check_item, skipped) (next_expritem-Matched h (ei ∷ es) c n y)
    | inr looked ↦
        let m = (h.check ei.match c.matched c.mail).1 in
        let y' : Ready h (record c { mail = m }) = record {
          rules = y.rules;
          stack = y.stack;
          at_rule = y.at_rule;
          free = y.free;
        } in
        elim (answer_cases (h.check ei.match c.matched c.mail).0) [
          | inl fails ↦
              rw (check_item, looked, fails) (settle_item-Matched h (ei ∷ es) false _ n y')
          | inr (inl holds) ↦
              rw (check_item, looked, holds) (settle_item-Matched h (ei ∷ es) true _ n y')
          | inr (inr (inl bad)) ↦ rw (check_item, looked, bad) tt
          | inr (inr (inr asks)) ↦
              rw (check_item, looked, asks)
                (
                  record {
                    rules = y.rules;
                    stack = y.stack;
                    started = λ x. y.at_rule;
                    waiting = λ x z. n (sym e ∙ z);
                  },
                  numbered m,
                )
        ]
  ]

  at_rule-Matched :
      (rules : Rules h.Match) (c : Ctx h)
      → c.rule ≡ rules
      → MatchFit h c
      → c.msgid ≡ 0
      → Returns (Matched h) (at_rule h rules c)
  unfolding at_rule end_of_rules
  at_rule-Matched nil c e v z = elim (decision_cases h.impl_act) [
    | inl d ↦ rw (at_rule, end_of_rules, d) tt
    | inr (inl d) ↦ rw (at_rule, end_of_rules, d) tt
    | inr (inr d) ↦ rw (at_rule, end_of_rules, d) tt
  ]
  at_rule-Matched (cons r nested next) c e v z =
      let w : IsWhole (cons r nested next) = subst IsWhole e v.rules in
      let here : IsRule c.rule = subst IsRule (sym e) tt in
      elim (list_cases c.expritem) [
        | inl fresh ↦
            rw (at_rule, fresh)
              (check_item-Matched r.expr (record c { result = false; expritem = r.expr }) refl w.0
                (record { rules = v.rules; stack = v.stack; at_rule = here; free = z }))
        | inr (ei, es, going) ↦
            rw (at_rule, going)
              (check_item-Matched (ei ∷ es) c going (λ x. ground arith)
                (record { rules = v.rules; stack = v.stack; at_rule = here; free = z }))
      ]

  resume_match-Matched :
      (msg : Option Msg) (c : Ctx h)
      → MsgFit msg
      → MatchFit h c
      → c.msgid ≢ 0
      → Returns (Matched h) (resume_match h msg c)
  unfolding resume_match
  resume_match-Matched none c fit v n = (v, n)
  resume_match-Matched (some g) c fit v n = elim (Bool-cases (g.id == c.msgid)) [
    | inr other ↦ rw (resume_match, other) (v, n)
    | inl ours ↦
        rw (resume_match, ours, fit.0)
          (resume_item-Matched h (record g { is_done = true }) _ (refl, fit.1) (v.waiting n)
            (record {
              rules = v.rules;
              stack = v.stack;
              at_rule = v.started (v.waiting n);
              free = refl;
            }))
  ]

  -- `mail_match` returns on every context of the match queue, whatever the matches answer, and leaves
  -- one: a mail that is blocked waits for a message, and a mail that is to be delivered belongs in
  -- the deliver queue. The rules have expressions that are not empty, mails have numbers, and the
  -- message of the parent, if there is one, is a done message with a match result.
  pub mail_match-Matched :
      (msg : Option Msg) (c : Ctx h)
      → MsgFit msg
      → MatchFit h c
      → Returns (Matched h) (mail_match h msg c)
  unfolding mail_match
  mail_match-Matched msg c fit v =
      let c' : Ctx h = record c { mail = h.unwrap c.mail } in
      let v' : MatchFit h c' = record {
        rules = v.rules;
        stack = v.stack;
        started = v.started;
        waiting = v.waiting;
      } in
      elim (Bool-cases (c.msgid == 0)) [
        | inr waits ↦
            rw (mail_match, waits)
              (resume_match-Matched msg c' fit v' (λ z. ground (arith, waits, z)))
        | inl free ↦ elim (Bool-cases c.done) [
          | inl over ↦ rw (mail_match, free, over) tt
          | inr more ↦
              rw (mail_match, free, more)
                (at_rule-Matched c.rule (record c' { done = false }) refl
                  (record {
                    rules = v.rules;
                    stack = v.stack;
                    started = v.started;
                    waiting = v.waiting;
                  })
                  (ground (arith, free)))
        ]
      ]
