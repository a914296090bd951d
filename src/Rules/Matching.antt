-- ===== src/Rules/Matching.antt =====
-- mail-state.c: `mail_match`, one step of matching a mail. It looks at one item of an expression,
-- and where the expression ends, it goes on to the nested rules or the next rule.
use fdm.Outcome.{Outcome, ok, fatal, fault, ◌>>=◌}
use fdm.Rules.{
  no_match, is_match, match_error, match_parent, ExprItem, Rule, Rules, nil, cons, decision_none,
  decision_drop, decision_keep, Code, continue, deliver, error, blocked, done, Hooks, Msg, Ctx,
  apply_result, is_decided, move_up,
}
use fdm.Rules.Fill.{max_action_chain, find_delivery_users, fill_from_action, fill_from_strings}
use fdm.Prelude.{
  Bool, true, false, not, ◌||◌, Option, none, some, List, [], ◌∷◌, ◌==◌, if◌then◌else◌,
}

module _ (h : Hooks) where
  open h use {Mail, Match, User}

  -- What a call returns, and the context that it leaves.
  abbrev pub Step : Type 0
  Step = Outcome (Code × Ctx h)

  -- `next_rule`: past rule `r`, to the rules `next` behind it or up the stack.
  unfoldable pub next_rule : Rule Match → Rules Match → Code → Ctx h → Step
  next_rule r next code c =
      let up = move_up next c.stack in
      ok (code, record c { ruleidx = r.idx; rule = up.0; stack = up.1 })

  -- The two calls that fill the queue; `code` is MAIL_DELIVER once one of them was made.
  unfoldable pub fill_lambda : Rule Match → Ctx h → Outcome (Bool × Code × Ctx h)
  fill_lambda r c = elim r.lambda [
    | none ↦ ok (true, continue, c)
    | some t ↦
        fill_from_action h (fill_from_strings h max_action_chain c.mail r) c.mail r t
          (find_delivery_users h r none) (record { chained = max_action_chain; queue = c.dqueue })
        >>= λ (good, st). ok (good, deliver, record c { dqueue = st.queue })
  ]

  unfoldable pub fill_named : Rule Match → Code → Ctx h → Outcome (Bool × Code × Ctx h)
  fill_named r code c = elim r.actions [
    | [] ↦ ok (true, code, c)
    | rs ∷ rsa ↦
        fill_from_strings h max_action_chain c.mail r (rs ∷ rsa)
          (record { chained = max_action_chain; queue = c.dqueue })
        >>= λ (good, st). ok (good, deliver, record c { dqueue = st.queue })
  ]

  -- A rule whose expression holds and that has no nested rules.
  unfoldable pub queue_actions : Rule Match → Rules Match → Ctx h → Step
  queue_actions r next c = fill_lambda r (record c { matched = true }) >>= λ (good, code, c1).
      (if good
        then (fill_named r code c1 >>= λ (good', code', c2).
            (if good' then next_rule r next code' c2 else ok (error, c2)))
        else ok (error, c1))

  -- The end of an expression.
  unfoldable pub finish_rule : Rules Match → Ctx h → Step
  finish_rule nil c = fault
  finish_rule (cons r nil next) c =
      if not c.result
      then next_rule r next continue c
      else queue_actions r next (record c { done = c.done || r.stop })
  finish_rule (cons r (cons n nn ns) next) c =
      if not c.result
      then next_rule r next continue c
      else ok (
        continue,
        record c {
          done = c.done || r.stop;
          stack = cons r (cons n nn ns) next ∷ c.stack;
          rule = cons n nn ns;
        },
      )

  -- `next_expritem`.
  unfoldable pub next_expritem : List (ExprItem Match) → Ctx h → Step
  next_expritem [] c = fault
  next_expritem (ei ∷ []) c = finish_rule c.rule (record c { expritem = [] })
  next_expritem (ei ∷ e ∷ es) c = ok (continue, record c { expritem = e ∷ es })

  -- The item at hand is settled by an answer, and the next one follows.
  unfoldable pub settle_item : List (ExprItem Match) → Bool → Ctx h → Step
  settle_item [] this c = fault
  settle_item (ei ∷ es) this c =
      next_expritem (ei ∷ es) (record c { result = apply_result ei c.result this })

  -- The item at hand is skipped if the result is decided, and else checked.
  unfoldable pub check_item : List (ExprItem Match) → Ctx h → Step
  check_item [] c = fault
  check_item (ei ∷ es) c =
      if is_decided ei.op c.result
      then next_expritem (ei ∷ es) c
      else let (answer, m) = h.check ei.match c.matched c.mail in
        elim answer [
          | match_error ↦ ok (error, record c { mail = m })
          | match_parent ↦ ok (blocked, record c { mail = m; msgid = h.index m })
          | is_match ↦ settle_item (ei ∷ es) true (record c { mail = m })
          | no_match ↦ settle_item (ei ∷ es) false (record c { mail = m })
        ]

  -- Where no rule is left the configuration decides.
  unfoldable pub end_of_rules : Ctx h → Step
  end_of_rules c = elim h.impl_act [
    | decision_none ↦ ok (done, record c { mail = h.set_decision decision_keep c.mail })
    | decision_keep ↦ ok (done, record c { mail = h.set_decision decision_keep c.mail })
    | decision_drop ↦ ok (done, record c { mail = h.set_decision decision_drop c.mail })
  ]

  -- At a rule, an expression that is not started is started.
  unfoldable pub at_rule : Rules Match → Ctx h → Step
  at_rule nil c = end_of_rules c
  at_rule (cons r nested next) c = elim c.expritem [
    | [] ↦ check_item r.expr (record c { result = false; expritem = r.expr })
    | ei ∷ es ↦ check_item (ei ∷ es) c
  ]

  -- The answer of the parent to a blocked match.
  unfoldable pub resume_item : Msg → Ctx h → Step
  resume_item g c =
      if g.error == 2
      then ok (error, c)
      else if g.error == 1
      then settle_item c.expritem true c
      else if g.error == 0
      then settle_item c.expritem false c
      else fatal

  unfoldable pub resume_match : Option Msg → Ctx h → Step
  resume_match none c = ok (blocked, c)
  resume_match (some g) c =
      if not (g.id == c.msgid)
      then ok (blocked, c)
      else if not g.is_done
      then fatal
      else let m : Mail = elim g.tags [ [] ↦ c.mail | t ∷ ts ↦ h.set_tags (t ∷ ts) c.mail ] in
        resume_item g (record c { msgid = 0; mail = m })

  unfoldable pub mail_match : Option Msg → Ctx h → Step
  mail_match msg c =
      let c' : Ctx h = record c { mail = h.unwrap c.mail } in
      if not (c.msgid == 0)
      then resume_match msg c'
      else if c.done
      then ok (done, c')
      else at_rule c.rule c'
