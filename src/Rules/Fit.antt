-- ===== src/Rules/Fit.antt =====
-- mail-state.c: the contexts that matching and delivering expect, and that they leave.
pub mod Match
pub mod Deliver
use fdm.Outcome.{Outcome, ok, ◌>>=◌, Returns, Ends->>=, Ends-mono}
use fdm.Rules.Chain.{Runs, fill_from_strings_ends, fill_from_action_ends}
use fdm.Rules.Deliver.{
  ActionResult, action_done, action_error, action_parent, start_action, finish_action, start_next,
  finish_first, mail_deliver,
}
use fdm.Rules.Fill.{
  Filled, max_action_chain, find_delivery_users, fill_from_action, fill_from_strings,
}
use fdm.Rules.Matching.{
  next_rule, fill_lambda, fill_named, queue_actions, finish_rule, next_expritem, settle_item,
  check_item, end_of_rules, at_rule, resume_item, resume_match, mail_match,
}
use fdm.Rules.{
  MatchResult, no_match, is_match, match_error, match_parent, ExprItem, Rule, Rules, nil, cons,
  Action, Delivery, Code, continue, deliver, match, error, blocked, done, Decision, decision_none,
  decision_drop, decision_keep, Hooks, Msg, Ctx, move_up, is_decided, apply_result,
}
use mathlib.Core.Path.{subst}
use fdm.Prelude.{
  ℕ, zero, suc, ◌+◌, ◌-◌, ◌*◌, ◌/◌, ◌%◌, ◌^◌, ◌≤◌, ◌<◌, ◌≡◌, refl, sym, ap, ◌∙◌, ◌≢◌, ◌↔◌, ◌⊎◌, inl,
  inr, Bool, true, false, not, ◌&&◌, ◌||◌, Option, none, some, List, [], ◌∷◌, ◌++◌, map, append-nil,
  append_assoc, arith, ltb, leb, ◌==◌, if◌then◌else◌, ==_iff, Bool-cases, Option-cases, length,
  get_elem?, take, drop, length-append, length-take, length-drop, take-append-drop,
  take-append_exact, drop-append_exact, take-all, take-append_le, drop-append_le, drop-drop,
  drop-take, take-add, take-take_le, length-take_le, list_cases, All, All-append, get_elem-All,
  Bytes, codes, size_mod, size_max, sub_size, add_size, u32_mod, memchr, to_lower, is_space,
  is_blank, is_digit, bytes_eq, starts_with_case, starts_with, eq_self, bytes_eq_refl,
}

-- The parent's answer to a match: a done message with a match result.
abbrev pub MsgFit : Option Msg → Type 0
MsgFit none = Unit
MsgFit (some g) = (g.is_done ≡ true) × (g.error ≤ 2)

-- Where matching goes on, or delivering starts.
abbrev Resumes : Code → Type 0
Resumes continue = Unit
Resumes deliver = Unit
Resumes _ = ⊥

pub answer_cases :
    (a : MatchResult) → (a ≡ no_match) ⊎ ((a ≡ is_match) ⊎ ((a ≡ match_error) ⊎ (a ≡ match_parent)))
answer_cases no_match = inl refl
answer_cases is_match = inr (inl refl)
answer_cases match_error = inr (inr (inl refl))
answer_cases match_parent = inr (inr (inr refl))

-- Every rule has an expression that is not empty.
abbrev pub IsWhole : {M : Type 0} → Rules M → Type 0
IsWhole nil = Unit
IsWhole (cons r nested next) = (r.expr ≢ []) × IsWhole nested × IsWhole next

abbrev pub AllWhole : {M : Type 0} → List (Rules M) → Type 0
AllWhole [] = Unit
AllWhole (r ∷ rs) = IsWhole r × AllWhole rs

abbrev pub IsRule : {M : Type 0} → Rules M → Type 0
IsRule nil = ⊥
IsRule (cons r nested next) = Unit

move_up-AllWhole :
    {M : Type 0} (r : Rules M) (st : List (Rules M))
    → IsWhole r
    → AllWhole st
    → IsWhole (move_up r st).0 × AllWhole (move_up r st).1
unfolding move_up
move_up-AllWhole (cons r nested next) st w s = (w, s)
move_up-AllWhole nil [] w s = (w, s)
move_up-AllWhole nil (nil ∷ st) w s = move_up-AllWhole nil st tt s.1
move_up-AllWhole nil (cons r nested next ∷ st) w s = move_up-AllWhole next st s.0.2 s.1

module _ (h : Hooks) where
  open h use {Mail, Match, User}

  -- A context in the queue of `fetch_match`: an expression that is started belongs to a rule, and
  -- a mail that waits for the parent waits in an expression.
  pub record MatchFit (c : Ctx h) : Type 0 where
    pub rules : IsWhole c.rule
    pub stack : AllWhole c.stack
    pub started : c.expritem ≢ [] → IsRule c.rule
    pub waiting : c.msgid ≢ 0 → c.expritem ≢ []

  -- A context in the queue of `fetch_deliver`: no expression is started, and a mail that waits for
  -- the parent waits for a delivery.
  pub record DeliverFit (c : Ctx h) : Type 0 where
    pub rules : IsWhole c.rule
    pub stack : AllWhole c.stack
    pub idle : c.expritem ≡ []
    pub waiting : c.msgid ≢ 0 → c.dqueue ≢ []

  -- What `mail_match` leaves.
  abbrev pub Matched : Code × Ctx h → Type 0
  Matched (continue, c) = MatchFit c
  Matched (deliver, c) = DeliverFit c
  Matched (blocked, c) = MatchFit c × (c.msgid ≢ 0)
  Matched (match, c) = ⊥
  Matched (error, c) = Unit
  Matched (done, c) = Unit

  -- A rule is being matched, and the mail does not wait.
  pub record Ready (c : Ctx h) : Type 0 where
    pub rules : IsWhole c.rule
    pub stack : AllWhole c.stack
    pub at_rule : IsRule c.rule
    pub free : c.msgid ≡ 0

  -- What the calls that fill the queue leave alone.
  record Same (c d : Ctx h) : Type 0 where
    stack : d.stack ≡ c.stack
    expritem : d.expritem ≡ c.expritem
    msgid : d.msgid ≡ c.msgid

  abbrev Left : Ctx h → Bool × Code × Ctx h → Type 0
  Left c (good, code, d) = Resumes code × Same c d

  next_rule-Matched :
      (r : Rule Match) (next : Rules Match) (code : Code) (c : Ctx h)
      → Resumes code
      → IsWhole next
      → AllWhole c.stack
      → c.expritem ≡ []
      → c.msgid ≡ 0
      → Returns Matched (next_rule h r next code c)
  unfolding next_rule
  next_rule-Matched r next continue c g w s e z =
      let (w', s') = move_up-AllWhole next c.stack w s in
      record { rules = w'; stack = s'; started = λ n. absurd (n e); waiting = λ n. absurd (n z) }
  next_rule-Matched r next deliver c g w s e z =
      let (w', s') = move_up-AllWhole next c.stack w s in
      record { rules = w'; stack = s'; idle = e; waiting = λ n. absurd (n z) }
  next_rule-Matched r next blocked c g w s e z = absurd g
  next_rule-Matched r next match c g w s e z = absurd g
  next_rule-Matched r next error c g w s e z = absurd g
  next_rule-Matched r next done c g w s e z = absurd g

  fill_lambda-Same : (r : Rule Match) (c : Ctx h) → Returns (Left c) (fill_lambda h r c)
  unfolding fill_lambda
  fill_lambda-Same r c = elim (Option-cases r.lambda) [
    | inl e ↦ rw (fill_lambda, e) (tt, record { stack = refl; expritem = refl; msgid = refl })
    | inr (t, e) ↦
        rw (fill_lambda, e)
          (Ends->>= ⊥
            (λ p. Runs h (record { chained = max_action_chain; queue = c.dqueue }) p.0 p.1) (Left c)
            _ _
            (fill_from_action_ends h c.mail r t (find_delivery_users h r none)
              (record { chained = max_action_chain; queue = c.dqueue }) (omega arith) (omega arith))
            (λ p q. (tt, record { stack = refl; expritem = refl; msgid = refl })))
  ]

  fill_named-Same :
      (r : Rule Match) (code : Code) (c : Ctx h)
      → Resumes code
      → Returns (Left c) (fill_named h r code c)
  unfolding fill_named
  fill_named-Same r code c g = elim (list_cases r.actions) [
    | inl e ↦ rw (fill_named, e) (g, record { stack = refl; expritem = refl; msgid = refl })
    | inr (rs, rsa, e) ↦
        rw (fill_named, e)
          (Ends->>= ⊥
            (λ p. Runs h (record { chained = max_action_chain; queue = c.dqueue }) p.0 p.1) (Left c)
            _ _
            (fill_from_strings_ends h max_action_chain c.mail r (rs ∷ rsa)
              (record { chained = max_action_chain; queue = c.dqueue }) (omega arith) (omega arith)
              (omega arith))
            (λ p q. (tt, record { stack = refl; expritem = refl; msgid = refl })))
  ]

  queue_actions-Matched :
      (r : Rule Match) (next : Rules Match) (c : Ctx h)
      → IsWhole next
      → AllWhole c.stack
      → c.expritem ≡ []
      → c.msgid ≡ 0
      → Returns Matched (queue_actions h r next c)
  unfolding queue_actions
  queue_actions-Matched r next c w s e z =
      Ends->>= ⊥ (Left (record c { matched = true })) Matched _ _
        (fill_lambda-Same r (record c { matched = true }))
        (λ (good, code, c1) (g, k).
          by_lambda good code c1 g
            (record { stack = k.stack; expritem = k.expritem; msgid = k.msgid }))
    where
      by_named :
          (good : Bool) (code : Code) (c1 : Ctx h)
          → Resumes code
          → Same c c1
          → Returns Matched (if good then next_rule h r next code c1 else ok (error, c1))
      by_named false code c1 g k = tt
      by_named true code c1 g k =
          next_rule-Matched r next code c1 g w (subst AllWhole (sym k.stack) s) (k.expritem ∙ e)
            (k.msgid ∙ z)

      by_lambda :
          (good : Bool) (code : Code) (c1 : Ctx h)
          → Resumes code
          → Same c c1
          → Returns Matched (
              if good
              then (fill_named h r code c1 >>= λ (good', code', c2).
                  (if good' then next_rule h r next code' c2 else ok (error, c2)))
              else ok (error, c1))
      by_lambda false code c1 g k = tt
      by_lambda true code c1 g k =
          Ends->>= ⊥ (Left c1) Matched _ _ (fill_named-Same r code c1 g)
            (λ (good', code', c2) (g', k'). by_named good' code' c2 g' (record {
              stack = k'.stack ∙ k.stack;
              expritem = k'.expritem ∙ k.expritem;
              msgid = k'.msgid ∙ k.msgid;
            }))

  finish_rule-Matched :
      (rules : Rules Match) (c : Ctx h)
      → IsRule rules
      → IsWhole rules
      → AllWhole c.stack
      → c.expritem ≡ []
      → c.msgid ≡ 0
      → Returns Matched (finish_rule h rules c)
  unfolding finish_rule
  finish_rule-Matched nil c i w s e z = absurd i
  finish_rule-Matched (cons r nil next) c i w s e z = elim (Bool-cases c.result) [
    | inl holds ↦ rw (finish_rule, holds) (queue_actions-Matched r next _ w.2 s e z)
    | inr fails ↦ rw (finish_rule, fails) (next_rule-Matched r next continue _ tt w.2 s e z)
  ]
  finish_rule-Matched (cons r (cons n nn ns) next) c i w s e z = elim (Bool-cases c.result) [
    | inl holds ↦
        rw (finish_rule, holds)
          (record { rules = w.1; stack = (w, s); started = λ x. tt; waiting = λ x. absurd (x z) })
    | inr fails ↦ rw (finish_rule, fails) (next_rule-Matched r next continue _ tt w.2 s e z)
  ]

  pub next_expritem-Matched :
      (es : List (ExprItem Match)) (c : Ctx h)
      → es ≢ []
      → Ready c
      → Returns Matched (next_expritem h es c)
  unfolding next_expritem
  next_expritem-Matched [] c n y = absurd (n refl)
  next_expritem-Matched (ei ∷ []) c n y =
      finish_rule-Matched c.rule (record c { expritem = [] }) y.at_rule y.rules y.stack refl y.free
  next_expritem-Matched (ei ∷ e ∷ es) c n y = record {
    rules = y.rules;
    stack = y.stack;
    started = λ x. y.at_rule;
    waiting = λ x. absurd (x y.free);
  }

  pub settle_item-Matched :
      (es : List (ExprItem Match)) (this : Bool) (c : Ctx h)
      → es ≢ []
      → Ready c
      → Returns Matched (settle_item h es this c)
  unfolding settle_item
  settle_item-Matched [] this c n y = absurd (n refl)
  settle_item-Matched (ei ∷ es) this c n y =
      next_expritem-Matched (ei ∷ es) (record c { result = apply_result ei c.result this }) n
        (record { rules = y.rules; stack = y.stack; at_rule = y.at_rule; free = y.free })

  pub resume_item-Matched :
      (g : Msg) (c : Ctx h)
      → MsgFit (some g)
      → c.expritem ≢ []
      → Ready c
      → Returns Matched (resume_item h g c)
  unfolding resume_item
  resume_item-Matched g c fit n y = elim (Bool-cases (g.error == 2)) [
    | inl two ↦ rw (resume_item, two) tt
    | inr not2 ↦ elim (Bool-cases (g.error == 1)) [
      | inl one ↦ rw (resume_item, not2, one) (settle_item-Matched c.expritem true c n y)
      | inr not1 ↦
          let zero' : (g.error == 0) ≡ true = (let le = fit.1 in ground (arith, le)) in
          rw (resume_item, not2, not1, zero') (settle_item-Matched c.expritem false c n y)
    ]
  ]
