-- ===== src/Tests/Rules.antt =====
-- A rule whose expression is "false or not false", and an action list that chains to itself.
use fdm.Outcome.{Returns}
use fdm.Rules.{
  op_none, op_or, apply_result, apply_op, Rule, nil, cons, Hooks, Ctx, Action, chain, delivery,
  decision_keep,
}
use fdm.Rules.Expression.{eval, rounds, Answers, answer, before, rounds-eval}
use fdm.Rules.Fill.{Filled, fill_from_strings}
use fdm.Rules.Chain.{Runs, fill_from_strings_ends}
use fdm.Rules.Matching.{finish_rule, mail_match}
use fdm.Rules.Deliver.{mail_deliver}
use fdm.Rules.Fit.{MatchFit, Matched}
use fdm.Rules.Fit.Match.{mail_match-Matched}
use fdm.Rules.Fit.Deliver.{Delivered, mail_deliver-Delivered}
use fdm.Rules.{Msg}
use fdm.Prelude.{
  ℕ, ◌+◌, ◌≡◌, refl, ◌≢◌, Bool, true, false, Option, none, some, [], ◌∷◌, arith, codes,
}

-- The action "a" delivers, and then goes on with the action "a".
abbrev itself : Action
itself = record {
  name = codes "a";
  users = none;
  list =
      record { idx = 0; what = delivery 7 }
      ∷ record { idx = 1; what = chain (codes "a" ∷ []) }
      ∷ [];
}

-- Mails and matches are numbers and answers; the only user is the default one.
abbrev hooks : Hooks
hooks = record {
  Mail = ℕ;
  Match = Bool;
  User = ℕ;
  unwrap = λ m. m;
  rewrap = λ m. m;
  index = λ m. m;
  decision = λ m. decision_keep;
  set_decision = λ d m. m;
  check = λ x matched m. (answer x, m + 1);
  set_tags = λ t m. m;
  replace = λ s m. s;
  match_actions = λ s. itself ∷ [];
  user_lookup = λ s. some 1;
  def_user = some (codes "root");
  account_users = none;
  impl_act = decision_keep;
  tag_action = λ a i u m. m;
  run_deliver = λ d u m. (true, m);
  reset_tags = λ m. m;
  is_in_child = λ d. true;
  is_write_back = λ d. false;
  receive = λ m. some m;
}

abbrev rule : Rule Bool
rule = record {
  idx = 1;
  expr =
      record { match = false; op = op_none; inverted = false }
      ∷ record { match = false; op = op_or; inverted = true }
      ∷ [];
  users = none;
  stop = true;
  lambda = none;
  actions = codes "a" ∷ [];
}

abbrev ctx : Ctx hooks
ctx = record {
  done = false;
  msgid = 0;
  mail = 3;
  ruleidx = 0;
  rule = cons rule nil nil;
  stack = [];
  expritem = [];
  result = false;
  matched = false;
  dqueue = [];
}

abbrev truth : Bool → Bool
truth x = x

abbrev AnyMail : ℕ → Type 0
AnyMail m = m ≡ m

quiet : Answers hooks truth false AnyMail
quiet = record { unwraps = λ m p. p; answers = λ x m p. refl; keeps = λ x m p. refl }

rounds-eval_example :
    (m : ℕ) × (m ≡ m)
    × (rounds hooks 2 (before hooks truth false AnyMail quiet rule nil nil ctx 3 [] true)
        ≡ finish_rule hooks (cons rule nil nil) (
            before hooks truth false AnyMail quiet rule nil nil ctx m []
              (eval truth rule.expr false)))
rounds-eval_example =
    rounds-eval hooks truth false AnyMail quiet rule nil nil ctx 3 true (λ e. ground arith) refl

-- The value of the expression is true.
eval-test : eval truth rule.expr false ≡ true
unfolding eval apply_result apply_op
eval-test = refl

abbrev filled : Filled hooks
filled = record { chained = 5; queue = [] }

fill_from_strings_ends_example :
    Returns
      (λ p. Runs hooks filled p.0 p.1)
      (fill_from_strings hooks 5 3 rule (codes "a" ∷ []) filled)
fill_from_strings_ends_example =
    fill_from_strings_ends hooks 5 3 rule (codes "a" ∷ []) filled (omega arith) (omega arith)
      (omega arith)

-- Mails are numbered from 1.
abbrev numbered_hooks : Hooks
numbered_hooks = record hooks { index = λ m. m + 1 }

numbered : (m : ℕ) → m + 1 ≢ 0
numbered m e = omega (arith, e)

-- A mail that waits in its first expression for message 4.
abbrev waiting : Ctx numbered_hooks
waiting = record {
  done = false;
  msgid = 4;
  mail = 3;
  ruleidx = 0;
  rule = cons rule nil nil;
  stack = [];
  expritem = rule.expr;
  result = false;
  matched = false;
  dqueue = [];
}

-- The parent's answer to it.
abbrev answered : Option Msg
answered = some (record { id = 4; is_done = true; error = 1; tags = [] })

waiting-MatchFit : MatchFit numbered_hooks waiting
waiting-MatchFit = record {
  rules = (λ e. ground arith, tt, tt);
  stack = tt;
  started = λ x. tt;
  waiting = λ x e. ground arith;
}

mail_match-Matched_example :
    Returns (Matched numbered_hooks) (mail_match numbered_hooks answered waiting)
mail_match-Matched_example =
    mail_match-Matched numbered_hooks numbered answered waiting (refl, omega arith) waiting-MatchFit

-- The same mail with two deliveries to make.
abbrev delivering : Ctx numbered_hooks
delivering = record waiting {
  msgid = 0;
  expritem = [];
  dqueue =
      record {
        action = itself;
        item = record { idx = 0; what = delivery 7 };
        deliver = 7;
        rule = 1;
        user = 1;
      }
      ∷ record {
        action = itself;
        item = record { idx = 0; what = delivery 7 };
        deliver = 7;
        rule = 1;
        user = 2;
      }
      ∷ [];
}

mail_deliver-Delivered_example :
    Returns (Delivered numbered_hooks numbered) (mail_deliver numbered_hooks none delivering)
mail_deliver-Delivered_example =
    mail_deliver-Delivered numbered_hooks numbered none delivering (record {
      rules = (λ e. ground arith, tt, tt);
      stack = tt;
      idle = refl;
      waiting = λ n. absurd (n refl);
    })
