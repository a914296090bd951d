-- ===== src/Rules/Expression.antt =====
-- The expression of a rule, item by item through `mail_match`, against its value as a whole.
use fdm.Outcome.{Outcome, ok, fault, diverge, ◌>>=◌}
use fdm.Rules.{
  MatchResult, no_match, is_match, ExprItem, ExprOp, op_none, op_and, op_or, Rule, Rules, cons,
  Code, continue, deliver, match, error, blocked, done, Hooks, Ctx, apply_op, apply_result,
  is_decided,
}
use fdm.Rules.Matching.{
  Step, mail_match, at_rule, check_item, settle_item, next_expritem, finish_rule,
}
use fdm.Prelude.{
  ℕ, zero, suc, ◌≡◌, refl, sym, ap, ◌∙◌, ◌≢◌, inl, inr, Bool, true, false, not, none, List, [], ◌∷◌,
  arith, if◌then◌else◌, Bool-cases, length, list_cases,
}

-- The value of an expression from left to right, with every item looked at; `truth` says which
-- matches hold.
unfoldable pub eval : {M : Type 0} → (M → Bool) → List (ExprItem M) → Bool → Bool
eval truth [] result = result
eval truth (ei ∷ es) result = eval truth es (apply_result ei result (truth ei.match))

-- An item that is skipped would not have changed the result.
decided-apply_op :
    (op : ExprOp) (result this : Bool)
    → is_decided op result ≡ true
    → apply_op op result this ≡ result
unfolding is_decided apply_op
decided-apply_op op_none result this e = cc
decided-apply_op op_and result this e = ground arith
decided-apply_op op_or result this e = ground arith

decided-apply_result :
    {M : Type 0} (ei : ExprItem M) (result this : Bool)
    → is_decided ei.op result ≡ true
    → apply_result ei result this ≡ result
unfolding apply_result
decided-apply_result ei result this e =
    decided-apply_op ei.op result (if ei.inverted then not this else this) e

abbrev pub answer : Bool → MatchResult
answer true = is_match
answer false = no_match

module _ (h : Hooks) where
  open h use {Mail, Match, User}

  -- After a call: another one if it said MAIL_CONTINUE, else its result.
  unfoldable pub go_on : (Ctx h → Step h) → Code × Ctx h → Step h
  go_on again (continue, c) = again c
  go_on again (code, c) = ok (code, c)

  -- Rounds of `mail_match` with no message, as long as it says MAIL_CONTINUE.
  unfoldable pub rounds : ℕ → Ctx h → Step h
  rounds zero c = ok (continue, c)
  rounds (suc n) c = mail_match h none c >>= go_on (rounds n)

  -- On the mails of `P` every match answers at once, as `truth` says, and leaves a mail of `P`.
  pub record Answers (truth : Match → Bool) (matched : Bool) (P : Mail → Type 0) : Type 0 where
    pub unwraps : (m : Mail) → P m → P (h.unwrap m)
    pub answers : (x : Match) (m : Mail) → P m → (h.check x matched m).0 ≡ answer (truth x)
    pub keeps : (x : Match) (m : Mail) → P m → P (h.check x matched m).1

  rounds-suc : (n : ℕ) (c : Ctx h) → rounds (suc n) c ≡ (mail_match h none c >>= go_on (rounds n))
  unfolding rounds
  rounds-suc n c = refl

  go_on-continue : (again : Ctx h → Step h) (c : Ctx h) → go_on again (continue, c) ≡ again c
  unfolding go_on
  go_on-continue again c = refl

  last_round : (s : Step h) → (s >>= go_on (rounds 0)) ≡ s
  unfolding rounds go_on
  last_round (ok (continue, c)) = refl
  last_round (ok (deliver, c)) = refl
  last_round (ok (match, c)) = refl
  last_round (ok (error, c)) = refl
  last_round (ok (blocked, c)) = refl
  last_round (ok (done, c)) = refl
  last_round Outcome.fatal = refl
  last_round fault = refl
  last_round diverge = refl

  module _ (truth : Match → Bool) (flag : Bool) (P : Mail → Type 0) (quiet : Answers truth flag P)
      (r : Rule Match) (nested next : Rules Match) where
    -- A mail at rule `r` that waits for nobody, before the items `es`, with the result so far.
    abbrev pub before : Ctx h → Mail → List (ExprItem Match) → Bool → Ctx h
    before c m es result = record c {
      done = false;
      msgid = 0;
      matched = flag;
      rule = cons r nested next;
      mail = m;
      expritem = es;
      result = result;
    }

    -- One call: the item at hand is settled with the value that it has, looked at or not.
    mail_match-item :
        (c : Ctx h) (m : Mail) (ei : ExprItem Match) (es : List (ExprItem Match)) (result : Bool)
        → P m
        → (m' : Mail) × P m'
          × (mail_match h none (before c m (ei ∷ es) result)
              ≡ next_expritem h
                  (ei ∷ es)
                  (before c m' (ei ∷ es) (apply_result ei result (truth ei.match))))
    unfolding mail_match at_rule check_item settle_item
    mail_match-item c m ei es result p =
        let w = h.unwrap m in
        let fit : P w = quiet.unwraps m p in
        let said = quiet.answers ei.match w fit in
        elim (Bool-cases (is_decided ei.op result)) [
          | inl skipped ↦
              (w, fit, rw (decided-apply_result ei result (truth ei.match) skipped, skipped) refl)
          | inr looked ↦ (
            (h.check ei.match flag w).1,
            quiet.keeps ei.match w fit,
            elim (Bool-cases (truth ei.match)) [
              | inl holds ↦ rw (looked, said, holds)
              | inr fails ↦ rw (looked, said, fails)
            ],
          )
        ]

    items-eval :
        (c : Ctx h) (m : Mail) (ei : ExprItem Match) (es : List (ExprItem Match)) (result : Bool)
        → P m
        → (m' : Mail) × P m'
          × (rounds (length (ei ∷ es)) (before c m (ei ∷ es) result)
              ≡ finish_rule h (cons r nested next) (before c m' [] (eval truth (ei ∷ es) result)))
    unfolding eval next_expritem
    items-eval c m ei [] result p =
        let (m', p', e) = mail_match-item c m ei [] result p in
        (
          m',
          p',
          rounds-suc 0 (before c m (ei ∷ []) result)
              ∙ ap (λ s. s >>= go_on (rounds 0)) e
              ∙ last_round _,
        )
    items-eval c m ei (d ∷ es) result p =
        let (m', p', e) = mail_match-item c m ei (d ∷ es) result p in
        let (m'', p'', f) = items-eval c m' d es (apply_result ei result (truth ei.match)) p' in
        (
          m'',
          p'',
          rounds-suc (length (d ∷ es)) (before c m (ei ∷ d ∷ es) result)
              ∙ ap (λ s. s >>= go_on (rounds (length (d ∷ es)))) e
              ∙ go_on-continue (rounds (length (d ∷ es))) _
              ∙ f,
        )

    fresh_start :
        (c : Ctx h) (m : Mail) (ei : ExprItem Match) (es : List (ExprItem Match)) (result : Bool)
        → r.expr ≡ ei ∷ es
        → mail_match h none (before c m [] result) ≡ mail_match h none (before c m (ei ∷ es) false)
    unfolding mail_match at_rule
    fresh_start c m ei es result e = rw e

    -- A mail that comes to a rule whose expression is not empty, and whose matches all answer at
    -- once, leaves the expression after one call for each item, with the value of the whole
    -- expression: short-circuit evaluation changes nothing but which matches are looked at. What
    -- then happens is `finish_rule` on that value.
    pub rounds-eval :
        (c : Ctx h) (m : Mail) (result : Bool)
        → r.expr ≢ []
        → P m
        → (m' : Mail) × P m'
          × (rounds (length r.expr) (before c m [] result)
              ≡ finish_rule h (cons r nested next) (before c m' [] (eval truth r.expr false)))
    rounds-eval c m result some_item p = elim (list_cases r.expr) [
      | inl e ↦ absurd (some_item e)
      | inr (ei, es, e) ↦
          let (m', p', f) = items-eval c m ei es false p in
          (
            m',
            p',
            (ap (λ l. rounds (length l) (before c m [] result)) e
                ∙ rounds-suc (length es) (before c m [] result)
                ∙ ap (λ s. s >>= go_on (rounds (length es))) (fresh_start c m ei es result e)
                ∙ sym (rounds-suc (length es) (before c m (ei ∷ es) false))
                ∙ f
                ∙ ap (λ l. finish_rule h (cons r nested next) (before c m' [] (eval truth l false)))
                    (sym e)),
          )
    ]
