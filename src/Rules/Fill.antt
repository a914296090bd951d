-- ===== src/Rules/Fill.antt =====
-- mail-state.c: `fill_from_strings`, `fill_from_string`, `fill_from_action` and
-- `find_delivery_users`, which queue the deliveries of a rule that matched. The global `chained`
-- is threaded through them.
use fdm.Outcome.{Outcome, ok, diverge, ◌>>=◌}
use fdm.Rules.{Hooks, Rule, Action, ActItem, chain, delivery, Delivery}
use fdm.Prelude.{
  ℕ, zero, suc, ◌+◌, ◌-◌, ◌%◌, Bool, true, false, Option, none, some, List, [], ◌∷◌, ◌++◌, map,
  ◌==◌, if◌then◌else◌, Bytes, u32_mod,
}

-- MAXACTIONCHAIN of fdm.h.
abbrev pub max_action_chain : ℕ
max_action_chain = 5

module _ (h : Hooks) where
  open h use {Mail, Match, User}

  -- The counter `chained` and the queue.
  pub record Filled : Type 0 where
    pub chained : ℕ
    pub queue : List (Delivery h)

  -- `true` is the result 0, `false` is -1.
  abbrev pub Fill : Type 0
  Fill = Filled → Outcome (Bool × Filled)

  -- One call after the other, up to the first that fails.
  abbrev pub then_fill : Fill → Fill → Fill
  then_fill a b st = a st >>= λ (good, st'). if good then b st' else ok (false, st')

  -- The users of the rule, else of the action, else of the account, else the default user.
  unfoldable pub find_delivery_users : Rule Match → Option Action → List (Option Bytes)
  find_delivery_users r t = elim r.users [
    | some us ↦ map some us
    | none ↦ elim t [
      | some a ↦ elim a.users [ some us ↦ map some us | none ↦ of_account ]
      | none ↦ of_account
    ]
  ]
    where
      of_account : List (Option Bytes)
      of_account = elim h.account_users [ some us ↦ map some us | none ↦ h.def_user ∷ [] ]

  -- The loop over the items of an action; `strings` is `fill_from_strings`.
  unfoldable pub fill_items : (List Bytes → Fill) → Rule Match → Action → User → List ActItem → Fill
  fill_items strings r t user [] st = ok (true, st)
  fill_items strings r t user (ti ∷ tis) st = elim ti.what [
    | chain names ↦ then_fill (strings names) (fill_items strings r t user tis) st
    | delivery d ↦ fill_items strings r t user tis (record st {
      queue =
          st.queue
          ++ (record { action = t; item = ti; deliver = d; rule = r.idx; user = user } ∷ []);
    })
  ]

  -- The loop of `fill_from_action` over the users. A missing, empty or unknown user is an error.
  unfoldable pub fill_from_action :
      (List Bytes → Fill) → Mail → Rule Match → Action → List (Option Bytes) → Fill
  fill_from_action strings m r t [] st = ok (true, st)
  fill_from_action strings m r t (none ∷ us) st = ok (false, st)
  fill_from_action strings m r t (some u ∷ us) st = elim (h.replace u m) [
    | [] ↦ ok (false, st)
    | c ∷ name ↦ elim (h.user_lookup (c ∷ name)) [
      | none ↦ ok (false, st)
      | some user ↦
          then_fill (fill_items strings r t user t.list) (fill_from_action strings m r t us) st
    ]
  ]

  -- The loop of `fill_from_string` over the actions that match.
  unfoldable pub fill_actions : (List Bytes → Fill) → Mail → Rule Match → List Action → Fill
  fill_actions strings m r [] st = ok (true, st)
  fill_actions strings m r (t ∷ ts) st =
      then_fill (fill_from_action strings m r t (find_delivery_users r (some t)))
        (fill_actions strings m r ts) st

  -- No action that matches is an error.
  unfoldable pub fill_from_string : (List Bytes → Fill) → Mail → Rule Match → Bytes → Fill
  fill_from_string strings m r rs st = elim (h.match_actions (h.replace rs m)) [
    | [] ↦ ok (false, st)
    | t ∷ ts ↦ fill_actions strings m r (t ∷ ts) st
  ]

  unfoldable pub fill_strings : (List Bytes → Fill) → Mail → Rule Match → List Bytes → Fill
  fill_strings strings m r [] st = ok (true, st)
  fill_strings strings m r (rs ∷ rsa) st =
      then_fill (fill_from_string strings m r rs) (fill_strings strings m r rsa) st

  -- `chained` is counted down by every call; at 0 there are too many. The fuel bounds how deep the
  -- calls go.
  unfoldable pub fill_from_strings : ℕ → Mail → Rule Match → List Bytes → Fill
  fill_from_strings zero m r rsa st = diverge
  fill_from_strings (suc fuel) m r rsa st =
      let left = (st.chained + u32_mod - 1) % u32_mod in
      elim (left == 0) [
        | true ↦ ok (false, record st { chained = left })
        | false ↦ fill_strings (fill_from_strings fuel m r) m r rsa (record st { chained = left })
      ]
