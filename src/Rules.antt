-- ===== src/Rules.antt =====
-- mail-state.c: matching a mail against the rules and queueing its deliveries. A TAILQ pointer is
-- the list from the item on, and NULL is the empty list; a rule and its nested rules are a tree.
pub mod Fill
pub mod Chain
pub mod Matching
pub mod Deliver
pub mod Expression
pub mod Fit
use fdm.Outcome.{Outcome, ok, fatal, fault, diverge, ◌>>=◌}
use fdm.Prelude.{
  ℕ, zero, suc, ◌+◌, ◌-◌, ◌*◌, ◌/◌, ◌%◌, ◌^◌, ◌≤◌, ◌<◌, ◌≡◌, refl, sym, ap, ◌∙◌, ◌≢◌, ◌↔◌, ◌⊎◌, inl,
  inr, Bool, true, false, not, ◌&&◌, ◌||◌, Option, none, some, List, [], ◌∷◌, ◌++◌, map, append-nil,
  append_assoc, arith, ltb, leb, ◌==◌, if◌then◌else◌, ==_iff, Bool-cases, Option-cases, length,
  get_elem?, take, drop, length-append, length-take, length-drop, take-append-drop,
  take-append_exact, drop-append_exact, take-all, take-append_le, drop-append_le, drop-drop,
  drop-take, take-add, take-take_le, length-take_le, list_cases, All, All-append, get_elem-All,
  Bytes, codes, size_mod, size_max, sub_size, add_size, u32_mod, memchr, to_lower, is_space,
  is_blank, is_digit, bytes_eq, starts_with_case, starts_with, eq_self, bytes_eq_refl,
}

-- What `match->match` returns: MATCH_FALSE, MATCH_TRUE, MATCH_ERROR, MATCH_PARENT.
pub data MatchResult : Type 0 where
  no_match is_match match_error match_parent : MatchResult

pub data ExprOp : Type 0 where
  op_none op_and op_or : ExprOp

-- One item of an expression; `match` stands for the match and its data.
pub record ExprItem (Match : Type 0) : Type 0 where
  pub match : Match
  pub op : ExprOp
  pub inverted : Bool

-- What an action item does: a chained list of action names (`deliver == NULL`), or a delivery.
pub data ActWhat : Type 0 where
  chain : List Bytes → ActWhat
  delivery : ℕ → ActWhat

pub record ActItem : Type 0 where
  pub idx : ℕ
  pub what : ActWhat

pub record Action : Type 0 where
  pub name : Bytes
  pub users : Option (List Bytes)
  pub list : List ActItem

-- A rule without its nested rules.
pub record Rule (Match : Type 0) : Type 0 where
  pub idx : ℕ
  pub expr : List (ExprItem Match)
  pub users : Option (List Bytes)
  pub stop : Bool
  pub lambda : Option Action
  pub actions : List Bytes

-- The rest of a rule list: a rule, its nested rules, and the rules behind it.
pub data Rules (Match : Type 0) : Type 0 where
  nil : Rules Match
  cons : Rule Match → Rules Match → Rules Match → Rules Match

pub data Decision : Type 0 where
  decision_none decision_drop decision_keep : Decision

-- MAIL_CONTINUE and the other results.
pub data Code : Type 0 where
  continue deliver match error blocked done : Code

-- What the engine calls: the matches, the tags and the wrapping of a mail, and the configuration.
pub record Hooks : Type 1 where
  pub Mail : Type 0
  pub Match : Type 0
  pub User : Type 0
  -- set_wrapped with ' ' and with '\n'
  pub unwrap : Mail → Mail
  pub rewrap : Mail → Mail
  pub index : Mail → ℕ
  -- m->decision
  pub decision : Mail → Decision
  pub set_decision : Decision → Mail → Mail
  -- ei->match->match; the flag is mctx->matched
  pub check : Match → Bool → Mail → MatchResult × Mail
  -- the tags that the parent sent back
  pub set_tags : Bytes → Mail → Mail
  pub replace : Bytes → Mail → Bytes
  pub match_actions : Bytes → List Action
  pub user_lookup : Bytes → Option User
  pub def_user : Option Bytes
  pub account_users : Option (List Bytes)
  pub impl_act : Decision
  -- start_action and finish_action (below) call these
  pub tag_action : Action → ℕ → User → Mail → Mail
  pub run_deliver : ℕ → User → Mail → Bool × Mail
  pub reset_tags : Mail → Mail
  pub is_in_child : ℕ → Bool
  pub is_write_back : ℕ → Bool
  pub receive : Mail → Option Mail

-- A message from the parent.
pub record Msg : Type 0 where
  pub id : ℕ
  pub is_done : Bool
  pub error : ℕ
  pub tags : Bytes

module _ (h : Hooks) where
  open h use {Mail, Match, User}

  -- struct deliver_ctx.
  pub record Delivery : Type 0 where
    pub action : Action
    pub item : ActItem
    pub deliver : ℕ
    pub rule : ℕ
    pub user : User

  -- struct mail_ctx.
  pub record Ctx : Type 0 where
    pub done : Bool
    pub msgid : ℕ
    pub mail : Mail
    pub ruleidx : ℕ
    pub rule : Rules Match
    pub stack : List (Rules Match)
    pub expritem : List (ExprItem Match)
    pub result : Bool
    pub matched : Bool
    pub dqueue : List Delivery

unfoldable pub apply_op : ExprOp → Bool → Bool → Bool
apply_op op_none result this = this
apply_op op_or result this = result || this
apply_op op_and result this = result && this

-- `apply_result`.
unfoldable pub apply_result : {M : Type 0} → ExprItem M → Bool → Bool → Bool
apply_result ei result this = apply_op ei.op result (if ei.inverted then not this else this)

-- The short-circuit test: the item need not be checked.
unfoldable pub is_decided : ExprOp → Bool → Bool
is_decided op_none result = false
is_decided op_and result = not result
is_decided op_or result = result

-- `while (mctx->rule == NULL)`: up the stack, whose last entry comes first in the list.
unfoldable pub move_up : {M : Type 0} → Rules M → List (Rules M) → Rules M × List (Rules M)
move_up (cons r nested next) st = (cons r nested next, st)
move_up nil [] = (nil, [])
move_up nil (nil ∷ st) = move_up nil st
move_up nil (cons r nested next ∷ st) = move_up next st
