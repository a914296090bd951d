-- ===== src/Fetch.antt =====
-- child-fetch.c: the loop of a fetch child. The globals of the file are a record: the two queues of
-- mails, in the order of the TAILQs, and the counters. The fetch type and its data are a parameter.
pub mod Enqueue
pub mod Walk
pub mod Loop
pub mod Settled
use fdm.Mail.{Mail as Text, Line}
use fdm.Outcome.{Outcome, ok, fatal}
use fdm.Pop3.{FetchCode, up, down}
use fdm.Rules.{Hooks, Rules, Ctx, Decision, decision_none, decision_drop, decision_keep}
use fdm.Prelude.{
  ℕ, zero, suc, ◌+◌, ◌-◌, ◌*◌, ◌/◌, ◌%◌, ◌^◌, ◌≤◌, ◌<◌, ◌≡◌, refl, sym, ap, ◌∙◌, ◌≢◌, ◌↔◌, ◌⊎◌, inl,
  inr, Bool, true, false, not, ◌&&◌, ◌||◌, Option, none, some, List, [], ◌∷◌, ◌++◌, map, append-nil,
  append_assoc, arith, ltb, leb, ◌==◌, if◌then◌else◌, ==_iff, Bool-cases, Option-cases, length,
  get_elem?, take, drop, length-append, length-take, length-drop, take-append-drop,
  take-append_exact, drop-append_exact, take-all, take-append_le, drop-append_le, drop-drop,
  drop-take, take-add, take-take_le, length-take_le, list_cases, All, All-append, get_elem-All,
  Bytes, codes, size_mod, size_max, sub_size, add_size, u32_mod, memchr, to_lower, is_space,
  is_blank, is_digit, bytes_eq, starts_with_case, starts_with, eq_self, bytes_eq_refl,
}

-- FETCH_PURGE, FETCH_EMPTY and FETCH_POLL.
pub record Flags : Type 0 where
  pub purge : Bool
  pub is_empty : Bool
  pub poll : Bool

-- The settings that the loop reads.
pub record Conf : Type 0 where
  pub max_size : ℕ
  pub del_big : Bool
  pub keep_all : Bool
  pub keep : Bool
  pub queue_low : ℕ
  pub queue_high : ℕ
  pub purge_after : ℕ
  pub no_received : Bool

-- The fetch type of the account (struct fetch) with its data, and what is filled into a mail from
-- the clock, the time zone and the names of the host.
pub record FetchHooks (h : Hooks) : Type 1 where
  pub Source : Type 0
  -- fctx.state
  pub state : Flags → Source → Outcome (FetchCode × Flags × Source)
  -- fctx.mail, and a fresh one in its place
  pub mail : Source → h.Mail
  pub fresh_mail : Source → Source
  -- a->fetch->commit; `false` is FETCH_ERROR
  pub commit : h.Mail → Source → Bool × Source
  -- how many sockets a->fetch->fill adds to the poll
  pub sockets : Source → ℕ
  -- the memory of a mail
  pub text : h.Mail → Text
  pub with_text : Text → h.Mail → h.Mail
  -- the number and the tags of a mail: its lines, those of its body and of its headers, and its
  -- message-id
  pub attributes : ℕ → ℕ × ℕ × ℕ → Option Line → Text → h.Mail → h.Mail
  -- the Received header that is printed, if the time can be
  pub received : h.Mail → Option Bytes
  pub grants : ℕ → Bool
  pub rules : Rules h.Match

module _ (h : Hooks) (f : FetchHooks h) (conf : Conf) where
  open f use {Source}

  -- The globals, with a->idx, the counters of fetch_purge, and the fetch type's data.
  pub record Queues : Type 0 where
    pub matchq : List (Ctx h)
    pub deliverq : List (Ctx h)
    pub dropped : ℕ
    pub kept : ℕ
    pub queued : ℕ
    pub blocked : ℕ
    pub idx : ℕ
    pub last_total : ℕ
    pub last_dropped : ℕ
    pub source : Source

  -- The counters of `fetch_dequeue`.
  unfoldable pub count_decision : Decision → Queues → Outcome Queues
  count_decision decision_drop q = ok (record q { dropped = up q.dropped })
  count_decision decision_keep q = ok (record q { kept = up q.kept })
  count_decision decision_none q = fatal

  -- The rest of `fetch_dequeue`: the mail is committed, and leaves the queue if it could be.
  unfoldable pub commit_mail : h.Mail → Queues → Bool × Queues
  commit_mail m q =
      let (good, s) = f.commit m q.source in
      (
        good,
        if good then record q { queued = down q.queued; source = s } else record q { source = s },
      )

  -- `purge_after`, the counters since the last purge, and whether to purge.
  unfoldable pub fetch_purge : Queues → Bool × Queues
  fetch_purge q =
      let n = (q.dropped + q.kept) % u32_mod in
      if conf.purge_after == 0
      then (false, q)
      else if n == q.last_total || not (n % conf.purge_after == 0)
      then (false, q)
      else if q.last_dropped == q.dropped
      then (false, record q { last_total = n })
      else (true, record q { last_total = n; last_dropped = q.dropped })
