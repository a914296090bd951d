-- ===== src/Tests/Fetch.antt =====
-- A loop with a fetch type that has one mail, from its start.
use fdm.Fetch.Enqueue.{line_tags, add_received, new_ctx, oversize, headed, fill_in, enqueue}
use fdm.Fetch.Loop.{
  update_holding, may_block, end_round, take_mail, fetched, call_state, fetch_more, Turn, repeats,
  finishes, polls, Loop, round, start,
}
use fdm.Fetch.Settled.Account.{round-AfterRound, start-Kept}
use fdm.Fetch.Settled.Enqueue.{IsFresh, Provided, Enqueued, enqueue-Enqueued}
use fdm.Fetch.Settled.Log.{Logged, logged}
use fdm.Fetch.Settled.Reach.{Reached, queued-bounded}
use fdm.Fetch.Settled.Totals.{logged-Works}
use fdm.Fetch.Settled.Round.{Works, AfterRound}
use fdm.Fetch.Settled.{Undecided}
use fdm.Fetch.Walk.{
  dequeue, after_dequeue, after_match, match_from, after_deliver, deliver_from, fetch_match,
  fetch_deliver,
}
use fdm.Fetch.{Flags, FetchHooks, Conf, commit_mail, count_decision, fetch_purge}
use fdm.Mail.{Mail as Text}
use fdm.Outcome.{Outcome, ok, fatal, fault, diverge, Ends, Returns}
use fdm.Pop3.{FetchCode}
use fdm.Rules.{
  Hooks, nil, cons, op_none, Rule, Decision, decision_none, decision_drop, decision_keep, no_match,
}
use fdm.Mail.{
  line_length, line_init, line_next, body_from, find_body, count_from, count_lines, header_from,
  skip_spaces, trim_newlines, header_value, find_header,
}
use fdm.Mail.Wrap.{wrapped_from, fill_wrapped}
use fdm.Mail.Store.{
  shm_resize, resize_from, mail_resize, trim_from, insert_place, newline_run, insert_bytes,
  insert_header,
}
use fdm.Rules.{apply_op, apply_result, is_decided, move_up}
use fdm.Rules.Matching.{
  next_rule, fill_lambda, fill_named, queue_actions, finish_rule, next_expritem, settle_item,
  check_item, end_of_rules, at_rule, resume_match, mail_match,
}
use fdm.Prelude.{
  ℕ, zero, suc, ◌+◌, ◌≤◌, ◌≡◌, refl, ap, Bool, true, false, Option, none, some, [], ◌∷◌, ◌++◌,
  arith, length, Bytes, codes, memchr, bytes_eq, starts_with_case, starts_with,
}

abbrev rule : Rule Bool
rule = record {
  idx = 1;
  expr = record { match = false; op = op_none; inverted = true } ∷ [];
  users = none;
  stop = true;
  lambda = none;
  actions = [];
}

abbrev hooks : Hooks
hooks = record {
  Mail = ℕ × Decision;
  Match = Bool;
  User = ℕ;
  unwrap = λ m. m;
  rewrap = λ m. m;
  index = λ m. m.0 + 1;
  decision = λ m. m.1;
  set_decision = λ d m. (m.0, d);
  check = λ x matched m. (no_match, m);
  set_tags = λ t m. m;
  replace = λ s m. s;
  match_actions = λ s. [];
  user_lookup = λ s. some 1;
  def_user = some (codes "root");
  account_users = none;
  impl_act = decision_keep;
  tag_action = λ a i u m. m;
  run_deliver = λ d u m. (true, m);
  reset_tags = λ m. m;
  is_in_child = λ d. true;
  is_write_back = λ d. false;
  receive = λ m. some m;
}

abbrev letter : Text
letter = record {
  base = codes "A: b\n\nhi\n" ++ (0 ∷ 0 ∷ 0 ∷ []);
  space = 12;
  off = 0;
  size = 9;
  body = 0;
  wrapped = [];
  wrapchar = 0;
}

abbrev stamp : Bytes
stamp = codes "Received: by me"

-- The number of mails that are left.
abbrev provide : Flags → ℕ → Outcome (FetchCode × Flags × ℕ)
provide flags zero = ok (FetchCode.exit, flags, zero)
provide flags (suc n) = ok (FetchCode.mail, flags, n)

abbrev one_mail : FetchHooks hooks
one_mail = record {
  Source = ℕ;
  state = provide;
  mail = λ s. (s, decision_none);
  fresh_mail = λ s. s;
  commit = λ m s. (true, s);
  sockets = λ s. 0;
  text = λ m. letter;
  with_text = λ t m. m;
  attributes = λ n lines id t m. m;
  received = λ m. some stamp;
  grants = λ n. true;
  rules = cons rule nil nil;
}

abbrev settings : Conf
settings = record {
  max_size = 1000;
  del_big = false;
  keep_all = false;
  keep = false;
  queue_low = 1;
  queue_high = 2;
  purge_after = 0;
  no_received = false;
}

letter-IsFresh : IsFresh letter
letter-IsFresh = record {
  mail = record { block = refl; room = omega arith; bounded = omega arith };
  space = omega arith;
  unwrapped = refl;
  small = omega arith;
}

size_of : Option Bytes → ℕ
size_of none = 0
size_of (some s) = length s

settings-Provided : Provided hooks one_mail settings
unfolding size_of
settings-Provided = record {
  short = λ m hdr e. (let l : 15 ≡ length hdr = ap size_of e in omega (arith, l));
  granted = λ k. refl;
}

provide-Returns :
    (flags : Flags) (s : ℕ) → Returns (λ p. p.0 ≡ FetchCode.mail → IsFresh letter) (provide flags s)
provide-Returns flags zero = λ e. letter-IsFresh
provide-Returns flags (suc n) = λ e. letter-IsFresh

one_mail-Works : Works hooks one_mail settings
one_mail-Works = record {
  numbered = λ m e. omega (arith, e);
  whole = (λ e. ground arith, tt, tt);
  provided = settings-Provided;
  limit = omega arith;
  states = provide-Returns;
}

-- The same with a log of the commits.
abbrev journal : FetchHooks hooks
journal = logged hooks one_mail

journal-Works : Works hooks journal settings
journal-Works = logged-Works hooks one_mail settings one_mail-Works

abbrev at_start : Logged hooks ℕ
at_start = record { source = 1; log = []; taken = 0 }

abbrev first : Loop hooks journal settings
first = start hooks journal settings false at_start

enqueue-Enqueued_example :
    Returns
      (Enqueued hooks journal settings (7, decision_none) first.queues)
      (enqueue hooks journal settings (7, decision_none) first.queues)
enqueue-Enqueued_example =
    enqueue-Enqueued hooks journal settings journal-Works.provided (7, decision_none) first.queues
      letter-IsFresh

-- The loop goes on where the last round has left it.
abbrev behind : Outcome (Turn × Loop hooks journal settings) → Loop hooks journal settings
behind (ok (t, l)) = l
behind fatal = first
behind fault = first
behind diverge = first

-- The mail is fetched and queued, its rule holds, the rules are at their end, and it is committed.
abbrev second : Loop hooks journal settings
second = behind (round hooks journal settings none first)

abbrev third : Loop hooks journal settings
third = behind (round hooks journal settings none second)

abbrev fourth : Loop hooks journal settings
fourth = behind (round hooks journal settings none third)

run-test :
    (round hooks journal settings none first ≡ ok (repeats, second))
    × (round hooks journal settings none second ≡ ok (polls false, third))
    × (round hooks journal settings none third ≡ ok (finishes, fourth))
unfolding line_length line_init line_next body_from find_body count_from count_lines header_from
    skip_spaces trim_newlines header_value find_header wrapped_from fill_wrapped shm_resize
    resize_from mail_resize trim_from insert_place newline_run insert_bytes insert_header apply_op
    apply_result is_decided move_up next_rule fill_lambda fill_named queue_actions finish_rule
    next_expritem settle_item check_item end_of_rules at_rule resume_match mail_match count_decision
    commit_mail fetch_purge line_tags add_received new_ctx oversize headed fill_in enqueue
    update_holding may_block end_round take_mail fetched call_state fetch_more round start dequeue
    after_dequeue after_match match_from fetch_match after_deliver deliver_from fetch_deliver memchr
    bytes_eq starts_with_case starts_with
run-test = (refl, refl, refl)

third-Reached : Reached hooks journal settings at_start third
third-Reached =
    Reached.polled third none false tt run-test.1
      (Reached.repeated second none tt run-test.0 (Reached.starts false))

queued-bounded_example :
    (third.queues.queued ≡ length third.queues.matchq + length third.queues.deliverq)
    × (third.queues.queued ≤ 2)
queued-bounded_example =
    queued-bounded hooks journal settings journal-Works at_start third third-Reached

log_at_end : fourth.queues.source ≡ record { source = 0; log = (0, decision_drop) ∷ []; taken = 1 }
unfolding line_length line_init line_next body_from find_body count_from count_lines header_from
    skip_spaces trim_newlines header_value find_header wrapped_from fill_wrapped shm_resize
    resize_from mail_resize trim_from insert_place newline_run insert_bytes insert_header apply_op
    apply_result is_decided move_up next_rule fill_lambda fill_named queue_actions finish_rule
    next_expritem settle_item check_item end_of_rules at_rule resume_match mail_match count_decision
    commit_mail fetch_purge line_tags add_received new_ctx oversize headed fill_in enqueue
    update_holding may_block end_round take_mail fetched call_state fetch_more round start dequeue
    after_dequeue after_match match_from fetch_match after_deliver deliver_from fetch_deliver memchr
    bytes_eq starts_with_case starts_with
log_at_end = refl

round-AfterRound_example :
    Ends
      (Undecided hooks journal settings)
      (AfterRound hooks journal settings)
      (round hooks journal settings none first)
round-AfterRound_example =
    round-AfterRound hooks journal settings journal-Works none first tt
      (start-Kept hooks journal settings false at_start)
