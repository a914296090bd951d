-- ===== src/Tests/Nntp.antt =====
-- A server with one group, a cache file whose numbers have one digit, and a session.
use fdm.Nntp.{
  State, Group, Scan, at_eof, no_match, scanned, written, NntpHooks, Session, code_of,
  leading_digits,
}
use fdm.Nntp
use fdm.Nntp.Cache.{load, printed}
use fdm.Nntp.Lines.{article, Taken, state_line-Taken}
use fdm.Nntp.Machine.{handler}
use fdm.Nntp.Restored.{Distinct, Configured, reloaded, load-printed}
use fdm.Nntp.Safe.{Inv, After}
use fdm.Nntp.Safe.Calls.{Input, handler-After}
use fdm.Nntp.Saved.{Scans, IsClear, Refused, Savable}
use fdm.Nntp.States.{first_groups, state_line}
use fdm.Outcome.{Ends}
use fdm.Pop3.Lines.{joined, stuff}
use fdm.Tests.Pop3.{blank, blank-IsMail}
use fdm.Prelude.{
  ℕ, ◌+◌, ◌-◌, ◌*◌, ◌≡◌, refl, ap, true, false, none, some, List, [], ◌∷◌, map, arith,
  if◌then◌else◌, Bytes, codes, is_space, bytes_eq,
}

-- The blanks in front are skipped, and then one byte is the number.
unfoldable after_blanks : Bytes → Bytes
after_blanks [] = []
after_blanks (c ∷ l) = if is_space c then after_blanks l else c ∷ l

unfoldable number : Bytes → Scan
number [] = at_eof
number (c ∷ l) = scanned (c - 33) (after_blanks l)

-- A number is written as the byte that far behind the blank.
abbrev server : NntpHooks
server = record {
  connect_ok = true;
  strtonum = λ l. elim l [ [] ↦ none | c ∷ l ↦ some ((c - b'0') * 100) ];
  scan_223 = λ l. some 1;
  scan_211 = λ l. some (1, 1);
  decimal = λ n. (n + 33) ∷ [];
  scan_size = λ l. number (after_blanks l);
  scan_last = λ l. number (after_blanks l);
  can_open = true;
  write_file = λ l. written;
  grants = λ n. true;
  max_size = 1000;
  user = none;
  pass = none;
  names = codes "a" ∷ codes "b" ∷ [];
}

number_clear : (n : ℕ) → is_space (n + 33) ≡ false
number_clear n = ground arith

after_blanks-IsClear : (x : Bytes) → IsClear x → after_blanks x ≡ x
unfolding after_blanks
after_blanks-IsClear [] c = absurd c
after_blanks-IsClear (b ∷ x) c = rw (after_blanks, c) refl

server-digits :
    (n : ℕ) (x : Bytes) → IsClear x → number (after_blanks ((n + 33) ∷ b' ' ∷ x)) ≡ scanned n x
unfolding after_blanks number
server-digits n x c =
    rw (after_blanks, number_clear n, number, after_blanks-IsClear x c)
      (ap (λ k. scanned k x) (omega arith))

server-Scans : Scans server
unfolding after_blanks number
server-Scans = record {
  digits_clear = λ n x. number_clear n;
  size_digits = server-digits;
  last_digits = server-digits;
  size_newline = λ x. refl;
  size_end = refl;
}

abbrev groups : List Group
groups =
    record { name = codes "a"; ignore = false; size = 4; last = 9; id = some (codes "1@a") }
    ∷ record { name = codes "b"; ignore = false; size = 2; last = 0; id = none }
    ∷ []

groups-Savable : Savable groups
unfolding Savable
groups-Savable = (
  (
    record { clear = refl; no_nul = (refl, tt); short = omega arith },
    record { clear = refl; no_nul = (refl, (refl, (refl, tt))); short = omega arith },
  ),
  ((record { clear = refl; no_nul = (refl, tt); short = omega arith }, tt), tt),
)

groups-Distinct : Distinct groups
unfolding Distinct bytes_eq
groups-Distinct = ((refl, tt), (tt, tt))

groups-Configured : Configured groups
unfolding Configured
groups-Configured = ((refl, λ e. absurd (ground (arith, e))), ((refl, λ e. refl), tt))

load-printed_example :
    Ends
      (Refused server)
      (λ r. r ≡ some (map reloaded groups))
      (load server (some (printed server groups)) (first_groups (codes "a" ∷ codes "b" ∷ [])))
load-printed_example =
    load-printed server server-Scans groups groups-Configured groups-Distinct groups-Savable refl

abbrev session : Session server
session = record {
  state = Nntp.line;
  group = 0;
  groups = groups;
  flushing = false;
  text = blank;
  file = none;
  input = article (codes "hi" ∷ codes ".x" ∷ []) [];
  sent = [];
}

state_line-Taken_example : Ends ⊥ (Taken server (codes "hi\n.x\n") []) (state_line server session)
unfolding joined
state_line-Taken_example =
    state_line-Taken server (codes "hi" ∷ codes ".x" ∷ []) [] session refl blank-IsMail
      (omega arith) refl (omega arith)

session-Inv : Inv server session
session-Inv = record {
  known = (tt, (refl, tt));
  ready = (
    omega arith,
    record {
      valid = blank-IsMail;
      space = omega arith;
      at_start = refl;
      within = λ f. omega arith;
    },
  );
}

session-Input : Input server session
unfolding article stuff
session-Input = record {
  accepts = λ e. absurd (ground (arith, e));
  lines = (omega arith, (omega arith, (omega arith, tt)));
  limit = omega arith;
}

handler-After_example : Ends ⊥ (After server) (handler server Nntp.line session)
handler-After_example =
    handler-After server session session-Inv session-Input (λ e. ground (arith, e))

abbrev unconnected : Session server
unconnected = record session {
  state = Nntp.connect;
  groups = [];
  file = some (printed server groups);
}
