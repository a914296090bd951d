-- ===== src/Tests/Pop3.antt =====
-- A server that accepts every command, with a tree that is a list.
use fdm.Outcome.{ok, Ends}
use fdm.Mail.{Mail}
use fdm.Mail.Lines.{IsMail}
use fdm.Pop3.{
  PopMail, only_all, connect, connected, line, quit, again, block, no_line, send_quit, Pop3Hooks,
  Session, put, init, state_next, state_connect,
}
use mathlib.Core.List.{Perm}
use fdm.Pop3.Order.{IsSorted, wanted_of, build_wantq-IsSorted}
use fdm.Pop3.Resolve.{build_wantq}
use fdm.Pop3.Transfer.{state_line}
use fdm.Pop3.Lines.{stuff, joined, transfer, Received, state_line-Received}
use fdm.Pop3.Machine.{handler}
use fdm.Pop3.Account.{Inv, Keeps}
use fdm.Pop3.Account.Calls.{handler-Inv}
use fdm.Pop3.Account.Reached.{Reached, called, started, quits_when_committed}
use fdm.Prelude.{
  ◌≡◌, refl, true, false, Option, none, some, List, [], ◌∷◌, ◌++◌, arith, if◌then◌else◌, Bytes,
  codes, bytes_eq,
}

unfoldable find_uid : List PopMail → Bytes → Option PopMail
find_uid [] uid = none
find_uid (a ∷ bs) uid = if bytes_eq a.uid uid then some a else find_uid bs uid

abbrev server : Pop3Hooks
server = record {
  Tree = List PopMail;
  empty = [];
  find = find_uid;
  insert = λ t a. a ∷ t;
  remove = λ t uid. t;
  items = λ t. t;
  put_ok = λ cs. true;
  connect_ok = λ cs. true;
  scan_stat = λ l. some (1, 9);
  scan_uidl = λ l. some 1;
  scan_list = λ l. some (1, 9);
  md5_hex = λ l. l;
  load = λ t. some t;
  save = λ t. true;
  grants = λ n. true;
  max_size = 1000;
  user = codes "me";
  pass = codes "pw";
  apop = false;
  uidl = true;
  only = only_all;
}

abbrev wanted : PopMail
wanted = record { uid = codes "x"; idx = 1 }

abbrev pub blank : Mail
blank = record {
  base = 0 ∷ 0 ∷ [];
  space = 2;
  off = 0;
  size = 0;
  body = 0;
  wrapped = [];
  wrapchar = 0;
}

pub blank-IsMail : IsMail blank
blank-IsMail = record { block = refl; room = omega arith; bounded = omega arith }

-- A dot-stuffed line, and the end of the mail.
abbrev lines : List Bytes
lines = codes "hello" ∷ codes ".x" ∷ []

abbrev reading : Session server
reading = record {
  state = line;
  purge = false;
  is_empty = false;
  poll = false;
  cur = 1;
  num = 1;
  total = 1;
  committed = 0;
  serverq = wanted ∷ [];
  cacheq = [];
  wantq = wanted ∷ [];
  dropq = [];
  flushing = false;
  size = 9;
  aux = some wanted;
  text = blank;
  input = transfer lines (no_line ∷ []);
  sent = [];
}

state_line-Received_example :
    Ends ⊥ (Received server (codes "hello\n.x\n") (no_line ∷ [])) (state_line server reading)
unfolding joined transfer stuff
state_line-Received_example =
    state_line-Received server lines wanted (no_line ∷ []) reading refl blank-IsMail (omega arith)
      refl refl (omega arith) (omega arith)

reading-Inv : Inv server 0 reading
reading-Inv = record {
  balance = record { sum = refl; counter = omega arith };
  fetching = (wanted, [], refl, refl);
}

handler-Inv_example : Keeps server 0 (handler server line reading)
handler-Inv_example = handler-Inv server 0 reading reading-Inv

abbrev started_session : Session server
started_session = record reading {
  state = connect;
  wantq = [];
  total = 0;
  num = 0;
  serverq = [];
  aux = none;
  input = [];
}

begun : init server started_session ≡ ok (again, started_session)
unfolding init
begun = refl

abbrev waiting : Session server
waiting = record started_session { state = connected }

-- The connection is made, with nothing to fetch yet.
waiting-Reached : Reached server 0 waiting
unfolding handler state_connect
waiting-Reached =
    called 0 block started_session waiting (started started_session started_session begun) refl refl

quits_when_committed_example : state_next server waiting ≡ put server send_quit quit waiting
quits_when_committed_example =
    quits_when_committed server 0 waiting waiting-Reached (omega arith) refl refl

-- Two mails of the server, in the order of a tree, and none in the queue before.
abbrev two_mails : List PopMail
two_mails = record { uid = codes "y"; idx = 2 } ∷ record { uid = codes "z"; idx = 1 } ∷ []

build_wantq-IsSorted_example :
    IsSorted (build_wantq server [] two_mails [] 0).0
    × Perm (build_wantq server [] two_mails [] 0).0 (wanted_of server [] two_mails ++ [])
build_wantq-IsSorted_example = build_wantq-IsSorted server [] two_mails [] 0 tt
