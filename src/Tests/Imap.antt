-- ===== src/Tests/Imap.antt =====
-- A server whose replies carry small numbers, and a session that fetches one mail from it.
use fdm.Imap.{
  Session, ImapHooks, init, commit_mail, search2, line, next, send_close, close, put_command,
  command, send_seen, send_fetch, send_search, send_select, put, get, get_line, get_okay, okay,
  parse, parse_tag, tag_of,
}
use fdm.Imap
use fdm.Imap.Account.{Inv, Keeps}
use fdm.Imap.Account.Calls.{handler-account}
use fdm.Imap.Fetch.{
  state_line, state_next, state_body, state_mail, state_commit, pick_next, find_string, open_mail,
  lines_from, last_line,
}
use fdm.Imap.Folder.{
  state_select1, state_select2, state_select3, state_select4, state_search1, state_search2,
  state_search3, with_folder, exists_from, uids_from, word_end, searched,
}
use fdm.Imap.Machine.{handler}
use fdm.Imap.Literal.{literal, octets, Received, Flushed, state_line-literal, state_line-Flushed}
use fdm.Imap.Reached.{Reached, started, called, committed, arrived, closes-first_folder}
use fdm.Imap.Search.{Readable, uids_of, spelled, state_search2-Readable}
use fdm.Outcome.{ok, Ends}
use fdm.Imap.Login.{state_connect, state_connected, skip_blanks}
use fdm.Mail.Store.{mail_open, zeros}
use fdm.Pop3.{only_all, again, block, Reply, reply, no_line}
use fdm.Pop3.Lines.{joined}
use fdm.Tests.Pop3.{blank, blank-IsMail}
use fdm.Prelude.{
  ℕ, ◌-◌, ◌≡◌, refl, true, false, Option, none, some, List, [], ◌∷◌, arith, if◌then◌else◌, drop,
  Bytes, codes, memchr, is_digit, starts_with_case, starts_with,
}

-- The value of the digit at the start.
abbrev digit : Bytes → Option ℕ
digit [] = none
digit (c ∷ s) = if is_digit c then some (c - b'0') else none

abbrev server : ImapHooks
server = record {
  put_ok = λ ls. true;
  connect_ok = λ ls. true;
  strtonum = digit;
  scan_exists = λ l. some 1;
  scan_uid = digit;
  scan_fetch = λ l. some 1;
  scan_size = λ p. digit (drop 8 p);
  b64_ntop = λ s n. some s;
  b64_pton = λ s n. some s;
  hmac_md5 = λ k t. t;
  grants = λ n. true;
  max_size = 1000;
  user = some (codes "me");
  pass = some (codes "pw");
  nocrammd5 = false;
  nologin = false;
  folders = codes "INBOX" ∷ codes "old" ∷ [];
  only = only_all;
}

abbrev fresh : Session server
fresh = record {
  state = Imap.connect;
  purge = false;
  is_empty = false;
  poll = false;
  folder = 0;
  folders_total = 0;
  capa_cram_md5 = false;
  capa_xyzzy = false;
  tag = 0;
  wanted = [];
  dropped = [];
  kept = [];
  total = 0;
  committed = 0;
  flushing = false;
  size = 0;
  lines = 0;
  aux = none;
  text = blank;
  input = [];
  sent = [];
}

abbrev mail_lines : List Bytes
mail_lines = codes "A: b" ∷ [] ∷ []

-- The literal of a mail of 10 bytes, whose last line has no end.
abbrev reading : Session server
reading = record fresh {
  state = line;
  tag = 4;
  total = 1;
  folders_total = 1;
  size = 10;
  aux = some 7;
  input = literal mail_lines (codes "hi") (no_line ∷ []);
}

state_line-literal_example :
    Ends ⊥ (Received server (codes "A: b\n\nhi") (no_line ∷ [])) (state_line server reading)
unfolding joined literal octets
state_line-literal_example =
    state_line-literal server mail_lines (codes "hi") (no_line ∷ []) reading refl blank-IsMail
      (omega arith) refl refl (omega arith) (omega arith)

abbrev too_large : Session server
too_large = record reading { flushing = true }

state_line-Flushed_example : Ends ⊥ (Flushed server too_large) (state_line server too_large)
state_line-Flushed_example = state_line-Flushed server too_large refl

abbrev searching : Session server
searching = record fresh {
  state = search2;
  tag = 2;
  input = reply (codes "* SEARCH 7 9") ∷ no_line ∷ [];
}

abbrev found : List (Bytes × ℕ)
found = (codes "7", 7) ∷ (codes "9", 9) ∷ []

found-Readable : Readable server found
unfolding Readable spelled
found-Readable = (
  (record { has_bytes = omega arith; no_space = (refl, tt) }, λ rest. refl),
  ((record { has_bytes = omega arith; no_space = (refl, tt) }, λ rest. refl), tt),
)

state_search2-Readable_example :
    state_search2 server searching
    ≡ ok (
      again,
      record searching { input = no_line ∷ []; wanted = 7 ∷ 9 ∷ []; state = Imap.search3 },
    )
unfolding spelled uids_of
state_search2-Readable_example =
    state_search2-Readable server found (no_line ∷ []) searching refl found-Readable

reading-Inv : Inv server 0 reading
reading-Inv = record {
  balance = record { sum = refl; counter = omega arith };
  unsearched = tt;
  fetches = refl;
}

handler-account_example : Keeps server 0 (handler server line reading)
handler-account_example = handler-account server 0 reading reading-Inv

-- What the server sends to a client that needs no login: a folder with one mail.
abbrev replies : List Reply
replies =
    reply (codes "* PREAUTH hello")
    ∷ reply (codes "+ go on")
    ∷ reply (codes "* 1 EXISTS")
    ∷ reply (codes "1 OK selected")
    ∷ reply (codes "* SEARCH 7")
    ∷ reply (codes "2 OK found")
    ∷ reply (codes "* 1 FETCH (BODY[] {0}")
    ∷ reply (codes ")")
    ∷ reply (codes "3 OK fetched")
    ∷ reply (codes "4 OK stored")
    ∷ no_line
    ∷ []

abbrev connected_session : Session server
connected_session = record fresh { state = Imap.connected; input = replies }

connected_session-Reached : Reached server 0 connected_session
unfolding init handler state_connect
connected_session-Reached =
    arrived 0 replies _ (called 0 block fresh _ (started fresh fresh refl refl refl) refl refl)

-- The session behind the mail of the first folder, which is kept.
abbrev fetched : Session server
fetched = record connected_session {
  state = next;
  tag = 4;
  total = 1;
  folders_total = 1;
  committed = 1;
  aux = some 7;
  text = record blank { base = zeros 16384; space = 16384 };
  input = no_line ∷ [];
  sent =
      command 4 (send_seen 7)
      ∷ command 3 (send_fetch 7)
      ∷ command 2 (send_search only_all)
      ∷ Imap.literal (codes "INBOX")
      ∷ command 1 (send_select 5)
      ∷ [];
}

fetched-Reached : Reached server 0 fetched
unfolding handler state_connect state_connected state_select1 state_select2 state_select3
    state_select4 state_search1 state_search2 state_search3 state_next state_body state_line
    state_mail get get_line get_okay parse parse_tag tag_of okay starts_with starts_with_case memchr
    put put_command with_folder exists_from uids_from word_end searched skip_blanks pick_next
    find_string open_mail mail_open lines_from last_line state_commit commit_mail
fetched-Reached =
    let selecting = called 0 _ _ _ connected_session-Reached refl refl in
    let named = called 0 _ _ _ (called 0 _ _ _ selecting refl refl) refl refl in
    let selected = called 0 _ _ _ (called 0 _ _ _ named refl refl) refl refl in
    let asked = called 0 _ _ _ selected refl refl in
    let listed = called 0 _ _ _ (called 0 _ _ _ asked refl refl) refl refl in
    let opened = called 0 _ _ _ (called 0 _ _ _ listed refl refl) refl refl in
    let received = called 0 _ _ _ (called 0 _ _ _ opened refl refl) refl refl in
    let kept_mail = committed 0 false 7 _ received in
    called 0 _ _ _ (called 0 _ _ _ kept_mail refl refl) refl refl

closes-first_folder_example :
    state_next server fetched ≡ put_command server send_close close fetched
closes-first_folder_example =
    closes-first_folder server fetched fetched-Reached refl refl refl refl refl
