-- ===== src/Imap.antt =====
-- imap-common.c: fetching mail from an IMAP server. As in Pop3, a handler takes the session to a
-- FETCH_ code and the next session. Replies are parsed by their tags.
pub mod Login
pub mod Folder
pub mod Fetch
pub mod Machine
pub mod Account
pub mod Reached
pub mod Literal
pub mod Search
use fdm.Mail.{Mail}
use fdm.Outcome.{Outcome, ok, ◌>>=◌}
use fdm.Pop3.{FetchOnly, FetchCode, again, block, error, Reply, failed, no_line, reply}
use fdm.Prelude.{
  ℕ, zero, suc, ◌+◌, ◌-◌, ◌*◌, ◌/◌, ◌%◌, ◌^◌, ◌≤◌, ◌<◌, ◌≡◌, refl, sym, ap, ◌∙◌, ◌≢◌, ◌↔◌, ◌⊎◌, inl,
  inr, Bool, true, false, not, ◌&&◌, ◌||◌, Option, none, some, List, [], ◌∷◌, ◌++◌, map, append-nil,
  append_assoc, arith, ltb, leb, ◌==◌, if◌then◌else◌, ==_iff, Bool-cases, Option-cases, length,
  get_elem?, take, drop, length-append, length-take, length-drop, take-append-drop,
  take-append_exact, drop-append_exact, take-all, take-append_le, drop-append_le, drop-drop,
  drop-take, take-add, take-take_le, length-take_le, list_cases, All, All-append, get_elem-All,
  Bytes, codes, size_mod, size_max, sub_size, add_size, u32_mod, memchr, to_lower, is_space,
  is_blank, is_digit, bytes_eq, starts_with_case, starts_with, eq_self, bytes_eq_refl,
}

-- The handler that `fctx->state` points to.
pub data State : Type 0 where
  connect connected capability1 capability2 cram_md5_auth login user pass : State
  select1 select2 select3 select4 search1 search2 search3 : State
  next body line mail commit expunge close quit : State

-- IMAP_TAGGED and the other types of reply that a state waits for.
pub data Wanted : Type 0 where
  tagged continue untagged raw : Wanted

-- The result of `imap_tag`.
pub data Tag : Type 0 where
  tag_none tag_continue tag_error : Tag
  tag_number : ℕ → Tag

-- The result of `imap_parse`.
pub data Parsed : Type 0 where
  bad good ignored : Parsed

pub data Command : Type 0 where
  send_capability send_authenticate send_expunge send_close send_logout : Command
  send_search : FetchOnly → Command
  -- LOGIN and SELECT with the length of the literal that follows
  send_login send_select : ℕ → Command
  send_deleted send_seen send_fetch : ℕ → Command

-- A line that the client sends: a command behind its tag, or a literal, perhaps with the length of
-- the one that follows.
pub data Line : Type 0 where
  command : ℕ → Command → Line
  literal : Bytes → Line
  literal_then : Bytes → ℕ → Line

-- What the code takes from others: the connection, `strtonum` (from 0 to INT_MAX), `sscanf` on the
-- kinds of reply, base 64 with the size of the result's block, HMAC-MD5 of key and text as
-- hexadecimal digits, the memory of mails, and the account's settings.
pub record ImapHooks : Type 1 where
  pub put_ok : List Line → Bool
  pub connect_ok : List Line → Bool
  pub strtonum : Bytes → Option ℕ
  pub scan_exists : Bytes → Option ℕ
  pub scan_uid : Bytes → Option ℕ
  pub scan_fetch : Bytes → Option ℕ
  pub scan_size : Bytes → Option ℕ
  pub b64_ntop : Bytes → ℕ → Option Bytes
  pub b64_pton : Bytes → ℕ → Option Bytes
  pub hmac_md5 : Bytes → Bytes → Bytes
  pub grants : ℕ → Bool
  pub max_size : ℕ
  pub user : Option Bytes
  pub pass : Option Bytes
  pub nocrammd5 : Bool
  pub nologin : Bool
  pub folders : List Bytes
  pub only : FetchOnly

-- `imap_okay`: the word behind the first space is OK.
abbrev is_ok : Bytes → Bool
is_ok s = starts_with s (codes "OK") && elim (get_elem? s 2) [ none ↦ true | some c ↦ c == b' ' ]

unfoldable pub okay : Bytes → Bool
okay l = elim (memchr b' ' l) [ none ↦ false | some i ↦ is_ok (drop (i + 1) l) ]

module _ (h : ImapHooks) where
  -- `imap_tag`. The line is as it was afterwards; where it has no space, the source writes one over
  -- its NUL.
  unfoldable pub tag_of : Bytes → Tag
  tag_of l =
      if starts_with l (codes "* ")
      then tag_none
      else if starts_with l (codes "+")
      then tag_continue
      else elim (h.strtonum (elim (memchr b' ' l) [ none ↦ l | some i ↦ take i l ])) [
        | none ↦ tag_error
        | some n ↦ tag_number n
      ]

  unfoldable pub parse_tag : Wanted → ℕ → Tag → Parsed
  parse_tag raw n t = good
  parse_tag tagged n tag_none = ignored
  parse_tag tagged n (tag_number m) = if m == n then good else bad
  parse_tag tagged n _ = bad
  parse_tag untagged n tag_none = good
  parse_tag untagged n _ = bad
  parse_tag continue n tag_none = ignored
  parse_tag continue n tag_continue = good
  parse_tag continue n _ = bad

  -- `imap_parse`.
  unfoldable pub parse : Wanted → ℕ → Bytes → Parsed
  parse w n l = parse_tag w n (tag_of l)

  -- struct fetch_imap_data and struct fetch_ctx, with the connection. `aux` is the UID of the mail
  -- being fetched, in `text`.
  pub record Session : Type 0 where
    pub state : State
    pub purge : Bool
    pub is_empty : Bool
    pub poll : Bool
    pub folder : ℕ
    pub folders_total : ℕ
    pub capa_cram_md5 : Bool
    pub capa_xyzzy : Bool
    pub tag : ℕ
    pub wanted : List ℕ
    pub dropped : List ℕ
    pub kept : List ℕ
    pub total : ℕ
    pub committed : ℕ
    pub flushing : Bool
    pub size : ℕ
    pub lines : ℕ
    pub aux : Option ℕ
    pub text : Mail
    pub input : List Reply
    pub sent : List Line

  abbrev pub Step : Type 0
  Step = Outcome (FetchCode × Session)

  abbrev pub fail : Session → Step
  fail s = ok (error, s)

  abbrev pub goto : State → Session → Step
  goto st s = ok (again, record s { state = st })

  -- `imap_putln`, and then `state` with FETCH_BLOCK.
  unfoldable pub put : Line → State → Session → Step
  put l st s =
      let s' : Session = record s { sent = l ∷ s.sent } in
      if h.put_ok (l ∷ s.sent) then ok (block, record s' { state = st }) else fail s'

  -- The same with `++data->tag` in front; a session sends fewer than 2 ^ 31 commands, so the `int`
  -- does not overflow.
  unfoldable pub put_command : Command → State → Session → Step
  put_command c st s = let n = s.tag + 1 in put (command n c) st (record s { tag = n })

  -- `imap_getln` with its two early returns; `k` goes on with a line.
  unfoldable pub get_line : Wanted → (Bytes → Session → Step) → List Reply → Session → Step
  get_line w k [] s = ok (block, record s { input = [] })
  get_line w k (failed ∷ rs) s = fail (record s { input = rs })
  get_line w k (no_line ∷ rs) s = ok (block, record s { input = rs })
  get_line w k (reply l ∷ rs) s = elim (parse w s.tag l) [
    | bad ↦ fail (record s { input = rs })
    | good ↦ k l (record s { input = rs })
    | ignored ↦ get_line w k rs s
  ]

  unfoldable pub get : Wanted → (Bytes → Session → Step) → Session → Step
  get w k s = get_line w k s.input s

  -- A tagged reply that must be OK.
  unfoldable pub get_okay : (Session → Step) → Session → Step
  get_okay k s = get tagged (λ l t. if okay l then k t else fail t) s

  -- `imap_commit`; the mail was fetched with a UID.
  unfoldable pub commit_mail : Bool → ℕ → Session → FetchCode × Session
  commit_mail drop uid s = (
    again,
    if drop
        then record s { dropped = s.dropped ++ (uid ∷ []) }
        else record s { kept = s.kept ++ (uid ∷ []) },
  )

  -- `imap_state_init`.
  unfoldable pub init : Session → Step
  init s =
      goto connect
        (record s { dropped = []; kept = []; wanted = []; tag = 0; folder = 0; folders_total = 0 })
