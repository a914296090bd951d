-- ===== src/Pop3.antt =====
-- pop3-common.c: fetching mail from a POP3 server. The state machine is driven by the replies of
-- the server; a handler returns a FETCH_ code and the new state.
pub mod Resolve
pub mod Transfer
pub mod Lines
pub mod Account
pub mod Machine
pub mod Order
use fdm.Outcome.{Outcome, ok, fatal, fault, diverge, ◌>>=◌}
use fdm.Mail.{Mail}
use fdm.Prelude.{
  ℕ, zero, suc, ◌+◌, ◌-◌, ◌*◌, ◌/◌, ◌%◌, ◌^◌, ◌≤◌, ◌<◌, ◌≡◌, refl, sym, ap, ◌∙◌, ◌≢◌, ◌↔◌, ◌⊎◌, inl,
  inr, Bool, true, false, not, ◌&&◌, ◌||◌, Option, none, some, List, [], ◌∷◌, ◌++◌, map, append-nil,
  append_assoc, arith, ltb, leb, ◌==◌, if◌then◌else◌, ==_iff, Bool-cases, Option-cases, length,
  get_elem?, take, drop, length-append, length-take, length-drop, take-append-drop,
  take-append_exact, drop-append_exact, take-all, take-append_le, drop-append_le, drop-drop,
  drop-take, take-add, take-take_le, length-take_le, list_cases, All, All-append, get_elem-All,
  Bytes, codes, size_mod, size_max, sub_size, add_size, u32_mod, memchr, to_lower, is_space,
  is_blank, is_digit, bytes_eq, starts_with_case, starts_with, eq_self, bytes_eq_refl,
}

-- struct fetch_pop3_mail.
pub record PopMail : Type 0 where
  pub uid : Bytes
  pub idx : ℕ

-- enum fetch_only.
pub data FetchOnly : Type 0 where
  only_new only_old only_all : FetchOnly

-- The handler that `fctx->state` points to.
pub data State : Type 0 where
  connect connected user stat first cache1 cache2 cache3 next delete reconnect : State
  list retr line quit : State

-- FETCH_AGAIN and the other results.
pub data FetchCode : Type 0 where
  again block error mail exit : FetchCode

-- A line that the client sends.
pub data Command : Type 0 where
  send_user send_pass : Bytes → Command
  send_apop : Bytes → Bytes → Command
  send_stat send_uidl send_quit : Command
  send_dele send_list send_retr : ℕ → Command

-- What one call of `data->getln` gives: an error, no line yet, or a line.
pub data Reply : Type 0 where
  failed no_line : Reply
  reply : Bytes → Reply

-- What the code takes from others: the splay trees of compat/tree.h, keyed by UID, the connection,
-- the C library's `sscanf` on the three kinds of reply, MD5 as hexadecimal digits, the cache file,
-- and the account's settings.
pub record Pop3Hooks : Type 1 where
  pub Tree : Type 0
  pub empty : Tree
  pub find : Tree → Bytes → Option PopMail
  pub insert : Tree → PopMail → Tree
  pub remove : Tree → Bytes → Tree
  -- in the order of SPLAY_FOREACH
  pub items : Tree → List PopMail
  -- whether a command is written, by all that was sent up to it, the last first
  pub put_ok : List Command → Bool
  pub connect_ok : List Command → Bool
  pub scan_stat : Bytes → Option (ℕ × ℕ)
  pub scan_uidl : Bytes → Option ℕ
  pub scan_list : Bytes → Option (ℕ × ℕ)
  pub md5_hex : Bytes → Bytes
  -- pop3_load and pop3_save
  pub load : Tree → Option Tree
  pub save : Tree → Bool
  pub grants : ℕ → Bool
  pub max_size : ℕ
  pub user : Bytes
  pub pass : Bytes
  pub apop : Bool
  pub uidl : Bool
  pub only : FetchOnly

-- `u_int` counters.
abbrev pub up : ℕ → ℕ
up n = (n + 1) % u32_mod

abbrev pub down : ℕ → ℕ
down n = (n + u32_mod - 1) % u32_mod

-- The part of a greeting from '<' to '>', for APOP.
unfoldable pub timestamp : Bytes → Option Bytes
timestamp l = elim (memchr b'<' l) [
  | none ↦ none
  | some i ↦ elim (memchr b'>' (drop (i + 1) l)) [
    | none ↦ none
    | some j ↦ some (take (j + 2) (drop i l))
  ]
]

-- Mails 1 to `num`, where the server has no UIDL.
unfoldable pub number_mails : ℕ → ℕ → List PopMail
number_mails i zero = []
number_mails i (suc n) = record { uid = []; idx = i } ∷ number_mails (i + 1) n

abbrev pub is_only_old : FetchOnly → Bool
is_only_old only_old = true
is_only_old _ = false

module _ (h : Pop3Hooks) where
  open h use {Tree}

  -- struct fetch_pop3_data and struct fetch_ctx, with the connection: the replies to come and the
  -- commands sent, the last first. `aux` is the mail being fetched, in `text`.
  pub record Session : Type 0 where
    pub state : State
    pub purge : Bool
    pub is_empty : Bool
    pub poll : Bool
    pub cur : ℕ
    pub num : ℕ
    pub total : ℕ
    pub committed : ℕ
    pub serverq : Tree
    pub cacheq : Tree
    pub wantq : List PopMail
    pub dropq : List PopMail
    pub flushing : Bool
    pub size : ℕ
    pub aux : Option PopMail
    pub text : Mail
    pub input : List Reply
    pub sent : List Command

  abbrev pub Step : Type 0
  Step = Outcome (FetchCode × Session)

  abbrev pub fail : Session → Step
  fail s = ok (error, s)

  -- `pop3_putln`, and then `state` with FETCH_BLOCK.
  unfoldable pub put : Command → State → Session → Step
  put c st s =
      let s' : Session = record s { sent = c ∷ s.sent } in
      if h.put_ok (c ∷ s.sent) then ok (block, record s' { state = st }) else fail s'

  -- `pop3_getln` with its two early returns; `k` goes on with a line.
  unfoldable pub get_line : (Bytes → Session → Step) → List Reply → Session → Step
  get_line k [] s = ok (block, s)
  get_line k (failed ∷ rs) s = fail (record s { input = rs })
  get_line k (no_line ∷ rs) s = ok (block, record s { input = rs })
  get_line k (reply l ∷ rs) s = k l (record s { input = rs })

  -- `pop3_okay`: any other line is an error, too.
  unfoldable pub get_okay : (Bytes → Session → Step) → Session → Step
  get_okay k s =
      get_line (λ l s'. if starts_with l (codes "+OK") then k l s' else fail s') s.input s

  abbrev pub goto : State → Session → Step
  goto st s = ok (again, record s { state = st })

  -- `pop3_commit`: a mail to be dropped waits for its DELE; any other is done with, and cached.
  unfoldable pub cache_mail : PopMail → Tree → Tree
  cache_mail a t = elim (h.find t a.uid) [ none ↦ h.insert t a | some _ ↦ t ]

  -- The counter goes up, and the cache is saved unless only old mail is fetched.
  unfoldable pub count_mail : PopMail → Session → Bool × Session
  count_mail a s =
      let t = cache_mail a s.cacheq in
      let s' : Session = record s { cacheq = t; committed = up s.committed } in
      (is_only_old h.only || h.save t, s')

  unfoldable pub commit : Bool → PopMail → Session → FetchCode × Session
  commit drop a s =
      if drop
      then (again, record s { dropq = s.dropq ++ (a ∷ []) })
      else let (good, s') = count_mail a s in (if good then again else error, s')

  -- `pop3_state_init`.
  unfoldable pub init : Session → Step
  init s = goto connect (record s {
    serverq = h.empty;
    cacheq = h.empty;
    wantq = [];
    dropq = [];
    total = 0;
    committed = 0;
  })

  unfoldable pub state_connect : Session → Step
  state_connect s =
      if h.connect_ok s.sent then ok (block, record s { state = connected }) else fail s

  unfoldable pub state_connected : Session → Step
  state_connected = get_okay (λ l s. elim (if h.apop then timestamp l else none) [
    | some t ↦ put (send_apop h.user (h.md5_hex (t ++ h.pass))) stat s
    | none ↦ put (send_user h.user) user s
  ])

  unfoldable pub state_user : Session → Step
  state_user = get_okay (λ _ s. put (send_pass h.pass) stat s)

  unfoldable pub state_stat : Session → Step
  state_stat = get_okay (λ _ s. put send_stat first s)

  unfoldable pub state_first : Session → Step
  state_first = get_okay (λ l s. elim (h.scan_stat l) [
    | none ↦ fail s
    | some (num, _) ↦
        let s' : Session = record s { num = num; cur = 0 } in
        if num == 0
        then (if not (s.total == 0) then goto next s' else put send_quit quit s')
        else if not h.uidl
        then goto next
            (record s' { wantq = s.wantq ++ number_mails 1 num; total = (s.total + num) % u32_mod })
        else put send_uidl cache1 s'
  ])

  unfoldable pub state_cache1 : Session → Step
  state_cache1 = get_okay (λ _ s. goto cache2 (record s { serverq = h.empty }))

  -- The next command, by what is left to do: a mail to delete, nothing, a purge, or a mail to fetch.
  unfoldable pub pick_next : List PopMail → List PopMail → Session → Step
  pick_next (a ∷ _) want s = put (send_dele a.idx) delete s
  pick_next [] [] s = if not (s.committed == s.total) then ok (block, s) else put send_quit quit s
  pick_next [] (a ∷ _) s =
      if s.purge
      then (if s.is_empty
          then put send_quit reconnect (record s { purge = false })
          else ok (block, s))
      else put (send_list a.idx) list (record s { aux = some a })

  unfoldable pub state_next : Session → Step
  state_next s = pick_next s.dropq s.wantq s

  -- The mail at the front of the drop queue is gone from the server.
  unfoldable pub deleted : List PopMail → Session → Step
  deleted [] s = fault
  deleted (a ∷ rest) s =
      let (good, s') = count_mail a (record s { dropq = rest }) in
      if good then goto next s' else fail s'

  unfoldable pub state_delete : Session → Step
  state_delete = get_okay (λ _ s. deleted s.dropq s)

  unfoldable pub state_reconnect : Session → Step
  state_reconnect = get_okay (λ _ s. goto connect s)

  unfoldable pub state_quit : Session → Step
  state_quit =
      get_okay
        (λ _ s. ok (exit, record s { serverq = h.empty; cacheq = h.empty; wantq = []; dropq = [] }))
