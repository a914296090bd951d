-- ===== src/Nntp.antt =====
-- fetch-nntp.c: fetching mail from an NNTP server. A handler takes the session to a FETCH_ code and
-- the next session, as in Pop3; a list of groups stands for the array that ARRAY_ITEM reads.
pub mod Cache
pub mod States
pub mod Machine
pub mod Saved
pub mod Restored
pub mod Lines
pub mod Safe
use fdm.Mail.{Mail}
use fdm.Outcome.{Outcome, ok, fault, ◌>>=◌}
use fdm.Pop3.{FetchCode, again, block, error}
use fdm.Prelude.{
  ℕ, zero, suc, ◌+◌, ◌-◌, ◌*◌, ◌/◌, ◌%◌, ◌^◌, ◌≤◌, ◌<◌, ◌≡◌, refl, sym, ap, ◌∙◌, ◌≢◌, ◌↔◌, ◌⊎◌, inl,
  inr, Bool, true, false, not, ◌&&◌, ◌||◌, Option, none, some, List, [], ◌∷◌, ◌++◌, map, append-nil,
  append_assoc, arith, ltb, leb, ◌==◌, if◌then◌else◌, ==_iff, Bool-cases, Option-cases, length,
  get_elem?, take, drop, length-append, length-take, length-drop, take-append-drop,
  take-append_exact, drop-append_exact, take-all, take-append_le, drop-append_le, drop-drop,
  drop-take, take-add, take-take_le, length-take_le, list_cases, All, All-append, get_elem-All,
  Bytes, codes, size_mod, size_max, sub_size, add_size, u32_mod, memchr, to_lower, is_space,
  is_blank, is_digit, bytes_eq, starts_with_case, starts_with, eq_self, bytes_eq_refl,
}

-- The handler that `fctx->state` points to.
pub data State : Type 0 where
  connect connected auth1 auth2 switch group reset stat wait next article line quit : State

-- struct fetch_nntp_group.
pub record Group : Type 0 where
  pub name : Bytes
  pub ignore : Bool
  pub size : ℕ
  pub last : ℕ
  pub id : Option Bytes

pub data Command : Type 0 where
  send_user send_pass send_group : Bytes → Command
  send_stat : ℕ → Command
  send_next send_article send_quit : Command

-- `fscanf` of one number: at the end of the file, no number, or the number and what follows.
pub data Scan : Type 0 where
  at_eof no_match : Scan
  scanned : ℕ → Bytes → Scan

-- How the cache file is written: in place of the old one, not at all, or with a temporary file that
-- could not be removed.
pub data Written : Type 0 where
  written not_written not_unlinked : Written

-- What the code takes from others: the connection, `strtonum` (from 100 to 999) and `sscanf` on
-- replies, `printf` and `fscanf` of numbers and the files, memory, and the account's settings. The
-- scan of a size skips the blanks behind it, that of a last article the blanks around it.
pub record NntpHooks : Type 1 where
  pub connect_ok : Bool
  pub strtonum : Bytes → Option ℕ
  pub scan_223 : Bytes → Option ℕ
  pub scan_211 : Bytes → Option (ℕ × ℕ)
  pub decimal : ℕ → Bytes
  pub scan_size : Bytes → Scan
  pub scan_last : Bytes → Scan
  pub can_open : Bool
  pub write_file : Bytes → Written
  pub grants : ℕ → Bool
  pub max_size : ℕ
  pub user : Option Bytes
  pub pass : Option Bytes
  pub names : List Bytes

-- The digits that `strspn` counts.
unfoldable pub leading_digits : Bytes → Bytes
leading_digits [] = []
leading_digits (c ∷ l) = if is_digit c then c ∷ leading_digits l else []

-- Whether the code is among the `n` that the call announces; `fault` where it reads behind them.
unfoldable pub is_listed : ℕ → List ℕ → ℕ → Outcome Bool
is_listed zero cs code = ok false
is_listed (suc n) [] code = fault
is_listed (suc n) (c ∷ cs) code = elim (code == c) [ true ↦ ok true | false ↦ is_listed n cs code ]

module _ (h : NntpHooks) where
  -- `fetch_nntp_code`.
  unfoldable pub code_of : Bytes → Option ℕ
  code_of l = let d = leading_digits l in if length d == 0 then none else h.strtonum d

  -- `fetch_nntp_parse223`: the number, and the text between `<` and `>`.
  unfoldable pub parse223 : Bytes → Option (ℕ × Bytes)
  parse223 l = elim (h.scan_223 l) [
    | none ↦ none
    | some n ↦ elim (memchr b'<' l) [
      | none ↦ none
      | some i ↦
          let text = drop i l in
          elim (memchr b'>' text) [ none ↦ none | some j ↦ some (n, take (j - 1) (drop 1 text)) ]
    ]
  ]

  -- struct fetch_nntp_data and struct fetch_ctx, with the connection and the cache file.
  pub record Session : Type 0 where
    pub state : State
    pub group : ℕ
    pub groups : List Group
    pub flushing : Bool
    pub text : Mail
    pub file : Option Bytes
    pub input : List Bytes
    pub sent : List Command

  abbrev pub Step : Type 0
  Step = Outcome (FetchCode × Session)

  abbrev pub fail : Session → Step
  fail s = ok (error, s)

  abbrev pub goto : State → Session → Step
  goto st s = ok (again, record s { state = st })

  -- `io_writeline`, and then `state` with FETCH_BLOCK.
  abbrev pub send : Command → State → Session → Step
  send c st s = ok (block, record s { state = st; sent = c ∷ s.sent })

  -- `fetch_nntp_check` of the lines at hand, and what a caller does with its results.
  unfoldable pub check_from :
      ℕ → List ℕ → (ℕ → Bytes → Session → Step) → List Bytes → Session → Step
  check_from n codes k [] s = ok (block, record s { input = [] })
  check_from n codes k (l ∷ ls) s = elim (code_of l) [
    | none ↦ fail (record s { input = ls })
    | some code ↦ elim (leb 100 code && leb code 199) [
      | true ↦ check_from n codes k ls s
      | false ↦ is_listed n codes code >>= λ listed.
          if listed then k code l (record s { input = ls }) else fail (record s { input = ls })
    ]
  ]

  unfoldable pub check : ℕ → List ℕ → (ℕ → Bytes → Session → Step) → Session → Step
  check n codes k s = check_from n codes k s.input s

  -- `ARRAY_ITEM(&data->groups, data->group)`.
  unfoldable pub with_group : (Group → Step) → Session → Step
  with_group k s = elim (get_elem? s.groups s.group) [ none ↦ fault | some g ↦ k g ]
