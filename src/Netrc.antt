-- ===== src/Netrc.antt =====
-- netrc.c: the words of a .netrc file, and the login and password of a host. The file is the list of
-- the bytes that are left.
pub mod Ends
pub mod Entries
use fdm.Outcome.{Outcome, ok, diverge, ◌>>=◌}
use fdm.Prelude.{
  ℕ, zero, suc, ◌+◌, ◌-◌, ◌*◌, ◌/◌, ◌%◌, ◌^◌, ◌≤◌, ◌<◌, ◌≡◌, refl, sym, ap, ◌∙◌, ◌≢◌, ◌↔◌, ◌⊎◌, inl,
  inr, Bool, true, false, not, ◌&&◌, ◌||◌, Option, none, some, List, [], ◌∷◌, ◌++◌, map, append-nil,
  append_assoc, arith, ltb, leb, ◌==◌, if◌then◌else◌, ==_iff, Bool-cases, Option-cases, length,
  get_elem?, take, drop, length-append, length-take, length-drop, take-append-drop,
  take-append_exact, drop-append_exact, take-all, take-append_le, drop-append_le, drop-drop,
  drop-take, take-add, take-take_le, length-take_le, list_cases, All, All-append, get_elem-All,
  Bytes, codes, size_mod, size_max, sub_size, add_size, u32_mod, memchr, to_lower, is_space,
  is_blank, is_digit, bytes_eq, starts_with_case, starts_with, eq_self, bytes_eq_refl,
}

-- What `netrc_token` returns: 1, -1, or 0 with a word and the rest of the file.
pub data Token : Type 0 where
  ended broken : Token
  word : Bytes → Bytes → Token

-- `isspace(c) || c == ','`
abbrev pub is_gap : ℕ → Bool
is_gap c = is_space c || c == b','

unfoldable pub skip_gaps : Bytes → Bytes
skip_gaps [] = []
skip_gaps (c ∷ f) = if is_gap c then skip_gaps f else c ∷ f

-- Whether the lookup returns 0, the login and the password.
abbrev pub Found : Type 0
Found = Bool × Option Bytes × Option Bytes

module _ (bufsiz : ℕ) where
  -- A byte is put into the buffer, unless it is the last that has room, where the NUL belongs.
  abbrev put : Bytes → ℕ → (Bytes → Token) → Token
  put taken c k =
      let taken' = taken ++ (c ∷ []) in if length taken' == bufsiz then broken else k taken'

  -- The loop up to the closing quote; `taken` is in the buffer, and `escaped` says that a backslash
  -- was read.
  unfoldable pub quoted_from : Bool → Bytes → Bytes → Token
  quoted_from escaped [] taken = broken
  quoted_from true (c ∷ f) taken = put taken c (quoted_from false f)
  quoted_from false (c ∷ f) taken =
      if c == b'"'
      then word taken f
      else if c == b'\\'
      then quoted_from true f taken
      else put taken c (quoted_from false f)

  -- The loop up to the next gap.
  unfoldable pub plain_from : Bool → Bytes → Bytes → Token
  plain_from escaped [] taken = word taken []
  plain_from true (c ∷ f) taken = put taken c (plain_from false f)
  plain_from false (c ∷ f) taken =
      if is_gap c
      then word taken f
      else if c == b'\\'
      then plain_from true f taken
      else put taken c (plain_from false f)

  -- `netrc_token`.
  unfoldable pub token : Bytes → Token
  token f = elim (skip_gaps f) [
    | [] ↦ ended
    | c ∷ f' ↦ if c == b'"' then quoted_from false f' [] else plain_from false f' (c ∷ [])
  ]

  -- The value behind `key`, where it is wanted: the word of it is the one that is looked at next.
  unfoldable pub value_behind :
      Bool
      → Bytes
      → Bytes
      → Bytes
      → Option Bytes
      → (Bytes → Bytes → Option Bytes → Outcome Found)
      → Outcome Found
      → Outcome Found
  value_behind wanted key t f value k stop =
      if wanted && bytes_eq t key
      then elim (token f) [
        | ended ↦ stop
        | broken ↦ stop
        | word v rest ↦ if length v == 0 then stop else k v rest (some v)
      ]
      else k t f value

  module _ (wants_user wants_pass : Bool) (host : Bytes) where
    -- The loop of `netrc_lookup`. The words are text: with a NUL in one, `strcmp` and `xstrdup` would
    -- stop there.
    unfoldable pub lookup_from : ℕ → Bool → Bytes → Option Bytes → Option Bytes → Outcome Found
    lookup_from zero found f user pass = diverge
    lookup_from (suc fuel) found f user pass = elim (token f) [
      | ended ↦ ok (true, user, pass)
      | broken ↦ ok (false, user, pass)
      | word t rest ↦ elim found [
        | false ↦ elim (bytes_eq t (codes "machine")) [
          | true ↦ elim (token rest) [
            | ended ↦ ok (false, user, pass)
            | broken ↦ ok (false, user, pass)
            | word name rest' ↦ lookup_from fuel (bytes_eq name host) rest' user pass
          ]
          | false ↦ lookup_from fuel (bytes_eq t (codes "default")) rest user pass
        ]
        | true ↦ elim (bytes_eq t (codes "machine") || bytes_eq t (codes "default")) [
          | true ↦ ok (true, user, pass)
          | false ↦
              value_behind wants_user (codes "login") t rest user
                (λ t' rest' user'.
                  value_behind wants_pass (codes "password") t' rest' pass
                    (λ t'' rest'' pass'. lookup_from fuel true rest'' user' pass')
                    (ok (false, user', pass)))
                (ok (false, user, pass))
        ]
      ]
    ]

    -- `netrc_lookup`.
    unfoldable pub lookup : Bytes → Outcome Found
    lookup f = lookup_from (length f + 1) false f none none
