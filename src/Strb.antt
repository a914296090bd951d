-- ===== src/Strb.antt =====
-- strb.c and the string block of fdm.h; add_tag, find_tag and match_tag of replace.c. The block is
-- the strings and, behind them, the slots of the entries, each a list; the header is the rest of the
-- record. A string that is read ends at its zero byte.
pub mod Pairs
pub mod Add
pub mod Find
pub mod Tags
use fdm.Buffer.{write_at}
use fdm.Outcome.{Outcome, ok, fatal, fault, diverge, ◌>>=◌, ◌>>◌, fatal_if}
use fdm.Pop3.{up}
use mathlib.Core.Option
use fdm.Prelude.{
  ℕ, zero, suc, ◌+◌, ◌-◌, ◌*◌, ◌/◌, ◌%◌, ◌^◌, ◌≤◌, ◌<◌, ◌≡◌, refl, sym, ap, ◌∙◌, ◌≢◌, ◌↔◌, ◌⊎◌, inl,
  inr, Bool, true, false, not, ◌&&◌, ◌||◌, Option, none, some, List, [], ◌∷◌, ◌++◌, map, append-nil,
  append_assoc, arith, ltb, leb, ◌==◌, if◌then◌else◌, ==_iff, Bool-cases, Option-cases, length,
  get_elem?, take, drop, length-append, length-take, length-drop, take-append-drop,
  take-append_exact, drop-append_exact, take-all, take-append_le, drop-append_le, drop-drop,
  drop-take, take-add, take-take_le, length-take_le, list_cases, All, All-append, get_elem-All,
  Bytes, codes, size_mod, size_max, sub_size, add_size, u32_mod, memchr, to_lower, is_space,
  is_blank, is_digit, bytes_eq, starts_with_case, starts_with, eq_self, bytes_eq_refl,
}

-- struct strbent: the offsets of two strings.
pub record Entry : Type 0 where
  pub key : ℕ
  pub value : ℕ

pub record Strb : Type 0 where
  pub ent_used : ℕ
  pub ent_max : ℕ
  pub str_used : ℕ
  pub str_size : ℕ
  pub strs : Bytes
  pub ents : List Entry

unfoldable pub filled : {A : Type 0} → ℕ → A → List A
filled zero a = []
filled (suc n) a = a ∷ filled n a

abbrev pub no_entry : Entry
no_entry = record { key = 0; value = 0 }

-- STRB_SIZE: the header has 64 bytes with its padding, and an entry has 16.
unfoldable pub block_size : Strb → ℕ
block_size sb = (64 + sb.str_size + sb.ent_max * 16) % size_mod

-- `xrealloc` stops the process where the system has no memory.
unfoldable pub clear : (ℕ → Bool) → Outcome Strb
clear grants =
    let sb : Strb = record {
      ent_used = 0;
      ent_max = 64;
      str_used = 0;
      str_size = 1024;
      strs = filled 1024 0;
      ents = filled 64 no_entry;
    } in
    fatal_if (not (grants (block_size sb))) >> ok sb

unfoldable pub create : (ℕ → Bool) → Outcome Strb
create grants = fatal_if (not (grants 64)) >> clear grants

-- The string at an offset, for `strcmp` and for the users of STRB_KEY and STRB_VALUE.
unfoldable pub string_at : Bytes → ℕ → Outcome Bytes
string_at strs i = elim (memchr 0 (drop i strs)) [
  | none ↦ fault
  | some n ↦ ok (take n (drop i strs))
]

-- The loop over the entries, as `strb_address` and `strb_match` have it: the first one whose key
-- passes a test, with its number.
unfoldable pub search_from :
    (Bytes → Bool) → Bytes → ℕ → List Entry → ℕ → Outcome (Option (ℕ × Entry))
search_from test strs zero es i = ok none
search_from test strs (suc n) [] i = fault
search_from test strs (suc n) (e ∷ es) i = string_at strs e.key >>= λ s. elim (test s) [
  | true ↦ ok (some (i, e))
  | false ↦ search_from test strs n es (i + 1)
]

unfoldable pub address : Strb → Bytes → Outcome (Option (ℕ × Entry))
address sb key = search_from (bytes_eq key) sb.strs sb.ent_used sb.ents 0

unfoldable pub find : Strb → Bytes → Outcome (Option Entry)
find sb key = address sb key >>= λ r. ok (Option.map (λ p. p.1) r)

-- `strb_match`, with `fnmatch` as a parameter.
unfoldable pub find_match : (Bytes → Bytes → Bool) → Strb → Bytes → Outcome (Option Entry)
find_match fnmatch sb patt =
    search_from (fnmatch patt) sb.strs sb.ent_used sb.ents 0 >>= λ r. ok (Option.map (λ p. p.1) r)

-- The value of an entry, if there is one.
unfoldable pub value_of : Strb → Option Entry → Outcome (Option Bytes)
value_of sb none = ok none
value_of sb (some e) = string_at sb.strs e.value >>= λ s. ok (some s)

unfoldable pub find_tag : Strb → Bytes → Outcome (Option Bytes)
find_tag sb key = find sb key >>= value_of sb

unfoldable pub match_tag : (Bytes → Bytes → Bool) → Strb → Bytes → Outcome (Option Bytes)
match_tag fnmatch sb patt = find_match fnmatch sb patt >>= value_of sb

-- The loop of `strb_vadd` that doubles the strings; the result is `str_size`.
unfoldable pub grow_from : ℕ → Strb → ℕ → Outcome ℕ
grow_from zero sb need = diverge
grow_from (suc n) sb need = elim (leb need (sub_size sb.str_size sb.str_used)) [
  | true ↦ ok sb.str_size
  | false ↦ elim (ltb (size_max / 2) (block_size sb)) [
    | true ↦ fatal
    | false ↦ grow_from n (record sb { str_size = (sb.str_size * 2) % size_mod }) need
  ]
]

-- The strings have room for `need` bytes more; the entries move up behind them.
unfoldable pub make_room : (ℕ → Bool) → Strb → ℕ → Outcome Strb
make_room grants sb need = do
  size ← grow_from 65 sb need
  if size == sb.str_size
      then ok sb
      else fatal_if (not (grants (block_size (record sb { str_size = size }))))
        >> ok (record sb { str_size = size; strs = sb.strs ++ filled (size - sb.str_size) 0 })

-- More slots for entries, if the code finds that it needs them.
unfoldable pub make_entries : (ℕ → Bool) → Strb → Outcome Strb
make_entries grants sb =
    if leb sb.ent_used sb.ent_max
    then ok sb
    else if ltb ((u32_mod - 1) / 2) sb.ent_max
    then fatal
    else let r : Strb = record sb {
      ent_max = (sb.ent_max * 2) % u32_mod;
      ents = sb.ents ++ filled sb.ent_max no_entry;
    } in
      if ltb (block_size r) (block_size sb)
      then fatal
      else fatal_if (not (grants (block_size r))) >> ok r

-- A string is written behind those that are used.
unfoldable pub put_string : Strb → Bytes → Outcome Strb
put_string sb s = do
  strs ← write_at sb.strs sb.str_used (s ++ (0 ∷ []))
  ok (record sb { strs = strs; str_used = add_size sb.str_used (length s + 1) })

-- The slot that is written, its key and the block: a new key takes the next slot.
unfoldable pub place : (ℕ → Bool) → Strb → Bytes → Option (ℕ × Entry) → Outcome (ℕ × ℕ × Strb)
place grants sb key none = do
  r ← make_entries grants sb
  s ← put_string (record r { ent_used = up r.ent_used }) key
  ok (r.ent_used, r.str_used, s)
place grants sb key (some (i, e)) = ok (i, e.key, sb)

unfoldable pub write_entry : List Entry → ℕ → Entry → Outcome (List Entry)
write_entry [] i e = fault
write_entry (x ∷ es) zero e = ok (e ∷ es)
write_entry (x ∷ es) (suc i) e = write_entry es i e >>= λ r. ok (x ∷ r)

-- The value is written, and the slot gets it.
unfoldable pub set_value : Strb → Bytes → ℕ → ℕ → Outcome Strb
set_value sb value i key = do
  r ← put_string sb value
  ents ← write_entry r.ents i (record { key = key; value = sb.str_used })
  ok (record r { ents = ents })

-- `strb_vadd`; `value` is what the format prints.
unfoldable pub vadd : (ℕ → Bool) → Strb → Bytes → Bytes → Outcome Strb
vadd grants sb key value = do
  r ← make_room grants sb (add_size (length key + 1) (length value + 1))
  found ← address r key
  (i, k, s) ← place grants r key found
  set_value s value i k
