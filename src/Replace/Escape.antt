-- ===== src/Replace/Escape.antt =====
-- replace.c: text that is escaped comes out as it is, around the value of a tag.
use fdm.Outcome.{Outcome, ok, fatal, fault, diverge, ◌>>=◌}
use fdm.Replace.{
  Env, shown, emit, show_value, tag_value, bracketed, directive, replace_from, replace,
}
use fdm.Strb.{find_tag}
use fdm.Strb.Find.{find_tag-first_value}
use fdm.Strb.Pairs.{memchr-end, first_value, Holds}
use mathlib.Core.Path.{subst}
use fdm.Prelude.{
  ℕ, suc, ◌+◌, ◌-◌, ◌≤◌, ◌<◌, ◌≡◌, refl, sym, ap, ◌∙◌, inl, inr, Bool, true, false, Option, none,
  some, List, [], ◌∷◌, ◌++◌, append-nil, append_assoc, arith, ◌==◌, Bool-cases, length, drop,
  length-append, take-append_exact, drop-append_exact, drop-drop, Bytes, memchr, bytes_eq,
}

-- Every `%` is doubled.
unfoldable pub escape : Bytes → Bytes
escape [] = []
escape (c ∷ s) = elim (c == b'%') [ true ↦ b'%' ∷ b'%' ∷ escape s | false ↦ c ∷ escape s ]

pub length-escape : (s : Bytes) → length s ≤ length (escape s)
unfolding escape
length-escape [] = omega arith
length-escape (c ∷ s) = elim (Bool-cases (c == b'%')) [
  | inl percent ↦ rw (escape, percent, length) (omega (arith, length-escape s))
  | inr other ↦ rw (escape, other, length) (omega (arith, length-escape s))
]

emit-emit : (a b : Bytes) (m : Outcome Bytes) → emit a (emit b m) ≡ emit (a ++ b) m
unfolding emit
emit-emit a b (ok r) = ap ok (sym (append_assoc a b r))
emit-emit a b fatal = refl
emit-emit a b fault = refl
emit-emit a b diverge = refl

emit-nil : (m : Outcome Bytes) → emit [] m ≡ m
unfolding emit
emit-nil (ok r) = refl
emit-nil fatal = refl
emit-nil fault = refl
emit-nil diverge = refl

-- An escaped byte, and one that needs no escape.
percent_lem :
    (env : Env) (n : ℕ) (strip : Bool) (rest : Bytes)
    → replace_from env (suc n) strip (b'%' ∷ b'%' ∷ rest)
      ≡ emit (b'%' ∷ []) (replace_from env n strip rest)
unfolding replace_from directive
percent_lem env n strip rest = refl

plain_lem :
    (env : Env) (n : ℕ) (strip : Bool) (c : ℕ) (rest : Bytes)
    → (c == b'%') ≡ false
    → replace_from env (suc n) strip (c ∷ rest) ≡ emit (c ∷ []) (replace_from env n strip rest)
unfolding replace_from
plain_lem env n strip c rest other = rw (replace_from, other) refl

-- One round for every byte of the text.
pub replace_from-escape :
    (env : Env) (n : ℕ) (strip : Bool) (a rest : Bytes)
    → replace_from env (length a + n) strip (escape a ++ rest)
      ≡ emit a (replace_from env n strip rest)
unfolding escape
replace_from-escape env n strip [] rest =
    ap (λ k. replace_from env k strip rest) (omega arith)
    ∙ sym (emit-nil (replace_from env n strip rest))
replace_from-escape env n strip (c ∷ a) rest =
    let more = replace_from-escape env n strip a rest in
    let m = replace_from env n strip rest in
    let fuel : suc (length a) + n ≡ suc (length a + n) = omega arith in
    ap (λ k. replace_from env k strip (escape (c ∷ a) ++ rest)) fuel
    ∙ elim (Bool-cases (c == b'%')) [
      | inl percent ↦
          let e : c ≡ b'%' = ground (arith, percent) in
          rw (escape, percent, ◌++◌)
            (percent_lem env (length a + n) strip (escape a ++ rest)
              ∙ ap (emit (b'%' ∷ [])) more
              ∙ emit-emit (b'%' ∷ []) a m
              ∙ ap (λ x. emit (x ∷ a) m) (sym e))
      | inr other ↦
          rw (escape, other, ◌++◌)
            (plain_lem env (length a + n) strip c (escape a ++ rest) other
              ∙ ap (emit (c ∷ [])) more
              ∙ emit-emit (c ∷ []) a m)
    ]

-- Enough rounds for the escaped text.
escaped_lem :
    (env : Env) (fuel : ℕ) (strip : Bool) (a : Bytes)
    → length a < fuel
    → replace_from env fuel strip (escape a) ≡ ok a
unfolding replace_from emit
escaped_lem env fuel strip a lt =
    let n = fuel - length a - 1 in
    let k : fuel ≡ length a + suc n = omega (arith, lt) in
    ap (λ k. replace_from env k strip (escape a)) k
    ∙ ap (λ s. replace_from env (length a + suc n) strip s) (sym (append-nil (escape a)))
    ∙ replace_from-escape env (suc n) strip a []
    ∙ ap ok (append-nil a)

-- A text whose `%` are all doubled is expanded to the text itself, whatever the tags are.
pub replace-escape : (env : Env) (s : Bytes) → replace env (some (escape s)) ≡ ok (some s)
unfolding replace
replace-escape env s =
    rw (escaped_lem env (length (escape s) + 1) true s (omega (arith, length-escape s))) refl

-- The value of a tag, as it is shown; nothing, if there is no such tag.
abbrev pub shown_tag : Env → Bool → Option Bytes → Bytes
shown_tag env strip none = []
shown_tag env strip (some v) = shown env strip v

show_value-tag :
    (env : Env) (strip : Bool) (v : Option Bytes) (b : Bytes)
    → show_value env strip v (ok b) ≡ ok (shown_tag env strip v ++ b)
unfolding show_value emit
show_value-tag env strip none b = refl
show_value-tag env strip (some v) b = refl

-- `%[key]`, where the key is not empty, has no bracket in it and starts with no colon.
pub record IsKey (key : Bytes) : Type 0 where
  pub first : ℕ
  pub more : Bytes
  pub parts : key ≡ first ∷ more
  pub no_colon : (first == b':') ≡ false
  pub no_bracket : memchr b']' key ≡ none

-- A key that starts with no colon.
first_lem :
    (env : Env) (n : ℕ) (strip : Bool) (c : ℕ) (s rest : Bytes)
    → (c == b':') ≡ false
    → bracketed env (replace_from env n) strip (c ∷ s) rest
      ≡ (find_tag env.tags (c ∷ s) >>= λ v. show_value env strip v (replace_from env n strip rest))
unfolding bracketed tag_value
first_lem env n strip c s rest other = rw (bracketed, other, tag_value) refl

-- The loop at a tag in brackets.
tag_lem :
    (env : Env) (n : ℕ) (strip : Bool) (key rest : Bytes)
    → IsKey key
    → replace_from env (suc n) strip (b'%' ∷ b'[' ∷ (key ++ (b']' ∷ rest)))
      ≡ (find_tag env.tags key >>= λ v. show_value env strip v (replace_from env n strip rest))
unfolding replace_from directive
tag_lem env n strip key rest k =
    let at : memchr b']' (key ++ (b']' ∷ rest)) ≡ some (length key) =
      memchr-end b']' key rest k.no_bracket in
    let front = take-append_exact key (b']' ∷ rest) (length key) refl in
    let behind : drop (length key + 1) (key ++ (b']' ∷ rest)) ≡ rest =
      sym (drop-drop 1 (length key) (length key + 1) (key ++ (b']' ∷ rest)) refl)
      ∙ ap (drop 1) (drop-append_exact key (b']' ∷ rest) (length key) refl) in
    let at_key : bracketed env (replace_from env n) strip key rest
        ≡ (find_tag env.tags key >>= λ v. show_value env strip v (replace_from env n strip rest)) =
      subst
        (λ s.
          bracketed env (replace_from env n) strip s rest
          ≡ (find_tag env.tags s >>= λ v. show_value env strip v (replace_from env n strip rest)))
        (sym k.parts) (first_lem env n strip k.first k.more rest k.no_colon) in
    rw (replace_from, directive, at, front, behind) at_key

emit_ok : (a r : Bytes) → (emit a (ok r) >>= λ dst. ok (some dst)) ≡ ok (some (a ++ r))
unfolding emit
emit_ok a r = refl

-- A tag in brackets, with escaped text around it, is expanded to its value in the string block, less
-- the bytes that are stripped, and to nothing if the block does not hold it. The text comes out as
-- it is. The key is not empty, has no bracket in it and starts with no colon.
pub replace-tag :
    (env : Env) (l : List (Bytes × Bytes)) (a key b : Bytes)
    → Holds env.tags l
    → IsKey key
    → replace env (some (escape a ++ (b'%' ∷ b'[' ∷ (key ++ (b']' ∷ escape b)))))
      ≡ ok (some (a ++ (shown_tag env true (first_value (bytes_eq key) l) ++ b)))
unfolding replace
replace-tag env l a key b h k =
    let src = escape a ++ (b'%' ∷ b'[' ∷ (key ++ (b']' ∷ escape b))) in
    let n = length src - length a in
    let v = first_value (bytes_eq key) l in
    let len : length a + length b < length src = omega (
      arith,
      length-append (escape a) (b'%' ∷ b'[' ∷ (key ++ (b']' ∷ escape b))),
      length-append key (b']' ∷ escape b),
      length-escape a,
      length-escape b,
    ) in
    let fuel : length src + 1 ≡ length a + suc n = omega (arith, len) in
    let rest : replace_from env (suc n) true (b'%' ∷ b'[' ∷ (key ++ (b']' ∷ escape b)))
        ≡ ok (shown_tag env true v ++ b) =
      tag_lem env n true key (escape b) k
      ∙ rw (find_tag-first_value env.tags l key h, escaped_lem env n true b (omega (arith, len)))
          (show_value-tag env true v b) in
    let whole : replace_from env (length src + 1) true src
        ≡ emit a (ok (shown_tag env true v ++ b)) =
      ap (λ f. replace_from env f true src) fuel
      ∙ replace_from-escape env (suc n) true a (b'%' ∷ b'[' ∷ (key ++ (b']' ∷ escape b)))
      ∙ ap (emit a) rest in
    rw whole (emit_ok a (shown_tag env true v ++ b))
