-- ===== src/Strb/Find.antt =====
-- strb.c: lookups in a string block, and find_tag and match_tag of replace.c.
use fdm.Outcome.{ok, ◌>>=◌}
use fdm.Strb.{
  Entry, Strb, string_at, search_from, address, find, find_match, value_of, find_tag, match_tag,
}
use fdm.Strb.Pairs.{
  Reads, first_value, string_at-Reads, Slot, search_cases, first_value-Slot, Holds,
}
use mathlib.Core.Path.{subst}
use mathlib.Core.Option
use fdm.Prelude.{
  ℕ, ◌≡◌, refl, ap, ◌∙◌, ◌⊎◌, inl, inr, Bool, none, some, List, arith, length, take, drop,
  take-append-drop, Bytes, bytes_eq,
}

-- A string of the used text, in the block.
pub string_at-block :
    (sb : Strb) (i : ℕ) (s : Bytes)
    → Reads (take sb.str_used sb.strs) i s
    → string_at sb.strs i ≡ ok s
string_at-block sb i s r =
    subst (λ t. string_at t i ≡ ok s) (take-append-drop sb.str_used sb.strs)
      (string_at-Reads (take sb.str_used sb.strs) (drop sb.str_used sb.strs) i s r)

-- A search through the block finds the slot of the first key that passes the test, if there is one.
pub block_cases :
    (test : Bytes → Bool) (sb : Strb) (l : List (Bytes × Bytes))
    → Holds sb l
    → ((search_from test sb.strs sb.ent_used sb.ents 0 ≡ ok none) × (first_value test l ≡ none))
      ⊎ ((j : ℕ) × (e : Entry) × (search_from test sb.strs sb.ent_used sb.ents 0 ≡ ok (some (j, e)))
          × Slot test sb.ents l j e)
block_cases test sb l b =
    let found =
      search_cases test (take sb.str_used sb.strs) (drop sb.str_used sb.strs) sb.ents l 0 b.pairs in
    let same = take-append-drop sb.str_used sb.strs in
    rw b.count (
      subst
        (λ t.
          ((search_from test t (length l) sb.ents 0 ≡ ok none) × (first_value test l ≡ none))
          ⊎ ((j : ℕ) × (e : Entry) × (search_from test t (length l) sb.ents 0 ≡ ok (some (j, e)))
              × Slot test sb.ents l j e))
        same
        (elim found [
          | inl none_there ↦ inl none_there
          | inr (j, e, there, s) ↦ inr (j, e, there ∙ ap (λ n. ok (some (n, e))) (omega arith), s)
        ]))

search_value :
    (test : Bytes → Bool) (sb : Strb) (l : List (Bytes × Bytes))
    → Holds sb l
    → (search_from test sb.strs sb.ent_used sb.ents 0 >>= λ r. ok (Option.map (λ p. p.1) r))
        >>= value_of sb
      ≡ ok (first_value test l)
unfolding value_of
search_value test sb l b = elim (block_cases test sb l b) [
  | inl (none_there, f) ↦ rw (none_there, f) refl
  | inr (j, e, there, s) ↦
      let (v, f, r) = first_value-Slot test (take sb.str_used sb.strs) sb.ents l j e b.pairs s in
      rw (there, f, value_of, string_at-block sb e.value v r) refl
]

-- `find_tag` of a block that holds a list of keys and values returns the value of the key in the
-- list, or NULL if the key is not in it.
pub find_tag-first_value :
    (sb : Strb) (l : List (Bytes × Bytes)) (key : Bytes)
    → Holds sb l
    → find_tag sb key ≡ ok (first_value (bytes_eq key) l)
unfolding find_tag find address
find_tag-first_value sb l key b = search_value (bytes_eq key) sb l b

-- `match_tag` returns the value of the first key in the list that the pattern matches, or NULL.
pub match_tag-first_value :
    (fnmatch : Bytes → Bytes → Bool) (sb : Strb) (l : List (Bytes × Bytes)) (patt : Bytes)
    → Holds sb l
    → match_tag fnmatch sb patt ≡ ok (first_value (fnmatch patt) l)
unfolding match_tag find_match
match_tag-first_value fnmatch sb l patt b = search_value (fnmatch patt) sb l b
