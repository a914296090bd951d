-- ===== src/Tests/Strb.antt =====
-- A string block with one tag, and room for another one or none.
use fdm.Outcome.{ok, fault, Ends}
use fdm.Strb.{Strb, vadd, find_tag, match_tag}
use fdm.Strb.Add.{Stops, vadd-put}
use fdm.Strb.Find.{find_tag-first_value, match_tag-first_value}
use fdm.Strb.Pairs.{first_value, put, Holds}
use fdm.Strb.Tags.{find_tag-vadd, vadd-full}
use fdm.Prelude.{
  ℕ, ◌+◌, ◌≡◌, refl, ◌≢◌, Bool, true, false, none, some, List, [], ◌∷◌, ◌++◌, arith, Bytes, codes,
  memchr, bytes_eq,
}

abbrev unlimited : ℕ → Bool
unlimited n = true

-- The tag "a" has the value "b".
abbrev small : Strb
small = record {
  ent_used = 1;
  ent_max = 1;
  str_used = 4;
  str_size = 12;
  strs = codes "a" ++ (0 ∷ codes "b" ++ (0 ∷ 0 ∷ 0 ∷ 0 ∷ 0 ∷ 0 ∷ 0 ∷ 0 ∷ 0 ∷ []));
  ents = record { key = 0; value = 2 } ∷ [];
}

abbrev tags : List (Bytes × Bytes)
tags = (codes "a", codes "b") ∷ []

small-Holds : Holds small tags
unfolding memchr
small-Holds = record {
  strs = refl;
  ents = refl;
  used = omega arith;
  count = refl;
  room = omega arith;
  some_room = omega arith;
  few = omega arith;
  size = omega arith;
  pairs = (
    ([], codes "b" ++ (0 ∷ []), refl, refl, refl),
    (codes "a" ++ (0 ∷ []), [], refl, refl, refl),
    tt,
  );
}

is_c_string :
    (memchr 0 (codes "a") ≡ none)
    × (memchr 0 (codes "value") ≡ none)
    × (memchr 0 (codes "c") ≡ none)
unfolding memchr
is_c_string = (refl, refl, refl)

find_tag-first_value_example :
    find_tag small (codes "a") ≡ ok (first_value (bytes_eq (codes "a")) tags)
find_tag-first_value_example = find_tag-first_value small tags (codes "a") small-Holds

match_tag-first_value_example :
    match_tag (λ p s. true) small (codes "*") ≡ ok (first_value (λ s. true) tags)
match_tag-first_value_example =
    match_tag-first_value (λ p s. true) small tags (codes "*") small-Holds

taken : first_value (bytes_eq (codes "a")) tags ≢ none
unfolding first_value bytes_eq
taken e = ground (arith, e)

-- The new value does not fit, so that the strings are doubled.
vadd-put_example :
    Ends
      (Stops unlimited small (2 + 6))
      (λ r. Holds r (put (codes "a") (codes "value") tags))
      (vadd unlimited small (codes "a") (codes "value"))
vadd-put_example =
    vadd-put unlimited small tags (codes "a") (codes "value") small-Holds is_c_string.0
      is_c_string.1 (omega arith) (λ e. absurd (taken e))

find_tag-vadd_example :
    Ends
      (Stops unlimited small (2 + 6))
      (λ r.
        (find_tag r (codes "a") ≡ ok (some (codes "value")))
        × ((other : Bytes)
            → bytes_eq other (codes "a") ≡ false
            → find_tag r other ≡ find_tag small other))
      (vadd unlimited small (codes "a") (codes "value"))
find_tag-vadd_example =
    find_tag-vadd unlimited small tags (codes "a") (codes "value") small-Holds is_c_string.0
      is_c_string.1 (omega arith) (λ e. absurd (taken e))

untaken : first_value (bytes_eq (codes "c")) tags ≡ none
unfolding first_value bytes_eq
untaken = refl

vadd-full_example : vadd unlimited small (codes "c") (codes "a") ≡ fault
vadd-full_example =
    vadd-full unlimited small tags (codes "c") (codes "a") small-Holds is_c_string.2 is_c_string.0
      (omega arith) untaken refl
