-- ===== src/Tests/Replace.antt =====
-- A string with a tag in it, for a block with the tag "a".
use fdm.Outcome.{ok, Returns}
use fdm.Replace.{Env, replace}
use fdm.Replace.Escape.{escape, shown_tag, IsKey, replace-escape, replace-tag}
use fdm.Replace.Total.{Readable, EndsWell, replace-Returns}
use fdm.Strb.{Strb}
use fdm.Strb.Pairs.{first_value, Holds}
use fdm.Prelude.{
  ◌≡◌, refl, ap, true, none, some, List, [], ◌∷◌, ◌++◌, arith, length, length-append, Bytes, codes,
  memchr, bytes_eq,
}

abbrev block : Strb
block = record {
  ent_used = 1;
  ent_max = 2;
  str_used = 4;
  str_size = 6;
  strs = codes "a" ++ (0 ∷ codes "b" ++ (0 ∷ 0 ∷ 0 ∷ []));
  ents = record { key = 0; value = 2 } ∷ record { key = 0; value = 0 } ∷ [];
}

abbrev tags : List (Bytes × Bytes)
tags = (codes "a", codes "b") ∷ []

block-Holds : Holds block tags
unfolding memchr
block-Holds = record {
  strs = refl;
  ents = refl;
  used = omega arith;
  count = refl;
  room = omega arith;
  some_room = omega arith;
  few = omega arith;
  size = omega arith;
  pairs = (
    ([], codes "b" ++ (0 ∷ []), refl, refl, refl),
    (codes "a" ++ (0 ∷ []), [], refl, refl, refl),
    tt,
  );
}

abbrev env : Env
env = record { strip_chars = codes "/"; tags = block; rml = none; text = [] }

replace-escape_example : replace env (some (escape (codes "50%"))) ≡ ok (some (codes "50%"))
replace-escape_example = replace-escape env (codes "50%")

a-IsKey : IsKey (codes "a")
unfolding memchr
a-IsKey = record { first = 97; more = []; parts = refl; no_colon = refl; no_bracket = refl }

replace-tag_example :
    replace env
      (some (escape (codes "x") ++ (b'%' ∷ b'[' ∷ (codes "a" ++ (b']' ∷ escape (codes "%"))))))
    ≡ ok (
        some (
          codes "x" ++ (shown_tag env true (first_value (bytes_eq (codes "a")) tags) ++ codes "%")))
replace-tag_example = replace-tag env tags (codes "x") (codes "a") (codes "%") block-Holds a-IsKey

env-Readable : Readable env tags
env-Readable = record {
  tags = block-Holds;
  ten = λ list e. absurd (ground (arith, e));
  inside = λ list e. absurd (ground (arith, e));
}

a_string-EndsWell : EndsWell (codes "%[a]")
a_string-EndsWell [] e = ground (arith, e)
a_string-EndsWell (x ∷ []) e = ground (arith, e)
a_string-EndsWell (x ∷ y ∷ []) e = ground (arith, e)
a_string-EndsWell (x ∷ y ∷ z ∷ []) e = ground (arith, e)
a_string-EndsWell (x ∷ y ∷ z ∷ t ∷ r) e =
    (let l = ap length e in omega (arith, l, length-append r (b':' ∷ [])))

replace-Returns_example :
    Returns (λ r. (dst : Bytes) × (r ≡ some dst)) (replace env (some (codes "%[a]")))
replace-Returns_example = replace-Returns env tags (codes "%[a]") env-Readable a_string-EndsWell
