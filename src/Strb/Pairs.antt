-- ===== src/Strb/Pairs.antt =====
-- strb.c: the entries of a string block as a list of keys and values.
use fdm.Outcome.{ok}
use fdm.Strb.{Entry, Strb, string_at, search_from, write_entry}
use mathlib.Core.Path.{subst}
use mathlib.Core.Option
use fdm.Prelude.{
  ℕ, zero, suc, ◌+◌, ◌*◌, ◌≤◌, ◌<◌, ◌≡◌, refl, ap, ◌∙◌, ◌⊎◌, inl, inr, Bool, true, false, Option,
  none, some, List, [], ◌∷◌, ◌++◌, append_assoc, arith, ◌==◌, if◌then◌else◌, Bool-cases,
  Option-cases, length, take, drop, take-append_exact, drop-append_exact, Bytes, size_max, u32_mod,
  memchr, bytes_eq, eq_self,
}

-- The string at an offset of a text is `s`, which has no zero byte in it.
abbrev pub Reads : Bytes → ℕ → Bytes → Type 0
Reads text i s =
    (pre : Bytes) × (post : Bytes) × (length pre ≡ i)
    × (text ≡ pre ++ (s ++ (0 ∷ post)))
    × (memchr 0 s ≡ none)

-- The first slots hold the pairs of the list, in order.
abbrev pub Pairs : Bytes → List Entry → List (Bytes × Bytes) → Type 0
Pairs text es [] = Unit
Pairs text [] (p ∷ l) = ⊥
Pairs text (e ∷ es) ((k, v) ∷ l) = Reads text e.key k × Reads text e.value v × Pairs text es l

-- The value of the first key that passes a test.
unfoldable pub first_value : (Bytes → Bool) → List (Bytes × Bytes) → Option Bytes
first_value test [] = none
first_value test ((k, v) ∷ l) = if test k then some v else first_value test l

-- A key's value is replaced in its place, and a new key comes last.
unfoldable pub put : Bytes → Bytes → List (Bytes × Bytes) → List (Bytes × Bytes)
put key value [] = (key, value) ∷ []
put key value ((k, v) ∷ l) = if bytes_eq key k then (k, value) ∷ l else (k, v) ∷ put key value l

pub Reads-append :
    (text more : Bytes) (i : ℕ) (s : Bytes) → Reads text i s → Reads (text ++ more) i s
Reads-append text more i s (pre, post, n, e, z) = (
  pre,
  post ++ more,
  n,
  ap (λ t. t ++ more) e
      ∙ append_assoc pre (s ++ (0 ∷ post)) more
      ∙ ap (λ t. pre ++ t) (append_assoc s (0 ∷ post) more),
  z,
)

pub Pairs-append :
    (text more : Bytes) (es : List Entry) (l : List (Bytes × Bytes))
    → Pairs text es l
    → Pairs (text ++ more) es l
Pairs-append text more es [] p = tt
Pairs-append text more [] (x ∷ l) p = absurd p
Pairs-append text more (e ∷ es) ((k, v) ∷ l) (a, b, p) = (
  Reads-append text more e.key k a,
  Reads-append text more e.value v b,
  Pairs-append text more es l p,
)

-- The first place of a byte that stands behind a string without it.
pub memchr-end :
    (c : ℕ) (s post : Bytes) → memchr c s ≡ none → memchr c (s ++ (c ∷ post)) ≡ some (length s)
unfolding memchr
memchr-end c [] post e = rw (eq_self c) refl
memchr-end c (x ∷ s) post e = elim (Bool-cases (x == c)) [
  | inl same ↦ absurd (ground (arith, e, same))
  | inr other ↦ elim (Option-cases (memchr c s)) [
    | inl none_there ↦ rw other (ap (Option.map suc) (memchr-end c s post none_there))
    | inr (n, there) ↦ absurd (ground (arith, e, other, there))
  ]
]

-- A string of the used text is read as it is.
pub string_at-Reads :
    (text rest : Bytes) (i : ℕ) (s : Bytes) → Reads text i s → string_at (text ++ rest) i ≡ ok s
unfolding string_at
string_at-Reads text rest i s (pre, post, n, e, z) =
    let at : drop i (text ++ rest) ≡ s ++ (0 ∷ (post ++ rest)) =
      ap (λ t. drop i (t ++ rest)) e
      ∙ ap (drop i) (append_assoc pre (s ++ (0 ∷ post)) rest)
      ∙ drop-append_exact pre _ i n
      ∙ append_assoc s (0 ∷ post) rest in
    rw (string_at, at, memchr-end 0 s (post ++ rest) z)
      (ap ok (ap (take (length s)) at ∙ take-append_exact s _ (length s) refl))

-- The slot of the first key that passes a test.
abbrev pub Slot : (Bytes → Bool) → List Entry → List (Bytes × Bytes) → ℕ → Entry → Type 0
Slot test es [] j e = ⊥
Slot test [] (x ∷ l) j e = ⊥
Slot test (x ∷ es) ((k, v) ∷ l) zero e = (test k ≡ true) × (x ≡ e)
Slot test (x ∷ es) ((k, v) ∷ l) (suc j) e = (test k ≡ false) × Slot test es l j e

pub search_cases :
    (test : Bytes → Bool) (text rest : Bytes) (es : List Entry) (l : List (Bytes × Bytes)) (i : ℕ)
    → Pairs text es l
    → ((search_from test (text ++ rest) (length l) es i ≡ ok none) × (first_value test l ≡ none))
      ⊎ ((j : ℕ) × (e : Entry) × (search_from test (text ++ rest) (length l) es i
            ≡ ok (some (i + j, e)))
          × Slot test es l j e)
unfolding search_from first_value
search_cases test text rest es [] i p = inl (refl, refl)
search_cases test text rest [] (x ∷ l) i p = absurd p
search_cases test text rest (e ∷ es) ((k, v) ∷ l) i (a, b, p) =
    let found = string_at-Reads text rest e.key k a in
    elim (Bool-cases (test k)) [
      | inl holds ↦
          inr (0, e, rw (found, holds) (ap (λ n. ok (some (n, e))) (omega arith)), (holds, refl))
      | inr fails ↦ elim (search_cases test text rest es l (i + 1) p) [
        | inl (none_there, f) ↦ inl (rw (found, fails) none_there, rw fails f)
        | inr (j, e', there, s) ↦ inr (
          suc j,
          e',
          rw (found, fails) (there ∙ ap (λ n. ok (some (n, e'))) (omega arith)),
          (fails, s),
        )
      ]
    ]

pub first_value-Slot :
    (test : Bytes → Bool) (text : Bytes) (es : List Entry) (l : List (Bytes × Bytes)) (j : ℕ)
    (e : Entry)
    → Pairs text es l
    → Slot test es l j e
    → (v : Bytes) × (first_value test l ≡ some v) × Reads text e.value v
unfolding first_value
first_value-Slot test text es [] j e p s = absurd s
first_value-Slot test text [] (x ∷ l) j e p s = absurd p
first_value-Slot test text (x ∷ es) ((k, v) ∷ l) zero e (a, b, p) (holds, same) =
    (v, rw holds refl, subst (λ d. Reads text d.value v) same b)
first_value-Slot test text (x ∷ es) ((k, v) ∷ l) (suc j) e (a, b, p) (fails, s) =
    rw fails (first_value-Slot test text es l j e p s)

-- The slot gets another value.
pub put-Slot :
    (key value text : Bytes) (at : ℕ) (es : List Entry) (l : List (Bytes × Bytes)) (j : ℕ)
    (e : Entry)
    → Pairs text es l
    → Reads text at value
    → Slot (bytes_eq key) es l j e
    → (es' : List Entry) × (write_entry es j (record { key = e.key; value = at }) ≡ ok es')
      × Pairs text es' (put key value l)
      × (length es' ≡ length es)
      × (length (put key value l) ≡ length l)
unfolding put write_entry
put-Slot key value text at es [] j e p r s = absurd s
put-Slot key value text at [] (x ∷ l) j e p r s = absurd p
put-Slot key value text at (x ∷ es) ((k, v) ∷ l) zero e (a, b, p) r (holds, same) = rw holds (
  record { key = e.key; value = at } ∷ es,
  refl,
  (subst (λ d. Reads text d.key k) same a, r, p),
  refl,
  refl,
)
put-Slot key value text at (x ∷ es) ((k, v) ∷ l) (suc j) e (a, b, p) r (fails, s) =
    let (es', w, q, n, m) = put-Slot key value text at es l j e p r s in
    rw (fails, w) (x ∷ es', refl, (a, b, q), ap suc n, ap suc m)

-- A new slot.
pub put-new :
    (key value text : Bytes) (k at : ℕ) (es : List Entry) (l : List (Bytes × Bytes))
    → Pairs text es l
    → Reads text k key
    → Reads text at value
    → length l < length es
    → first_value (bytes_eq key) l ≡ none
    → (es' : List Entry) × (write_entry es (length l) (record { key = k; value = at }) ≡ ok es')
      × Pairs text es' (put key value l)
      × (length es' ≡ length es)
      × (length (put key value l) ≡ length l + 1)
unfolding put write_entry first_value
put-new key value text k at [] l p r q lt fails = absurd (omega (arith, lt))
put-new key value text k at (x ∷ es) [] p r q lt fails =
    (record { key = k; value = at } ∷ es, refl, (r, q, tt), refl, omega arith)
put-new key value text k at (x ∷ es) ((k', v) ∷ l) (a, b, p) r q lt fails =
    elim (Bool-cases (bytes_eq key k')) [
      | inl same ↦ absurd (ground (arith, fails, same))
      | inr other ↦
          let (es', w, u, n, m) =
            put-new key value text k at es l p r q (omega (arith, lt))
              (ground (arith, fails, other)) in
          rw (other, w) (x ∷ es', refl, (a, b, u), ap suc n, omega (arith, m))
    ]

-- The block holds the pairs: it is as long as its header says, the used strings and slots fit, and
-- its size is a `size_t`.
pub record Holds (sb : Strb) (l : List (Bytes × Bytes)) : Type 0 where
  pub strs : length sb.strs ≡ sb.str_size
  pub ents : length sb.ents ≡ sb.ent_max
  pub used : sb.str_used ≤ sb.str_size
  pub count : sb.ent_used ≡ length l
  pub room : length l ≤ sb.ent_max
  pub some_room : 0 < sb.str_size
  pub few : sb.ent_max < u32_mod
  pub size : 64 + sb.str_size + sb.ent_max * 16 ≤ size_max
  pub pairs : Pairs (take sb.str_used sb.strs) sb.ents l
