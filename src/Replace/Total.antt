-- ===== src/Replace/Total.antt =====
-- replace.c: `replace` ends, and stays inside its string, its submatches and its tags.
use fdm.Buffer.{read_at}
use fdm.Outcome.{Outcome, Returns, Ends->>=}
use fdm.Replace.{
  Rm, Env, alias_of, submatch, shown, emit, show_value, tag_value, bracketed, after_colon,
  short_form, directive, replace_from, replace,
}
use fdm.Strb.{find_tag}
use fdm.Strb.Find.{find_tag-first_value}
use fdm.Strb.Pairs.{Holds}
use mathlib.Core.Path.{subst}
use fdm.Prelude.{
  ℕ, zero, suc, ◌+◌, ◌-◌, ◌≤◌, ◌<◌, ◌≡◌, refl, sym, ap, ◌∙◌, ◌≢◌, inl, inr, Bool, true, false,
  Option, none, some, List, [], ◌∷◌, ◌++◌, append_assoc, arith, leb, ◌==◌, Bool-cases, Option-cases,
  length, take, drop, length-drop, take-append-drop, drop-drop, All, get_elem-All, Bytes, size_max,
  sub_size, memchr, is_digit,
}

-- A submatch that is valid lies in the data of the mail.
pub record Inside (text : Bytes) (rm : Rm) : Type 0 where
  pub order : rm.so ≤ rm.eo
  pub room : rm.eo ≤ length text
  pub bounded : length text ≤ size_max

-- The tags are a block that holds a list, and the submatches, if there are any, are ten.
pub record Readable (env : Env) (l : List (Bytes × Bytes)) : Type 0 where
  pub tags : Holds env.tags l
  pub ten : (list : List Rm) → env.rml ≡ some list → length list ≡ 10
  pub inside :
      (list : List Rm) → env.rml ≡ some list → All (λ rm. rm.valid ≡ true → Inside env.text rm) list

abbrev Comes : {A : Type 0} → Outcome A → Type 0
Comes m = Returns (λ r. Unit {0}) m

-- The string does not end with a colon.
abbrev pub EndsWell : Bytes → Type 0
EndsWell s = (pre : Bytes) → s ≢ pre ++ (b':' ∷ [])

EndsWell-drop : (i : ℕ) (s : Bytes) → EndsWell s → EndsWell (drop i s)
EndsWell-drop i s w pre e = w (take i s ++ pre) (
    sym (take-append-drop i s)
    ∙ ap (λ t. take i s ++ t) e
    ∙ sym (append_assoc (take i s) pre (b':' ∷ [])))

module _ (env : Env) (l : List (Bytes × Bytes)) (v : Readable env l) where
  emit-Comes : (bs : Bytes) (m : Outcome Bytes) → Comes m → Comes (emit bs m)
  unfolding emit
  emit-Comes bs m c = Ends->>= ⊥ (λ r. Unit {0}) (λ r. Unit {0}) m _ c (λ r k. tt)

  submatch-Comes : (ch : ℕ) → is_digit ch ≡ true → Comes (submatch env ch)
  unfolding submatch read_at
  submatch-Comes ch d = elim (Option-cases env.rml) [
    | inl none_there ↦ rw (submatch, none_there) tt
    | inr (list, there) ↦
        let (rm, e, p) =
          get_elem-All (λ rm. rm.valid ≡ true → Inside env.text rm) list (ch - b'0')
            (let t = v.ten list there in ground (arith, d, t)) (v.inside list there) in
        elim (Bool-cases rm.valid) [
          | inr invalid ↦ rw (submatch, there, e, invalid) tt
          | inl valid ↦
              let i = p valid in
              let fits : leb (rm.so + sub_size rm.eo rm.so) (length env.text) ≡ true =
                (let n : sub_size rm.eo rm.so ≡ rm.eo - rm.so =
                    omega (arith, i.order, i.room, i.bounded) in
                  ground (arith, n, i.order, i.room)) in
              rw (submatch, there, e, valid, read_at, fits) tt
        ]
  ]

  show_value-Comes :
      (strip : Bool) (o : Option Bytes) (m : Outcome Bytes)
      → Comes m
      → Comes (show_value env strip o m)
  unfolding show_value
  show_value-Comes strip none m c = c
  show_value-Comes strip (some s) m c = emit-Comes (shown env strip s) m c

  find_tag-Comes : (key : Bytes) → Comes (find_tag env.tags key)
  find_tag-Comes key = rw (find_tag-first_value env.tags l key v.tags) tt

  -- The rest of the loop comes to its end on every rest of the string.
  abbrev Goes : (Bool → Bytes → Outcome Bytes) → Bytes → Type 0
  Goes go s = (strip : Bool) (i : ℕ) → Comes (go strip (drop i s))

  Goes-tail : (go : Bool → Bytes → Outcome Bytes) (c : ℕ) (s : Bytes) → Goes go (c ∷ s) → Goes go s
  Goes-tail go c s g strip i =
      subst (λ t. Comes (go strip t)) (sym (drop-drop i 1 (i + 1) (c ∷ s) (omega arith)))
        (g strip (i + 1))

  tag_value-Comes :
      (go : Bool → Bytes → Outcome Bytes) (strip : Bool) (key rest : Bytes)
      → Comes (go strip rest)
      → Comes (tag_value env go strip key rest)
  unfolding tag_value
  tag_value-Comes go strip [] rest c = c
  tag_value-Comes go strip (x ∷ key) rest c =
      Ends->>= ⊥ (λ r. Unit {0}) (λ r. Unit {0}) (find_tag env.tags (x ∷ key)) _
        (find_tag-Comes (x ∷ key)) (λ o _. show_value-Comes strip o (go strip rest) c)

  bracketed-Comes :
      (go : Bool → Bytes → Outcome Bytes) (strip : Bool) (key rest : Bytes)
      → ((strip' : Bool) → Comes (go strip' rest))
      → Comes (bracketed env go strip key rest)
  unfolding bracketed
  bracketed-Comes go strip [] rest c = tag_value-Comes go strip [] rest (c strip)
  bracketed-Comes go strip (x ∷ key) rest c = elim (Bool-cases (x == b':')) [
    | inl colon ↦ rw (bracketed, colon) (tag_value-Comes go false key rest (c false))
    | inr other ↦ rw (bracketed, other) (tag_value-Comes go strip (x ∷ key) rest (c strip))
  ]

  after_colon-Comes :
      (go : Bool → Bytes → Outcome Bytes) (strip : Bool) (s : Bytes)
      → s ≢ []
      → Goes go s
      → Comes (after_colon env go strip s)
  unfolding after_colon
  after_colon-Comes go strip [] n g = absurd (n refl)
  after_colon-Comes go strip (ch ∷ s) n g = elim (Bool-cases (is_digit ch)) [
    | inr other ↦ rw (after_colon, other) (emit-Comes (ch ∷ []) (go strip s) (g strip 1))
    | inl digit ↦
        rw (after_colon, digit)
          (Ends->>= ⊥ (λ r. Unit {0}) (λ r. Unit {0}) (submatch env ch) _ (submatch-Comes ch digit)
            (elim [ none ↦ λ _. g strip 1 | some o ↦ λ _. emit-Comes o (go false s) (g false 1) ]))
  ]

  short_form-Comes :
      (go : Bool → Bytes → Outcome Bytes) (strip : Bool) (ch : ℕ) (s : Bytes)
      → Comes (go strip s)
      → Comes (short_form env go strip ch s)
  unfolding short_form
  short_form-Comes go strip ch s c = elim (Bool-cases (is_digit ch)) [
    | inl digit ↦
        rw (short_form, digit)
          (Ends->>= ⊥ (λ r. Unit {0}) (λ r. Unit {0}) (submatch env ch) _ (submatch-Comes ch digit)
            (λ o _. show_value-Comes strip o (go strip s) c))
    | inr other ↦ elim (Option-cases (alias_of ch)) [
      | inl none_there ↦ rw (short_form, other, none_there) c
      | inr (a, there) ↦
          rw (short_form, other, there)
            (Ends->>= ⊥ (λ r. Unit {0}) (λ r. Unit {0}) (find_tag env.tags a) _ (find_tag-Comes a)
              (λ o _. show_value-Comes strip o (go strip s) c))
    ]
  ]

  directive-Comes :
      (go : Bool → Bytes → Outcome Bytes) (strip : Bool) (s : Bytes)
      → EndsWell s
      → Goes go s
      → Comes (directive env go strip s)
  unfolding directive
  directive-Comes go strip [] w g = tt
  directive-Comes go strip (ch ∷ s) w g = elim (Bool-cases (ch == b'%')) [
    | inl percent ↦ rw (directive, percent) (emit-Comes (b'%' ∷ []) (go strip s) (g strip 1))
    | inr no_percent ↦ elim (Bool-cases (ch == b'[')) [
      | inl bracket ↦ elim (Option-cases (memchr b']' s)) [
        | inl open_end ↦
            rw (directive, no_percent, bracket, open_end)
              (emit-Comes (b'%' ∷ b'[' ∷ []) (go strip s) (g strip 1))
        | inr (n, closed) ↦
            rw (directive, no_percent, bracket, closed)
              (bracketed-Comes go strip (take n s) (drop (n + 1) s)
                (λ strip'. Goes-tail go ch s g strip' (n + 1)))
      ]
      | inr no_bracket ↦ elim (Bool-cases (ch == b':')) [
        | inl colon ↦
            rw (directive, no_percent, no_bracket, colon)
              (after_colon-Comes go strip s
                (λ e. w [] (ap (λ c. c ∷ s) (ground (arith, colon)) ∙ ap (λ t. b':' ∷ t) e))
                (Goes-tail go ch s g))
        | inr other ↦
            rw (directive, no_percent, no_bracket, other)
              (short_form-Comes go strip ch s (g strip 1))
      ]
    ]
  ]

  replace_from-Comes :
      (n : ℕ) (strip : Bool) (s : Bytes)
      → length s < n
      → EndsWell s
      → Comes (replace_from env n strip s)
  unfolding replace_from
  replace_from-Comes zero strip s lt w = absurd (omega (arith, lt))
  replace_from-Comes (suc n) strip [] lt w = tt
  replace_from-Comes (suc n) strip (c ∷ s) lt w =
      let rest = EndsWell-drop 1 (c ∷ s) w in
      elim (Bool-cases (c == b'%')) [
        | inl percent ↦
            rw (replace_from, percent)
              (directive-Comes (replace_from env n) strip s rest (λ strip' i.
                replace_from-Comes n strip' (drop i s) (omega (arith, lt, length-drop i s))
                  (EndsWell-drop i s rest)))
        | inr plain ↦
            rw (replace_from, plain)
              (emit-Comes (c ∷ []) (replace_from env n strip s)
                (replace_from-Comes n strip s (omega (arith, lt)) rest))
      ]

-- `replace` returns on every string that does not end with a colon, and leaves neither the string nor
-- the data of the mail nor the block of the tags. The block holds a list, there are ten submatches or
-- none, and those that are valid lie in the data.
pub replace-Returns :
    (env : Env) (l : List (Bytes × Bytes)) (src : Bytes)
    → Readable env l
    → EndsWell src
    → Returns (λ r. (dst : Bytes) × (r ≡ some dst)) (replace env (some src))
unfolding replace
replace-Returns env l src v w =
    Ends->>= ⊥ (λ r. Unit {0}) (λ r. (dst : Bytes) × (r ≡ some dst))
      (replace_from env (length src + 1) true src) _
      (replace_from-Comes env l v (length src + 1) true src (omega arith) w) (λ dst _. (dst, refl))
