-- ===== src/Netrc/Ends.antt =====
-- netrc.c: the words of a file get used up.
use fdm.Netrc.{
  Token, ended, broken, word, is_gap, skip_gaps, quoted_from, plain_from, token, Found,
  value_behind, lookup_from, lookup,
}
use fdm.Outcome.{Outcome, Ends}
use fdm.Prelude.{
  ℕ, zero, suc, ◌+◌, ◌≤◌, ◌<◌, ◌≡◌, refl, ap, ◌⊎◌, inl, inr, Bool, true, false, ◌&&◌, ◌||◌, Option,
  none, some, [], ◌∷◌, ◌++◌, arith, ◌==◌, Bool-cases, length, list_cases, Bytes, codes, bytes_eq,
}

-- What is left behind a word has at most `n` bytes.
abbrev pub Leaves : ℕ → Token → Type 0
Leaves n ended = Unit
Leaves n broken = Unit
Leaves n (word t rest) = length rest ≤ n

skip_gaps-length : (f : Bytes) → length (skip_gaps f) ≤ length f
unfolding skip_gaps
skip_gaps-length [] = omega arith
skip_gaps-length (c ∷ f) = elim (Bool-cases (is_gap c)) [
  | inl gap ↦ rw (skip_gaps, gap) (omega (arith, skip_gaps-length f))
  | inr other ↦ rw (skip_gaps, other) (omega arith)
]

Leaves-more : (n k : ℕ) (t : Token) → n ≤ k → Leaves n t → Leaves k t
Leaves-more n k ended le l = tt
Leaves-more n k broken le l = tt
Leaves-more n k (word t rest) le l = omega (arith, le, l)

-- Fewer than `n` bytes are left.
abbrev pub Fewer : ℕ → Token → Type 0
Fewer n ended = Unit
Fewer n broken = Unit
Fewer n (word t rest) = length rest < n

Leaves-Fewer : (n k : ℕ) (t : Token) → n < k → Leaves n t → Fewer k t
Leaves-Fewer n k ended le l = tt
Leaves-Fewer n k broken le l = tt
Leaves-Fewer n k (word t rest) le l = omega (arith, le, l)

module _ (bufsiz : ℕ) where
  quoted_from-Leaves :
      (escaped : Bool) (f taken : Bytes) → Leaves (length f) (quoted_from bufsiz escaped f taken)
  unfolding quoted_from
  quoted_from-Leaves escaped [] taken = tt
  quoted_from-Leaves true (c ∷ f) taken =
      let more =
        Leaves-more (length f) (suc (length f)) _ (omega arith)
          (quoted_from-Leaves false f (taken ++ (c ∷ []))) in
      elim (Bool-cases (length (taken ++ (c ∷ [])) == bufsiz)) [
        | inl full ↦ rw full tt
        | inr room ↦ rw room more
      ]
  quoted_from-Leaves false (c ∷ f) taken =
      let more =
        Leaves-more (length f) (suc (length f)) _ (omega arith)
          (quoted_from-Leaves false f (taken ++ (c ∷ []))) in
      let after =
        Leaves-more (length f) (suc (length f)) _ (omega arith) (quoted_from-Leaves true f taken) in
      elim (Bool-cases (c == b'"')) [
        | inl quote ↦ rw quote (omega arith)
        | inr other ↦ elim (Bool-cases (c == b'\\')) [
          | inl slash ↦ rw (other, slash) after
          | inr other' ↦ elim (Bool-cases (length (taken ++ (c ∷ [])) == bufsiz)) [
            | inl full ↦ rw (other, other', full) tt
            | inr room ↦ rw (other, other', room) more
          ]
        ]
      ]

  plain_from-Leaves :
      (escaped : Bool) (f taken : Bytes) → Leaves (length f) (plain_from bufsiz escaped f taken)
  unfolding plain_from
  plain_from-Leaves escaped [] taken = omega arith
  plain_from-Leaves true (c ∷ f) taken =
      let more =
        Leaves-more (length f) (suc (length f)) _ (omega arith)
          (plain_from-Leaves false f (taken ++ (c ∷ []))) in
      elim (Bool-cases (length (taken ++ (c ∷ [])) == bufsiz)) [
        | inl full ↦ rw full tt
        | inr room ↦ rw room more
      ]
  plain_from-Leaves false (c ∷ f) taken =
      let more =
        Leaves-more (length f) (suc (length f)) _ (omega arith)
          (plain_from-Leaves false f (taken ++ (c ∷ []))) in
      let after =
        Leaves-more (length f) (suc (length f)) _ (omega arith) (plain_from-Leaves true f taken) in
      elim (Bool-cases (is_gap c)) [
        | inl gap ↦ rw gap (omega arith)
        | inr other ↦ elim (Bool-cases (c == b'\\')) [
          | inl slash ↦ rw (other, slash) after
          | inr other' ↦ elim (Bool-cases (length (taken ++ (c ∷ [])) == bufsiz)) [
            | inl full ↦ rw (other, other', full) tt
            | inr room ↦ rw (other, other', room) more
          ]
        ]
      ]

  -- A word takes at least one byte.
  pub token-Fewer : (f : Bytes) → Fewer (length f) (token bufsiz f)
  unfolding token
  token-Fewer f = elim (list_cases (skip_gaps f)) [
    | inl e ↦ rw (token, e) tt
    | inr (c, f', e) ↦
        let fewer : length f' < length f = omega (arith, ap length e, skip_gaps-length f) in
        elim (Bool-cases (c == b'"')) [
          | inl quote ↦
              rw (token, e, quote)
                (Leaves-Fewer (length f') (length f) _ fewer (quoted_from-Leaves false f' []))
          | inr other ↦
              rw (token, e, other)
                (Leaves-Fewer (length f') (length f) _ fewer (plain_from-Leaves false f' (c ∷ [])))
        ]
  ]

  token_cases :
      (f : Bytes)
      → (token bufsiz f ≡ ended)
        ⊎ (token bufsiz f ≡ broken)
        ⊎ ((t : Bytes) × (rest : Bytes) × (token bufsiz f ≡ word t rest) × (length rest < length f))
  token_cases f = by_token (token bufsiz f) (token-Fewer f)
    where
      by_token :
          (t : Token)
          → Fewer (length f) t
          → (t ≡ ended)
            ⊎ (t ≡ broken)
            ⊎ ((w : Bytes) × (rest : Bytes) × (t ≡ word w rest) × (length rest < length f))
      by_token ended l = inl refl
      by_token broken l = inr (inl refl)
      by_token (word w rest) l = inr (inr (w, rest, refl, l))

  abbrev pub Returns : Outcome Found → Type 0
  Returns m = Ends ⊥ (λ r. Unit {0}) m

  value_behind-Returns :
      (wanted : Bool) (key t f : Bytes) (value : Option Bytes)
      (k : Bytes → Bytes → Option Bytes → Outcome Found) (stop : Outcome Found)
      → ((t' rest : Bytes) (value' : Option Bytes)
          → length rest ≤ length f
          → Returns (k t' rest value'))
      → Returns stop
      → Returns (value_behind bufsiz wanted key t f value k stop)
  unfolding value_behind
  value_behind-Returns wanted key t f value k stop goes stops =
      elim (Bool-cases (wanted && bytes_eq t key)) [
        | inr other ↦ rw (value_behind, other) (goes t f value (omega arith))
        | inl here ↦ elim (token_cases f) [
          | inl e ↦ rw (value_behind, here, e) stops
          | inr (inl e) ↦ rw (value_behind, here, e) stops
          | inr (inr (v, rest, e, less)) ↦ elim (Bool-cases (length v == 0)) [
            | inl empty ↦ rw (value_behind, here, e, empty) stops
            | inr there ↦
                rw (value_behind, here, e, there) (goes v rest (some v) (omega (arith, less)))
          ]
        ]
      ]

  module _ (wants_user wants_pass : Bool) (host : Bytes) where
    lookup_from-Returns :
        (fuel : ℕ) (found : Bool) (f : Bytes) (user pass : Option Bytes)
        → length f < fuel
        → Returns (lookup_from bufsiz wants_user wants_pass host fuel found f user pass)
    unfolding lookup_from
    lookup_from-Returns zero found f user pass less = absurd (omega (arith, less))
    lookup_from-Returns (suc fuel) found f user pass less = elim (token_cases f) [
      | inl e ↦ rw (lookup_from, e) tt
      | inr (inl e) ↦ rw (lookup_from, e) tt
      | inr (inr (t, rest, e, fewer)) ↦ elim (Bool-cases found) [
        | inr unfound ↦ elim (Bool-cases (bytes_eq t (codes "machine"))) [
          | inr other ↦
              rw (lookup_from, e, unfound, other)
                (lookup_from-Returns fuel _ rest user pass (omega (arith, less, fewer)))
          | inl machine ↦ elim (token_cases rest) [
            | inl e' ↦ rw (lookup_from, e, unfound, machine, e') tt
            | inr (inl e') ↦ rw (lookup_from, e, unfound, machine, e') tt
            | inr (inr (name, rest', e', fewer')) ↦
                rw (lookup_from, e, unfound, machine, e')
                  (lookup_from-Returns fuel _ rest' user pass (omega (arith, less, fewer, fewer')))
          ]
        ]
        | inl there ↦
            elim (Bool-cases (bytes_eq t (codes "machine") || bytes_eq t (codes "default"))) [
              | inl over ↦ rw (lookup_from, e, there, over) tt
              | inr inside ↦
                  rw (lookup_from, e, there, inside)
                    (value_behind-Returns wants_user (codes "login") t rest user _ _
                      (λ t' rest' user' le.
                        value_behind-Returns wants_pass (codes "password") t' rest' pass _ _
                          (λ t'' rest'' pass' le'.
                            lookup_from-Returns fuel true rest'' user' pass'
                              (omega (arith, less, fewer, le, le')))
                          tt)
                      tt)
            ]
      ]
    ]

    -- `netrc_lookup` returns for every file: each round of its loop takes a word, and a word at least
    -- one byte, so the fuel is enough.
    pub lookup-Returns : (f : Bytes) → Returns (lookup bufsiz wants_user wants_pass host f)
    unfolding lookup
    lookup-Returns f = lookup_from-Returns (length f + 1) false f none none (omega arith)
