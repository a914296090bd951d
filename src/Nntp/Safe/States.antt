-- ===== src/Nntp/Safe/States.antt =====
-- fetch-nntp.c: every state keeps what the next one relies on.
use fdm.Nntp.{
  connected, auth1, switch, group, reset, stat, wait, next, quit, Group, NntpHooks, Session, check,
  parse223,
}
use fdm.Nntp.Safe.{
  Known, IsKnown, IsGiven, set_at-All, set_at-bound, HasLast-set_at, Inv, After, moved,
  check_from-Ends, with_group-Ends,
}
use fdm.Nntp.States.{
  first_active, state_connected, state_auth1, state_switch, state_group, state_reset, state_stat,
  state_wait, state_next, state_quit,
}
use fdm.Outcome.{Ends}
use mathlib.Core.Path.{subst}
use fdm.Prelude.{
  ℕ, ◌+◌, ◌-◌, ◌<◌, ◌≡◌, refl, sym, ap, ◌∙◌, inl, inr, Bool, true, false, ◌||◌, some, List, [], ◌∷◌,
  arith, ltb, ◌==◌, Bool-cases, Option-cases, length, drop, length-drop, bytes_eq,
}

passed :
    (g : Group) (gs : List Group) (i : ℕ) (b : Bool)
    → g.ignore ≡ b
    → first_active (g ∷ gs) i ≡ elim b [ true ↦ first_active gs (i + 1) | false ↦ some i ]
unfolding first_active
passed g gs i b e = ap (λ x. elim x [ true ↦ first_active gs (i + 1) | false ↦ some i ]) e

pub first_active-bound :
    (gs : List Group) (i j : ℕ) → first_active gs i ≡ some j → j < i + length gs
unfolding first_active
first_active-bound [] i j e = absurd (ground (arith, e))
first_active-bound (g ∷ gs) i j e = elim (Bool-cases g.ignore) [
  | inl skipped ↦
      let b = first_active-bound gs (i + 1) j (sym (passed g gs i true skipped) ∙ e) in
      omega (arith, b)
  | inr active ↦ let same = sym (passed g gs i false active) ∙ e in ground (arith, same)
]

module _ (h : NntpHooks) where
  pub connected-Inv :
      (s : Session h) → Inv h s → s.state ≡ connected → Ends ⊥ (After h) (state_connected h s)
  unfolding state_connected check
  connected-Inv s i e =
      let less = moved h connected s i e in
      check_from-Ends h 2 _ _ s.input s (omega arith) i (λ code l rest. elim (Option-cases h.user) [
        | inl missing ↦ rw missing (record { known = i.known; ready = less })
        | inr (u, there) ↦ rw there (elim (Option-cases h.pass) [
          | inl missing ↦ rw missing (record { known = i.known; ready = less })
          | inr (p, given) ↦
              rw given (record { known = i.known; ready = (less, subst IsGiven (sym given) tt) })
        ])
      ])

  pub auth1-Inv : (s : Session h) → Inv h s → s.state ≡ auth1 → Ends ⊥ (After h) (state_auth1 h s)
  unfolding state_auth1 check
  auth1-Inv s i e =
      let (less, given) = moved h auth1 s i e in
      check_from-Ends h 1 _ _ s.input s (omega arith) i (λ code l rest. elim (Option-cases h.pass) [
        | inl missing ↦ absurd (subst IsGiven missing given)
        | inr (p, there) ↦ rw there (record { known = i.known; ready = less })
      ])

  pub switch-Inv :
      (s : Session h) → Inv h s → s.state ≡ switch → Ends ⊥ (After h) (state_switch h s)
  unfolding state_switch
  switch-Inv s i e =
      let less = moved h switch s i e in
      let inside : ltb s.group (length s.groups) ≡ true = ground (arith, less) in
      elim (Option-cases (first_active (drop (s.group + 1) s.groups) (s.group + 1))) [
        | inl none_there ↦
            rw (state_switch, inside, none_there) (record { known = i.known; ready = tt })
        | inr (j, there) ↦
            let b = first_active-bound (drop (s.group + 1) s.groups) (s.group + 1) j there in
            rw (state_switch, inside, there)
              (record {
                known = i.known;
                ready = omega (arith, b, less, length-drop (s.group + 1) s.groups);
              })
      ]

  pub group-Inv : (s : Session h) → Inv h s → s.state ≡ group → Ends ⊥ (After h) (state_group h s)
  unfolding state_group
  group-Inv s i e =
      let less = moved h group s i e in
      with_group-Ends h _ s less i.known (λ g at k. record { known = i.known; ready = less })

  pub reset-Inv : (s : Session h) → Inv h s → s.state ≡ reset → Ends ⊥ (After h) (state_reset h s)
  unfolding state_reset
  reset-Inv s i e =
      let less = moved h reset s i e in
      with_group-Ends h _ s less i.known (λ g at k. record {
        known = set_at-All IsKnown s.group _ s.groups refl i.known;
        ready = set_at-bound s.group _ s.groups less;
      })

  pub stat-Inv : (s : Session h) → Inv h s → s.state ≡ stat → Ends ⊥ (After h) (state_stat h s)
  unfolding state_stat check
  stat-Inv s i e =
      let less = moved h stat s i e in
      with_group-Ends h _ s less i.known (λ g at k.
        check_from-Ends h 1 _ _ s.input s (omega arith) i (λ code l rest.
          elim (Option-cases (h.scan_211 l)) [
            | inl missing ↦ rw missing tt
            | inr ((size, n), there) ↦ rw there (elim (Bool-cases (ltb n g.last)) [
              | inl older ↦ rw older (record {
                known = set_at-All IsKnown s.group (record g { size = size }) s.groups k i.known;
                ready = set_at-bound s.group _ s.groups less;
              })
              | inr newer ↦
                  let g' : Group = record g { size = n - g.last } in
                  let all = set_at-All IsKnown s.group g' s.groups k i.known in
                  let less' = set_at-bound s.group g' s.groups less in
                  elim (Bool-cases (g.last == 0)) [
                    | inl never ↦ rw (newer, never) (record { known = all; ready = less' })
                    | inr read ↦
                        rw (newer, read)
                          (record {
                            known = all;
                            ready = (
                              less',
                              HasLast-set_at s.group g' s.groups less (ground (arith, read)),
                            );
                          })
                  ]
            ])
          ]))

  pub wait-Inv : (s : Session h) → Inv h s → s.state ≡ wait → Ends ⊥ (After h) (state_wait h s)
  unfolding state_wait check
  wait-Inv s i e =
      let (less, last) = moved h wait s i e in
      with_group-Ends h _ s less i.known (λ g at k.
        check_from-Ends h 2 _ _ s.input s (omega arith) i (λ code l rest.
          elim (Bool-cases (code == 223)) [
            | inr other ↦ rw other (record { known = i.known; ready = less })
            | inl found ↦ rw found (elim (Option-cases (parse223 h l)) [
              | inl missing ↦ rw missing tt
              | inr ((n, id), there) ↦ rw there (elim (Bool-cases (n == g.last)) [
                | inr different ↦ rw different tt
                | inl same ↦ rw same (elim (Option-cases g.id) [
                  | inl unread ↦
                      absurd (
                        let z = subst (λ x. Known x g.last) unread k in omega (arith, z, last g at))
                  | inr (old, there) ↦ rw there (elim (Bool-cases (bytes_eq id old)) [
                    | inl equal ↦ rw equal (record { known = i.known; ready = less })
                    | inr unequal ↦ rw unequal (record { known = i.known; ready = less })
                  ])
                ])
              ])
            ])
          ]))

  pub next-Inv : (s : Session h) → Inv h s → s.state ≡ next → Ends ⊥ (After h) (state_next h s)
  unfolding state_next check
  next-Inv s i e =
      let less = moved h next s i e in
      with_group-Ends h _ s less i.known (λ g at k.
        check_from-Ends h 3 _ _ s.input s (omega arith) i (λ code l rest.
          elim (Bool-cases (code == 420 || code == 421)) [
            | inl over ↦ rw over (record { known = i.known; ready = less })
            | inr found ↦ rw found (elim (Option-cases (parse223 h l)) [
              | inl missing ↦ rw missing tt
              | inr ((n, id), there) ↦ rw there (record {
                known =
                    set_at-All IsKnown s.group (record g { last = n; id = some id }) s.groups tt
                      i.known;
                ready = set_at-bound s.group _ s.groups less;
              })
            ])
          ]))

  pub quit-Inv : (s : Session h) → Inv h s → s.state ≡ quit → Ends ⊥ (After h) (state_quit h s)
  unfolding state_quit check
  quit-Inv s i e = check_from-Ends h 1 _ _ s.input s (omega arith) i (λ code l rest. tt)
