-- ===== src/Rules/Fit/Deliver.antt =====
-- mail-state.c: `mail_deliver` on a context of its queue.
use fdm.Outcome.{Returns}
use fdm.Rules.Deliver.{
  action_done, action_error, action_parent, start_action, finish_action, started, finished,
  start_next, finish_first, mail_deliver,
}
use fdm.Rules.Fit.{MatchFit, DeliverFit}
use fdm.Rules.{Delivery, Code, continue, deliver, match, error, blocked, done, Hooks, Msg, Ctx}
use fdm.Prelude.{
  ◌≡◌, refl, sym, ◌∙◌, ◌≢◌, ◌⊎◌, inl, inr, Option, none, some, List, [], ◌∷◌, arith, ◌==◌,
  Bool-cases, Option-cases,
}

module _ (h : Hooks) (numbered : (m : h.Mail) → h.index m ≢ 0) where
  -- What `mail_deliver` leaves.
  abbrev pub Delivered : Code × Ctx h → Type 0
  Delivered (continue, c) = DeliverFit h c
  Delivered (match, c) = MatchFit h c
  Delivered (blocked, c) = DeliverFit h c × (c.msgid ≢ 0)
  Delivered (error, c) = Unit
  Delivered (deliver, c) = ⊥
  Delivered (done, c) = ⊥

  -- A delivery that is started fails, or is done, or the mail waits for the parent.
  start_action-cases :
      (c : Ctx h) (d : Delivery h)
      → (m : h.Mail) × ((start_action h c d ≡ (action_error, record c { mail = m }))
          ⊎ ((start_action h c d ≡ (action_done, record c { mail = m }))
              ⊎ ((n : h.Mail) × (start_action h c d
                    ≡ (action_parent, record c { mail = m; msgid = h.index n })))))
  unfolding start_action
  start_action-cases c d = elim (Bool-cases (h.is_in_child d.deliver)) [
    | inr parent ↦
        let m = h.tag_action d.action c.ruleidx d.user c.mail in
        (h.reset_tags m, inr (inr (m, rw (parent, start_action) refl)))
    | inl child ↦
        let m =
          (h.run_deliver d.deliver d.user (h.tag_action d.action c.ruleidx d.user c.mail)).1 in
        elim (Bool-cases
          (h.run_deliver d.deliver d.user (h.tag_action d.action c.ruleidx d.user c.mail)).0) [
            | inl good ↦ (h.reset_tags m, inr (inl (rw (child, start_action, good) refl)))
            | inr bad ↦ (h.reset_tags m, inl (rw (child, start_action, bad) refl))
          ]
  ]

  -- A delivery that the parent made is done, or it failed; only the mail has changed.
  finish_action-cases :
      (c : Ctx h) (d : Delivery h) (g : Msg)
      → (m : h.Mail) × ((finish_action h c d g ≡ (action_error, record c { mail = m }))
          ⊎ (finish_action h c d g ≡ (action_done, record c { mail = m })))
  unfolding finish_action
  finish_action-cases c d g =
      let m : h.Mail = elim g.tags [ [] ↦ c.mail | t ∷ ts ↦ h.set_tags (t ∷ ts) c.mail ] in
      elim (Bool-cases (g.error == 0)) [
        | inr bad ↦ (m, inl (rw bad refl))
        | inl good ↦ elim (Bool-cases (h.is_write_back d.deliver)) [
          | inr plain ↦ (m, inr (rw (good, plain) refl))
          | inl back ↦ elim (Option-cases (h.receive m)) [
            | inl lost ↦ (m, inl (rw (good, back, lost) refl))
            | inr (r, got) ↦ (r, inr (rw (good, back, got) refl))
          ]
        ]
      ]

  start_next-Delivered :
      (ds : List (Delivery h)) (c : Ctx h)
      → c.dqueue ≡ ds
      → DeliverFit h c
      → c.msgid ≡ 0
      → Delivered (start_next h ds c)
  unfolding start_next started
  start_next-Delivered [] c e v z = record {
    rules = v.rules;
    stack = v.stack;
    started = λ x. absurd (x v.idle);
    waiting = λ x. absurd (x z);
  }
  start_next-Delivered (d ∷ ds) c e v z =
      let (m, outcome) = start_action-cases c d in
      elim outcome [
        | inl bad ↦ rw (start_next, bad) tt
        | inr (inl good) ↦
            rw (start_next, good)
              (record {
                rules = v.rules;
                stack = v.stack;
                idle = v.idle;
                waiting = λ x. absurd (x z);
              })
        | inr (inr (n, sent)) ↦
            rw (start_next, sent)
              (
                record {
                  rules = v.rules;
                  stack = v.stack;
                  idle = v.idle;
                  waiting = λ x y. ground (arith, sym e ∙ y);
                },
                numbered n,
              )
      ]

  finish_first-Delivered :
      (g : Msg) (ds : List (Delivery h)) (c : Ctx h)
      → ds ≢ []
      → DeliverFit h c
      → c.msgid ≡ 0
      → Returns Delivered (finish_first h g ds c)
  unfolding finish_first finished
  finish_first-Delivered g [] c n v z = absurd (n refl)
  finish_first-Delivered g (d ∷ ds) c n v z =
      let (m, outcome) = finish_action-cases c d g in
      elim outcome [
        | inl bad ↦ rw (finish_first, bad) tt
        | inr good ↦
            rw (finish_first, good)
              (record {
                rules = v.rules;
                stack = v.stack;
                idle = v.idle;
                waiting = λ x. absurd (x z);
              })
      ]

  -- `mail_deliver` returns on every context of the deliver queue, whatever the deliveries do, and
  -- leaves one: a mail that is blocked waits for a message, and a mail whose deliveries are done
  -- belongs in the match queue. Mails have numbers.
  pub mail_deliver-Delivered :
      (msg : Option Msg) (c : Ctx h) → DeliverFit h c → Returns Delivered (mail_deliver h msg c)
  unfolding mail_deliver
  mail_deliver-Delivered msg c v = by_msg msg
    where
      c' : Ctx h
      c' = record c { mail = h.rewrap c.mail }

      v' : DeliverFit h c'
      v' = record { rules = v.rules; stack = v.stack; idle = v.idle; waiting = v.waiting }

      by_msg : (msg : Option Msg) → Returns Delivered (mail_deliver h msg c)
      by_msg none = elim (Bool-cases (c.msgid == 0)) [
        | inl free ↦
            rw (mail_deliver, free)
              (start_next-Delivered c.dqueue c' refl v' (ground (arith, free)))
        | inr waits ↦ rw (mail_deliver, waits) (v', λ z. ground (arith, waits, z))
      ]
      by_msg (some g) = elim (Bool-cases (c.msgid == 0)) [
        | inl free ↦
            rw (mail_deliver, free)
              (start_next-Delivered c.dqueue c' refl v' (ground (arith, free)))
        | inr waits ↦
            let n : c.msgid ≢ 0 = λ z. ground (arith, waits, z) in
            elim (Bool-cases (g.id == c.msgid)) [
              | inr other ↦ rw (mail_deliver, waits, other) (v', n)
              | inl ours ↦
                  rw (mail_deliver, waits, ours)
                    (finish_first-Delivered g c.dqueue (record c' { msgid = 0 }) (v.waiting n)
                      (record {
                        rules = v.rules;
                        stack = v.stack;
                        idle = v.idle;
                        waiting = λ x. absurd (x refl);
                      })
                      refl)
            ]
      ]
