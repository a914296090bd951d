-- ===== src/Rules/Deliver.antt =====
-- mail-state.c: `mail_deliver`, one step of delivering a mail, with `start_action` and
-- `finish_action`.
use fdm.Outcome.{Outcome, ok, fault}
use fdm.Rules.{Code, continue, match, error, blocked, Hooks, Msg, Delivery, Ctx}
use fdm.Prelude.{not, Option, none, some, List, [], ◌∷◌, ◌==◌, if◌then◌else◌}

-- ACTION_DONE, ACTION_ERROR and ACTION_PARENT.
pub data ActionResult : Type 0 where
  action_done action_error action_parent : ActionResult

module _ (h : Hooks) where
  open h use {Mail, Match, User}

  -- A delivery in the child is made at once; any other is sent to the parent, and the mail waits.
  unfoldable pub start_action : Ctx h → Delivery h → ActionResult × Ctx h
  start_action c d =
      let tagged = h.tag_action d.action c.ruleidx d.user c.mail in
      if h.is_in_child d.deliver
      then (let (good, m) = h.run_deliver d.deliver d.user tagged in
          (if good then action_done else action_error, record c { mail = h.reset_tags m }))
      else (action_parent, record c { mail = h.reset_tags tagged; msgid = h.index tagged })

  -- The parent's answer. A delivery that changes the mail hands back the new one.
  unfoldable pub finish_action : Ctx h → Delivery h → Msg → ActionResult × Ctx h
  finish_action c d g =
      let m : Mail = elim g.tags [ [] ↦ c.mail | t ∷ ts ↦ h.set_tags (t ∷ ts) c.mail ] in
      if not (g.error == 0)
      then (action_error, record c { mail = m })
      else if not (h.is_write_back d.deliver)
      then (action_done, record c { mail = m })
      else elim (h.receive m) [
        | none ↦ (action_error, record c { mail = m })
        | some r ↦ (action_done, record c { mail = r })
      ]

  -- The switch over the result of `start_action`, and the label `done`; `ds` are the deliveries
  -- behind it.
  unfoldable pub started : ActionResult × Ctx h → List (Delivery h) → Code × Ctx h
  started (action_error, c) ds = (error, c)
  started (action_parent, c) ds = (blocked, c)
  started (action_done, c) ds = (continue, record c { dqueue = ds })

  -- The test of the result of `finish_action`.
  unfoldable pub finished : ActionResult × Ctx h → List (Delivery h) → Code × Ctx h
  finished (action_error, c) ds = (error, c)
  finished (action_parent, c) ds = (continue, record c { dqueue = ds })
  finished (action_done, c) ds = (continue, record c { dqueue = ds })

  -- The delivery at the front of the queue, and those behind it.
  unfoldable pub start_next : List (Delivery h) → Ctx h → Code × Ctx h
  start_next [] c = (match, c)
  start_next (d ∷ ds) c = started (start_action c d) ds

  -- An answer for the delivery at the front; with none there, the C code reads through NULL.
  unfoldable pub finish_first : Msg → List (Delivery h) → Ctx h → Outcome (Code × Ctx h)
  finish_first g [] c = fault
  finish_first g (d ∷ ds) c = ok (finished (finish_action c d g) ds)

  unfoldable pub mail_deliver : Option Msg → Ctx h → Outcome (Code × Ctx h)
  mail_deliver msg c =
      let c' : Ctx h = record c { mail = h.rewrap c.mail } in
      if not (c.msgid == 0)
      then elim msg [
        | none ↦ ok (blocked, c')
        | some g ↦
            if not (g.id == c.msgid)
            then ok (blocked, c')
            else finish_first g c.dqueue (record c' { msgid = 0 })
      ]
      else ok (start_next c.dqueue c')
