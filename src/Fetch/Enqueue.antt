-- ===== src/Fetch/Enqueue.antt =====
-- child-fetch.c: `fetch_enqueue`, which takes a mail that was fetched into the queue.
use fdm.Fetch.{FetchHooks, Conf, Queues}
use fdm.Mail.Store.{trim_from, insert_place, insert_header}
use fdm.Mail.Wrap.{fill_wrapped}
use fdm.Mail.{Mail as Text, find_body, find_header, count_lines}
use fdm.Outcome.{Outcome, ok, fault, ◌>>=◌}
use fdm.Pop3.{up}
use fdm.Rules.{Hooks, Ctx, decision_drop}
use fdm.Prelude.{
  ℕ, ◌+◌, ◌-◌, ◌%◌, Bool, true, false, not, none, some, [], ◌∷◌, ◌++◌, ltb, ◌==◌, if◌then◌else◌,
  Bytes, codes, u32_mod,
}

-- The lines of a mail, of its body and of its headers, as they are tagged: the separator belongs to
-- neither.
unfoldable pub line_tags : Text → Outcome (ℕ × ℕ × ℕ)
line_tags t = do
  (n, b) ← count_lines t
  let b' = if n == b then b else up b
  ok (n, b, (n + u32_mod - b') % u32_mod)

-- The header goes before the first Received header, if there is one. After a mapping that fails the
-- old memory is read, which is gone.
unfoldable pub add_received : (ℕ → Bool) → Text → Bytes → Outcome Text
add_received grants t hdr = insert_place t (some (codes "received")) >>= elim [
  | none ↦ ok t
  | some _ ↦
      insert_header grants t (some (codes "received")) hdr >>= elim [ none ↦ fault | some r ↦ ok r ]
]

module _ (h : Hooks) (f : FetchHooks h) (conf : Conf) where
  -- A mail as it is queued, behind its attributes.
  unfoldable pub new_ctx : h.Mail → Ctx h
  new_ctx m = record {
    done = false;
    msgid = 0;
    mail = m;
    ruleidx = 0;
    rule = f.rules;
    stack = [];
    expritem = [];
    result = false;
    matched = false;
    dqueue = [];
  }

  -- A mail that is too big is deleted, or an error.
  unfoldable pub oversize : h.Mail → Queues h f conf → Bool × Queues h f conf
  oversize m q =
      if not conf.del_big
      then (false, q)
      else let (good, s) = f.commit (h.set_decision decision_drop m) q.source in
        (good, record q { source = s })

  -- The text of a mail that is queued, from the trimmed one.
  unfoldable pub headed : h.Mail → Text → Outcome Text
  headed m t =
      (if conf.no_received
        then ok t
        else elim (f.received m) [ none ↦ ok t | some hdr ↦ add_received f.grants t hdr ])
      >>= fill_wrapped

  -- A trimmed mail that is not empty gets its number, its tags and its header, and is queued.
  unfoldable pub fill_in : h.Mail → Text → Queues h f conf → Outcome (Queues h f conf)
  fill_in m t q = do
    lines ← line_tags t
    id ← find_header t (codes "message-id") true
    let m1 = f.attributes (up q.idx) lines id t (h.set_decision decision_drop m)
    t1 ← headed m1 t
    ok (record q {
      idx = up q.idx;
      queued = up q.queued;
      matchq = q.matchq ++ (new_ctx (f.with_text t1 m1) ∷ []);
    })

  -- `false` is the result -1.
  unfoldable pub enqueue : h.Mail → Queues h f conf → Outcome (Bool × Queues h f conf)
  enqueue m q =
      let t = f.text m in
      if ltb conf.max_size t.size then ok (oversize m q) else do
        body ← find_body t
        let t1 = trim_from (record t { body = body })
        if t1.size == 0 then ok (false, q) else fill_in m t1 q >>= λ r. ok (true, r)
