-- ===== src/Rules/Chain.antt =====
-- Chained actions end: the counter `chained` bounds the calls of `fill_from_strings`, whatever the
-- configuration refers to.
use fdm.Outcome.{ok, Returns, Ends->>=, Ends-mono}
use fdm.Rules.{Hooks, Rule, Action, ActItem, ActWhat, chain, delivery, Delivery}
use fdm.Rules.Fill.{
  Filled, Fill, then_fill, find_delivery_users, fill_items, fill_from_action, fill_actions,
  fill_from_string, fill_strings, fill_from_strings,
}
use fdm.Prelude.{
  ℕ, zero, suc, ◌+◌, ◌-◌, ◌%◌, ◌≤◌, ◌<◌, ◌≡◌, refl, sym, ap, ◌∙◌, ◌⊎◌, inl, inr, Bool, true, false,
  Option, none, some, List, [], ◌∷◌, ◌++◌, append-nil, append_assoc, arith, ◌==◌, if◌then◌else◌,
  Bool-cases, Option-cases, list_cases, Bytes, u32_mod,
}

what_cases :
    (w : ActWhat) → ((names : List Bytes) × (w ≡ chain names)) ⊎ ((d : ℕ) × (w ≡ delivery d))
what_cases (chain names) = inl (names, refl)
what_cases (delivery d) = inr (d, refl)

module _ (h : Hooks) where
  open h use {Mail, Match, User}

  -- From `st` to `st'`: the counter has not grown, it is not used up where the call succeeded, and
  -- the deliveries queued before are still at the front.
  pub record Runs (st : Filled h) (good : Bool) (st' : Filled h) : Type 0 where
    pub counted : st'.chained ≤ st.chained
    pub left : good ≡ true → 0 < st'.chained
    pub added : List (Delivery h)
    pub kept : st'.queue ≡ st.queue ++ added

  Runs-refl : (st : Filled h) (good : Bool) → 0 < st.chained → Runs st good st
  Runs-refl st good l = record {
    counted = omega arith;
    left = λ _. l;
    added = [];
    kept = sym (append-nil st.queue);
  }

  Runs-trans : (a b c : Filled h) (good : Bool) → Runs a true b → Runs b good c → Runs a good c
  Runs-trans a b c good p q = record {
    counted = omega (arith, p.counted, q.counted);
    left = q.left;
    added = p.added ++ q.added;
    kept = q.kept ∙ ap (λ x. x ++ q.added) p.kept ∙ append_assoc a.queue p.added q.added;
  }

  -- The call returns from every state whose counter is positive and at most `n`.
  abbrev Tame : ℕ → Fill h → Type 0
  Tame n f =
      (st : Filled h) → 0 < st.chained → st.chained ≤ n → Returns (λ p. Runs st p.0 p.1) (f st)

  Tame-then_fill : (n : ℕ) (a b : Fill h) → Tame n a → Tame n b → Tame n (then_fill h a b)
  Tame-then_fill n a b ta tb st pos le =
      Ends->>= _ (λ p. Runs st p.0 p.1) (λ p. Runs st p.0 p.1) (a st) _ (ta st pos le)
        (λ p r. both p.0 p.1 r)
    where
      both :
          (good : Bool) (st' : Filled h)
          → Runs st good st'
          → Returns (λ p. Runs st p.0 p.1) (if good then b st' else ok (false, st'))
      both false st' r = r
      both true st' r =
          Ends-mono _ _ (λ p. Runs st' p.0 p.1) (λ p. Runs st p.0 p.1) (b st')
            (tb st' (r.left refl) (omega (arith, r.counted))) (λ f. f)
            (λ p q. Runs-trans st st' p.1 p.0 r q)

  module _ (strings : List Bytes → Fill h) (n : ℕ) (tame : (s : List Bytes) → Tame n (strings s))
      (m : Mail) (r : Rule Match) where
    Tame-fill_items :
        (t : Action) (user : User) (tis : List ActItem) → Tame n (fill_items h strings r t user tis)
    unfolding fill_items
    Tame-fill_items t user [] st pos le = Runs-refl st true pos
    Tame-fill_items t user (ti ∷ tis) st pos le = elim (what_cases ti.what) [
      | inl (names, e) ↦
          rw (e, fill_items)
            (Tame-then_fill n (strings names) (fill_items h strings r t user tis) (tame names)
              (Tame-fill_items t user tis) st pos le)
      | inr (d, e) ↦
          let new : Delivery h = record {
            action = t;
            item = ti;
            deliver = d;
            rule = r.idx;
            user = user;
          } in
          let st' : Filled h = record st { queue = st.queue ++ new ∷ [] } in
          rw (e, fill_items)
            (Ends-mono _ _ (λ p. Runs st' p.0 p.1) (λ p. Runs st p.0 p.1)
              (fill_items h strings r t user tis st') (Tame-fill_items t user tis st' pos le)
              (λ f. f)
              (λ p q.
                Runs-trans st st' p.1 p.0
                  (record { counted = omega arith; left = λ _. pos; added = new ∷ []; kept = refl })
                  q))
    ]

    Tame-fill_from_action :
        (t : Action) (us : List (Option Bytes)) → Tame n (fill_from_action h strings m r t us)
    unfolding fill_from_action
    Tame-fill_from_action t [] st pos le = Runs-refl st true pos
    Tame-fill_from_action t (none ∷ us) st pos le = Runs-refl st false pos
    Tame-fill_from_action t (some u ∷ us) st pos le = elim (list_cases (h.replace u m)) [
      | inl e ↦ rw (e, fill_from_action) (Runs-refl st false pos)
      | inr (c, name, e) ↦ elim (Option-cases (h.user_lookup (c ∷ name))) [
        | inl f ↦ rw (e, fill_from_action, f) (Runs-refl st false pos)
        | inr (user, f) ↦
            rw (e, fill_from_action, f)
              (Tame-then_fill n (fill_items h strings r t user t.list)
                (fill_from_action h strings m r t us) (Tame-fill_items t user t.list)
                (Tame-fill_from_action t us) st pos le)
      ]
    ]

    Tame-fill_actions : (ts : List Action) → Tame n (fill_actions h strings m r ts)
    unfolding fill_actions
    Tame-fill_actions [] st pos le = Runs-refl st true pos
    Tame-fill_actions (t ∷ ts) st pos le =
        Tame-then_fill n (fill_from_action h strings m r t (find_delivery_users h r (some t)))
          (fill_actions h strings m r ts)
          (Tame-fill_from_action t (find_delivery_users h r (some t))) (Tame-fill_actions ts) st pos
          le

    Tame-fill_from_string : (rs : Bytes) → Tame n (fill_from_string h strings m r rs)
    unfolding fill_from_string
    Tame-fill_from_string rs st pos le = elim (list_cases (h.match_actions (h.replace rs m))) [
      | inl e ↦ rw (e, fill_from_string) (Runs-refl st false pos)
      | inr (t, ts, e) ↦ rw (e, fill_from_string) (Tame-fill_actions (t ∷ ts) st pos le)
    ]

    Tame-fill_strings : (rsa : List Bytes) → Tame n (fill_strings h strings m r rsa)
    unfolding fill_strings
    Tame-fill_strings [] st pos le = Runs-refl st true pos
    Tame-fill_strings (rs ∷ rsa) st pos le =
        Tame-then_fill n (fill_from_string h strings m r rs) (fill_strings h strings m r rsa)
          (Tame-fill_from_string rs) (Tame-fill_strings rsa) st pos le

  -- `fill_from_strings` returns for every configuration, also where actions chain to themselves,
  -- within as much fuel as the counter has left. The counter never grows, every success leaves it
  -- positive, and the queue is only added to.
  pub fill_from_strings_ends :
      (fuel : ℕ) (m : Mail) (r : Rule Match) (rsa : List Bytes) (st : Filled h)
      → 0 < st.chained
      → st.chained ≤ fuel
      → fuel < u32_mod
      → Returns (λ p. Runs st p.0 p.1) (fill_from_strings h fuel m r rsa st)
  unfolding fill_from_strings
  fill_from_strings_ends zero m r rsa st pos le small = absurd (omega arith)
  fill_from_strings_ends (suc fuel) m r rsa st pos le small =
      let left = (st.chained + u32_mod - 1) % u32_mod in
      let one_less : left + 1 ≡ st.chained = omega arith in
      elim (Bool-cases (left == 0)) [
        | inl none_left ↦
            rw (none_left, fill_from_strings)
              (record {
                counted = omega arith;
                left = λ e. cc;
                added = [];
                kept = sym (append-nil st.queue);
              })
        | inr more ↦
            rw (more, fill_from_strings)
              (Ends-mono {A = Bool × Filled h} ⊥ ⊥
                (λ p. Runs (record st { chained = left }) p.0 p.1) (λ p. Runs st p.0 p.1)
                (fill_strings h (fill_from_strings h fuel m r) m r rsa
                  (record st { chained = left }))
                (Tame-fill_strings (fill_from_strings h fuel m r) fuel
                  (λ s st' p l. fill_from_strings_ends fuel m r s st' p l (omega arith)) m r rsa
                  (record st { chained = left }) (ground arith) (omega arith))
                (λ f. f)
                (λ p q. record {
                  counted = omega (arith, q.counted);
                  left = q.left;
                  added = q.added;
                  kept = q.kept;
                }))
      ]

  -- So do the calls for the users of one action.
  pub fill_from_action_ends :
      (m : Mail) (r : Rule Match) (t : Action) (us : List (Option Bytes)) (st : Filled h)
      → 0 < st.chained
      → st.chained ≤ 5
      → Returns (λ p. Runs st p.0 p.1) (fill_from_action h (fill_from_strings h 5 m r) m r t us st)
  fill_from_action_ends m r t us st pos le =
      Tame-fill_from_action (fill_from_strings h 5 m r) 5
        (λ s st' p l. fill_from_strings_ends 5 m r s st' p l (omega arith)) m r t us st pos le
