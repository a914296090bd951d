-- ===== src/Strb/Add.antt =====
-- strb.c: `strb_vadd` puts a key and its value into the list that the block holds.
use fdm.Buffer.Memory.{splice, write_at_lem, length-splice}
use fdm.Outcome.{ok, ◌>>=◌, Ends, Returns, Ends->>=, Ends-mono}
use fdm.Pop3.{up}
use fdm.Strb.{
  Entry, Strb, filled, block_size, address, grow_from, make_room, make_entries, put_string, place,
  write_entry, set_value, vadd,
}
use fdm.Strb.Find.{block_cases}
use fdm.Strb.Pairs.{
  Reads, Pairs, first_value, put, Reads-append, Pairs-append, Slot, put-Slot, put-new, Holds,
}
use native.Mathlib.Nat.{pow-suc}
use mathlib.Core.Path.{subst}
use fdm.Prelude.{
  ℕ, zero, suc, ◌+◌, ◌-◌, ◌*◌, ◌/◌, ◌%◌, ◌^◌, ◌≤◌, ◌<◌, ◌≡◌, refl, sym, ap, ◌∙◌, ◌⊎◌, inl, inr,
  Bool, true, false, none, List, [], ◌∷◌, ◌++◌, append_assoc, arith, ltb, leb, ◌==◌, Bool-cases,
  length, take, drop, length-append, take-append_exact, take-append_le, length-take_le, Bytes,
  size_mod, size_max, sub_size, add_size, memchr, bytes_eq,
}

-- Why `strb_vadd` may stop the process: the system has no memory, or the block passes half the
-- address space.
abbrev pub Stops : (ℕ → Bool) → Strb → ℕ → Type 0
Stops grants sb need =
    ((k : ℕ) × (grants k ≡ false)) ⊎ (size_max / 2 < 64 + (sb.str_used + need) + sb.ent_max * 16)

pub length-filled : {A : Type 0} (n : ℕ) (a : A) → length (filled n a) ≡ n
unfolding filled
length-filled zero a = refl
length-filled (suc n) a = ap suc (length-filled n a)

abbrev Grown : Strb → ℕ → ℕ → Type 0
Grown sb need n =
    (sb.str_size ≤ n) × (sb.str_used + need ≤ n) × (64 + n + sb.ent_max * 16 ≤ size_max)

-- One round of the loop.
grow_again :
    (n : ℕ) (sb : Strb) (need : ℕ)
    → leb need (sub_size sb.str_size sb.str_used) ≡ false
    → ltb (size_max / 2) (block_size sb) ≡ false
    → (sb.str_size * 2) % size_mod ≡ sb.str_size * 2
    → grow_from (suc n) sb need ≡ grow_from n (record sb { str_size = sb.str_size * 2 }) need
unfolding grow_from
grow_again n sb need short small twice =
    rw (grow_from, short, small) (ap (λ k. grow_from n (record sb { str_size = k }) need) twice)

-- The loop that doubles the strings ends with room for `need` bytes.
grow_from-Room :
    (grants : ℕ → Bool) (fuel : ℕ) (sb : Strb) (need : ℕ)
    → sb.str_used ≤ sb.str_size
    → 64 + sb.str_size + sb.ent_max * 16 ≤ size_max
    → size_max < sb.str_size * 2 ^ fuel
    → Ends (Stops grants sb need) (Grown sb need) (grow_from (suc fuel) sb need)
unfolding grow_from block_size
grow_from-Room grants zero sb need used size h = absurd (omega (arith, size, h))
grow_from-Room grants (suc fuel) sb need used size h =
    let room : sub_size sb.str_size sb.str_used ≡ sb.str_size - sb.str_used =
      omega (arith, used, size) in
    elim (Bool-cases (leb need (sub_size sb.str_size sb.str_used))) [
      | inl enough ↦
          rw (grow_from, enough)
            (
              omega arith,
              (let e : need ≤ sub_size sb.str_size sb.str_used = ground (arith, enough) in
                  omega (arith, e, room, used)),
              size,
            )
      | inr short ↦
          let less : sub_size sb.str_size sb.str_used < need = ground (arith, short) in
          let same : block_size sb ≡ 64 + sb.str_size + sb.ent_max * 16 = omega (arith, size) in
          elim (Bool-cases (ltb (size_max / 2) (block_size sb))) [
            | inl huge ↦
                rw (grow_from, short, huge)
                  (inr (
                    let g : size_max / 2 < block_size sb = ground (arith, huge) in
                    omega (arith, g, same, less, room, used)))
            | inr small ↦
                let g : block_size sb ≤ size_max / 2 = ground (arith, small) in
                let twice : (sb.str_size * 2) % size_mod ≡ sb.str_size * 2 =
                  omega (arith, g, same) in
                let next : Strb = record sb { str_size = sb.str_size * 2 } in
                subst (Ends (Stops grants sb need) (Grown sb need))
                  (sym (grow_again (suc fuel) sb need short small twice))
                  (Ends-mono (Stops grants next need) (Stops grants sb need) (Grown next need)
                    (Grown sb need) (grow_from (suc fuel) next need)
                    (grow_from-Room grants fuel next need (omega (arith, used))
                      (omega (arith, g, same)) (let h' = rw pow-suc at h in omega (arith, h')))
                    (λ f. f) (λ n (a, c, d). (omega (arith, a), c, d)))
          ]
    ]

-- With room for `need` bytes more.
record Roomy (sb : Strb) (l : List (Bytes × Bytes)) (need : ℕ) (r : Strb) : Type 0 where
  holds : Holds r l
  same_used : r.str_used ≡ sb.str_used
  same_max : r.ent_max ≡ sb.ent_max
  free : r.str_used + need ≤ r.str_size

make_room-Roomy :
    (grants : ℕ → Bool) (sb : Strb) (l : List (Bytes × Bytes)) (need : ℕ)
    → Holds sb l
    → Ends (Stops grants sb need) (Roomy sb l need) (make_room grants sb need)
unfolding make_room
make_room-Roomy grants sb l need b =
    Ends->>= (Stops grants sb need) (Grown sb need) (Roomy sb l need) (grow_from 65 sb need) _
      (grow_from-Room grants 64 sb need b.used b.size (omega (arith, b.some_room)))
      (λ n (more, free, small). elim (Bool-cases (n == sb.str_size)) [
        | inl same ↦ rw same (record {
          holds = b;
          same_used = refl;
          same_max = refl;
          free = ground (arith, same, free);
        })
        | inr grown ↦
            let k = block_size (record sb { str_size = n }) in
            elim (Bool-cases (grants k)) [
              | inr refused ↦ rw (grown, refused) (inl (k, refused))
              | inl granted ↦
                  rw (grown, granted)
                    (record {
                      holds = record {
                        strs = omega (
                          arith,
                          length-append sb.strs (filled (n - sb.str_size) 0),
                          length-filled {A = ℕ} (n - sb.str_size) 0,
                          b.strs,
                          more,
                        );
                        ents = b.ents;
                        used = omega (arith, b.used, more);
                        count = b.count;
                        room = b.room;
                        some_room = omega (arith, b.some_room, more);
                        few = b.few;
                        size = small;
                        pairs =
                            subst (λ t. Pairs t sb.ents l)
                              (sym (
                                take-append_le sb.str_used sb.strs (filled (n - sb.str_size) 0)
                                  (omega (arith, b.used, b.strs))))
                              b.pairs;
                      };
                      same_used = refl;
                      same_max = refl;
                      free = free;
                    })
            ]
      ])

-- The strings of a block with one more string behind its text.
pub record Written (sb : Strb) (s strs : Bytes) : Type 0 where
  pub size : length strs ≡ sb.str_size
  pub text : take (sb.str_used + (length s + 1)) strs ≡ take sb.str_used sb.strs ++ (s ++ (0 ∷ []))
  pub reads : Reads (take (sb.str_used + (length s + 1)) strs) sb.str_used s

pub put_string-Written :
    (sb : Strb) (s : Bytes)
    → length sb.strs ≡ sb.str_size
    → sb.str_size ≤ size_max
    → sb.str_used + (length s + 1) ≤ sb.str_size
    → memchr 0 s ≡ none
    → (strs : Bytes) × (put_string sb s
        ≡ ok (record sb { strs = strs; str_used = sb.str_used + (length s + 1) }))
      × Written sb s strs
unfolding put_string
put_string-Written sb s len small free z =
    let new = s ++ (0 ∷ []) in
    let n : length new ≡ length s + 1 = length-append s (0 ∷ []) in
    let sum : add_size sb.str_used (length s + 1) ≡ sb.str_used + (length s + 1) =
      omega (arith, free, small) in
    let front : length (take sb.str_used sb.strs) ≡ sb.str_used =
      length-take_le sb.str_used sb.strs (omega (arith, len, free)) in
    let tail = drop (sb.str_used + length new) sb.strs in
    let text : take (sb.str_used + (length s + 1)) (splice sb.strs sb.str_used new)
        ≡ take sb.str_used sb.strs ++ new =
      ap (take (sb.str_used + (length s + 1)))
        (sym (append_assoc (take sb.str_used sb.strs) new tail))
      ∙ take-append_exact (take sb.str_used sb.strs ++ new) tail _
          (omega (arith, length-append (take sb.str_used sb.strs) new, front, n)) in
    (
      splice sb.strs sb.str_used new,
      rw (write_at_lem sb.strs sb.str_used new (omega (arith, n, len, free)), sum) refl,
      record {
        size = length-splice sb.strs sb.str_used new (omega (arith, n, len, free)) ∙ len;
        text = text;
        reads = (take sb.str_used sb.strs, [], front, text, z);
      },
    )

-- The pairs of a block are still there behind a string that was written.
Pairs-Written :
    (sb : Strb) (s strs : Bytes) (l : List (Bytes × Bytes))
    → Written sb s strs
    → Pairs (take sb.str_used sb.strs) sb.ents l
    → Pairs (take (sb.str_used + (length s + 1)) strs) sb.ents l
Pairs-Written sb s strs l w p =
    subst (λ t. Pairs t sb.ents l) (sym w.text)
      (Pairs-append (take sb.str_used sb.strs) (s ++ (0 ∷ [])) sb.ents l p)

-- A key that is there gets its new value.
replaced-Holds :
    (r : Strb) (l : List (Bytes × Bytes)) (key value : Bytes) (j : ℕ) (e : Entry)
    → Holds r l
    → Slot (bytes_eq key) r.ents l j e
    → memchr 0 value ≡ none
    → r.str_used + (length value + 1) ≤ r.str_size
    → Returns (λ t. Holds t (put key value l)) (set_value r value j e.key)
unfolding set_value
replaced-Holds r l key value j e b s z free =
    let (strs, p, w) = put_string-Written r value b.strs (omega (arith, b.size)) free z in
    let (es, q, pairs, n, m) =
      put-Slot key value (take (r.str_used + (length value + 1)) strs) r.str_used r.ents l j e
        (Pairs-Written r value strs l w b.pairs) w.reads s in
    rw (p, q)
      (record {
        strs = w.size;
        ents = n ∙ b.ents;
        used = free;
        count = b.count ∙ sym m;
        room = omega (arith, m, b.room);
        some_room = b.some_room;
        few = b.few;
        size = b.size;
        pairs = pairs;
      })

-- A new key and its value get the next slot.
added-Holds :
    (grants : ℕ → Bool) (r : Strb) (l : List (Bytes × Bytes)) (key value : Bytes)
    → Holds r l
    → first_value (bytes_eq key) l ≡ none
    → length l < r.ent_max
    → memchr 0 key ≡ none
    → memchr 0 value ≡ none
    → r.str_used + ((length key + 1) + (length value + 1)) ≤ r.str_size
    → Returns
        (λ t. Holds t (put key value l))
        (place grants r key none >>= λ (i, k, s). set_value s value i k)
unfolding place make_entries set_value
added-Holds grants r l key value b new less zk zv free =
    let r' : Strb = record r { ent_used = up r.ent_used } in
    let (strs, p, w) =
      put_string-Written r' key b.strs (omega (arith, b.size)) (omega (arith, free)) zk in
    let s : Strb = record r' { strs = strs; str_used = r.str_used + (length key + 1) } in
    let (strs', p', w') =
      put_string-Written s value w.size (omega (arith, b.size)) (omega (arith, free)) zv in
    let text' = take (s.str_used + (length value + 1)) strs' in
    let reads : Reads text' r.str_used key =
      subst (λ t. Reads t r.str_used key) (sym w'.text)
        (Reads-append (take s.str_used strs) (value ++ (0 ∷ [])) r.str_used key w.reads) in
    let (es, q, pairs, n, m) =
      put-new key value text' r.str_used s.str_used r.ents l
        (Pairs-Written s value strs' l w' (Pairs-Written r' key strs l w b.pairs)) reads w'.reads
        (omega (arith, b.ents, less)) new in
    let slots : leb r.ent_used r.ent_max ≡ true = ground (arith, b.count, less) in
    let next : up r.ent_used ≡ length l + 1 = omega (arith, b.count, less, b.few) in
    let at_end =
      ap (λ i. write_entry r.ents i (record { key = r.str_used; value = s.str_used })) b.count
      ∙ q in
    rw (slots, p, p', at_end)
      (record {
        strs = w'.size;
        ents = n ∙ b.ents;
        used = omega (arith, free);
        count = next ∙ sym m;
        room = omega (arith, m, less);
        some_room = b.some_room;
        few = b.few;
        size = b.size;
        pairs = pairs;
      })

-- `strb_vadd` of a key that the block holds, or of any key while it has a free slot: the block then
-- holds the list with the new value in the place of the old one, or with the new pair at its end.
-- The key and the value are C strings, and their lengths add up to a `size_t`. It never leaves the
-- block, and it stops the process only where the system has no memory or the block passes half the
-- address space.
pub vadd-put :
    (grants : ℕ → Bool) (sb : Strb) (l : List (Bytes × Bytes)) (key value : Bytes)
    → Holds sb l
    → memchr 0 key ≡ none
    → memchr 0 value ≡ none
    → (length key + 1) + (length value + 1) ≤ size_max
    → (first_value (bytes_eq key) l ≡ none → length l < sb.ent_max)
    → Ends
        (Stops grants sb ((length key + 1) + (length value + 1)))
        (λ r. Holds r (put key value l))
        (vadd grants sb key value)
unfolding vadd address place
vadd-put grants sb l key value b zk zv small slots =
    let need = (length key + 1) + (length value + 1) in
    let sum : add_size (length key + 1) (length value + 1) ≡ need = omega (arith, small) in
    rw sum (
      Ends->>= (Stops grants sb need) (Roomy sb l need) (λ r. Holds r (put key value l))
        (make_room grants sb need) _ (make_room-Roomy grants sb l need b)
        (λ r v. elim (block_cases (bytes_eq key) r l v.holds) [
          | inl (none_there, new) ↦ rw none_there (
              Ends-mono ⊥ (Stops grants sb need) (λ t. Holds t (put key value l))
                (λ t. Holds t (put key value l)) _
                (added-Holds grants r l key value v.holds new (omega (arith, v.same_max, slots new))
                  zk zv v.free)
                absurd (λ t k. k))
          | inr (j, e, there, s) ↦ rw there (
              Ends-mono ⊥ (Stops grants sb need) (λ t. Holds t (put key value l))
                (λ t. Holds t (put key value l)) _
                (replaced-Holds r l key value j e v.holds s zv (let f = v.free in omega (arith, f)))
                absurd (λ t k. k))
        ]))
