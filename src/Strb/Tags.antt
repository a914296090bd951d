-- ===== src/Strb/Tags.antt =====
-- strb.c and replace.c: a tag that was added is found again, from an empty block on; and what
-- happens when all slots are used.
use fdm.Outcome.{ok, fault, ◌>>=◌, Ends, Ends-mono}
use fdm.Pop3.{up}
use fdm.Strb.{
  Entry, Strb, filled, no_entry, block_size, clear, create, grow_from, make_room, make_entries,
  place, write_entry, set_value, address, vadd, find_tag,
}
use fdm.Strb.Add.{Stops, length-filled, put_string-Written, vadd-put}
use fdm.Strb.Find.{block_cases, find_tag-first_value}
use fdm.Strb.Pairs.{first_value, put, first_value-Slot, Holds}
use mathlib.Core.Path.{subst}
use fdm.Prelude.{
  ℕ, zero, suc, ◌+◌, ◌-◌, ◌≤◌, ◌<◌, ◌≡◌, refl, sym, ap, ◌∙◌, inl, inr, Bool, true, false, none,
  some, List, [], ◌∷◌, arith, leb, ◌==◌, if◌then◌else◌, Bool-cases, length, take, Bytes, size_max,
  sub_size, add_size, memchr, bytes_eq, eq_self, bytes_eq_refl,
}

-- A new string block holds nothing, or the process stops, where the system has no memory.
pub create-Holds :
    (grants : ℕ → Bool) → Ends ((k : ℕ) × (grants k ≡ false)) (λ sb. Holds sb []) (create grants)
unfolding create clear
create-Holds grants = elim (Bool-cases (grants 64)) [
  | inr refused ↦ rw (create, refused) (64, refused)
  | inl header ↦ elim (Bool-cases (grants (block_size empty))) [
    | inr refused ↦ rw (create, header, clear, refused) (block_size empty, refused)
    | inl granted ↦
        rw (create, header, clear, granted)
          (record {
            strs = length-filled {A = ℕ} 1024 0;
            ents = length-filled 64 no_entry;
            used = omega arith;
            count = refl;
            room = omega arith;
            some_room = omega arith;
            few = omega arith;
            size = omega arith;
            pairs = tt;
          })
  ]
]
  where
    empty : Strb
    empty = record {
      ent_used = 0;
      ent_max = 64;
      str_used = 0;
      str_size = 1024;
      strs = filled 1024 0;
      ents = filled 64 no_entry;
    }

bytes_eq-equal : (a b : Bytes) → bytes_eq a b ≡ true → a ≡ b
unfolding bytes_eq
bytes_eq-equal [] [] e = refl
bytes_eq-equal [] (y ∷ b) e = absurd (ground (arith, e))
bytes_eq-equal (x ∷ a) [] e = absurd (ground (arith, e))
bytes_eq-equal (x ∷ a) (y ∷ b) e = elim (Bool-cases (x == y)) [
  | inl same ↦
      let rest : bytes_eq a b ≡ true = ground (arith, e, same) in
      let heads : x ≡ y = ground (arith, same) in
      ap (λ h. h ∷ a) heads ∙ ap (λ t. y ∷ t) (bytes_eq-equal a b rest)
  | inr other ↦ absurd (ground (arith, e, other))
]

-- What is found in a list with a new value.
first_value-put :
    (key value other : Bytes) (l : List (Bytes × Bytes))
    → first_value (bytes_eq other) (put key value l)
      ≡ (if bytes_eq other key then some value else first_value (bytes_eq other) l)
unfolding first_value put
first_value-put key value other [] = refl
first_value-put key value other ((k, v) ∷ l) = elim (Bool-cases (bytes_eq key k)) [
  | inl same ↦
      let e = bytes_eq-equal key k same in
      elim (Bool-cases (bytes_eq other key)) [
        | inl ours ↦ rw (same, ours, subst (λ t. bytes_eq other t ≡ true) e ours) refl
        | inr not_ours ↦ rw (same, not_ours, subst (λ t. bytes_eq other t ≡ false) e not_ours) refl
      ]
  | inr differs ↦ elim (Bool-cases (bytes_eq other k)) [
    | inr not_first ↦ rw (differs, not_first) (first_value-put key value other l)
    | inl first ↦ elim (Bool-cases (bytes_eq other key)) [
      | inr not_ours ↦ rw (differs, first, not_ours) refl
      | inl ours ↦ absurd (
          let e = sym (bytes_eq-equal other key ours) ∙ bytes_eq-equal other k first in
          let t = subst (λ s. bytes_eq key s ≡ true) e (bytes_eq_refl key) in
          ground (arith, t, differs))
    ]
  ]
]

-- A tag that is added is found under its key, with its new value, and what is found under the other
-- keys stays, as long as the key is there or a slot is free. The key and the value are C strings,
-- and their lengths add up to a `size_t`.
pub find_tag-vadd :
    (grants : ℕ → Bool) (sb : Strb) (l : List (Bytes × Bytes)) (key value : Bytes)
    → Holds sb l
    → memchr 0 key ≡ none
    → memchr 0 value ≡ none
    → (length key + 1) + (length value + 1) ≤ size_max
    → (first_value (bytes_eq key) l ≡ none → length l < sb.ent_max)
    → Ends
        (Stops grants sb ((length key + 1) + (length value + 1)))
        (λ r.
          (find_tag r key ≡ ok (some value))
          × ((other : Bytes) → bytes_eq other key ≡ false → find_tag r other ≡ find_tag sb other))
        (vadd grants sb key value)
find_tag-vadd grants sb l key value b zk zv small slots =
    let F = Stops grants sb ((length key + 1) + (length value + 1)) in
    Ends-mono F F (λ r. Holds r (put key value l)) _ (vadd grants sb key value)
      (vadd-put grants sb l key value b zk zv small slots) (λ f. f)
      (λ r c. (
        find_tag-first_value r (put key value l) key c
            ∙ ap ok (first_value-put key value key l ∙ rw (bytes_eq_refl key) refl),
        λ other differs.
            find_tag-first_value r (put key value l) other c
            ∙ ap ok (first_value-put key value other l ∙ rw differs refl)
            ∙ sym (find_tag-first_value sb l other b),
      ))

make_room_free :
    (grants : ℕ → Bool) (sb : Strb) (need : ℕ)
    → sb.str_used + need ≤ sb.str_size
    → sb.str_size ≤ size_max
    → make_room grants sb need ≡ ok sb
unfolding make_room grow_from
make_room_free grants sb need free small =
    let enough : leb need (sub_size sb.str_size sb.str_used) ≡ true =
      (let e : sub_size sb.str_size sb.str_used ≡ sb.str_size - sb.str_used =
          omega (arith, free, small) in
        ground (arith, e, free)) in
    rw (make_room, grow_from, enough, eq_self sb.str_size) refl

write_entry-behind :
    (es : List Entry) (n : ℕ) (e : Entry) → length es ≤ n → write_entry es n e ≡ fault
unfolding write_entry
write_entry-behind [] n e le = refl
write_entry-behind (x ∷ es) zero e le = absurd (omega (arith, le))
write_entry-behind (x ∷ es) (suc n) e le = rw (write_entry-behind es n e (omega (arith, le))) refl

-- Where there is room for the strings, but all slots are used, `strb_vadd` of a new key writes its
-- entry behind the block: the test for more slots comes one entry too late.
pub vadd-full :
    (grants : ℕ → Bool) (sb : Strb) (l : List (Bytes × Bytes)) (key value : Bytes)
    → Holds sb l
    → memchr 0 key ≡ none
    → memchr 0 value ≡ none
    → sb.str_used + ((length key + 1) + (length value + 1)) ≤ sb.str_size
    → first_value (bytes_eq key) l ≡ none
    → length l ≡ sb.ent_max
    → vadd grants sb key value ≡ fault
unfolding vadd address place make_entries set_value
vadd-full grants sb l key value b zk zv free new all_used =
    let need = (length key + 1) + (length value + 1) in
    let sum : add_size (length key + 1) (length value + 1) ≡ need = omega (arith, free, b.size) in
    let room = make_room_free grants sb need free (omega (arith, b.size)) in
    let r : Strb = record sb { ent_used = up sb.ent_used } in
    let (strs, p, w) =
      put_string-Written r key b.strs (omega (arith, b.size)) (omega (arith, free)) zk in
    let s : Strb = record r { strs = strs; str_used = sb.str_used + (length key + 1) } in
    let (strs', p', w') =
      put_string-Written s value w.size (omega (arith, b.size)) (omega (arith, free)) zv in
    let slots : leb sb.ent_used sb.ent_max ≡ true = ground (arith, b.count, all_used) in
    elim (block_cases (bytes_eq key) sb l b) [
      | inr (j, e, there, found) ↦ absurd (
          let (v, f, q) =
            first_value-Slot (bytes_eq key) (take sb.str_used sb.strs) sb.ents l j e b.pairs
              found in
          ground (arith, new, f))
      | inl (none_there, _) ↦
          rw (sum, room, none_there, slots, p, p')
            (ap
              (λ o. o >>= λ ents. ok (record s {
                strs = strs';
                str_used = s.str_used + (length value + 1);
                ents = ents;
              }))
              (write_entry-behind sb.ents sb.ent_used
                (record { key = sb.str_used; value = s.str_used })
                (omega (arith, b.count, b.ents, all_used))))
    ]
