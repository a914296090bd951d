-- ===== src/Tests/Buffer.antt =====
-- A buffer with an offset, in a block of four bytes, whose allocator grants at most 100 bytes.
use fdm.Buffer.{
  Allocator, Buffer, create, memmove, read_at, write_at, ensure, read16, insert_range, delete_range,
}
use fdm.Buffer.Invariant.{IsValid, contents}
use fdm.Buffer.Queue.{read16-contents}
use fdm.Buffer.Ranges.{delete_range-insert_range}
use fdm.Buffer.Fifo.{Fails, Op, put, get, run, queue, Agrees, run-implements_queue}
use fdm.Outcome.{ok, Ends, Returns, ◌>>=◌}
use fdm.Prelude.{◌≡◌, refl, ◌⊎◌, false, some, List, [], ◌∷◌, arith, leb}

abbrev small : Allocator
small = record { grants = λ n. leb n 100; junk = λ i. i }

abbrev two_bytes : Buffer
two_bytes = record { base = 9 ∷ 5 ∷ 6 ∷ 9 ∷ []; space = 4; size = 2; off = 1 }

two_bytes-IsValid : IsValid two_bytes
two_bytes-IsValid = record {
  block = refl;
  room = omega arith;
  positive = omega arith;
  bounded = omega arith;
}

read16-contents_example :
    Returns (λ r. (r.0 ≡ 1541) × IsValid r.1 × (contents r.1 ≡ [])) (read16 two_bytes)
read16-contents_example = read16-contents two_bytes 1541 [] two_bytes-IsValid refl

abbrev gapped : Buffer
gapped = record { base = 9 ∷ 5 ∷ 6 ∷ 6 ∷ []; space = 4; size = 3; off = 1 }

two_bytes-gapped : insert_range small two_bytes 1 1 ≡ ok gapped
two_bytes-gapped = unfold insert_range ensure memmove read_at write_at in refl

delete_range-insert_range_example :
    Returns (λ d. IsValid d × (contents d ≡ contents two_bytes)) (delete_range gapped 1 1)
delete_range-insert_range_example =
    delete_range-insert_range small two_bytes gapped 1 1 two_bytes-IsValid (omega arith)
      (omega arith) two_bytes-gapped

abbrev ops : List Op
ops = put (1 ∷ 2 ∷ 3 ∷ []) ∷ get 2 ∷ put (4 ∷ []) ∷ get 1 ∷ []

ops-queue : queue ops [] ≡ some ((1 ∷ 2 ∷ []) ∷ (3 ∷ []) ∷ [], 4 ∷ [])
unfolding queue
ops-queue = refl

run-implements_queue_example :
    Ends
      ((small.grants 2 ≡ false) ⊎ Fails small ops 0)
      (Agrees ((1 ∷ 2 ∷ []) ∷ (3 ∷ []) ∷ []) (4 ∷ []))
      (create small 2 >>= λ b. run small ops b)
run-implements_queue_example =
    run-implements_queue small 2 ops ((1 ∷ 2 ∷ []) ∷ (3 ∷ []) ∷ []) (4 ∷ []) (omega arith)
      (omega arith) ops-queue
