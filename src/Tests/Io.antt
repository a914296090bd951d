-- ===== src/Tests/Io.antt =====
-- A read buffer with one line and the start of another one.
use fdm.Buffer.{Buffer}
use fdm.Io.{Io, readline2}
use fdm.Io.Lines.{Taken, readline2-Taken}
use fdm.Outcome.{Returns}
use fdm.Prelude.{◌≡◌, refl, false, none, [], ◌∷◌, ◌++◌, arith, codes, memchr}

abbrev received : Buffer
received = record {
  base = 0 ∷ codes "hi" ++ (13 ∷ 10 ∷ codes "yo" ++ (0 ∷ []));
  space = 8;
  size = 6;
  off = 1;
}

abbrev io : Io
io = record { error = false; closed = false; rd = received; wr = received; eol = 13 ∷ 10 ∷ [] }

line-test : memchr 13 (codes "hi") ≡ none
unfolding memchr
line-test = refl

readline2-Taken_example : Returns (Taken (codes "hi") (codes "yo") io) (readline2 io)
readline2-Taken_example =
    readline2-Taken io 13 (10 ∷ []) (codes "hi") (codes "yo")
      (record { block = refl; room = omega arith; positive = omega arith; bounded = omega arith })
      refl refl refl line-test (omega arith)
