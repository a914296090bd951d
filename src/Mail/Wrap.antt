-- ===== src/Mail/Wrap.antt =====
-- Wrapped headers: `fill_wrapped` and `set_wrapped` of mail.c. `fill_wrapped` remembers the
-- newlines of continued header lines, and `set_wrapped` replaces them for matching and back.
use fdm.Buffer.{write_at}
use fdm.Mail.{Mail, contents}
use fdm.Outcome.{Outcome, ok, fault, diverge, ◌>>=◌, ◌>>◌, fatal_if}
use fdm.Prelude.{
  ℕ, zero, suc, ◌+◌, true, false, not, none, some, List, [], ◌∷◌, leb, ◌==◌, if◌then◌else◌, drop,
  Bytes, memchr, is_blank,
}

-- The loop of `fill_wrapped`, from offset `at`, with the bytes there; `end` is the body's offset.
unfoldable pub wrapped_from : ℕ → ℕ → ℕ → Bytes → Outcome (List ℕ)
wrapped_from zero end at s = diverge
wrapped_from (suc fuel) end at s = elim (memchr b'\n' s) [
  | none ↦ ok []
  | some i ↦ elim (leb end (at + i + 1)) [
    | true ↦ ok []
    | false ↦ elim (drop (i + 1) s) [
      | [] ↦ fault
      | c ∷ r ↦ wrapped_from fuel end (at + i + 1) (c ∷ r) >>= λ more.
          ok (if is_blank c then (at + i) ∷ more else more)
    ]
  ]
]

unfoldable pub fill_wrapped : Mail → Outcome Mail
fill_wrapped m = do
  fatal_if (not (elim m.wrapped [ [] ↦ true | _ ∷ _ ↦ false ]))
  found ← wrapped_from (m.size + 1) m.body 0 (contents m)
  ok (record m { wrapped = found; wrapchar = 0 })

-- Every position of the list set to `ch`.
unfoldable pub set_all : ℕ → ℕ → Bytes → List ℕ → Outcome Bytes
set_all off ch base [] = ok base
set_all off ch base (i ∷ is) = do b ← write_at base (off + i) (ch ∷ []); set_all off ch b is

unfoldable pub set_wrapped : Mail → ℕ → Outcome Mail
set_wrapped m ch =
    if m.wrapchar == ch
    then ok m
    else do base ← set_all m.off ch m.base m.wrapped; ok (record m { base = base; wrapchar = ch })
