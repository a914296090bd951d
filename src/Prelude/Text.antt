-- ===== src/Prelude/Text.antt =====
-- Searching in byte strings as the C library does.
use Prim.Native.Nat.{ℕ, suc, ◌+◌}
use mathlib.Core.Bool.{Bool, true, false, ◌&&◌, ◌||◌}
use mathlib.Core.Path.{◌≡◌, refl}
use native.Mathlib.Omega.{arith}
use mathlib.Core.List.{[], ◌∷◌}
use mathlib.Core.Option.{Option, none, some}
use mathlib.Core.Option
use fdm.Prelude.Tests.{leb, ◌==◌, if◌then◌else◌}
use fdm.Prelude.Words.{Bytes}

-- `memchr` and `strchr`: the index of the first `c`.
unfoldable pub memchr : ℕ → Bytes → Option ℕ
memchr c [] = none
memchr c (x ∷ s) = if x == c then some 0 else Option.map suc (memchr c s)

-- `tolower`, `isspace`, `isblank` and `isdigit` in the C locale.
abbrev pub to_lower : ℕ → ℕ
to_lower c = if leb b'A' c && leb c b'Z' then c + 32 else c

abbrev pub is_space : ℕ → Bool
is_space c = (leb 9 c && leb c 13) || c == b' '

abbrev pub is_blank : ℕ → Bool
is_blank c = c == b' ' || c == 9

abbrev pub is_digit : ℕ → Bool
is_digit c = leb b'0' c && leb c b'9'

-- Equality of two whole strings, `strcmp(a, b) == 0`.
unfoldable pub bytes_eq : Bytes → Bytes → Bool
bytes_eq [] [] = true
bytes_eq (x ∷ a) (y ∷ b) = x == y && bytes_eq a b
bytes_eq _ _ = false

-- `strncasecmp(s, t, strlen(t)) == 0`: `s` begins with `t`, in either case.
unfoldable pub starts_with_case : Bytes → Bytes → Bool
starts_with_case s [] = true
starts_with_case [] (y ∷ t) = false
starts_with_case (x ∷ s) (y ∷ t) = to_lower x == to_lower y && starts_with_case s t

-- `strncmp(s, t, strlen(t)) == 0`.
unfoldable pub starts_with : Bytes → Bytes → Bool
starts_with s [] = true
starts_with [] (y ∷ t) = false
starts_with (x ∷ s) (y ∷ t) = x == y && starts_with s t

pub eq_self : (x : ℕ) → (x == x) ≡ true
eq_self x = ground arith

pub bytes_eq_refl : (s : Bytes) → bytes_eq s s ≡ true
unfolding bytes_eq
bytes_eq_refl [] = refl
bytes_eq_refl (x ∷ s) = rw (eq_self x, bytes_eq_refl s) refl
