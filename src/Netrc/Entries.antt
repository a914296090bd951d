-- ===== src/Netrc/Entries.antt =====
-- netrc.c: the entries of a file, one for each machine.
use fdm.Netrc.{word, is_gap, skip_gaps, plain_from, token, Found, value_behind, lookup_from, lookup}
use fdm.Outcome.{ok}
use mathlib.Core.Path.{subst}
use fdm.Prelude.{
  ℕ, zero, suc, ◌+◌, ◌-◌, ◌≤◌, ◌<◌, ◌≡◌, refl, sym, ap, ◌∙◌, inl, inr, Bool, true, false, Option,
  none, some, List, [], ◌∷◌, ◌++◌, append-nil, append_assoc, arith, ◌==◌, if◌then◌else◌, Bool-cases,
  length, length-append, All, Bytes, codes, bytes_eq,
}

pub record Account : Type 0 where
  pub name : Bytes
  pub user : Bytes
  pub pass : Bytes

-- The line of an entry, in front of what follows.
unfoldable pub entry_line : Account → Bytes → Bytes
entry_line e f =
    codes "machine"
    ++ (b' '
        ∷ (e.name
            ++ (b' '
                ∷ (codes "login"
                    ++ (b' '
                        ∷ (e.user
                            ++ (b' ' ∷ (codes "password" ++ (b' ' ∷ (e.pass ++ (b'\n' ∷ f)))))))))))

unfoldable pub netrc : List Account → Bytes
netrc [] = []
netrc (e ∷ es) = entry_line e (netrc es)

-- The login and the password of the first entry for a host.
unfoldable pub first_of : Bytes → List Account → Found
first_of host [] = (true, none, none)
first_of host (e ∷ es) =
    if bytes_eq e.name host then (true, some e.user, some e.pass) else first_of host es

-- No gap, backslash or quote.
abbrev pub IsPlain : ℕ → Type 0
IsPlain c = (is_gap c ≡ false) × ((c == b'\\') ≡ false) × ((c == b'"') ≡ false)

-- A word that fits the buffer.
pub record IsWord (bufsiz : ℕ) (w : Bytes) : Type 0 where
  pub has_bytes : 0 < length w
  pub plain : All IsPlain w
  pub short : length w < bufsiz

abbrev pub IsNone : Bytes → Bytes → Type 0
IsNone w key = bytes_eq w key ≡ false

-- Words that are no keys of the file where the loop looks at them.
pub record IsEntry (bufsiz : ℕ) (e : Account) : Type 0 where
  pub name : IsWord bufsiz e.name
  pub user : IsWord bufsiz e.user
  pub pass : IsWord bufsiz e.pass
  pub no_machine : IsNone e.user (codes "machine") × IsNone e.pass (codes "machine")
  pub no_default : IsNone e.user (codes "default") × IsNone e.pass (codes "default")
  pub no_password : IsNone e.user (codes "password")

module _ (bufsiz : ℕ) where
  plain_from-word :
      (w f taken : Bytes) (g : ℕ)
      → All IsPlain w
      → is_gap g ≡ true
      → length taken + length w < bufsiz
      → plain_from bufsiz false (w ++ (g ∷ f)) taken ≡ word (taken ++ w) f
  unfolding plain_from
  plain_from-word [] f taken g a gap short =
      rw (plain_from, gap) (ap (λ t. word t f) (sym (append-nil taken)))
  plain_from-word (c ∷ w) f taken g ((gap', slash, quote), a) gap short =
      let n = length-append taken (c ∷ []) in
      let room : (length (taken ++ (c ∷ [])) == bufsiz) ≡ false = ground (arith, n, short) in
      rw (plain_from, gap', slash, room)
        (plain_from-word w f (taken ++ (c ∷ [])) g a gap (omega (arith, n, short))
          ∙ ap (λ t. word t f) (append_assoc taken (c ∷ []) w))

  token-word :
      (w f : Bytes) (g : ℕ)
      → IsWord bufsiz w
      → is_gap g ≡ true
      → token bufsiz (w ++ (g ∷ f)) ≡ word w f
  unfolding token skip_gaps
  token-word [] f g i gap = absurd (omega (arith, i.has_bytes))
  token-word (c ∷ w) f g i gap =
      let ((gap', slash, quote), a) = i.plain in
      rw (token, skip_gaps, gap', quote)
        (plain_from-word w f (c ∷ []) g a gap (omega (arith, i.short)))

  module _ (large : 8 < bufsiz) (host : Bytes) where
    key : (w : Bytes) → All IsPlain w → 0 < length w → length w < 9 → IsWord bufsiz w
    key w a pos less = record { has_bytes = pos; plain = a; short = omega (arith, less, large) }

    machine_key : IsWord bufsiz (codes "machine")
    machine_key =
        key (codes "machine")
          (
            (refl, refl, refl),
            (
              (refl, refl, refl),
              (
                (refl, refl, refl),
                (
                  (refl, refl, refl),
                  ((refl, refl, refl), ((refl, refl, refl), ((refl, refl, refl), tt))),
                ),
              ),
            ),
          )
          (omega arith) (omega arith)

    login_key : IsWord bufsiz (codes "login")
    login_key =
        key (codes "login")
          (
            (refl, refl, refl),
            (
              (refl, refl, refl),
              ((refl, refl, refl), ((refl, refl, refl), ((refl, refl, refl), tt))),
            ),
          )
          (omega arith) (omega arith)

    password_key : IsWord bufsiz (codes "password")
    password_key =
        key (codes "password")
          (
            (refl, refl, refl),
            (
              (refl, refl, refl),
              (
                (refl, refl, refl),
                (
                  (refl, refl, refl),
                  (
                    (refl, refl, refl),
                    ((refl, refl, refl), ((refl, refl, refl), ((refl, refl, refl), tt))),
                  ),
                ),
              ),
            ),
          )
          (omega arith) (omega arith)

    -- A word in front of the entry of the host.
    skip_word :
        (n : ℕ) (w f : Bytes) (g : ℕ)
        → IsWord bufsiz w
        → is_gap g ≡ true
        → IsNone w (codes "machine")
        → IsNone w (codes "default")
        → lookup_from bufsiz true true host (suc n) false (w ++ (g ∷ f)) none none
          ≡ lookup_from bufsiz true true host n false f none none
    unfolding lookup_from
    skip_word n w f g i gap m d = rw (lookup_from, token-word w f g i gap, m, d) refl

    machine_word :
        (n : ℕ) (name f : Bytes)
        → IsWord bufsiz name
        → lookup_from bufsiz true true host
            (suc n)
            false
            (codes "machine" ++ (b' ' ∷ (name ++ (b' ' ∷ f))))
            none
            none
          ≡ lookup_from bufsiz true true host n (bytes_eq name host) f none none
    unfolding lookup_from bytes_eq
    machine_word n name f i =
        rw
          (
            lookup_from,
            token-word (codes "machine") (name ++ (b' ' ∷ f)) b' ' machine_key refl,
            token-word name f b' ' i refl,
          )
          refl

    login_word :
        (n : ℕ) (user f : Bytes)
        → IsWord bufsiz user
        → IsNone user (codes "password")
        → lookup_from bufsiz true true host
            (suc n)
            true
            (codes "login" ++ (b' ' ∷ (user ++ (b' ' ∷ f))))
            none
            none
          ≡ lookup_from bufsiz true true host n true f (some user) none
    unfolding lookup_from bytes_eq value_behind
    login_word n user f i other =
        let there : (length user == 0) ≡ false = ground (arith, i.has_bytes) in
        rw
          (
            lookup_from,
            token-word (codes "login") (user ++ (b' ' ∷ f)) b' ' login_key refl,
            token-word user f b' ' i refl,
            there,
            other,
          )
          refl

    password_word :
        (n : ℕ) (user pass f : Bytes)
        → IsWord bufsiz pass
        → lookup_from bufsiz true true host
            (suc n)
            true
            (codes "password" ++ (b' ' ∷ (pass ++ (b'\n' ∷ f))))
            (some user)
            none
          ≡ lookup_from bufsiz true true host n true f (some user) (some pass)
    unfolding lookup_from bytes_eq value_behind
    password_word n user pass f i =
        let there : (length pass == 0) ≡ false = ground (arith, i.has_bytes) in
        rw
          (
            lookup_from,
            token-word (codes "password") (pass ++ (b'\n' ∷ f)) b' ' password_key refl,
            token-word pass f b'\n' i refl,
            there,
          )
          refl

    machine_ends :
        (n : ℕ) (user pass f : Bytes)
        → lookup_from bufsiz true true host
            (suc n)
            true
            (codes "machine" ++ (b' ' ∷ f))
            (some user)
            (some pass)
          ≡ ok (true, some user, some pass)
    unfolding lookup_from bytes_eq
    machine_ends n user pass f =
        rw (lookup_from, token-word (codes "machine") f b' ' machine_key refl) refl

    end_of_file :
        (n : ℕ) (found : Bool) (user pass : Option Bytes)
        → lookup_from bufsiz true true host (suc n) found [] user pass ≡ ok (true, user, pass)
    unfolding lookup_from token skip_gaps
    end_of_file n found user pass = refl

    -- Behind the entry of the host, the next one ends the loop.
    after_entry :
        (n : ℕ) (es : List Account) (user pass : Bytes)
        → lookup_from bufsiz true true host (suc n) true (netrc es) (some user) (some pass)
          ≡ ok (true, some user, some pass)
    unfolding netrc entry_line
    after_entry n [] user pass = end_of_file n true (some user) (some pass)
    after_entry n (e ∷ es) user pass = machine_ends n user pass _

    at_machine :
        (n : ℕ) (e : Account) (f : Bytes) (b : Bool)
        → IsEntry bufsiz e
        → bytes_eq e.name host ≡ b
        → lookup_from bufsiz true true host (suc n) false (entry_line e f) none none
          ≡ lookup_from bufsiz true true host n b
              (codes "login"
                ++ (b' '
                    ∷ (e.user ++ (b' ' ∷ (codes "password" ++ (b' ' ∷ (e.pass ++ (b'\n' ∷ f))))))))
              none
              none
    unfolding entry_line
    at_machine n e f b i same =
        let rest =
          codes "login"
          ++ (b' ' ∷ (e.user ++ (b' ' ∷ (codes "password" ++ (b' ' ∷ (e.pass ++ (b'\n' ∷ f))))))) in
        machine_word n e.name rest i.name
        ∙ ap (λ b. lookup_from bufsiz true true host n b rest none none) same

    entry_found :
        (n : ℕ) (e : Account) (es : List Account)
        → IsEntry bufsiz e
        → bytes_eq e.name host ≡ true
        → lookup_from bufsiz true true host
            (suc (suc (suc (suc n))))
            false
            (entry_line e (netrc es))
            none
            none
          ≡ ok (true, some e.user, some e.pass)
    entry_found n e es i same =
        at_machine (suc (suc (suc n))) e (netrc es) true i same
        ∙ login_word (suc (suc n)) e.user _ i.user i.no_password
        ∙ password_word (suc n) e.user e.pass (netrc es) i.pass
        ∙ after_entry n es e.user e.pass

    entry_passed :
        (n : ℕ) (e : Account) (f : Bytes)
        → IsEntry bufsiz e
        → bytes_eq e.name host ≡ false
        → lookup_from bufsiz true true host
            (suc (suc (suc (suc (suc n)))))
            false
            (entry_line e f)
            none
            none
          ≡ lookup_from bufsiz true true host n false f none none
    unfolding bytes_eq
    entry_passed n e f i other =
        at_machine (suc (suc (suc (suc n)))) e f false i other
        ∙ skip_word (suc (suc (suc n))) (codes "login") _ b' ' login_key refl refl refl
        ∙ skip_word (suc (suc n)) e.user _ b' ' i.user refl i.no_machine.0 i.no_default.0
        ∙ skip_word (suc n) (codes "password") _ b' ' password_key refl refl refl
        ∙ skip_word n e.pass f b'\n' i.pass refl i.no_machine.1 i.no_default.1

    entry_line-length : (e : Account) (f : Bytes) → length f + 5 ≤ length (entry_line e f)
    unfolding entry_line
    entry_line-length e f =
        let c = length-append e.pass (b'\n' ∷ f) in
        let b =
          length-append e.user (b' ' ∷ (codes "password" ++ (b' ' ∷ (e.pass ++ (b'\n' ∷ f))))) in
        let a = length-append e.name (
          b' '
          ∷ (codes "login"
              ++ (b' '
                  ∷ (e.user
                      ++ (b' ' ∷ (codes "password" ++ (b' ' ∷ (e.pass ++ (b'\n' ∷ f))))))))) in
        omega (arith, a, b, c)

    lookup_from-netrc :
        (n : ℕ) (es : List Account)
        → All (IsEntry bufsiz) es
        → length (netrc es) < n
        → lookup_from bufsiz true true host n false (netrc es) none none ≡ ok (first_of host es)
    unfolding netrc first_of
    lookup_from-netrc zero es a less = absurd (omega (arith, less))
    lookup_from-netrc (suc n) [] a less = end_of_file n false none none
    lookup_from-netrc (suc n) (e ∷ es) (i, a) less =
        let size = entry_line-length e (netrc es) in
        let k = n - 4 in
        let fuel : suc (suc (suc (suc (suc k)))) ≡ suc n = omega (arith, less, size) in
        subst
          (λ m.
            lookup_from bufsiz true true host m false (entry_line e (netrc es)) none none
            ≡ ok (first_of host (e ∷ es)))
          fuel
          (elim (Bool-cases (bytes_eq e.name host)) [
            | inl same ↦ rw same (entry_found (suc k) e es i same)
            | inr other ↦ rw other (
                entry_passed k e (netrc es) i other
                ∙ lookup_from-netrc k es a (omega (arith, less, size)))
          ])

    -- The login and the password of a host are those of its first entry in the file, or none where it
    -- has no entry, and the lookup succeeds. The file has an entry for each machine with words that
    -- fit the buffer, have no gap, quote or backslash, and are not the words `machine` or `default`
    -- for a login or password, nor `password` for a login, and the buffer has more than 8 bytes.
    pub lookup-first_of :
        (es : List Account)
        → All (IsEntry bufsiz) es
        → lookup bufsiz true true host (netrc es) ≡ ok (first_of host es)
    unfolding lookup
    lookup-first_of es a = lookup_from-netrc (length (netrc es) + 1) es a (omega arith)
