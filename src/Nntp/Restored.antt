-- ===== src/Nntp/Restored.antt =====
-- fetch-nntp.c: the groups of a new session, loaded from the cache file of the one before.
use fdm.Nntp.{Group, NntpHooks}
use fdm.Nntp.Cache.{set_last, load_from, load, printed}
use fdm.Nntp.Saved.{Scans, Refused, Savable, restore, load_from-printed}
use fdm.Nntp.States.{first_groups}
use fdm.Outcome.{ok, Ends}
use mathlib.Core.Path.{subst}
use fdm.Prelude.{
  ℕ, ◌+◌, ◌≡◌, refl, sym, ap, ◌∙◌, inl, inr, true, false, Option, none, some, List, [], ◌∷◌, ◌++◌,
  map, append_assoc, arith, if◌then◌else◌, Option-cases, length, All, All-append, Bytes, bytes_eq,
  bytes_eq_refl,
}

-- The groups have different names.
abbrev pub Apart : List Group → Bytes → Type 0
Apart gs name = All (λ g. bytes_eq g.name name ≡ false) gs

unfoldable pub Distinct : List Group → Type 0
Distinct [] = Unit
Distinct (g ∷ gs) = All (λ k. bytes_eq g.name k.name ≡ false) gs × Distinct gs

-- A configured group that has an id or was never read.
unfoldable pub Configured : List Group → Type 0
Configured gs = All (λ g. (g.ignore ≡ false) × (g.id ≡ none → g.last ≡ 0)) gs

abbrev fresh : Group → Group
fresh g = record { name = g.name; ignore = false; size = 0; last = 0; id = none }

-- The group without the size, which the server sends anew.
abbrev pub reloaded : Group → Group
reloaded g = record g { size = 0 }

unread : (g : Group) → g.ignore ≡ false → g.id ≡ none → g.last ≡ 0 → fresh g ≡ reloaded g
unread g i e z =
    λ k. record { name = g.name; ignore = sym i k; size = 0; last = sym z k; id = sym e k }

known :
    (g : Group) (id : Bytes)
    → g.ignore ≡ false
    → g.id ≡ some id
    → record (fresh g) { last = g.last; id = some id } ≡ reloaded g
known g id i e =
    λ k. record { name = g.name; ignore = sym i k; size = 0; last = g.last; id = sym e k }

set_last-append :
    (name : Bytes) (last : ℕ) (id : Bytes) (done rest : List Group) (g : Group)
    → Apart done name
    → bytes_eq g.name name ≡ true
    → set_last name last id (done ++ (g ∷ rest))
      ≡ done ++ (record g { last = last; id = some id } ∷ rest)
unfolding set_last
set_last-append name last id [] rest g a same = rw (set_last, same) refl
set_last-append name last id (d ∷ done) rest g (f, a) same =
    rw (set_last, f, set_last-append name last id done rest g a same) refl

both :
    {A : Type 0} {P Q R : A → Type 0} (xs : List A)
    → ((x : A) → P x → Q x → R x)
    → All P xs
    → All Q xs
    → All R xs
both [] f p q = tt
both (x ∷ xs) f (p, ps) (q, qs) = (f x p q, both xs f ps qs)

-- One group of the file is put into its place.
restore-next :
    (gs done : List Group) (g g' : Group)
    → g' ≡ reloaded g
    → restore gs ((done ++ (g' ∷ [])) ++ map fresh gs) ≡ (done ++ (g' ∷ [])) ++ map reloaded gs
    → restore gs (done ++ (g' ∷ map fresh gs)) ≡ done ++ (reloaded g ∷ map reloaded gs)
restore-next gs done g g' e others =
    ap (restore gs) (sym (append_assoc done (g' ∷ []) (map fresh gs)))
    ∙ others
    ∙ append_assoc done (g' ∷ []) (map reloaded gs)
    ∙ ap (λ x. done ++ (x ∷ map reloaded gs)) e

Apart-next :
    (gs done : List Group) (g' : Group)
    → All (λ k. Apart done k.name) gs
    → All (λ k. bytes_eq g'.name k.name ≡ false) gs
    → All (λ k. Apart (done ++ (g' ∷ [])) k.name) gs
Apart-next gs done g' a b =
    both gs (λ k p q. All-append (λ d. bytes_eq d.name k.name ≡ false) done (g' ∷ []) p (q, tt)) a b

at_id :
    (g : Group) (gs into : List Group) (id : Option Bytes)
    → g.id ≡ id
    → restore (g ∷ gs) into
      ≡ elim id [ none ↦ restore gs into | some i ↦ restore gs (set_last g.name g.last i into) ]
unfolding restore
at_id g gs into id e =
    ap
      (λ o. elim o [ none ↦ restore gs into | some i ↦ restore gs (set_last g.name g.last i into) ])
      e

restore-fresh :
    (gs done : List Group)
    → Configured gs
    → Distinct gs
    → All (λ g. Apart done g.name) gs
    → restore gs (done ++ map fresh gs) ≡ done ++ map reloaded gs
unfolding restore Configured Distinct
restore-fresh [] done v d a = refl
restore-fresh (g ∷ gs) done ((i, z), v) (apart, d) (f, a) = elim (Option-cases g.id) [
  | inl none_there ↦
      at_id g gs (done ++ (fresh g ∷ map fresh gs)) none none_there
      ∙ restore-next gs done g (fresh g) (unread g i none_there (z none_there))
          (restore-fresh gs (done ++ (fresh g ∷ [])) v d (Apart-next gs done (fresh g) a apart))
  | inr (id, there) ↦
      let g' : Group = record (fresh g) { last = g.last; id = some id } in
      at_id g gs (done ++ (fresh g ∷ map fresh gs)) (some id) there
      ∙ ap (restore gs)
          (set_last-append g.name g.last id done (map fresh gs) (fresh g) f (bytes_eq_refl g.name))
      ∙ restore-next gs done g g' (known g id i there)
          (restore-fresh gs (done ++ (g' ∷ [])) v d (Apart-next gs done g' a apart))
]

first_groups-fresh : (gs : List Group) → first_groups (map (λ g. g.name) gs) ≡ map fresh gs
unfolding first_groups
first_groups-fresh [] = refl
first_groups-fresh (g ∷ gs) = ap (λ x. fresh g ∷ x) (first_groups-fresh gs)

Apart-none : (gs : List Group) → All (λ g. Apart [] g.name) gs
Apart-none [] = tt
Apart-none (g ∷ gs) = (tt, Apart-none gs)

module _ (h : NntpHooks) (sc : Scans h) where
  -- A session whose groups are those of the configuration, under different names, with names and ids
  -- that are not empty, begin with no blank and have no NUL, saves them to a file from which the next
  -- session loads the same groups, but for their sizes. It fails only where the system refuses
  -- memory. The file can be opened, and numbers are scanned as they are printed.
  pub load-printed :
      (gs : List Group)
      → Configured gs
      → Distinct gs
      → Savable gs
      → h.can_open ≡ true
      → Ends
          (Refused h)
          (λ r. r ≡ some (map reloaded gs))
          (load h (some (printed h gs)) (first_groups (map (λ g. g.name) gs)))
  unfolding load
  load-printed gs v d t opens =
      let same : restore gs (first_groups (map (λ g. g.name) gs)) ≡ map reloaded gs =
        ap (restore gs) (first_groups-fresh gs) ∙ restore-fresh gs [] v d (Apart-none gs) in
      let into = first_groups (map (λ g. g.name) gs) in
      let l = printed h gs in
      subst (λ x. Ends (Refused h) (λ r. r ≡ some x) (load h (some l) into)) same
        (subst (Ends (Refused h) (λ r. r ≡ some (restore gs into)))
          (sym (ap (λ b. if b then load_from h (length l + 1) l into else ok none) opens))
          (load_from-printed h sc (length l + 1) gs into t (omega arith)))
