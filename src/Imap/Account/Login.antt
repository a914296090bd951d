-- ===== src/Imap/Account/Login.antt =====
-- The account of imap-common.c's session over the states up to the search of a folder.
use fdm.Imap.{
  connect, connected, capability1, capability2, cram_md5_auth, login, user, pass, select1, select2,
  select3, select4, search1, search2, search3, close, untagged, continue, ImapHooks, Session, Step,
  parse, send_capability, send_authenticate, send_login, send_close,
}
use fdm.Imap.Account.{
  Inv, Keeps, Keeps->>=, Moved, moved, carry, Keeps-goto, Keeps-put, Keeps-put_command, Keeps-get,
  Keeps-get_okay, parse_cases,
}
use fdm.Imap.Login.{
  to_upper, given, is_missing, contains, skip_blanks, base64_decode, cram_md5, state_connect,
  state_connected, state_capability1, state_capability2, state_cram_md5_auth, state_login,
  state_user, state_pass,
}
use fdm.Imap.Folder.{
  with_folder, state_select1, state_select2, exists_from, state_select3, state_select4,
  state_search1, searched, state_search2, state_search3,
}
use fdm.Pop3.{Reply, failed, no_line, reply}
use fdm.Prelude.{
  ℕ, ◌+◌, ◌%◌, ◌≡◌, refl, inl, inr, Bool, true, false, not, ◌&&◌, ◌||◌, Option, none, some, List,
  [], ◌∷◌, map, arith, ◌==◌, Bool-cases, Option-cases, length, get_elem?, drop, list_cases, Bytes,
  codes, u32_mod, starts_with_case, starts_with,
}

module _ (h : ImapHooks) where
  pub connect-Inv :
      (n : ℕ) (s : Session h) → s.state ≡ connect → Inv h n s → Keeps h n (state_connect h s)
  unfolding state_connect
  connect-Inv n s e i = elim (Bool-cases (h.connect_ok s.sent)) [
    | inr refused ↦ rw refused tt
    | inl made ↦ rw made (
        let m = moved h n connect s i e in
        record { balance = m.balance; unsearched = m.unsearched; fetches = m.fetches })
  ]

  pub connected-Inv :
      (n : ℕ) (s : Session h) → s.state ≡ connected → Inv h n s → Keeps h n (state_connected h s)
  unfolding state_connected
  connected-Inv n s e i = Keeps-get h n untagged connected _ s i e (λ l t m.
      elim (Bool-cases (starts_with l (codes "* PREAUTH"))) [
        | inl preauth ↦
            rw preauth
              (Keeps-goto h n select1 t (carry h n connected select1 t (λ k. refl) (λ k u. u) m))
        | inr plain ↦ elim (Bool-cases (is_missing h h.user || is_missing h h.pass)) [
          | inl missing ↦ rw (plain, missing) tt
          | inr known ↦
              rw (plain, known)
                (Keeps-put_command h n send_capability capability1 t
                  (carry h n connected capability1 t (λ k. refl) (λ k u. u) m))
        ]
      ])

  pub capability1-Inv :
      (n : ℕ) (s : Session h)
      → s.state ≡ capability1
      → Inv h n s
      → Keeps h n (state_capability1 h s)
  unfolding state_capability1
  capability1-Inv n s e i = Keeps-get h n untagged capability1 _ s i e (λ l t m.
      elim (Bool-cases (not (contains (map to_upper l) (codes "IMAP4REV1")))) [
        | inl other ↦ rw other tt
        | inr imap4 ↦
            rw imap4
              (record { balance = m.balance; unsearched = m.unsearched; fetches = m.fetches })
      ])

  -- A string that is read where it is not NULL.
  Keeps-given :
      (n : ℕ) (o : Option Bytes) (k : Bytes → Step h)
      → ((s : Bytes) → Keeps h n (k s))
      → Keeps h n (given h o k)
  Keeps-given n none k f = tt
  Keeps-given n (some s) k f = f s

  pub capability2-Inv :
      (n : ℕ) (s : Session h)
      → s.state ≡ capability2
      → Inv h n s
      → Keeps h n (state_capability2 h s)
  unfolding state_capability2
  capability2-Inv n s e i = Keeps-get_okay h n capability2 _ s i e (λ t m.
      elim (Bool-cases (not h.nocrammd5 && t.capa_cram_md5)) [
        | inl cram ↦ rw cram (
            Keeps-put_command h n send_authenticate cram_md5_auth t
              (carry h n capability2 cram_md5_auth t (λ k. refl) (λ k u. u) m))
        | inr plain ↦ elim (Bool-cases (not h.nologin)) [
          | inl allowed ↦
              rw (plain, allowed)
                (Keeps-given n h.user _ (λ u.
                  Keeps-put_command h n (send_login (length u)) login t
                    (carry h n capability2 login t (λ k. refl) (λ k u. u) m)))
          | inr no_way ↦ rw (plain, no_way) tt
        ]
      ])

  cram_md5-Keeps :
      (n : ℕ) (text : Bytes) (t : Session h)
      → Moved h n cram_md5_auth t
      → Keeps h n (cram_md5 h text t)
  unfolding cram_md5
  cram_md5-Keeps n text t m = Keeps-given n (base64_decode h text) _ (λ c.
      Keeps-given n h.pass _ (λ p. Keeps-given n h.user _ (λ u.
        Keeps-given n _ _ (λ out.
          Keeps-put h n _ pass t (carry h n cram_md5_auth pass t (λ k. refl) (λ k u. u) m)))))

  pub cram_md5_auth-Inv :
      (n : ℕ) (s : Session h)
      → s.state ≡ cram_md5_auth
      → Inv h n s
      → Keeps h n (state_cram_md5_auth h s)
  unfolding state_cram_md5_auth
  cram_md5_auth-Inv n s e i = Keeps-get h n continue cram_md5_auth _ s i e (λ l t m.
      elim (list_cases (skip_blanks (drop 1 l))) [
        | inl empty ↦ rw empty tt
        | inr (c, text, there) ↦ rw there (cram_md5-Keeps n (c ∷ text) t m)
      ])

  pub login-Inv :
      (n : ℕ) (s : Session h) → s.state ≡ login → Inv h n s → Keeps h n (state_login h s)
  unfolding state_login
  login-Inv n s e i = Keeps-get h n continue login _ s i e (λ l t m. Keeps-given n h.user _ (λ u.
      Keeps-given n h.pass _
        (λ p. Keeps-put h n _ user t (carry h n login user t (λ k. refl) (λ k u. u) m))))

  pub user-Inv : (n : ℕ) (s : Session h) → s.state ≡ user → Inv h n s → Keeps h n (state_user h s)
  unfolding state_user
  user-Inv n s e i = Keeps-get h n continue user _ s i e (λ l t m.
      Keeps-given n h.pass _
        (λ p. Keeps-put h n _ pass t (carry h n user pass t (λ k. refl) (λ k u. u) m)))

  pub pass-Inv : (n : ℕ) (s : Session h) → s.state ≡ pass → Inv h n s → Keeps h n (state_pass h s)
  unfolding state_pass
  pass-Inv n s e i =
      Keeps-get_okay h n pass _ s i e
        (λ t m. Keeps-goto h n select1 t (carry h n pass select1 t (λ k. refl) (λ k u. u) m))

  pub Keeps-with_folder :
      (n : ℕ) (k : Bytes → Step h) (s : Session h)
      → ((f : Bytes) → Keeps h n (k f))
      → Keeps h n (with_folder h k s)
  unfolding with_folder
  Keeps-with_folder n k s f = elim (Option-cases (get_elem? h.folders s.folder)) [
    | inl missing ↦ rw (with_folder, missing) tt
    | inr (name, there) ↦ rw (with_folder, there) (f name)
  ]

  pub select1-Inv :
      (n : ℕ) (s : Session h) → s.state ≡ select1 → Inv h n s → Keeps h n (state_select1 h s)
  unfolding state_select1
  select1-Inv n s e i = Keeps-with_folder n _ s (λ f.
      Keeps-put_command h n _ select2 s
        (carry h n select1 select2 s (λ k. refl) (λ k u. u) (moved h n select1 s i e)))

  pub select2-Inv :
      (n : ℕ) (s : Session h) → s.state ≡ select2 → Inv h n s → Keeps h n (state_select2 h s)
  unfolding state_select2
  select2-Inv n s e i = Keeps-get h n continue select2 _ s i e (λ l t m.
      Keeps-with_folder n _ t
        (λ f. Keeps-put h n _ select3 t (carry h n select2 select3 t (λ k. refl) (λ k u. u) m)))

  exists_from-Keeps :
      (n : ℕ) (rs : List Reply) (s : Session h)
      → s.state ≡ select3
      → Inv h n s
      → Keeps h n (exists_from h rs s)
  unfolding exists_from
  exists_from-Keeps n [] s e i = record {
    balance = i.balance;
    unsearched = i.unsearched;
    fetches = i.fetches;
  }
  exists_from-Keeps n (failed ∷ rs) s e i = tt
  exists_from-Keeps n (no_line ∷ rs) s e i = record {
    balance = i.balance;
    unsearched = i.unsearched;
    fetches = i.fetches;
  }
  exists_from-Keeps n (reply l ∷ rs) s e i = elim (parse_cases h (parse h untagged s.tag l)) [
    | inl wrong ↦ rw (exists_from, wrong) tt
    | inr (inr other) ↦ rw (exists_from, other) (exists_from-Keeps n rs s e i)
    | inr (inl fine) ↦ elim (Option-cases (h.scan_exists l)) [
      | inl no_number ↦ rw (exists_from, fine, no_number) (exists_from-Keeps n rs s e i)
      | inr (k, number) ↦
          rw (exists_from, fine, number)
            (let m = moved h n select3 s i e in
              record { balance = m.balance; unsearched = m.unsearched; fetches = m.fetches })
    ]
  ]

  pub select3-Inv :
      (n : ℕ) (s : Session h) → s.state ≡ select3 → Inv h n s → Keeps h n (state_select3 h s)
  unfolding state_select3
  select3-Inv n s e i = exists_from-Keeps n s.input s e i

  pub select4-Inv :
      (n : ℕ) (s : Session h) → s.state ≡ select4 → Inv h n s → Keeps h n (state_select4 h s)
  unfolding state_select4
  select4-Inv n s e i = Keeps-get_okay h n select4 _ s i e (λ t m.
      elim (Bool-cases (t.total == 0)) [
        | inl empty ↦ rw empty (
            Keeps-put_command h n send_close close t
              (carry h n select4 close t (λ k. refl) (λ k u. u) m))
        | inr some_mail ↦
            rw some_mail
              (Keeps-goto h n search1 t (carry h n select4 search1 t (λ k. refl) (λ k u. u) m))
      ])

  pub search1-Inv :
      (n : ℕ) (s : Session h) → s.state ≡ search1 → Inv h n s → Keeps h n (state_search1 h s)
  unfolding state_search1
  search1-Inv n s e i =
      Keeps-put_command h n _ search2 s
        (carry h n search1 search2 s (λ k. refl) (λ k u. u) (moved h n search1 s i e))

  searched-Keeps :
      (n : ℕ) (p : Bool × List ℕ) (t : Session h) → Moved h n search2 t → Keeps h n (searched h p t)
  unfolding searched
  searched-Keeps n (false, uids) t m = tt
  searched-Keeps n (true, uids) t m = record {
    balance = record { sum = m.balance.sum; counter = m.balance.counter };
    unsearched = tt;
    fetches = m.fetches;
  }

  pub search2-Inv :
      (n : ℕ) (s : Session h) → s.state ≡ search2 → Inv h n s → Keeps h n (state_search2 h s)
  unfolding state_search2
  search2-Inv n s e i = Keeps-get h n untagged search2 _ s i e (λ l t m.
      elim (Bool-cases (starts_with_case l (codes "* SEARCH"))) [
        | inr other ↦ rw other tt
        | inl found ↦ rw found (Keeps->>= h n _ _ (λ p. searched-Keeps n p t m))
      ])

  -- The mails that were found are counted; without any, the folder is closed.
  pub search3-Inv :
      (n : ℕ) (s : Session h) → s.state ≡ search3 → Inv h n s → Keeps h n (state_search3 h s)
  unfolding state_search3
  search3-Inv n s e i = Keeps-get_okay h n search3 _ s i e (λ t m.
      let k = length t.wanted % u32_mod in
      let t' : Session h = record t {
        total = k;
        folders_total = (t.folders_total + k) % u32_mod;
      } in
      elim (Bool-cases (k == 0)) [
        | inl empty ↦ rw empty (
            let none_found : k ≡ 0 = ground (arith, empty) in
            Keeps-put_command h n send_close close _ (record {
              balance = record {
                sum = omega (arith, m.balance.sum, none_found);
                counter = m.balance.counter;
              };
              unsearched = none_found;
              fetches = m.fetches;
            }))
        | inr found ↦
            rw (found, m.fetches)
              (record {
                balance = record {
                  sum = omega (arith, m.balance.sum);
                  counter = m.balance.counter;
                };
                unsearched = tt;
                fetches = refl;
              })
      ])
