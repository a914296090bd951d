-- ===== src/Imap/Login.antt =====
-- imap-common.c: the states from the connection to the end of the login.
use fdm.Imap.{
  connected, capability1, capability2, cram_md5_auth, login, user, pass, select1, continue,
  untagged, send_capability, send_authenticate, send_login, literal, literal_then, ImapHooks,
  Session, Step, fail, goto, put, put_command, get, get_okay,
}
use fdm.Outcome.{ok, fault}
use fdm.Pop3.{block}
use fdm.Prelude.{
  ℕ, ◌+◌, ◌-◌, ◌*◌, Bool, true, false, not, ◌&&◌, ◌||◌, Option, none, some, [], ◌∷◌, ◌++◌, map, leb,
  if◌then◌else◌, length, drop, Bytes, codes, is_space, starts_with,
}

-- `toupper` in the C locale, and `strstr(s, t) != NULL`.
abbrev pub to_upper : ℕ → ℕ
to_upper c = if leb b'a' c && leb c b'z' then c - 32 else c

unfoldable pub contains : Bytes → Bytes → Bool
contains [] t = starts_with [] t
contains (c ∷ s) t = starts_with (c ∷ s) t || contains s t

-- The blanks behind the `+`.
unfoldable pub skip_blanks : Bytes → Bytes
skip_blanks [] = []
skip_blanks (c ∷ s) = if is_space c then skip_blanks s else c ∷ s

module _ (h : ImapHooks) where
  -- A string that may be NULL, where the code reads it.
  abbrev pub given : Option Bytes → (Bytes → Step h) → Step h
  given none k = fault
  given (some s) k = k s

  -- `imap_base64_encode` and `imap_base64_decode`.
  unfoldable pub base64_encode : Bytes → Option Bytes
  base64_encode s = h.b64_ntop s (length s * 2 + 1)

  unfoldable pub base64_decode : Bytes → Option Bytes
  base64_decode s = h.b64_pton s (length s * 4 + 1)

  unfoldable pub state_connect : Session h → Step h
  state_connect s =
      if h.connect_ok s.sent then ok (block, record s { state = connected }) else fail h s

  abbrev pub is_missing : Option Bytes → Bool
  is_missing none = true
  is_missing (some s) = false

  unfoldable pub state_connected : Session h → Step h
  state_connected = get h untagged (λ l s.
      if starts_with l (codes "* PREAUTH")
      then goto h select1 s
      else if is_missing h.user || is_missing h.pass
      then fail h s
      else put_command h send_capability capability1 s)

  unfoldable pub state_capability1 : Session h → Step h
  state_capability1 = get h untagged (λ l s.
      let l' = map to_upper l in
      if not (contains l' (codes "IMAP4REV1"))
      then fail h s
      else goto h capability2 (record s {
        capa_cram_md5 = contains l' (codes "AUTH=CRAM-MD5");
        capa_xyzzy = contains l' (codes "XYZZY");
      }))

  unfoldable pub state_capability2 : Session h → Step h
  state_capability2 = get_okay h (λ s.
      if not h.nocrammd5 && s.capa_cram_md5
      then put_command h send_authenticate cram_md5_auth s
      else if not h.nologin
      then given h.user (λ u. put_command h (send_login (length u)) login s)
      else fail h s)

  -- The answer to the challenge.
  unfoldable pub cram_md5 : Bytes → Session h → Step h
  cram_md5 text s = given (base64_decode text) (λ challenge. given h.pass (λ p. given h.user (λ u.
      given (base64_encode (u ++ (b' ' ∷ h.hmac_md5 p challenge)))
        (λ out. put h (literal out) pass s))))

  unfoldable pub state_cram_md5_auth : Session h → Step h
  state_cram_md5_auth =
      get h continue
        (λ l s. elim (skip_blanks (drop 1 l)) [ [] ↦ fail h s | c ∷ text ↦ cram_md5 (c ∷ text) s ])

  unfoldable pub state_login : Session h → Step h
  state_login =
      get h continue
        (λ l s. given h.user (λ u. given h.pass (λ p. put h (literal_then u (length p)) user s)))

  unfoldable pub state_user : Session h → Step h
  state_user = get h continue (λ l s. given h.pass (λ p. put h (literal p) pass s))

  unfoldable pub state_pass : Session h → Step h
  state_pass = get_okay h (goto h select1)
