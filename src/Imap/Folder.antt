-- ===== src/Imap/Folder.antt =====
-- imap-common.c: the states that select a folder and search it.
use fdm.Imap.{
  select2, select3, select4, search1, search2, search3, next, close, continue, untagged, bad, good,
  ignored, send_select, send_search, send_close, literal, ImapHooks, Session, Step, fail, goto, put,
  put_command, get, get_okay, parse,
}
use fdm.Imap.Login.{skip_blanks}
use fdm.Outcome.{Outcome, ok, fault, diverge, ◌>>=◌}
use fdm.Pop3.{block, Reply, failed, no_line, reply}
use fdm.Prelude.{
  ℕ, zero, suc, ◌+◌, ◌%◌, Bool, true, false, ◌||◌, none, some, List, [], ◌∷◌, ◌++◌, ◌==◌,
  if◌then◌else◌, length, get_elem?, drop, Bytes, codes, u32_mod, memchr, starts_with_case,
}

-- Where `strchr(s, ' ')` or the NUL stands.
unfoldable pub word_end : Bytes → ℕ
word_end s = elim (memchr b' ' s) [ none ↦ length s | some i ↦ i ]

module _ (h : ImapHooks) where
  -- ARRAY_ITEM(data->folders, data->folder).
  unfoldable pub with_folder : (Bytes → Step h) → Session h → Step h
  with_folder k s = elim (get_elem? h.folders s.folder) [ none ↦ fault | some f ↦ k f ]

  unfoldable pub state_select1 : Session h → Step h
  state_select1 s = with_folder (λ f. put_command h (send_select (length f)) select2 s) s

  unfoldable pub state_select2 : Session h → Step h
  state_select2 = get h continue (λ l s. with_folder (λ f. put h (literal f) select3 s) s)

  -- The loop of `imap_state_select3` over the replies at hand.
  unfoldable pub exists_from : List Reply → Session h → Step h
  exists_from [] s = ok (block, record s { input = [] })
  exists_from (failed ∷ rs) s = fail h (record s { input = rs })
  exists_from (no_line ∷ rs) s = ok (block, record s { input = rs })
  exists_from (reply l ∷ rs) s = elim (parse h untagged s.tag l) [
    | bad ↦ fail h (record s { input = rs })
    | ignored ↦ exists_from rs s
    | good ↦ elim (h.scan_exists l) [
      | none ↦ exists_from rs s
      | some n ↦ goto h select4 (record s { input = rs; total = n })
    ]
  ]

  unfoldable pub state_select3 : Session h → Step h
  state_select3 s = exists_from s.input s

  unfoldable pub state_select4 : Session h → Step h
  state_select4 =
      get_okay h (λ s. if s.total == 0 then put_command h send_close close s else goto h search1 s)

  unfoldable pub state_search1 : Session h → Step h
  state_search1 s = put_command h (send_search h.only) search2 s

  -- The loop over the UIDs of a line; `none` where one cannot be read.
  unfoldable pub uids_from : ℕ → Bytes → List ℕ → Outcome (Bool × List ℕ)
  uids_from zero l uids = diverge
  uids_from (suc n) l uids =
      let s = skip_blanks l in
      let word = word_end s in
      if word == 0 then ok (true, uids) else elim (h.scan_uid s) [
        | none ↦ ok (false, uids)
        | some uid ↦ elim (drop word s) [
          | [] ↦ ok (true, uids ++ (uid ∷ []))
          | c ∷ rest ↦ uids_from n (c ∷ rest) (uids ++ (uid ∷ []))
        ]
      ]

  unfoldable pub searched : Bool × List ℕ → Session h → Step h
  searched (fine, uids) s =
      let s' : Session h = record s { wanted = uids } in
      if fine then goto h search3 s' else fail h s'

  unfoldable pub state_search2 : Session h → Step h
  state_search2 = get h untagged (λ l s.
      if starts_with_case l (codes "* SEARCH")
      then (uids_from (length l + 1) (drop 8 l) s.wanted >>= λ p. searched p s)
      else fail h s)

  unfoldable pub state_search3 : Session h → Step h
  state_search3 = get_okay h (λ s.
      let n = length s.wanted % u32_mod in
      let s' : Session h = record s {
        total = n;
        folders_total = (s.folders_total + n) % u32_mod;
      } in
      if n == 0 || s.poll then put_command h send_close close s' else goto h next s')
